-- ===== src/RemotePurge/Messages.antt =====
-- The names of the steps in internal/remotepurge/types.go.
use dijex_api.Text.{Bytes, codes}
use dijex_api.RemotePurge.Types.{
  StepName, find_containers, stop_containers, remove_containers, remove_image, verify_purged,
}

abbrev pub step_text : StepName → Bytes
step_text find_containers = codes "find_containers"
step_text stop_containers = codes "stop_containers"
step_text remove_containers = codes "remove_containers"
step_text remove_image = codes "remove_image"
step_text verify_purged = codes "verify_purged"
