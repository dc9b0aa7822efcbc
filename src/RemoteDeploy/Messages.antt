-- ===== src/RemoteDeploy/Messages.antt =====
-- The texts of the errors of internal/remotedeploy/validate.go, which internal/remotepurge/validate.go
-- shares, and the names of the steps in internal/remotedeploy/types.go.
use dijex_api.Prelude.{◌++◌}
use dijex_api.Prelude.Int.{pos}
use dijex_api.Text.{Bytes, codes, itoa}
use dijex_api.RemoteDeploy.Types.{
  StepName, registry_login, stop_existing, remove_existing, remove_image, pull_image, run_container,
  verify_running,
}
use dijex_api.RemoteDeploy.Validate.{
  ParamError, bad_image, bad_tag, bad_container_name, bad_registry_host, bad_registry_namespace,
  bad_registry_username, bad_restart_policy, no_ports, bad_host_port, bad_container_port,
  duplicate_host_port,
}

unfoldable pub error_message : ParamError → Bytes
unfolding itoa
error_message bad_image =
    codes "image must match ^[a-z0-9]([a-z0-9._-]*[a-z0-9])?(/[a-z0-9]([a-z0-9._-]*[a-z0-9])?)*$"
error_message bad_tag =
    codes "tag must match ^[a-zA-Z0-9_][a-zA-Z0-9._-]{0,127}$ and not start with '.' or '-'"
error_message bad_container_name =
    codes "container_name must match ^[a-zA-Z0-9][a-zA-Z0-9._-]{0,254}$"
error_message bad_registry_host =
    codes "registry_host must match ^[a-zA-Z0-9]([a-zA-Z0-9.-]*[a-zA-Z0-9])?(:[0-9]{1,5})?$"
error_message bad_registry_namespace =
    codes
      "registry_namespace must match ^[a-z0-9]([a-z0-9._-]*[a-z0-9])?(/[a-z0-9]([a-z0-9._-]*[a-z0-9])?)*$"
error_message bad_registry_username =
    codes "registry_username must match ^[a-zA-Z0-9][a-zA-Z0-9._+@-]{0,254}$"
error_message bad_restart_policy =
    codes "restart_policy must be one of: no | on-failure | always | unless-stopped"
error_message no_ports = codes "at least one port mapping is required"
error_message (bad_host_port i) =
    codes "ports[" ++ (itoa (pos i) ++ codes "].host must be in 1..65535")
error_message (bad_container_port i) =
    codes "ports[" ++ (itoa (pos i) ++ codes "].container must be in 1..65535")
error_message (duplicate_host_port i port) =
    codes "ports["
    ++ (itoa (pos i) ++ (codes "].host=" ++ (itoa port ++ codes " duplicates an earlier mapping")))

abbrev pub step_text : StepName → Bytes
step_text registry_login = codes "registry_login"
step_text stop_existing = codes "stop_existing"
step_text remove_existing = codes "remove_existing"
step_text remove_image = codes "remove_image"
step_text pull_image = codes "pull_image"
step_text run_container = codes "run_container"
step_text verify_running = codes "verify_running"
