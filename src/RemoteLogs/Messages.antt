-- ===== src/RemoteLogs/Messages.antt =====
-- The texts of the errors of internal/remotelogs/validate.go.
use dijex_api.Text.{Bytes, codes}
use dijex_api.RemoteLogs.Validate.{LogParamError, bad_container, bad_tail, bad_since, bad_until}

abbrev pub error_message : LogParamError → Bytes
error_message bad_container =
    codes "container must match ^[a-zA-Z0-9][a-zA-Z0-9._-]{0,254}$ (name or id of remote container)"
error_message bad_tail = codes "tail must be -1 (all) or 0..1000000"
error_message bad_since = codes "since must be a duration like '30m', '2h' or RFC3339 timestamp"
error_message bad_until = codes "until must be a duration like '30m', '2h' or RFC3339 timestamp"
