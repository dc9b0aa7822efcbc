-- ===== src/RemoteLogs/Types.antt =====
-- internal/remotelogs/types.go: the request for logs, its bounds and the answer.
use dijex_api.Prelude.{ℕ, ◌*◌, Bool}
use dijex_api.Prelude.Int.{ℤ, negsuc}
use dijex_api.Text.{Bytes}

pub record Params : Type 0 where
  pub container : Bytes
  pub tail : ℤ
  pub since : Bytes
  pub until : Bytes
  pub timestamps : Bool
  pub include_stderr : Bool

abbrev pub last_n_lines_default : ℕ
last_n_lines_default = 10000

unfoldable pub max_log_bytes : ℕ
max_log_bytes = 10 * 1024 * 1024

abbrev pub sentinel_tail_all : ℤ
sentinel_tail_all = negsuc 0

-- The time stamps `CollectedAt` and `DurationMS` are left out.
pub record LogResult : Type 0 where
  pub available : Bool
  pub reason : Bytes
  pub container : Bytes
  pub command : Bytes
  pub stdout : Bytes
  pub stderr : Bytes
  pub bytes_stdout : ℕ
  pub bytes_stderr : ℕ
  pub truncated_stdout : Bool
  pub truncated_stderr : Bool
