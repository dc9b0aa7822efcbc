-- ===== src/RemoteSession.antt =====
-- Commands on a remote server: `runSSH` and `runSSHWithStdin` of internal/remotedeploy/shell.go and
-- `runSSH` of internal/remotepurge/shell.go. The client of golang.org/x/crypto/ssh, the context and
-- the server behind them are the parameter `Remote`, over a state of its own.
use dijex_api.Prelude.{Bool, List, [], ◌∷◌, ◌++◌, Option, none, some, is_some}
use dijex_api.Text.{Bytes, trim_space}

-- All that the chunks hold, in order: what a `bytes.Buffer` ends with.
abbrev pub stream : List Bytes → Bytes
stream [] = []
stream (p ∷ ps) = p ++ stream ps

-- The writes to the session's two outputs, and the error of `Run`.
pub record RawOutput : Type 0 where
  pub stdout : List Bytes
  pub stderr : List Bytes
  pub exit_err : Option Bytes

-- An error is its message.
pub record Remote (S : Type 0) : Type 0 where
  -- `ctx.Err()`
  pub ctx_err : S → Option Bytes
  -- `client.NewSession()`
  pub new_session : S → S × Option Bytes
  -- `sess.Run(cmd)` with this standard input
  pub run : Bytes → Bytes → S → S × RawOutput
  -- a second's pause that the context may end: its error then
  pub pause : S → S × Option Bytes

pub record Output : Type 0 where
  pub stdout : Bytes
  pub stderr : Bytes
  pub exit_err : Option Bytes

abbrev pub failed_output : Bytes → Output
failed_output e = record { stdout = []; stderr = []; exit_err = some e }

abbrev pub has_failed : Output → Bool
has_failed o = is_some o.exit_err

-- `err.Error()` where the error is there
abbrev pub error_text : Option Bytes → Bytes
error_text none = []
error_text (some e) = e

module _ {S : Type 0} (host : Remote S) where
  unfoldable pub run_ssh_with_stdin : Bytes → Bytes → S → S × Output
  run_ssh_with_stdin cmd stdin s = elim (host.ctx_err s) [
    | some e ↦ (s, failed_output e)
    | none ↦
        let (s1, refused) = host.new_session s in
        elim refused [
          | some e ↦ (s1, failed_output e)
          | none ↦
              let (s2, raw) = host.run cmd stdin s1 in
              (
                s2,
                record {
                  stdout = trim_space (stream raw.stdout);
                  stderr = trim_space (stream raw.stderr);
                  exit_err = raw.exit_err;
                },
              )
        ]
  ]

  unfoldable pub run_ssh : Bytes → S → S × Output
  unfolding run_ssh_with_stdin
  run_ssh cmd s = run_ssh_with_stdin cmd [] s
