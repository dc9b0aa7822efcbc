-- ===== src/RemoteLogs/Collect.antt =====
-- internal/remotelogs/collector.go, `Collect`, and `runDockerLogs` of internal/remotelogs/shell.go.
-- `none` is a panic: `runDockerLogs` returns nil writers where it cannot open a session, and
-- `Collect` reads them before it looks at the error. Times are left out.
pub mod Outcome
use dijex_api.Prelude.{
  ℕ, Bool, true, false, not, ◌&&◌, ◌||◌, List, [], ◌∷◌, ◌++◌, Option, none, some, if◌then◌else◌,
  is_some,
}
use dijex_api.Text.{Bytes, codes, is_empty, contains, to_lower, trim_space}
use dijex_api.RemoteSession.{Remote, RawOutput, stream}
use dijex_api.RemoteLogs.Types.{Params, LogResult, max_log_bytes}
use dijex_api.RemoteLogs.Tail.{TailWriter, new_tail_writer, write_all}
use dijex_api.RemoteLogs.Command.{build_docker_logs_command}

abbrev empty_result : Params → LogResult
empty_result p = record {
  available = false;
  reason = [];
  container = p.container;
  command = [];
  stdout = [];
  stderr = [];
  bytes_stdout = 0;
  bytes_stderr = 0;
  truncated_stdout = false;
  truncated_stderr = false;
}

-- What `runDockerLogs` returns if it could run the command.
pub record Streams : Type 0 where
  pub out : TailWriter
  pub err : TailWriter
  pub exit_err : Option Bytes

-- `Available` and `Reason` behind an exit with an error.
abbrev pub explain : Bytes → Bytes → Bytes → Bool × Bytes
explain container stderr_text exit_text =
    if contains stderr_text (codes "no such container")
    then (false, codes "container not found: " ++ container)
    else if contains stderr_text (codes "permission denied")
    then (false, codes "permission denied — user lacks docker access (add to 'docker' group)")
    else if contains stderr_text (codes "cannot connect to the docker daemon")
    then (false, codes "docker daemon is not running on remote host")
    else (true, codes "docker logs exited with error: " ++ exit_text)

-- The part of `Collect` behind the call of `runDockerLogs`.
abbrev pub finish : (Bytes → Bytes) → Params → Streams → LogResult
finish unicode_lower p r =
    let res = record (empty_result p) {
      command = build_docker_logs_command p;
      stdout = r.out.buf;
      bytes_stdout = r.out.total;
      truncated_stdout = r.out.truncated;
      stderr = if p.include_stderr then r.err.buf else [];
      bytes_stderr = if p.include_stderr then r.err.total else 0;
      truncated_stderr = if p.include_stderr then r.err.truncated else false;
    } in
    elim r.exit_err [
      | none ↦ record res { available = true }
      | some e ↦
          let (available, reason) = explain p.container (to_lower unicode_lower res.stderr) e in
          record res { available = available; reason = reason }
    ]

-- The two writers behind a run of the command.
abbrev pub streams_of : Bool → RawOutput → Streams
streams_of capture_stderr raw = record {
  out = write_all raw.stdout (new_tail_writer max_log_bytes);
  err =
      if capture_stderr
      then write_all raw.stderr (new_tail_writer max_log_bytes)
      else new_tail_writer 0;
  exit_err = raw.exit_err;
}

module _ {S : Type 0} (host : Remote S) where
  -- `runProbeDocker`: the trimmed output, or the error if there is no output.
  unfoldable pub run_probe_docker : S → S × Bytes × Option Bytes
  run_probe_docker s = elim (host.ctx_err s) [
    | some e ↦ (s, [], some e)
    | none ↦
        let (s1, refused) = host.new_session s in
        elim refused [
          | some e ↦ (s1, [], some e)
          | none ↦
              let (s2, raw) = host.run (codes "command -v docker 2>/dev/null") [] s1 in
              let out = stream raw.stdout in
              if is_some raw.exit_err && is_empty out
              then (s2, [], raw.exit_err)
              else (s2, trim_space out, none)
        ]
  ]

  -- `none` stands for the nil writers.
  unfoldable pub run_docker_logs : Bytes → Bool → S → S × Option Streams
  run_docker_logs cmd capture_stderr s = elim (host.ctx_err s) [
    | some e ↦ (s, none)
    | none ↦
        let (s1, refused) = host.new_session s in
        elim refused [
          | some e ↦ (s1, none)
          | none ↦ let (s2, raw) = host.run cmd [] s1 in (s2, some (streams_of capture_stderr raw))
        ]
  ]

  unfoldable pub collect : (Bytes → Bytes) → Params → S → S × Option LogResult
  collect unicode_lower p s =
      let (s1, found, failed) = run_probe_docker s in
      if is_some failed || is_empty found
      then (
        s1,
        some (record (empty_result p) { reason = codes "docker CLI not found on remote host" }),
      )
      else let (s2, streams) = run_docker_logs (build_docker_logs_command p) p.include_stderr s1 in
        elim streams [ none ↦ (s2, none) | some r ↦ (s2, some (finish unicode_lower p r)) ]
