-- ===== src/Tests/Logs.antt =====
-- The collector of logs on concrete requests, its buffer on concrete writes, the quoting and the
-- matcher on concrete texts.
use dijex_api.Prelude.{◌≡◌, refl, ◌↔◌, ◌<◌, true, false, [], ◌∷◌, none, some, length}
use dijex_api.Prelude.Int.{pos}
use dijex_api.Text.{codes, join}
use dijex_api.RemoteSession.{stream}
use dijex_api.Shell.{quote_all}
use dijex_api.Shell.Quoting.{blank_text}
use dijex_api.Shell.Words.{words}
use dijex_api.Shell.Quoting.{words-quote_all}
use dijex_api.RemoteLogs.Types.{Params, LogResult, max_log_bytes}
use dijex_api.RemoteLogs.Tail.{new_tail_writer, write_all}
use dijex_api.RemoteLogs.Tail.Refinement.{last, write_all-last}
use dijex_api.RemoteLogs.Validate.{validate_params, IsValid, validate_params-IsValid}
use dijex_api.RemoteLogs.Collect.{collect, run_probe_docker, finish, streams_of}
use dijex_api.RemoteLogs.Collect.Outcome.{
  IsFound, IsClosed, logs_output, collect_panics_iff, collect-holds_logs, collect-available_quiet,
}
use dijex_api.Tests.Hosts.{stubborn, closing, same_text}

abbrev web_logs : Params
web_logs = record {
  container = codes "web";
  tail = pos 0;
  since = codes "2024-01-01";
  until = [];
  timestamps = true;
  include_stderr = false;
}

validate_params-IsValid_example : (validate_params web_logs ≡ none) ↔ IsValid web_logs
validate_params-IsValid_example = validate_params-IsValid web_logs

write_all-last_example :
    let w = write_all (codes "abc" ∷ codes "de" ∷ []) (new_tail_writer 4) in
    (w.buf ≡ last 4 (stream (codes "abc" ∷ codes "de" ∷ [])))
    × (w.total ≡ length (stream (codes "abc" ∷ codes "de" ∷ [])))
    × (4 < length (stream (codes "abc" ∷ codes "de" ∷ [])) → w.truncated ≡ true)
    × (length (stream (codes "abc" ∷ codes "de" ∷ [])) < 4 → w.truncated ≡ false)
write_all-last_example = write_all-last 4 (codes "abc" ∷ codes "de" ∷ [])

collect_panics_iff_example :
    ((collect closing same_text web_logs 0).1 ≡ none)
    ↔ (IsFound closing same_text web_logs 0 × IsClosed closing (run_probe_docker closing 0).0)
collect_panics_iff_example = collect_panics_iff closing same_text web_logs 0

-- The answer that `stubborn` gives.
abbrev stubborn_result : LogResult
stubborn_result =
    finish same_text web_logs (streams_of false (logs_output stubborn same_text web_logs 0))

stubborn-found : IsFound stubborn same_text web_logs 0
unfolding run_probe_docker dijex_api.Text.trim_space
stubborn-found = refl

stubborn-collects : (collect stubborn same_text web_logs 0).1 ≡ some stubborn_result
unfolding collect run_probe_docker dijex_api.Text.trim_space
    dijex_api.RemoteLogs.Collect.run_docker_logs
stubborn-collects = refl

collect-holds_logs_example :
    let raw = logs_output stubborn same_text web_logs 0 in
    (stubborn_result.stdout ≡ last max_log_bytes (stream raw.stdout))
    × (stubborn_result.bytes_stdout ≡ length (stream raw.stdout))
    × (max_log_bytes < length (stream raw.stdout) → stubborn_result.truncated_stdout ≡ true)
    × (web_logs.include_stderr ≡ true
        → stubborn_result.stderr ≡ last max_log_bytes (stream raw.stderr))
    × (web_logs.include_stderr ≡ false → stubborn_result.stderr ≡ [])
collect-holds_logs_example =
    collect-holds_logs stubborn same_text web_logs 0 stubborn_result stubborn-found
      stubborn-collects

collect-available_quiet_example : stubborn_result.available ≡ true
collect-available_quiet_example =
    collect-available_quiet stubborn same_text web_logs 0 stubborn_result stubborn-found
      stubborn-collects refl

words-quote_all_example :
    words (join blank_text (quote_all (codes "it's" ∷ codes "$(id); x" ∷ [])))
    ≡ some (codes "it's" ∷ codes "$(id); x" ∷ [])
words-quote_all_example = words-quote_all (codes "it's" ∷ codes "$(id); x" ∷ [])

closing_panics : (collect closing same_text web_logs 0).1 ≡ none
unfolding collect run_probe_docker dijex_api.Text.trim_space
    dijex_api.RemoteLogs.Collect.run_docker_logs
closing_panics = refl
