-- ===== src/RemoteLogs/Collect/Outcome.antt =====
-- When `Collect` returns, and what it returns.
use dijex_api.Prelude.{
  sym, ap, ◌∙◌, ◌<◌, ◌≡◌, ◌≢◌, refl, Bool, true, false, ◌||◌, ◌⊎◌, ◌↔◌, inl, inr, [], none, some,
  is_some, Bool-cases, Option-cases, length,
}
use mathlib.Core.Option.{some-injective}
use dijex_api.Text.{Bytes, is_empty, to_lower, contains}
use dijex_api.RemoteSession.{Remote, RawOutput, stream}
use dijex_api.RemoteLogs.Types.{Params, LogResult, max_log_bytes}
use dijex_api.RemoteLogs.Tail.Refinement.{last, write_all-last}
use dijex_api.RemoteLogs.Command.{build_docker_logs_command}
use dijex_api.RemoteLogs.Collect.{
  Streams, streams_of, finish, run_probe_docker, run_docker_logs, collect,
}

module _ {S : Type 0} (host : Remote S) where
  -- No session can be opened in this state.
  abbrev pub IsClosed : S → Type 0
  IsClosed s = (host.ctx_err s ≢ none) ⊎ ((host.new_session s).1 ≢ none)

  run_docker_logs-eq-none :
      (cmd : Bytes) (b : Bool) (s : S) → ((run_docker_logs host cmd b s).1 ≡ none) ↔ IsClosed s
  unfolding run_docker_logs
  run_docker_logs-eq-none cmd b s = elim (Option-cases (host.ctx_err s)) [
    | inr (e, h) ↦ rw (h, run_docker_logs) (λ _. inl (λ q. cc), λ _. refl)
    | inl h ↦ elim (Option-cases (host.new_session s).1) [
      | inr (e, k) ↦ rw (h, k, run_docker_logs) (λ _. inr (λ q. cc), λ _. refl)
      | inl k ↦
          rw (h, k, run_docker_logs)
            (λ q. absurd (cc), elim [ inl q ↦ absurd (q refl) | inr q ↦ absurd (q refl) ])
    ]
  ]

  run_docker_logs-eq-some :
      (cmd : Bytes) (b : Bool) (s : S) (r : Streams)
      → (run_docker_logs host cmd b s).1 ≡ some r
      → r ≡ streams_of b (host.run cmd [] (host.new_session s).0).1
  unfolding run_docker_logs
  run_docker_logs-eq-some cmd b s r = elim (Option-cases (host.ctx_err s)) [
    | inr (e, h) ↦ rw (h, run_docker_logs) (λ q. absurd (cc))
    | inl h ↦ elim (Option-cases (host.new_session s).1) [
      | inr (e, k) ↦ rw (h, k, run_docker_logs) (λ q. absurd (cc))
      | inl k ↦ rw (h, k, run_docker_logs) (λ q. sym (some-injective _ _ q))
    ]
  ]

module _ {S : Type 0} (host : Remote S) (lower : Bytes → Bytes) (p : Params) (s : S) where
  -- Docker was found on the remote server.
  abbrev pub IsFound : Type 0
  IsFound = let r = run_probe_docker host s in (is_some r.2 || is_empty r.1) ≡ false

  -- What the run of `docker logs` gives, in the session behind that of the probe.
  abbrev pub logs_output : RawOutput
  logs_output =
      let s1 = (run_probe_docker host s).0 in
      (host.run (build_docker_logs_command p) [] (host.new_session s1).0).1

  -- `Collect` panics exactly if docker was found and then, before the second session, the context
  -- has ended or the session is refused.
  pub collect_panics_iff :
      ((collect host lower p s).1 ≡ none) ↔ (IsFound × IsClosed host (run_probe_docker host s).0)
  unfolding collect
  collect_panics_iff =
      let r = run_probe_docker host s in
      let (closed, opened) =
        run_docker_logs-eq-none host (build_docker_logs_command p) p.include_stderr r.0 in
      elim (Bool-cases (is_some r.2 || is_empty r.1)) [
        | inl e ↦ rw (e, collect) (λ q. absurd (cc), λ (q, _). absurd (cc))
        | inr e ↦
            elim (Option-cases
              (run_docker_logs host (build_docker_logs_command p) p.include_stderr r.0).1) [
                | inl k ↦ rw (e, k, collect) (λ _. (refl, closed k), λ _. refl)
                | inr (v, k) ↦
                    rw (e, k, collect) (λ q. absurd (cc), λ (_, c). absurd (cc (opened c)))
              ]
      ]

  -- A result behind the probe is made from the output of `docker logs`.
  collect-eq-some :
      (res : LogResult)
      → IsFound
      → (collect host lower p s).1 ≡ some res
      → res ≡ finish lower p (streams_of p.include_stderr logs_output)
  unfolding collect
  collect-eq-some res found =
      let r = run_probe_docker host s in
      elim (Option-cases
        (run_docker_logs host (build_docker_logs_command p) p.include_stderr r.0).1) [
          | inl k ↦ rw (found, k, collect) (λ q. absurd (cc))
          | inr (v, k) ↦
              rw (found, k, collect)
                (λ q.
                  sym (some-injective _ _ q)
                  ∙ ap (finish lower p) (
                      run_docker_logs-eq-some host (build_docker_logs_command p) p.include_stderr
                        r.0 v k))
        ]

module _ (lower : Bytes → Bytes) (p : Params) where
  finish_stdout :
      (r : Streams)
      → let res = finish lower p r in
        (res.stdout ≡ r.out.buf)
        × (res.bytes_stdout ≡ r.out.total)
        × (res.truncated_stdout ≡ r.out.truncated)
        × (p.include_stderr ≡ false → res.stderr ≡ [])
        × (p.include_stderr ≡ true → res.stderr ≡ r.err.buf)
  finish_stdout r = elim (Option-cases r.exit_err) [
    | inl e ↦ rw e (refl, refl, refl, λ h. rw h, λ h. rw h)
    | inr (x, e) ↦ rw e (refl, refl, refl, λ h. rw h, λ h. rw h)
  ]

  finish_quiet : (r : Streams) → p.include_stderr ≡ false → (finish lower p r).available ≡ true
  unfolding contains to_lower
  finish_quiet r h = elim (Option-cases r.exit_err) [ inl e ↦ rw e | inr (x, e) ↦ rw (e, h) ]

-- A result behind the probe holds the last `MaxLogBytes` bytes of the container's output with the
-- length of the whole, says that it was cut if it was longer than that, and holds the same part of
-- the error output if that was asked for, and nothing of it otherwise.
pub collect-holds_logs :
    {S : Type 0} (host : Remote S) (lower : Bytes → Bytes) (p : Params) (s : S) (res : LogResult)
    → IsFound host lower p s
    → (collect host lower p s).1 ≡ some res
    → let raw = logs_output host lower p s in
      (res.stdout ≡ last max_log_bytes (stream raw.stdout))
      × (res.bytes_stdout ≡ length (stream raw.stdout))
      × (max_log_bytes < length (stream raw.stdout) → res.truncated_stdout ≡ true)
      × (p.include_stderr ≡ true → res.stderr ≡ last max_log_bytes (stream raw.stderr))
      × (p.include_stderr ≡ false → res.stderr ≡ [])
collect-holds_logs host lower p s res found e =
    let raw = logs_output host lower p s in
    let made = collect-eq-some host lower p s res found e in
    let (out, total, cut, no_err, err) = finish_stdout lower p (streams_of p.include_stderr raw) in
    let (out_last, out_total, out_cut, _) = write_all-last max_log_bytes raw.stdout in
    let (err_last, _, _, _) = write_all-last max_log_bytes raw.stderr in
    rw made (
      out ∙ out_last,
      total ∙ out_total,
      λ h. cut ∙ out_cut h,
      λ h. err h ∙ simp h err_last,
      no_err,
    )

-- Without the error output a run of `docker logs` that failed, for whatever reason, counts as
-- available.
pub collect-available_quiet :
    {S : Type 0} (host : Remote S) (lower : Bytes → Bytes) (p : Params) (s : S) (res : LogResult)
    → IsFound host lower p s
    → (collect host lower p s).1 ≡ some res
    → p.include_stderr ≡ false
    → res.available ≡ true
collect-available_quiet host lower p s res found e quiet =
    rw (collect-eq-some host lower p s res found e)
      (finish_quiet lower p (streams_of p.include_stderr (logs_output host lower p s)) quiet)
