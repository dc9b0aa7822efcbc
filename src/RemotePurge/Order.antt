-- ===== src/RemotePurge/Order.antt =====
-- `Run` against its steps one after another: what ran and what is reported.
use dijex_api.Prelude.{
  ap, Bool, true, ◌||◌, ◌≡◌, refl, List, [], ◌∷◌, ◌++◌, inl, inr, Option, none, some, Bool-cases,
}
use dijex_api.Text.{Bytes, codes, is_empty}
use dijex_api.RemoteSession.{Remote, run_ssh, has_failed}
use dijex_api.RemoteSteps.{is_failed, Verdict, set_step, mark_remaining_not_run}
use dijex_api.RemoteSteps.Sequence.{fill}
use dijex_api.RemoteSteps.Order.{up_to_failure, HasPassed-is_failed}
use dijex_api.RemotePurge.Agreement.{stop-Agrees, remove-Agrees}
use dijex_api.RemotePurge.Types.{PurgeParams, PurgeResult, new_result, initial_steps}
use dijex_api.RemotePurge.Steps.{
  step_find_containers, step_stop_containers, step_remove_containers, step_remove_image,
  step_verify_purged,
}
use dijex_api.RemotePurge.Run.{run_find, run_stop, run_remove, run_remove_image, run_verify}

abbrev pub Ends : {S : Type 0} → (PurgeResult → Type 0) → S × Option PurgeResult → Type 0
Ends P (s, none) = ⊥
Ends P (s, some r) = P r

-- The probe for docker on the remote server failed or printed nothing.
abbrev pub is_missing : {S : Type 0} → Remote S → S → Bool
is_missing host s =
    let probe = (run_ssh host (codes "command -v docker") s).1 in
    has_failed probe || is_empty probe.stdout

-- The state and the reports are these.
abbrev Matches : {S : Type 0} → List Verdict → S × Option PurgeResult → S × List Verdict → Type 0
Matches vs o e = (o.0 ≡ e.0) × Ends (λ r. r.steps ≡ fill (vs ++ e.1) initial_steps) o

-- The result while the steps run.
abbrev pub progress : PurgeParams → List Verdict → PurgeResult
progress p vs = record (new_result p) { available = true; steps = fill vs initial_steps }

module _ {S : Type 0} (lower : Bytes → Bytes) (host : Remote S) (p : PurgeParams) where
  abbrev from_verify : S → S × List Verdict
  from_verify s = let r = step_verify_purged lower host p s in (r.0, r.1 ∷ [])

  abbrev from_remove_image : S → S × List Verdict
  from_remove_image s =
      let r = step_remove_image lower host p s in
      up_to_failure (r.0, r.1, tt) (λ s' _. from_verify s')

  abbrev from_remove : List Bytes → S → S × List Verdict
  from_remove ids s =
      up_to_failure (step_remove_containers lower host ids s) (λ s' _. from_remove_image s')

  abbrev from_stop : List Bytes → S → S × List Verdict
  from_stop ids s =
      up_to_failure (step_stop_containers lower host ids s) (λ s' _. from_remove ids s')

  -- Behind the probe: the five steps, none of them behind one that failed. What the first one finds is
  -- stopped and removed.
  abbrev pub steps_in_order : S → S × List Verdict
  steps_in_order s =
      up_to_failure (step_find_containers lower host p s) (λ s' ids. from_stop ids s')

  verify-Matches :
      (v1 v2 v3 v4 : Verdict) (s : S)
      → let vs = v1 ∷ v2 ∷ v3 ∷ v4 ∷ [] in
        Matches vs (run_verify lower host p s (progress p vs)) (from_verify s)
  unfolding run_verify set_step
  verify-Matches v1 v2 v3 v4 s = (refl, refl)

  remove_image-Matches :
      (v1 v2 v3 : Verdict) (s : S)
      → let vs = v1 ∷ v2 ∷ v3 ∷ [] in
        Matches vs (run_remove_image lower host p s (progress p vs)) (from_remove_image s)
  unfolding run_remove_image set_step mark_remaining_not_run
  remove_image-Matches v1 v2 v3 s =
      let r = step_remove_image lower host p s in
      elim (Bool-cases (is_failed r.1.status)) [
        | inl e ↦ rw (e, run_remove_image) (refl, refl)
        | inr e ↦ rw (e, run_remove_image) (verify-Matches v1 v2 v3 r.1 r.0)
      ]

  remove-Matches :
      (ids : List Bytes) (v1 v2 : Verdict) (s : S)
      → let vs = v1 ∷ v2 ∷ [] in
        Matches vs (run_remove lower host p ids s (progress p vs)) (from_remove ids s)
  unfolding run_remove set_step mark_remaining_not_run
  remove-Matches ids v1 v2 s =
      let r = step_remove_containers lower host ids s in
      let a = remove-Agrees lower host ids s in
      elim (Bool-cases r.2) [
        | inr e ↦ let f = ap is_failed (rw e at a) in rw (e, f, run_remove) (refl, refl)
        | inl e ↦
            let f = HasPassed-is_failed r.1.status (rw e at a) in
            rw (e, f, run_remove) (remove_image-Matches v1 v2 r.1 r.0)
      ]

  stop-Matches :
      (ids : List Bytes) (v1 : Verdict) (s : S)
      → let vs = v1 ∷ [] in
        Matches vs (run_stop lower host p ids s (progress p vs)) (from_stop ids s)
  unfolding run_stop set_step mark_remaining_not_run
  stop-Matches ids v1 s =
      let r = step_stop_containers lower host ids s in
      let a = stop-Agrees lower host ids s in
      elim (Bool-cases r.2) [
        | inr e ↦ let f = ap is_failed (rw e at a) in rw (e, f, run_stop) (refl, refl)
        | inl e ↦
            let f = HasPassed-is_failed r.1.status (rw e at a) in
            rw (e, f, run_stop) (remove-Matches ids v1 r.1 r.0)
      ]

  pub find-Matches :
      (s : S) → Matches [] (run_find lower host p s (progress p [])) (steps_in_order s)
  unfolding run_find set_step mark_remaining_not_run
  find-Matches s =
      let r = step_find_containers lower host p s in
      elim (Bool-cases (is_failed r.1.status)) [
        | inl e ↦ rw (e, run_find) (refl, refl)
        | inr e ↦ rw (e, run_find) (stop-Matches r.2 r.1 r.0)
      ]
