-- ===== src/RemoteDeploy/Order.antt =====
-- `Run` against its steps one after another: what ran and what is reported.
use dijex_api.Prelude.{
  ap, Bool, true, ◌||◌, ◌≡◌, refl, List, [], ◌∷◌, ◌++◌, inl, inr, Option, none, some, Option-cases,
  Bool-cases,
}
use dijex_api.Text.{Bytes, codes, is_empty}
use dijex_api.RemoteSession.{Remote, run_ssh, has_failed}
use dijex_api.RemoteSteps.{is_failed, Verdict, set_step, mark_remaining_not_run}
use dijex_api.RemoteSteps.Sequence.{fill}
use dijex_api.RemoteSteps.Order.{up_to_failure, HasPassed-is_failed}
use dijex_api.RemoteDeploy.Agreement.{login-Agrees, pull-Agrees, remove-Agrees, start-Agrees}
use dijex_api.RemoteDeploy.Types.{DeployParams, DeployResult, new_result, initial_steps}
use dijex_api.RemoteDeploy.Steps.{
  step_login, step_find_and_stop, step_remove_containers, step_remove_image, step_pull, step_run,
  step_verify,
}
use dijex_api.RemoteDeploy.Run.{
  run_login, run_stop, run_remove, run_remove_image, run_pull, run_start, run_verify,
}

abbrev pub Ends : {S : Type 0} → (DeployResult → Type 0) → S × Option DeployResult → Type 0
Ends P (s, none) = ⊥
Ends P (s, some r) = P r

-- The probe for docker on the remote server failed or printed nothing.
abbrev pub is_missing : {S : Type 0} → Remote S → S → Bool
is_missing host s =
    let probe = (run_ssh host (codes "command -v docker") s).1 in
    has_failed probe || is_empty probe.stdout

-- The state and the reports are these.
abbrev Matches : {S : Type 0} → List Verdict → S × Option DeployResult → S × List Verdict → Type 0
Matches vs o e = (o.0 ≡ e.0) × Ends (λ r. r.steps ≡ fill (vs ++ e.1) initial_steps) o

-- The result while the steps run.
abbrev pub progress : DeployParams → List Verdict → Bytes → DeployResult
progress p vs id = record (new_result p) {
  available = true;
  container_id = id;
  steps = fill vs initial_steps;
}

module _ {S : Type 0} (lower : Bytes → Bytes) (host : Remote S) (p : DeployParams) where
  abbrev from_verify : S → S × List Verdict
  from_verify s = let r = step_verify lower host p s in (r.0, r.1 ∷ [])

  abbrev from_start : S → S × List Verdict
  from_start s = up_to_failure (step_run lower host p s) (λ s' _. from_verify s')

  abbrev from_pull : S → S × List Verdict
  from_pull s = up_to_failure (step_pull lower host p s) (λ s' _. from_start s')

  abbrev from_remove_image : S → S × List Verdict
  from_remove_image s =
      let r = step_remove_image lower host p s in let rest = from_pull r.0 in (rest.0, r.1 ∷ rest.1)

  abbrev from_remove : List Bytes → S → S × List Verdict
  from_remove ids s =
      up_to_failure (step_remove_containers lower host ids s) (λ s' _. from_remove_image s')

  abbrev from_stop : S → S × List Verdict
  from_stop s = up_to_failure (step_find_and_stop lower host p s) (λ s' ids. from_remove ids s')

  -- Behind the probe: the seven steps, none of them behind one that failed; that the old image could
  -- not be removed is no failure.
  abbrev pub steps_in_order : S → S × List Verdict
  steps_in_order s = up_to_failure (step_login lower host p s) (λ s' _. from_stop s')

  verify-Matches :
      (v1 v2 v3 v4 v5 v6 : Verdict) (id : Bytes) (s : S)
      → let vs = v1 ∷ v2 ∷ v3 ∷ v4 ∷ v5 ∷ v6 ∷ [] in
        Matches vs (run_verify lower host p s (progress p vs id)) (from_verify s)
  unfolding run_verify set_step
  verify-Matches v1 v2 v3 v4 v5 v6 id s = (refl, refl)

  start-Matches :
      (v1 v2 v3 v4 v5 : Verdict) (s : S)
      → let vs = v1 ∷ v2 ∷ v3 ∷ v4 ∷ v5 ∷ [] in
        Matches vs (run_start lower host p s (progress p vs [])) (from_start s)
  unfolding run_start set_step mark_remaining_not_run
  start-Matches v1 v2 v3 v4 v5 s =
      let r = step_run lower host p s in
      let a = start-Agrees lower host p s in
      elim (Option-cases r.2) [
        | inl e ↦ let f = ap is_failed (rw e at a) in rw (e, f, run_start) (refl, refl)
        | inr (id, e) ↦
            let f = HasPassed-is_failed r.1.status (rw e at a) in
            rw (e, f, run_start) (verify-Matches v1 v2 v3 v4 v5 r.1 id r.0)
      ]

  pull-Matches :
      (v1 v2 v3 v4 : Verdict) (s : S)
      → let vs = v1 ∷ v2 ∷ v3 ∷ v4 ∷ [] in
        Matches vs (run_pull lower host p s (progress p vs [])) (from_pull s)
  unfolding run_pull set_step mark_remaining_not_run
  pull-Matches v1 v2 v3 v4 s =
      let r = step_pull lower host p s in
      let a = pull-Agrees lower host p s in
      elim (Bool-cases r.2) [
        | inr e ↦ let f = ap is_failed (rw e at a) in rw (e, f, run_pull) (refl, refl)
        | inl e ↦
            let f = HasPassed-is_failed r.1.status (rw e at a) in
            rw (e, f, run_pull) (start-Matches v1 v2 v3 v4 r.1 r.0)
      ]

  remove_image-Matches :
      (v1 v2 v3 : Verdict) (s : S)
      → let vs = v1 ∷ v2 ∷ v3 ∷ [] in
        Matches vs (run_remove_image lower host p s (progress p vs [])) (from_remove_image s)
  unfolding run_remove_image set_step
  remove_image-Matches v1 v2 v3 s =
      let r = step_remove_image lower host p s in pull-Matches v1 v2 v3 r.1 r.0

  remove-Matches :
      (ids : List Bytes) (v1 v2 : Verdict) (s : S)
      → let vs = v1 ∷ v2 ∷ [] in
        Matches vs (run_remove lower host p ids s (progress p vs [])) (from_remove ids s)
  unfolding run_remove set_step mark_remaining_not_run
  remove-Matches ids v1 v2 s =
      let r = step_remove_containers lower host ids s in
      let a = remove-Agrees lower host p ids s in
      elim (Bool-cases r.2) [
        | inr e ↦ let f = ap is_failed (rw e at a) in rw (e, f, run_remove) (refl, refl)
        | inl e ↦
            let f = HasPassed-is_failed r.1.status (rw e at a) in
            rw (e, f, run_remove) (remove_image-Matches v1 v2 r.1 r.0)
      ]

  stop-Matches :
      (v1 : Verdict) (s : S)
      → let vs = v1 ∷ [] in Matches vs (run_stop lower host p s (progress p vs [])) (from_stop s)
  unfolding run_stop set_step mark_remaining_not_run
  stop-Matches v1 s =
      let r = step_find_and_stop lower host p s in
      elim (Bool-cases (is_failed r.1.status)) [
        | inl e ↦ rw (e, run_stop) (refl, refl)
        | inr e ↦ rw (e, run_stop) (remove-Matches r.2 v1 r.1 r.0)
      ]

  pub login-Matches :
      (s : S) → Matches [] (run_login lower host p s (progress p [] [])) (steps_in_order s)
  unfolding run_login set_step mark_remaining_not_run
  login-Matches s =
      let r = step_login lower host p s in
      let a = login-Agrees lower host p s in
      elim (Bool-cases r.2) [
        | inr e ↦ let f = ap is_failed (rw e at a) in rw (e, f, run_login) (refl, refl)
        | inl e ↦
            let f = HasPassed-is_failed r.1.status (rw e at a) in
            rw (e, f, run_login) (stop-Matches r.1 r.0)
      ]
