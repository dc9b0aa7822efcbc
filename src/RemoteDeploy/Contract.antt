-- ===== src/RemoteDeploy/Contract.antt =====
-- The contract of `Run`: strictly one step after another.
use dijex_api.RemoteDeploy.Agreement.{
  login-Agrees, pull-Agrees, remove-Agrees, remove_image_passes, start-Agrees, stop-Agrees,
  verify-Agrees,
}
use dijex_api.Prelude.{
  true, false, ◌≡◌, refl, List, [], ◌∷◌, ◌⊎◌, ◌↔◌, inl, inr, All, Option, none, some, not,
  Option-cases, take, ◌++◌, All-append, Bool-cases, map,
}
use dijex_api.Text.{Bytes, codes}
use dijex_api.RemoteSession.{Remote, run_ssh}
use dijex_api.RemoteSteps.{
  failed, is_failed, Verdict, StepResult, all_ok, set_step, mark_remaining_not_run,
  mark_all_not_run,
}
use dijex_api.RemoteSteps.Sequence.{
  HasPassed, Passed, NotRun, IsSequential, Agrees, fill, all_ok_iff, IsSequential-append,
  failed-not-Passed, last-IsSequential,
}
use dijex_api.RemoteDeploy.Types.{DeployParams, DeployResult, StepName, new_result, initial_steps}
use dijex_api.RemoteDeploy.Steps.{
  step_login, step_find_and_stop, step_remove_containers, step_remove_image, step_pull, step_run,
}
use dijex_api.RemoteDeploy.Order.{Ends, is_missing, progress, steps_in_order, login-Matches}
use dijex_api.RemoteDeploy.Run.{
  run, run_login, run_stop, run_remove, run_remove_image, run_pull, run_start, run_verify,
}

-- What a run that got past the probe for docker leaves behind.
pub record IsDone (p : DeployParams) (r : DeployResult) : Type 0 where
  pub available : r.available ≡ true
  pub names : map (λ st. st.name) r.steps ≡ map (λ st. st.name) initial_steps
  pub sequential : IsSequential r.steps
  pub success : (r.success ≡ true) ↔ Passed r.steps

-- What a run without docker leaves behind.
pub record IsUnavailable (r : DeployResult) : Type 0 where
  pub unavailable : r.available ≡ false
  pub reason : r.reason ≡ codes "docker CLI not found on remote host"
  pub no_success : r.success ≡ false
  pub not_run : NotRun r.steps

Ends-both :
    {S : Type 0} (P Q : DeployResult → Type 0) (o : S × Option DeployResult)
    → Ends P o
    → Ends Q o
    → Ends (λ r. P r × Q r) o
Ends-both P Q (s, none) h k = h
Ends-both P Q (s, some r) h k = (h, k)

abbrev AllPass : List Verdict → Type 0
AllPass = All (λ v. HasPassed v.status)

abbrev StepResults : Type 0
StepResults = List (StepResult StepName)

abbrev HasNames : StepResults → Type 0
HasNames sts = map (λ st. st.name) sts ≡ map (λ st. st.name) initial_steps

module _ (p : DeployParams) (id : Bytes) (xs : StepResults) (st : StepResult StepName) where
  -- An early return behind a step that failed.
  stopped-IsDone :
      (ys : StepResults)
      → HasNames (xs ++ st ∷ ys)
      → Passed xs
      → st.status ≡ failed
      → NotRun ys
      → IsDone p
          (record (new_result p) { available = true; container_id = id; steps = xs ++ st ∷ ys })
  stopped-IsDone ys names h e k = record {
    available = refl;
    names = names;
    sequential = IsSequential-append xs (st ∷ ys) h (inr (e, k));
    success = (λ q. absurd (cc), λ q. absurd (failed-not-Passed xs st ys e q));
  }

  -- The end of a run, behind the last step.
  last-IsDone :
      HasNames (xs ++ st ∷ [])
      → Passed xs
      → Agrees (not (is_failed st.status)) st.status
      → IsDone p (record (new_result p) {
        available = true;
        success = all_ok (xs ++ st ∷ []);
        container_id = id;
        steps = xs ++ st ∷ [];
      })
  last-IsDone names h a =
      let sequential = IsSequential-append xs (st ∷ []) h (last-IsSequential st a) in
      record {
        available = refl;
        names = names;
        sequential = sequential;
        success = all_ok_iff (xs ++ st ∷ []) sequential;
      }

module _ {S : Type 0} (lower : Bytes → Bytes) (host : Remote S) (p : DeployParams) where
  verify-IsDone :
      (v1 v2 v3 v4 v5 v6 : Verdict) (id : Bytes) (s : S)
      → AllPass (v1 ∷ v2 ∷ v3 ∷ v4 ∷ v5 ∷ v6 ∷ [])
      → Ends
          (IsDone p)
          (run_verify lower host p s (progress p (v1 ∷ v2 ∷ v3 ∷ v4 ∷ v5 ∷ v6 ∷ []) id))
  unfolding run_verify set_step
  verify-IsDone v1 v2 v3 v4 v5 v6 id s h =
      last-IsDone p id (take 6 (fill (v1 ∷ v2 ∷ v3 ∷ v4 ∷ v5 ∷ v6 ∷ []) initial_steps)) _ refl h
        (verify-Agrees lower host p s)

  start-IsDone :
      (v1 v2 v3 v4 v5 : Verdict) (s : S)
      → AllPass (v1 ∷ v2 ∷ v3 ∷ v4 ∷ v5 ∷ [])
      → Ends (IsDone p) (run_start lower host p s (progress p (v1 ∷ v2 ∷ v3 ∷ v4 ∷ v5 ∷ []) []))
  unfolding run_start set_step mark_remaining_not_run
  start-IsDone v1 v2 v3 v4 v5 s h =
      let r = step_run lower host p s in
      let a = start-Agrees lower host p s in
      elim (Option-cases r.2) [
        | inl e ↦
            rw (e, run_start)
              (stopped-IsDone p [] (take 5 (fill (v1 ∷ v2 ∷ v3 ∷ v4 ∷ v5 ∷ []) initial_steps)) _ _
                refl h (rw e at a) (refl, tt))
        | inr (id, e) ↦
            rw (e, run_start)
              (verify-IsDone v1 v2 v3 v4 v5 r.1 id r.0 (
                All-append (λ v. HasPassed v.status) (v1 ∷ v2 ∷ v3 ∷ v4 ∷ v5 ∷ []) (r.1 ∷ []) h
                  (rw e at a, tt)))
      ]

  pull-IsDone :
      (v1 v2 v3 v4 : Verdict) (s : S)
      → AllPass (v1 ∷ v2 ∷ v3 ∷ v4 ∷ [])
      → Ends (IsDone p) (run_pull lower host p s (progress p (v1 ∷ v2 ∷ v3 ∷ v4 ∷ []) []))
  unfolding run_pull set_step mark_remaining_not_run
  pull-IsDone v1 v2 v3 v4 s h =
      let r = step_pull lower host p s in
      let a = pull-Agrees lower host p s in
      elim (Bool-cases r.2) [
        | inr e ↦
            rw (e, run_pull)
              (stopped-IsDone p [] (take 4 (fill (v1 ∷ v2 ∷ v3 ∷ v4 ∷ []) initial_steps)) _ _ refl h
                (rw e at a) (refl, (refl, tt)))
        | inl e ↦
            rw (e, run_pull)
              (start-IsDone v1 v2 v3 v4 r.1 r.0 (
                All-append (λ v. HasPassed v.status) (v1 ∷ v2 ∷ v3 ∷ v4 ∷ []) (r.1 ∷ []) h
                  (rw e at a, tt)))
      ]

  remove_image-IsDone :
      (v1 v2 v3 : Verdict) (s : S)
      → AllPass (v1 ∷ v2 ∷ v3 ∷ [])
      → Ends (IsDone p) (run_remove_image lower host p s (progress p (v1 ∷ v2 ∷ v3 ∷ []) []))
  unfolding run_remove_image set_step
  remove_image-IsDone v1 v2 v3 s h =
      let r = step_remove_image lower host p s in
      pull-IsDone v1 v2 v3 r.1 r.0 (
        All-append (λ v. HasPassed v.status) (v1 ∷ v2 ∷ v3 ∷ []) (r.1 ∷ []) h
          (remove_image_passes lower host p s, tt))

  remove-IsDone :
      (ids : List Bytes) (v1 v2 : Verdict) (s : S)
      → AllPass (v1 ∷ v2 ∷ [])
      → Ends (IsDone p) (run_remove lower host p ids s (progress p (v1 ∷ v2 ∷ []) []))
  unfolding run_remove set_step mark_remaining_not_run
  remove-IsDone ids v1 v2 s h =
      let r = step_remove_containers lower host ids s in
      let a = remove-Agrees lower host p ids s in
      elim (Bool-cases r.2) [
        | inr e ↦
            rw (e, run_remove)
              (stopped-IsDone p [] (take 2 (fill (v1 ∷ v2 ∷ []) initial_steps)) _ _ refl h
                (rw e at a) (refl, (refl, (refl, (refl, tt)))))
        | inl e ↦
            rw (e, run_remove)
              (remove_image-IsDone v1 v2 r.1 r.0
                (All-append (λ v. HasPassed v.status) (v1 ∷ v2 ∷ []) (r.1 ∷ []) h (rw e at a, tt)))
      ]

  stop-IsDone :
      (v1 : Verdict) (s : S)
      → AllPass (v1 ∷ [])
      → Ends (IsDone p) (run_stop lower host p s (progress p (v1 ∷ []) []))
  unfolding run_stop set_step mark_remaining_not_run
  stop-IsDone v1 s h =
      let r = step_find_and_stop lower host p s in
      let a = stop-Agrees lower host p s in
      elim (Bool-cases (is_failed r.1.status)) [
        | inl e ↦
            rw (e, run_stop)
              (stopped-IsDone p [] (take 1 (fill (v1 ∷ []) initial_steps)) _ _ refl h (rw e at a)
                (refl, (refl, (refl, (refl, (refl, tt))))))
        | inr e ↦
            rw (e, run_stop)
              (remove-IsDone r.2 v1 r.1 r.0
                (All-append (λ v. HasPassed v.status) (v1 ∷ []) (r.1 ∷ []) h (rw e at a, tt)))
      ]

  login-IsDone : (s : S) → Ends (IsDone p) (run_login lower host p s (progress p [] []))
  unfolding run_login set_step mark_remaining_not_run
  login-IsDone s =
      let r = step_login lower host p s in
      let a = login-Agrees lower host p s in
      elim (Bool-cases r.2) [
        | inr e ↦
            rw (e, run_login)
              (stopped-IsDone p [] (take 0 (fill ([]) initial_steps)) _ _ refl tt (rw e at a)
                (refl, (refl, (refl, (refl, (refl, (refl, tt)))))))
        | inl e ↦ rw (e, run_login) (stop-IsDone r.1 r.0 (rw e at a, tt))
      ]

-- The server behind the probe for docker.
abbrev pub probed : {S : Type 0} → Remote S → S → S
probed host s = (run_ssh host (codes "command -v docker") s).0

-- A run never panics. If docker is not found, nothing ran behind the probe and the run is no success.
-- Otherwise the seven steps ran one after another up to the first that failed: the server is left in
-- the state behind that step, and the report has the verdicts of the steps that ran, in their order,
-- and NOT_RUN for the others. Those that passed stand before the rest, and the run is a success
-- exactly if all seven passed.
pub run-IsDone :
    {S : Type 0} (lower : Bytes → Bytes) (host : Remote S) (p : DeployParams) (s : S)
    → ((is_missing host s ≡ false)
        × Ends
            (λ r.
              IsDone p r
              × (r.steps ≡ fill (steps_in_order lower host p (probed host s)).1 initial_steps))
            (run lower host p s)
        × ((run lower host p s).0 ≡ (steps_in_order lower host p (probed host s)).0))
      ⊎ ((is_missing host s ≡ true)
          × Ends IsUnavailable (run lower host p s)
          × ((run lower host p s).0 ≡ probed host s))
unfolding run mark_all_not_run
run-IsDone lower host p s =
    let s' = probed host s in
    elim (Bool-cases (is_missing host s)) [
      | inl e ↦
          rw (e, run)
            (inr (
              refl,
              record {
                unavailable = refl;
                reason = refl;
                no_success = refl;
                not_run = (refl, (refl, (refl, (refl, (refl, (refl, (refl, tt)))))));
              },
              refl,
            ))
      | inr e ↦
          let (state, steps) = login-Matches lower host p s' in
          rw (e, run)
            (inl (
              refl,
              Ends-both (IsDone p) _ (run_login lower host p s' (progress p [] []))
                  (login-IsDone lower host p s') steps,
              state,
            ))
    ]
