-- ===== src/RemoteDeploy/Agreement.antt =====
-- The status that each step of a deployment reports agrees with what it tells the caller.
use dijex_api.Prelude.{◌≡◌, refl, List, [], ◌∷◌, inr, not, is_some, arith}
use dijex_api.Text.{Bytes}
use dijex_api.RemoteSession.{Remote}
use dijex_api.RemoteSteps.{is_failed}
use dijex_api.RemoteSteps.Sequence.{HasPassed, Agrees}
use dijex_api.RemoteDeploy.Types.{DeployParams}
use dijex_api.RemoteDeploy.Steps.{
  step_login, step_find_and_stop, find_existing_container_ids, stop_all, step_remove_containers,
  step_remove_image, step_pull, step_run, step_verify,
}

module _ {S : Type 0} (lower : Bytes → Bytes) (host : Remote S) (p : DeployParams) where
  pub login-Agrees : (s : S) → let r = step_login lower host p s in Agrees r.2 r.1.status
  unfolding step_login
  login-Agrees s = ground arith

  pub pull-Agrees : (s : S) → let r = step_pull lower host p s in Agrees r.2 r.1.status
  unfolding step_pull
  pull-Agrees s = ground arith

  pub remove-Agrees :
      (ids : List Bytes) (s : S)
      → let r = step_remove_containers lower host ids s in Agrees r.2 r.1.status
  unfolding step_remove_containers
  remove-Agrees [] s = inr refl
  remove-Agrees (id ∷ ids) s = ground arith

  pub remove_image_passes : (s : S) → HasPassed (step_remove_image lower host p s).1.status
  unfolding step_remove_image
  remove_image_passes s = ground arith

  pub start-Agrees : (s : S) → let r = step_run lower host p s in Agrees (is_some r.2) r.1.status
  unfolding step_run
  start-Agrees s = ground arith

  pub stop_all-Agrees :
      (ids : List Bytes) (s : S)
      → let st = (stop_all lower host ids s).1.status in Agrees (not (is_failed st)) st
  unfolding stop_all
  stop_all-Agrees ids s = ground arith

  pub stop-Agrees :
      (s : S)
      → let st = (step_find_and_stop lower host p s).1.status in Agrees (not (is_failed st)) st
  unfolding step_find_and_stop
  stop-Agrees s = go (find_existing_container_ids lower host p s).1 refl
    where
      go :
          (ids : List Bytes)
          → (find_existing_container_ids lower host p s).1 ≡ ids
          → let st = (step_find_and_stop lower host p s).1.status in Agrees (not (is_failed st)) st
      go [] e = rw (e, step_find_and_stop) (inr refl)
      go (id ∷ ids) e =
          rw (e, step_find_and_stop)
            (stop_all-Agrees (id ∷ ids) (find_existing_container_ids lower host p s).0)

  pub verify-Agrees :
      (s : S) → let st = (step_verify lower host p s).1.status in Agrees (not (is_failed st)) st
  unfolding step_verify
  verify-Agrees s = ground arith
