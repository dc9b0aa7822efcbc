-- ===== src/RemotePurge/Agreement.antt =====
-- The status that each step of a purge reports agrees with what it tells the caller.
use dijex_api.Prelude.{not, ◌≡◌, refl, List, [], ◌∷◌, inl, inr, arith}
use dijex_api.Text.{Bytes}
use dijex_api.RemoteSession.{Remote}
use dijex_api.RemoteSteps.{is_failed}
use dijex_api.RemoteSteps.Sequence.{Agrees}
use dijex_api.RemotePurge.Types.{PurgeParams}
use dijex_api.RemotePurge.Steps.{
  step_find_containers, step_stop_containers, step_remove_containers, step_remove_image,
  find_existing_container_ids, verify_image, step_verify_purged,
}

module _ {S : Type 0} (lower : Bytes → Bytes) (host : Remote S) where
  pub find-Agrees :
      (p : PurgeParams) (s : S)
      → let st = (step_find_containers lower host p s).1.status in Agrees (not (is_failed st)) st
  unfolding step_find_containers
  find-Agrees p s = go (find_existing_container_ids lower host p s).1 refl
    where
      go :
          (ids : List Bytes)
          → (find_existing_container_ids lower host p s).1 ≡ ids
          → let st = (step_find_containers lower host p s).1.status in
            Agrees (not (is_failed st)) st
      go [] e = rw (e, step_find_containers) (inr refl)
      go (id ∷ ids) e = rw (e, step_find_containers) (inl refl)

  pub stop-Agrees :
      (ids : List Bytes) (s : S)
      → let r = step_stop_containers lower host ids s in Agrees r.2 r.1.status
  unfolding step_stop_containers
  stop-Agrees [] s = inr refl
  stop-Agrees (id ∷ ids) s = ground arith

  pub remove-Agrees :
      (ids : List Bytes) (s : S)
      → let r = step_remove_containers lower host ids s in Agrees r.2 r.1.status
  unfolding step_remove_containers
  remove-Agrees [] s = inr refl
  remove-Agrees (id ∷ ids) s = ground arith

  pub remove_image-Agrees :
      (p : PurgeParams) (s : S)
      → let st = (step_remove_image lower host p s).1.status in Agrees (not (is_failed st)) st
  unfolding step_remove_image
  remove_image-Agrees p s = ground arith

  pub verify_image-Agrees :
      (p : PurgeParams) (s : S)
      → let st = (verify_image lower host p s).1.status in Agrees (not (is_failed st)) st
  unfolding verify_image
  verify_image-Agrees p s = ground arith

  pub verify-Agrees :
      (p : PurgeParams) (s : S)
      → let st = (step_verify_purged lower host p s).1.status in Agrees (not (is_failed st)) st
  unfolding step_verify_purged
  verify-Agrees p s = go (find_existing_container_ids lower host p s).1 refl
    where
      go :
          (ids : List Bytes)
          → (find_existing_container_ids lower host p s).1 ≡ ids
          → let st = (step_verify_purged lower host p s).1.status in Agrees (not (is_failed st)) st
      go [] e =
          rw (e, step_verify_purged)
            (verify_image-Agrees p (find_existing_container_ids lower host p s).0)
      go (id ∷ ids) e = rw (e, step_verify_purged) refl
