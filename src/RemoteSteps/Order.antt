-- ===== src/RemoteSteps/Order.antt =====
-- Steps one after another, up to the first that failed.
use dijex_api.Prelude.{◌≡◌, refl, false, List, [], ◌∷◌, inl, inr, if◌then◌else◌}
use dijex_api.RemoteSteps.{Status, is_failed, Verdict}
use dijex_api.RemoteSteps.Sequence.{HasPassed}

-- A step leaves a state, a verdict and what the next step needs. If it failed it is the last one, and
-- the state is the one that it left; the verdicts of the steps that ran stand in their order.
abbrev pub up_to_failure :
    {S A : Type 0} → S × Verdict × A → (S → A → S × List Verdict) → S × List Verdict
up_to_failure r next =
    if is_failed r.1.status then (r.0, r.1 ∷ []) else ((next r.0 r.2).0, r.1 ∷ (next r.0 r.2).1)

pub HasPassed-is_failed : (st : Status) → HasPassed st → is_failed st ≡ false
HasPassed-is_failed st (inl e) = rw e refl
HasPassed-is_failed st (inr e) = rw e refl
