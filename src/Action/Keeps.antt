-- ===== src/Action/Keeps.antt =====
-- Invariants of actions: a rule for each way to build one.
use dijex_api.Prelude.{Bool, true, false, List, [], ◌∷◌, Option, none, some, if◌then◌else◌}
use dijex_api.Text.{Bytes}
use dijex_api.Action.{
  FieldError, Failure, Reply, failed, done, Action, pure, raise, lift, gets, require, prefixed,
  modify, attempt, check, ◌>>=◌,
}

-- Whatever the action answers, it leaves a state with `P` if it finds one.
pub record Keeps {W A : Type 0} (P : W → Type 0) (m : Action W A) : Type 0 where
  pub at : (w : W) → P w → P (m w).0

module _ {W : Type 0} {P : W → Type 0} where
  pub Keeps-modify : (f : W → W) → ((w : W) → P w → P (f w)) → Keeps P (modify f)
  unfolding modify
  Keeps-modify f h = record { at = h }

  pub Keeps-check : (es : List FieldError) → Keeps P (check es)
  unfolding check
  Keeps-check [] = record { at = λ w h. h }
  Keeps-check (e ∷ es) = record { at = λ w h. h }

module _ {W A : Type 0} {P : W → Type 0} where
  pub Keeps-pure : (a : A) → Keeps P (pure a)
  unfolding pure
  Keeps-pure a = record { at = λ w h. h }

  pub Keeps-raise : (e : Failure) → Keeps P (raise {A = A} e)
  unfolding raise
  Keeps-raise e = record { at = λ w h. h }

  pub Keeps-lift : (r : Reply A) → Keeps P (lift r)
  unfolding lift
  Keeps-lift r = record { at = λ w h. h }

  pub Keeps-gets : (f : W → A) → Keeps P (gets f)
  unfolding gets
  Keeps-gets f = record { at = λ w h. h }

  pub Keeps-require : (o : Option A) → Keeps P (require o)
  unfolding require
  Keeps-require none = record { at = λ w h. h }
  Keeps-require (some a) = record { at = λ w h. h }

  pub Keeps-prefixed : (prefix : Bytes) (m : Action W A) → Keeps P m → Keeps P (prefixed prefix m)
  unfolding prefixed
  Keeps-prefixed prefix m k = record { at = k.at }

  pub Keeps-attempt : (m : Action W A) → Keeps P m → Keeps P (attempt m)
  unfolding attempt
  Keeps-attempt m k = record { at = k.at }

  pub Keeps-if :
      (b : Bool) (m n : Action W A) → Keeps P m → Keeps P n → Keeps P (if b then m else n)
  Keeps-if true m n km kn = km
  Keeps-if false m n km kn = kn

module _ {W A B : Type 0} {P : W → Type 0} where
  Keeps-continue :
      (r : Reply A) (f : A → Action W B) → ((a : A) → Keeps P (f a)) → Keeps P (lift r >>= f)
  unfolding ◌>>=◌
  Keeps-continue (failed e) f k = record { at = λ w h. h }
  Keeps-continue (done a) f k = k a

  pub Keeps-bind :
      (m : Action W A) (f : A → Action W B)
      → Keeps P m
      → ((a : A) → Keeps P (f a))
      → Keeps P (m >>= f)
  unfolding ◌>>=◌
  Keeps-bind m f km kf = record { at = λ w h. (Keeps-continue (m w).1 f kf).at (m w).0 (km.at w h) }

pub ruleset keeps_rules = (
  Keeps-modify, Keeps-check, Keeps-pure, Keeps-raise, Keeps-lift, Keeps-gets, Keeps-require,
  Keeps-prefixed, Keeps-attempt, Keeps-if, Keeps-bind,
)
