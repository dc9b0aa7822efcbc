-- ===== src/Shell/Literals.antt =====
-- Literals and numbers among the words of a command.
use mathlib.Core.Bool.{and-eq-true_iff}
use mathlib.Core.List.{cons-ne-nil}
use dijex_api.Prelude.{
  ℕ, zero, suc, ◌+◌, ◌/◌, ◌%◌, String, ◌≡◌, ◌≢◌, refl, Bool, true, not, ◌&&◌, [], ◌∷◌, ◌++◌, arith,
  All, Bool-cases, inl, inr, ltb,
}
use dijex_api.Prelude.Int.{ℤ, pos, negsuc}
use dijex_api.Text.{Bytes, codes, is_empty, itoa, digits}
use dijex_api.Shell.Words.{is_plain}
use dijex_api.Shell.Quoting.{IsWord, IsPlain, plain-IsWord}

abbrev AllPlain : Bytes → Type 0
AllPlain s = All (λ c. is_plain c ≡ true) s

digit_plain : (n : ℕ) → is_plain (b'0' + n % 10) ≡ true
digit_plain n = ground arith

digits-IsPlain : (fuel n : ℕ) (out : Bytes) → AllPlain out → IsPlain (digits fuel n out)
unfolding digits
digits-IsPlain zero n out h = (cons-ne-nil _ _, (digit_plain n, h))
digits-IsPlain (suc fuel) n out h =
    let later = digits-IsPlain fuel (n / 10) ((b'0' + n % 10) ∷ out) (digit_plain n, h) in
    elim (Bool-cases (ltb n 10)) [
      | inl e ↦ rw e (cons-ne-nil _ _, (digit_plain n, h))
      | inr e ↦ rw e later
    ]

pub itoa-IsPlain : (n : ℤ) → IsPlain (itoa n)
unfolding itoa
itoa-IsPlain (pos n) = digits-IsPlain n n [] tt
itoa-IsPlain (negsuc n) = (cons-ne-nil _ _, (refl, (digits-IsPlain (suc n) (suc n) [] tt).1))

pub append-ne-nil : (s t : Bytes) → s ≢ [] → s ++ t ≢ []
append-ne-nil [] t h = absurd (h refl)
append-ne-nil (c ∷ s) t h = cons-ne-nil _ _

unfoldable pub all_plain : Bytes → Bool
all_plain [] = true
all_plain (c ∷ s) = is_plain c && all_plain s

all_plain-AllPlain : (s : Bytes) → all_plain s ≡ true → AllPlain s
unfolding all_plain
all_plain-AllPlain [] h = tt
all_plain-AllPlain (c ∷ s) h =
    let (here, later) = (and-eq-true_iff (is_plain c) (all_plain s)).0 h in
    (here, all_plain-AllPlain s later)

there_ne_nil : (s : Bytes) → not (is_empty s) ≡ true → s ≢ []
there_ne_nil [] h = cc
there_ne_nil (c ∷ s) h = cons-ne-nil c s

-- A literal of plain characters.
pub literal-IsWord :
    (t : String)
    → (not (is_empty (codes t)) && all_plain (codes t)) ≡ true
    → IsWord (codes t) (codes t)
literal-IsWord t h =
    let (there, plain) = (and-eq-true_iff (not (is_empty (codes t))) (all_plain (codes t))).0 h in
    plain-IsWord (codes t) (there_ne_nil (codes t) there, all_plain-AllPlain (codes t) plain)
