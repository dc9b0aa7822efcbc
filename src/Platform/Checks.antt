-- ===== src/Platform/Checks.antt =====
-- When the checks of a field find no problem.
use dijex_api.Prelude.{
  ◌≡◌, refl, ◌↔◌, ℕ, ◌≤◌, Bool, true, false, ◌||◌, not, List, [], ◌∷◌, ◌++◌, ltb, arith,
}
use dijex_api.Text.{Bytes, codes, is_empty, rune_count}
use dijex_api.Platform.Rules.{unless, name_problems, required_problems, optional_problems}

pub append-eq-nil : {A : Type 0} (xs ys : List A) → (xs ++ ys ≡ []) ↔ ((xs ≡ []) × (ys ≡ []))
append-eq-nil [] ys = (λ h. (refl, h), λ (e, f). f)
append-eq-nil (x ∷ xs) ys = (λ h. absurd (cc), λ (e, f). absurd (cc))

pub unless_iff : (b : Bool) (field message : Bytes) → (unless b field message ≡ []) ↔ (b ≡ true)
unless_iff true field message = (λ h. refl, λ h. refl)
unless_iff false field message = (λ h. absurd (cc), λ h. absurd (cc))

-- A number of characters within bounds, as the code tests it.
within_iff : (n : ℕ) → (not (ltb n 2 || ltb 100 n) ≡ true) ↔ ((2 ≤ n) × (n ≤ 100))
within_iff n = (λ h. (ground arith, ground arith), λ (a, b). ground arith)

at_most_iff : (limit n : ℕ) → (not (ltb limit n) ≡ true) ↔ (n ≤ limit)
at_most_iff limit n = (λ h. ground arith, λ h. ground arith)

pub name_problems_iff :
    (s : Bytes) → (name_problems s ≡ []) ↔ ((2 ≤ rune_count s) × (rune_count s ≤ 100))
unfolding name_problems rune_count
name_problems_iff [] = (λ h. absurd (cc), λ (a, b). absurd (omega arith))
name_problems_iff (c ∷ s) =
    let (go, back) =
      unless_iff (not (ltb (rune_count (c ∷ s)) 2 || ltb 100 (rune_count (c ∷ s)))) (codes "name")
        (codes "must be between 2 and 100 characters") in
    let (to, from) = within_iff (rune_count (c ∷ s)) in (λ h. to (go h), λ h. back (from h))

pub required_problems_iff :
    (field : Bytes) (limit : ℕ) (message s : Bytes)
    → (required_problems field limit message s ≡ [])
      ↔ ((is_empty s ≡ false) × (rune_count s ≤ limit))
unfolding required_problems
required_problems_iff field limit message [] = (λ h. absurd (cc), λ (a, b). absurd (cc))
required_problems_iff field limit message (c ∷ s) =
    let (go, back) = unless_iff (not (ltb limit (rune_count (c ∷ s)))) field message in
    let (to, from) = at_most_iff limit (rune_count (c ∷ s)) in
    (λ h. (refl, to (go h)), λ (e, h). back (from h))

pub optional_problems_iff :
    (field : Bytes) (limit : ℕ) (message s : Bytes)
    → (optional_problems field limit message s ≡ []) ↔ (rune_count s ≤ limit)
unfolding optional_problems rune_count
optional_problems_iff field limit message [] = (λ h. omega arith, λ h. refl)
optional_problems_iff field limit message (c ∷ s) =
    let (go, back) = unless_iff (not (ltb limit (rune_count (c ∷ s)))) field message in
    let (to, from) = at_most_iff limit (rune_count (c ∷ s)) in (λ h. to (go h), λ h. back (from h))
