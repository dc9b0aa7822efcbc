-- ===== src/Text/Equality.antt =====
-- The Boolean tests on texts decide equality and emptiness.
use dijex_api.Prelude.{◌≡◌, refl, true, [], ◌∷◌, ◌++◌, ◌↔◌, ◌==◌, arith, ==_iff}
use mathlib.Core.Bool.{and-eq-true_iff}
use dijex_api.Text.{Bytes, bytes_eq, is_empty, has_prefix}

pub bytes_eq_sound : (s t : Bytes) → bytes_eq s t ≡ true → s ≡ t
bytes_eq_sound [] [] h = refl
bytes_eq_sound [] (d ∷ t) h = cc
bytes_eq_sound (c ∷ s) [] h = cc
bytes_eq_sound (c ∷ s) (d ∷ t) h = ground (arith, bytes_eq_sound s t)

pub bytes_eq_refl : (s : Bytes) → bytes_eq s s ≡ true
bytes_eq_refl [] = refl
bytes_eq_refl (c ∷ s) = rw ((==_iff c c).1 refl) (bytes_eq_refl s)

pub bytes_eq_iff : (s t : Bytes) → (bytes_eq s t ≡ true) ↔ (s ≡ t)
bytes_eq_iff s t = (bytes_eq_sound s t, λ e. rw (← e) (bytes_eq_refl s))

pub is_empty_iff : (s : Bytes) → (is_empty s ≡ true) ↔ (s ≡ [])
is_empty_iff [] = (λ _. refl, λ _. refl)
is_empty_iff (c ∷ s) = (λ h. absurd (cc), λ h. absurd (cc))

-- A text with a prefix is the prefix and the rest.
pub has_prefix-append : (s p : Bytes) → has_prefix s p ≡ true → (rest : Bytes) × (s ≡ p ++ rest)
unfolding has_prefix
has_prefix-append s [] h = (s, refl)
has_prefix-append [] (d ∷ p) h = absurd (cc)
has_prefix-append (c ∷ s) (d ∷ p) h =
    let (e, k) = (and-eq-true_iff (c == d) (has_prefix s p)).0 h in
    let (rest, q) = has_prefix-append s p k in
    let same : c ≡ d = ground arith in (rest, rw (same, q) refl)
