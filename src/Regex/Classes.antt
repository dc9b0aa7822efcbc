-- ===== src/Regex/Classes.antt =====
-- What the byte classes and the bounds of an expression say of the texts in its language.
use dijex_api.Prelude.{
  ℕ, zero, suc, ◌≤◌, ◌≡◌, ap, Bool, true, inl, inr, arith, All, All-append, length, length-append,
}
use mathlib.Core.Path.{subst⁻¹}
use dijex_api.Text.{Bytes}
use dijex_api.Regex.{Regex, fail, eps, chr, seq, alt, star, upto}
use dijex_api.Regex.Language.{Cut, Many, stop, more, AtMost, OneOf, Language}

module _ (P : ℕ → Type 0) where
  -- Every class of the expression lies in `P`.
  abbrev pub Over : Regex → Type 0
  Over fail = Unit
  Over eps = Unit
  Over (chr p) = (c : ℕ) → p c ≡ true → P c
  Over (seq r q) = Over r × Over q
  Over (alt r q) = Over r × Over q
  Over (star r) = Over r
  Over (upto n r) = Over r

  All-Cut :
      {L M : Bytes → Type 0} (s : Bytes)
      → ((t : Bytes) → L t → All P t)
      → ((t : Bytes) → M t → All P t)
      → Cut L M s
      → All P s
  All-Cut s f g h =
      subst⁻¹ (All P) h.whole
        (All-append P h.front h.back (f h.front h.front_fits) (g h.back h.back_fits))

  All-Many : {L : Bytes → Type 0} (s : Bytes) → ((t : Bytes) → L t → All P t) → Many L s → All P s
  All-Many s f (stop nothing) = subst⁻¹ (All P) nothing tt
  All-Many s f (more front back whole p rest) =
      subst⁻¹ (All P) whole (All-append P front back (f front p) (All-Many back f rest))

  All-AtMost :
      (n : ℕ) {L : Bytes → Type 0} (s : Bytes)
      → ((t : Bytes) → L t → All P t)
      → AtMost n L s
      → All P s
  All-AtMost zero s f h = subst⁻¹ (All P) h tt
  All-AtMost (suc n) s f (inl h) = subst⁻¹ (All P) h tt
  All-AtMost (suc n) s f (inr h) = All-Cut s f (λ t. All-AtMost n t f) h

  pub Language-All : (r : Regex) (s : Bytes) → Over r → Language r s → All P s
  Language-All fail s o h = absurd h
  Language-All eps s o h = subst⁻¹ (All P) h tt
  Language-All (chr p) s o h = subst⁻¹ (All P) h.single (o h.char h.in_class, tt)
  Language-All (seq r q) s o h = All-Cut s (λ t. Language-All r t o.0) (λ t. Language-All q t o.1) h
  Language-All (alt r q) s o (inl h) = Language-All r s o.0 h
  Language-All (alt r q) s o (inr h) = Language-All q s o.1 h
  Language-All (star r) s o h = All-Many s (λ t. Language-All r t o) h
  Language-All (upto n r) s o h = All-AtMost n s (λ t. Language-All r t o) h

-- A run of at most `n` bytes of a class, behind one byte.
AtMost-length : (n : ℕ) (p : ℕ → Bool) (s : Bytes) → AtMost n (OneOf p) s → length s ≤ n
AtMost-length zero p s h = omega (arith, ap length h)
AtMost-length (suc n) p s (inl h) = omega (arith, ap length h)
AtMost-length (suc n) p s (inr h) = omega (
  arith,
  ap length h.whole,
  length-append h.front h.back,
  ap length h.front_fits.single,
  AtMost-length n p h.back h.back_fits,
)

pub Language-length :
    (p q : ℕ → Bool) (n : ℕ) (s : Bytes)
    → Language (seq (chr p) (upto n (chr q))) s
    → (1 ≤ length s) × (length s ≤ suc n)
Language-length p q n s h =
    let tail = AtMost-length n q h.back h.back_fits in
    let whole = ap length h.whole in
    let head = ap length h.front_fits.single in
    (
      omega (arith, whole, head, length-append h.front h.back),
      omega (arith, whole, head, tail, length-append h.front h.back),
    )
