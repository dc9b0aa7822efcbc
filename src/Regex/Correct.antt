-- ===== src/Regex/Correct.antt =====
-- The matcher accepts exactly the language of the expression.
use dijex_api.Prelude.{
  ℕ, zero, suc, ◌≡◌, refl, sym, ap, ◌∙◌, true, false, [], ◌∷◌, ◌++◌, ◌⊎◌, inl, inr, ◌↔◌, arith,
  Bool-cases, Bool, if◌then◌else◌, ◌||◌,
}
use mathlib.Core.Path.{subst}
use dijex_api.Text.{Bytes}
use dijex_api.Regex.{Regex, fail, eps, chr, seq, alt, star, upto, nullable, deriv, matches}
use dijex_api.Regex.Language.{Cut, Many, stop, more, AtMost, Language}

nil-AtMost : (P : Bytes → Type 0) (n : ℕ) → AtMost n P []
nil-AtMost P zero = refl
nil-AtMost P (suc n) = inl refl

nullable_sound : (r : Regex) → nullable r ≡ true → Language r []
unfolding nullable
nullable_sound fail h = cc
nullable_sound eps h = refl
nullable_sound (chr p) h = cc
nullable_sound (seq r q) h = record {
  front = [];
  back = [];
  whole = refl;
  front_fits = nullable_sound r (ground arith);
  back_fits = nullable_sound q (ground arith);
}
nullable_sound (alt r q) h = elim (Bool-cases (nullable r)) [
  | inl e ↦ inl (nullable_sound r e)
  | inr e ↦ inr (nullable_sound q (ground arith))
]
nullable_sound (star r) h = stop refl
nullable_sound (upto n r) h = nil-AtMost (Language r) n

chr_derived : (b : Bool) (s : Bytes) → Language (if b then eps else fail) s → (b ≡ true) × (s ≡ [])
chr_derived true s h = (refl, h)
chr_derived false s h = absurd h

seq_derived :
    (b : Bool) (r' q q' : Regex) (s : Bytes)
    → Language (if b then alt (seq r' q) q' else seq r' q) s
    → Cut (Language r') (Language q) s ⊎ ((b ≡ true) × Language q' s)
seq_derived true r' q q' s (inl h) = inl h
seq_derived true r' q q' s (inr h) = inr (refl, h)
seq_derived false r' q q' s h = inl h

seq_front :
    (b : Bool) (r' q q' : Regex) (s : Bytes)
    → Cut (Language r') (Language q) s
    → Language (if b then alt (seq r' q) q' else seq r' q) s
seq_front true r' q q' s h = inl h
seq_front false r' q q' s h = h

or_true : (a : Bool) {b : Bool} → b ≡ true → (a || b) ≡ true
or_true true h = refl
or_true false h = h

Cut-widen :
    {P Q Q' : Bytes → Type 0} {s : Bytes} → ((t : Bytes) → Q t → Q' t) → Cut P Q s → Cut P Q' s
Cut-widen f h = record {
  front = h.front;
  back = h.back;
  whole = h.whole;
  front_fits = h.front_fits;
  back_fits = f h.back h.back_fits;
}

-- A cut of `s` with `c` put in front of its first part.
Cut-cons :
    {P P' Q : Bytes → Type 0} (c : ℕ) (s : Bytes)
    → ((t : Bytes) → P' t → P (c ∷ t))
    → Cut P' Q s
    → Cut P Q (c ∷ s)
Cut-cons c s f h = record {
  front = c ∷ h.front;
  back = h.back;
  whole = ap (λ t. c ∷ t) h.whole;
  front_fits = f h.front h.front_fits;
  back_fits = h.back_fits;
}

deriv_sound : (r : Regex) (c : ℕ) (s : Bytes) → Language (deriv c r) s → Language r (c ∷ s)
unfolding deriv
deriv_sound fail c s h = h
deriv_sound eps c s h = absurd h
deriv_sound (chr p) c s h =
    let (in_class, nothing) = chr_derived (p c) s h in
    record { char = c; single = ap (λ t. c ∷ t) nothing; in_class = in_class }
deriv_sound (seq r q) c s h = elim (seq_derived (nullable r) (deriv c r) q (deriv c q) s h) [
  | inl cut ↦ Cut-cons c s (deriv_sound r c) cut
  | inr (skip, later) ↦ record {
    front = [];
    back = c ∷ s;
    whole = refl;
    front_fits = nullable_sound r skip;
    back_fits = deriv_sound q c s later;
  }
]
deriv_sound (alt r q) c s (inl h) = inl (deriv_sound r c s h)
deriv_sound (alt r q) c s (inr h) = inr (deriv_sound q c s h)
deriv_sound (star r) c s h =
    more (c ∷ h.front) h.back (ap (λ t. c ∷ t) h.whole) (deriv_sound r c h.front h.front_fits)
      h.back_fits
deriv_sound (upto zero r) c s h = absurd h
deriv_sound (upto (suc n) r) c s h = inr (Cut-cons c s (deriv_sound r c) h)

pub matches_sound : (r : Regex) (s : Bytes) → matches r s ≡ true → Language r s
unfolding matches
matches_sound r [] h = nullable_sound r h
matches_sound r (c ∷ s) h = deriv_sound r c s (matches_sound (deriv c r) s h)

append-eq-nil : (f b : Bytes) → [] ≡ f ++ b → (f ≡ []) × (b ≡ [])
append-eq-nil [] b h = (refl, sym h)
append-eq-nil (c ∷ f) b h = cc

nullable_complete : (r : Regex) → Language r [] → nullable r ≡ true
unfolding nullable
nullable_complete fail h = absurd h
nullable_complete eps h = refl
nullable_complete (chr p) h = absurd (cc h.single)
nullable_complete (seq r q) h =
    let (no_front, no_back) = append-eq-nil h.front h.back h.whole in
    let left = nullable_complete r (subst (Language r) no_front h.front_fits) in
    let right = nullable_complete q (subst (Language q) no_back h.back_fits) in rw left right
nullable_complete (alt r q) (inl h) = rw (nullable_complete r h)
nullable_complete (alt r q) (inr h) = or_true (nullable r) (nullable_complete q h)
nullable_complete (star r) h = refl
nullable_complete (upto n r) h = refl

-- A cut of `c ∷ s` whose first part is not empty gives a cut of `s`.
Cut-uncons :
    (P P' Q : Bytes → Type 0) (c : ℕ) (s front back : Bytes)
    → ((t : Bytes) → P (c ∷ t) → P' t)
    → c ∷ s ≡ front ++ back
    → P front
    → Q back
    → Cut P' Q s ⊎ (P [] × Q (c ∷ s))
Cut-uncons P P' Q c s [] back f whole p q = inr (p, subst Q (sym whole) q)
Cut-uncons P P' Q c s (d ∷ front) back f whole p q =
    let same : d ≡ c = cc in
    let rest : s ≡ front ++ back = cc in
    inl (record {
      front = front;
      back = back;
      whole = rest;
      front_fits = f front (subst (λ x. P (x ∷ front)) same p);
      back_fits = q;
    })

Many-uncons :
    (P P' : Bytes → Type 0) (c : ℕ) (s t : Bytes)
    → ((u : Bytes) → P (c ∷ u) → P' u)
    → t ≡ c ∷ s
    → Many P t
    → Cut P' (Many P) s
Many-uncons P P' c s t f e (stop nothing) = absurd (cc)
Many-uncons P P' c s t f e (more [] back whole p rest) =
    Many-uncons P P' c s back f (sym whole ∙ e) rest
Many-uncons P P' c s t f e (more (d ∷ front) back whole p rest) =
    let same : d ≡ c = cc in
    let others : s ≡ front ++ back = cc in
    record {
      front = front;
      back = back;
      whole = others;
      front_fits = f front (subst (λ x. P (x ∷ front)) same p);
      back_fits = rest;
    }

AtMost-suc : (P : Bytes → Type 0) (n : ℕ) (s : Bytes) → AtMost n P s → AtMost (suc n) P s
AtMost-suc P zero s h = inl h
AtMost-suc P (suc n) s (inl h) = inl h
AtMost-suc P (suc n) s (inr h) = inr (record {
  front = h.front;
  back = h.back;
  whole = h.whole;
  front_fits = h.front_fits;
  back_fits = AtMost-suc P n h.back h.back_fits;
})

AtMost-uncons :
    (P P' : Bytes → Type 0) (n c : ℕ) (s : Bytes)
    → ((u : Bytes) → P (c ∷ u) → P' u)
    → AtMost (suc n) P (c ∷ s)
    → Cut P' (AtMost n P) s
AtMost-uncons P P' n c s f (inl h) = absurd (cc h)
AtMost-uncons P P' zero c s f (inr h) =
    elim (Cut-uncons P P' (AtMost zero P) c s h.front h.back f h.whole h.front_fits h.back_fits) [
      | inl cut ↦ cut
      | inr (_, nothing) ↦ absurd (cc nothing)
    ]
AtMost-uncons P P' (suc n) c s f (inr h) =
    let deeper = AtMost-uncons P P' n c s f in
    elim (Cut-uncons P P' (AtMost (suc n) P) c s h.front h.back f h.whole h.front_fits
      h.back_fits) [ inl cut ↦ cut | inr (_, later) ↦ Cut-widen (AtMost-suc P n) (deeper later) ]

deriv_complete : (r : Regex) (c : ℕ) (s : Bytes) → Language r (c ∷ s) → Language (deriv c r) s
unfolding deriv
deriv_complete fail c s h = h
deriv_complete eps c s h = absurd (cc h)
deriv_complete (chr p) c s h =
    let same : h.char ≡ c = cc h.single in
    let nothing : s ≡ [] = cc h.single in rw (subst (λ x. p x ≡ true) same h.in_class) nothing
deriv_complete (seq r q) c s h =
    let left = deriv_complete r c in
    let right = deriv_complete q c s in
    elim (Cut-uncons (Language r) (Language (deriv c r)) (Language q) c s h.front h.back left
      h.whole h.front_fits h.back_fits) [
        | inl cut ↦ seq_front (nullable r) (deriv c r) q (deriv c q) s cut
        | inr (skip, later) ↦ rw (nullable_complete r skip) (inr (right later))
      ]
deriv_complete (alt r q) c s (inl h) = inl (deriv_complete r c s h)
deriv_complete (alt r q) c s (inr h) = inr (deriv_complete q c s h)
deriv_complete (star r) c s h =
    Many-uncons (Language r) (Language (deriv c r)) c s (c ∷ s) (deriv_complete r c) refl h
deriv_complete (upto zero r) c s h = absurd (cc h)
deriv_complete (upto (suc n) r) c s h =
    AtMost-uncons (Language r) (Language (deriv c r)) n c s (deriv_complete r c) h

matches_complete : (r : Regex) (s : Bytes) → Language r s → matches r s ≡ true
unfolding matches
matches_complete r [] h = nullable_complete r h
matches_complete r (c ∷ s) h = matches_complete (deriv c r) s (deriv_complete r c s h)

-- The matcher accepts a text exactly when the text is in the language of the expression.
pub matches_iff : (r : Regex) (s : Bytes) → (matches r s ≡ true) ↔ Language r s
matches_iff r s = (matches_sound r s, matches_complete r s)
