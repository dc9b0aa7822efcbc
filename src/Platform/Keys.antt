-- ===== src/Platform/Keys.antt =====
-- Keys of a table, and rows of which there is at most one, behind an UPDATE.
use dijex_api.Prelude.{
  ◌≡◌, ◌≢◌, refl, sym, ap, ◌∙◌, Bool, true, false, List, [], ◌∷◌, All, inl, inr, Bool-cases,
}
use dijex_api.Text.{Bytes, bytes_eq}
use dijex_api.Text.Equality.{bytes_eq_iff}
use dijex_api.Auth.Lookup.{IsKeyed}
use dijex_api.Platform.Rows.{update_where, has_row}

module _ {A : Type 0} where
  pub All-map : (P Q : A → Type 0) (xs : List A) → ((x : A) → P x → Q x) → All P xs → All Q xs
  All-map P Q [] f h = tt
  All-map P Q (x ∷ xs) f (p, h) = (f x p, All-map P Q xs f h)

  pub All-map2 :
      (P Q R : A → Type 0) (xs : List A)
      → ((x : A) → P x → Q x → R x)
      → All P xs
      → All Q xs
      → All R xs
  All-map2 P Q R [] f h k = tt
  All-map2 P Q R (x ∷ xs) f (p, h) (q, k) = (f x p q, All-map2 P Q R xs f h k)

  pub has_row-false :
      (p : A → Bool) (xs : List A) → has_row p xs ≡ false → All (λ x. p x ≡ false) xs
  unfolding has_row
  has_row-false p [] h = tt
  has_row-false p (x ∷ xs) h = elim (Bool-cases (p x)) [
    | inl e ↦ absurd (let k = rw e at h in cc)
    | inr e ↦ (e, has_row-false p xs (rw e at h))
  ]

  -- At most one row is so.
  abbrev pub AtMostOne : (A → Bool) → List A → Type 0
  AtMostOne p [] = Unit {0}
  AtMostOne p (x ∷ xs) = (p x ≡ true → All (λ y. p y ≡ false) xs) × AtMostOne p xs

  -- What holds of every row and of what it becomes holds behind the UPDATE.
  pub All-update_where :
      (P Q : A → Type 0) (q : A → Bool) (f : A → A) (xs : List A)
      → ((x : A) → P x → q x ≡ false → Q x)
      → ((x : A) → P x → q x ≡ true → Q (f x))
      → All P xs
      → All Q (update_where q f xs)
  unfolding update_where
  All-update_where P Q q f [] keep change h = tt
  All-update_where P Q q f (x ∷ xs) keep change (p, h) =
      let rest = All-update_where P Q q f xs keep change h in
      elim (Bool-cases (q x)) [
        | inl e ↦ rw e (change x p e, rest)
        | inr e ↦ rw e (keep x p e, rest)
      ]

  pub update_where-none :
      (q : A → Bool) (f : A → A) (xs : List A)
      → All (λ x. q x ≡ false) xs
      → update_where q f xs ≡ xs
  unfolding update_where
  update_where-none q f [] h = refl
  update_where-none q f (x ∷ xs) (e, h) = rw e (ap (λ ys. x ∷ ys) (update_where-none q f xs h))

  -- An UPDATE that leaves the key alone.
  pub IsKeyed-update_where :
      (key : A → Bytes) (q : A → Bool) (f : A → A) (xs : List A)
      → ((x : A) → key (f x) ≡ key x)
      → IsKeyed key xs
      → IsKeyed key (update_where q f xs)
  unfolding update_where
  IsKeyed-update_where key q f [] same h = tt
  IsKeyed-update_where key q f (x ∷ xs) same (d, h) =
      let rest = IsKeyed-update_where key q f xs same h in
      let apart : All (λ y. key x ≢ key y) (update_where q f xs) =
        All-update_where (λ y. key x ≢ key y) (λ y. key x ≢ key y) q f xs (λ y n _. n)
          (λ y n _ e. n (e ∙ same y)) d in
      elim (Bool-cases (q x)) [
        | inl e ↦ rw e (
          All-map (λ y. key x ≢ key y) (λ y. key (f x) ≢ key y) (update_where q f xs)
              (λ y n k. n (sym (same x) ∙ k)) apart,
          rest,
        )
        | inr e ↦ rw e (apart, rest)
      ]

  -- An UPDATE behind which no row is so that was not so before.
  pub AtMostOne-update_where :
      (p q : A → Bool) (f : A → A) (xs : List A)
      → ((x : A) → p x ≡ false → p (f x) ≡ false)
      → AtMostOne p xs
      → AtMostOne p (update_where q f xs)
  unfolding update_where
  AtMostOne-update_where p q f [] less h = tt
  AtMostOne-update_where p q f (x ∷ xs) less (d, h) =
      let rest = AtMostOne-update_where p q f xs less h in
      let others : p x ≡ true → All (λ y. p y ≡ false) (update_where q f xs) = λ c.
        All-update_where (λ y. p y ≡ false) (λ y. p y ≡ false) q f xs (λ y n _. n)
          (λ y n _. less y n) (d c) in
      elim (Bool-cases (q x)) [
        | inr e ↦ rw e (others, rest)
        | inl e ↦ elim (Bool-cases (p x)) [
          | inl c ↦ rw e (λ _. others c, rest)
          | inr c ↦ rw e (λ k. absurd (let l = less x c in cc), rest)
        ]
      ]

-- An UPDATE of the row with the id `i`.
module _ {A : Type 0} (id : A → Bytes) (i : Bytes) (q : A → Bool) (f : A → A) where
  -- Whoever has the id at the head of the table is the only one.
  others_unchanged :
      (x : A) (xs : List A)
      → ((y : A) → q y ≡ true → id y ≡ i)
      → id x ≡ i
      → All (λ y. id x ≢ id y) xs
      → update_where q f xs ≡ xs
  others_unchanged x xs at_id e d = update_where-none q f xs (
      All-map (λ y. id x ≢ id y) (λ y. q y ≡ false) xs
        (λ y n. elim (Bool-cases (q y)) [ inl k ↦ absurd (n (e ∙ sym (at_id y k))) | inr k ↦ k ]) d)

  -- The new key `n` is no other row's.
  pub IsKeyed-replace :
      (key : A → Bytes) (n : Bytes) (xs : List A)
      → ((y : A) → q y ≡ true → id y ≡ i)
      → ((y : A) → key (f y) ≡ n)
      → IsKeyed id xs
      → IsKeyed key xs
      → All (λ y. id y ≢ i → key y ≢ n) xs
      → IsKeyed key (update_where q f xs)
  unfolding update_where
  IsKeyed-replace key n [] at_id new ids h free = tt
  IsKeyed-replace key n (x ∷ xs) at_id new (di, ids) (d, h) (fx, free) =
      let changed : id x ≡ i → All (λ y. key (f x) ≢ key y) xs = λ e.
        All-map2 (λ y. id x ≢ id y) (λ y. id y ≢ i → key y ≢ n) (λ y. key (f x) ≢ key y) xs
          (λ y a b k. b (λ m. a (e ∙ sym m)) (sym k ∙ new x)) di free in
      elim (Bool-cases (q x)) [
        | inl e ↦
            let same = others_unchanged x xs at_id (at_id x e) di in
            rw (e, same) (changed (at_id x e), h)
        | inr e ↦ elim (Bool-cases (bytes_eq (id x) i)) [
          | inl k ↦
              let same = others_unchanged x xs at_id ((bytes_eq_iff (id x) i).0 k) di in
              rw (e, same) (d, h)
          | inr k ↦
              let other : id x ≢ i = λ m. absurd (let l = (bytes_eq_iff (id x) i).1 m in cc) in
              let rest = IsKeyed-replace key n xs at_id new ids h free in
              let apart : All (λ y. key x ≢ key y) (update_where q f xs) =
                All-update_where (λ y. key x ≢ key y) (λ y. key x ≢ key y) q f xs (λ y m _. m)
                  (λ y m _ l. fx other (l ∙ new y)) d in
              rw e (apart, rest)
        ]
      ]

  -- The row is so or not, and if it is then no other row is.
  pub AtMostOne-replace :
      (p : A → Bool) (chosen : Bool) (xs : List A)
      → ((y : A) → q y ≡ true → id y ≡ i)
      → ((y : A) → q y ≡ true → p (f y) ≡ chosen)
      → IsKeyed id xs
      → AtMostOne p xs
      → All (λ y. id y ≢ i → chosen ≡ true → p y ≡ false) xs
      → AtMostOne p (update_where q f xs)
  unfolding update_where
  AtMostOne-replace p chosen [] at_id new ids h free = tt
  AtMostOne-replace p chosen (x ∷ xs) at_id new (di, ids) (d, h) (fx, free) =
      let changed : id x ≡ i → chosen ≡ true → All (λ y. p y ≡ false) xs = λ e c.
        All-map2 (λ y. id x ≢ id y) (λ y. id y ≢ i → chosen ≡ true → p y ≡ false) (λ y. p y ≡ false)
          xs (λ y a b. b (λ m. a (e ∙ sym m)) c) di free in
      elim (Bool-cases (q x)) [
        | inl e ↦
            let same = others_unchanged x xs at_id (at_id x e) di in
            rw (e, same) (λ k. changed (at_id x e) (sym (new x e) ∙ k), h)
        | inr e ↦ elim (Bool-cases (bytes_eq (id x) i)) [
          | inl k ↦
              let same = others_unchanged x xs at_id ((bytes_eq_iff (id x) i).0 k) di in
              rw (e, same) (d, h)
          | inr k ↦
              let other : id x ≢ i = λ m. absurd (let l = (bytes_eq_iff (id x) i).1 m in cc) in
              let rest = AtMostOne-replace p chosen xs at_id new ids h free in
              let apart : p x ≡ true → All (λ y. p y ≡ false) (update_where q f xs) = λ c.
                All-update_where (λ y. p y ≡ false) (λ y. p y ≡ false) q f xs (λ y m _. m)
                  (λ y m l. new y l ∙ not_chosen c (fx other)) (d c) in
              rw e (apart, rest)
        ]
      ]
    where
      not_chosen : {b : Bool} → b ≡ true → (chosen ≡ true → b ≡ false) → chosen ≡ false
      not_chosen {b} c g = elim (Bool-cases chosen) [
        | inl k ↦ absurd (let l = g k in cc)
        | inr k ↦ k
      ]
