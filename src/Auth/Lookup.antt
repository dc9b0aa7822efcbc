-- ===== src/Auth/Lookup.antt =====
-- What the first row of a SELECT and of the JOIN says of the tables, with keys and without.
use dijex_api.Prelude.{
  ap, ◌∙◌, sym, ◌≡◌, ◌≢◌, refl, Bool, true, false, List, [], ◌∷◌, All, some, Bool-cases, inl, inr,
  Option-cases,
}
use mathlib.Core.Option.{some-injective}
use mathlib.Core.List.{Memᴰ}
use mathlib.Core.List.Memᴰ
use dijex_api.Text.{Bytes, bytes_eq}
use dijex_api.Text.Equality.{bytes_eq_iff, bytes_eq_refl}
use dijex_api.Auth.Types.{AuthToken, AuthTokenWithEmployee, Employee}
use dijex_api.Auth.Tables.{first, join_owner, join_row}

pub bytes_eq-eq-false : (s t : Bytes) → s ≢ t → bytes_eq s t ≡ false
bytes_eq-eq-false s t h = elim (Bool-cases (bytes_eq s t)) [
  | inl e ↦ absurd (h ((bytes_eq_iff s t).0 e))
  | inr e ↦ e
]

module _ {A : Type 0} where
  pub first-eq-some :
      (p : A → Bool) (xs : List A) (x : A) → first p xs ≡ some x → Memᴰ x xs × (p x ≡ true)
  unfolding first
  first-eq-some p [] x h = absurd (cc)
  first-eq-some p (y ∷ ys) x h = elim (Bool-cases (p y)) [
    | inl e ↦ let q : x ≡ y = sym (some-injective _ _ (rw e at h)) in (Memᴰ.head q, ap p q ∙ e)
    | inr e ↦ let (m, q) = first-eq-some p ys x (rw e at h) in (Memᴰ.tail m, q)
  ]

  -- No two members have the same key.
  abbrev pub IsKeyed : (A → Bytes) → List A → Type 0
  IsKeyed key [] = Unit {0}
  IsKeyed key (x ∷ xs) = All (λ y. key x ≢ key y) xs × IsKeyed key xs

  All-Mem : (P : A → Type 0) (x : A) (xs : List A) → All P xs → Memᴰ x xs → P x
  All-Mem P x [] h m = absurd (Memᴰ.not-nil m)
  All-Mem P x (y ∷ ys) (p, h) (Memᴰ.head e) = rw e p
  All-Mem P x (y ∷ ys) (p, h) (Memᴰ.tail m) = All-Mem P x ys h m

  -- By its key a member is found.
  pub first-IsKeyed :
      (key : A → Bytes) (x : A) (xs : List A)
      → IsKeyed key xs
      → Memᴰ x xs
      → first (λ y. bytes_eq (key y) (key x)) xs ≡ some x
  unfolding first
  first-IsKeyed key x [] h m = absurd (Memᴰ.not-nil m)
  first-IsKeyed key x (y ∷ ys) h (Memᴰ.head e) = rw (e, bytes_eq_refl (key y)) refl
  first-IsKeyed key x (y ∷ ys) (p, h) (Memᴰ.tail m) =
      let rest = first-IsKeyed key x ys h m in
      rw (bytes_eq-eq-false (key y) (key x) (All-Mem (λ z. key y ≢ key z) x ys p m)) rest

-- The row's columns of the employee are those of the token's owner.
pub record IsOwned (es : List Employee) (r : AuthTokenWithEmployee) : Type 0 where
  pub owner : Employee
  pub there : Memᴰ owner es
  pub owns : owner.id ≡ r.token.employee_id
  pub role : r.employee_role ≡ owner.role
  pub status : r.employee_status ≡ owner.status

join_owner-eq-some :
    (es : List Employee) (t : AuthToken) (r : AuthTokenWithEmployee)
    → join_owner es t ≡ some r
    → (r.token ≡ t) × IsOwned es r
join_owner-eq-some es t r h = elim (Option-cases (first (λ e. bytes_eq e.id t.employee_id) es)) [
  | inl n ↦ absurd (let q = rw (n, join_owner) at h in cc)
  | inr (e, f) ↦
      let q = sym (some-injective _ _ (rw (f, join_owner) at h)) in
      let (m, k) = first-eq-some _ es e f in
      (
        ap (λ x. x.token) q,
        record {
          owner = e;
          there = m;
          owns = (bytes_eq_iff e.id t.employee_id).0 k ∙ sym (ap (λ x. x.token.employee_id) q);
          role = ap (λ x. x.employee_role) q;
          status = ap (λ x. x.employee_status) q;
        },
      )
]

-- A row of the JOIN is a token with this hash and its owner.
pub join_row-eq-some :
    (hash : Bytes) (es : List Employee) (ts : List AuthToken) (r : AuthTokenWithEmployee)
    → join_row hash es ts ≡ some r
    → Memᴰ r.token ts × (r.token.token_hash ≡ hash) × IsOwned es r
unfolding join_row
join_row-eq-some hash es [] r h = absurd (cc)
join_row-eq-some hash es (t ∷ ts) r h =
    let later : join_row hash es ts ≡ some r
        → Memᴰ r.token (t ∷ ts) × (r.token.token_hash ≡ hash) × IsOwned es r =
      λ k. let (m, q, o) = join_row-eq-some hash es ts r k in (Memᴰ.tail m, q, o) in
    elim (Bool-cases (bytes_eq t.token_hash hash)) [
      | inr e ↦ later (rw e at h)
      | inl e ↦ elim (Option-cases (join_owner es t)) [
        | inl n ↦ later (rw (e, n) at h)
        | inr (r', j) ↦
            let q : r ≡ r' = sym (some-injective _ _ (rw (e, j) at h)) in
            let (k, o) = join_owner-eq-some es t r (j ∙ ap some (sym q)) in
            (Memᴰ.head k, ap (λ x. x.token_hash) k ∙ (bytes_eq_iff t.token_hash hash).0 e, o)
      ]
    ]

-- The row of a token and its owner.
abbrev pub owned_row : AuthToken → Employee → AuthTokenWithEmployee
owned_row t e = record { token = t; employee_role = e.role; employee_status = e.status }

pub join_owner-IsKeyed :
    (es : List Employee) (t : AuthToken) (e : Employee)
    → IsKeyed (λ x. x.id) es
    → Memᴰ e es
    → e.id ≡ t.employee_id
    → join_owner es t ≡ some (owned_row t e)
join_owner-IsKeyed es t e k m q =
    let f : first (λ y. bytes_eq y.id t.employee_id) es ≡ some e =
      ap (λ id. first (λ y. bytes_eq y.id id) es) (sym q) ∙ first-IsKeyed (λ x. x.id) e es k m in
    rw (f, join_owner) refl

-- Where hashes and employees' ids are keys, every token with an owner is found by its hash.
pub join_row-IsKeyed :
    (es : List Employee) (ts : List AuthToken) (t : AuthToken) (e : Employee)
    → IsKeyed (λ x. x.token_hash) ts
    → IsKeyed (λ x. x.id) es
    → Memᴰ t ts
    → Memᴰ e es
    → e.id ≡ t.employee_id
    → join_row t.token_hash es ts ≡ some (owned_row t e)
unfolding join_row
join_row-IsKeyed es [] t e k i m n q = absurd (Memᴰ.not-nil m)
join_row-IsKeyed es (u ∷ us) t e k i (Memᴰ.head h) n q =
    let j = join_owner-IsKeyed es u e i n (q ∙ ap (λ x. x.employee_id) h) in
    let b = (bytes_eq_iff u.token_hash t.token_hash).1 (ap (λ x. x.token_hash) (sym h)) in
    rw (b, j) (ap (λ x. some (owned_row x e)) (sym h))
join_row-IsKeyed es (u ∷ us) t e (p, k) i (Memᴰ.tail m) n q =
    let rest = join_row-IsKeyed es us t e k i m n q in
    rw
      (bytes_eq-eq-false u.token_hash t.token_hash
        (All-Mem (λ z. u.token_hash ≢ z.token_hash) t us p m))
      rest
