-- ===== src/Auth/Touch.antt =====
-- The goroutines of `touchLastUsedAsync` against the check of a token.
use mathlib.Core.Path.{subst}
use dijex_api.Prelude.{
  sym, ◌≡◌, refl, ℕ, List, [], ◌∷◌, Option, none, some, if◌then◌else◌, Bool-cases, Option-cases,
  inl, inr,
}
use dijex_api.Text.{Bytes, bytes_eq, is_empty, trim_space}
use dijex_api.Auth.Types.{AuthToken, AuthTokenWithEmployee, Employee, is_active, Outcome-cases}
use dijex_api.Auth.Tables.{
  Backend, World, first, find_active_by_hash, join_owner, join_row, touch_rows,
}
use dijex_api.Auth.Grants.{found_row, judged_at, find-env}
use dijex_api.Auth.Service.{refusal, admit, authenticate}

-- Two rows that differ at most in the instant of the last use.
pub record IsTouched (r q : AuthTokenWithEmployee) : Type 0 where
  pub at : Option ℕ
  pub same : r ≡ record q { token = record q.token { last_used_at = at } }

abbrev pub AreTouched : Option AuthTokenWithEmployee → Option AuthTokenWithEmployee → Type 0
AreTouched none none = Unit {0}
AreTouched (some r) (some q) = IsTouched r q
AreTouched none (some q) = ⊥
AreTouched (some r) none = ⊥

pub refusal-IsTouched :
    (now : ℕ) (r q : AuthTokenWithEmployee) → IsTouched r q → refusal now r ≡ refusal now q
unfolding refusal is_active
refusal-IsTouched now r q h = rw h.same refl

abbrev touched : Bytes → ℕ → AuthToken → AuthToken
touched id now t = if bytes_eq t.id id then record t { last_used_at = some now } else t

touched-last_used_at :
    (id : Bytes) (now : ℕ) (t : AuthToken)
    → (at : Option ℕ) × (touched id now t ≡ record t { last_used_at = at })
touched-last_used_at id now t = elim (Bool-cases (bytes_eq t.id id)) [
  | inl e ↦ (some now, rw e refl)
  | inr e ↦ (t.last_used_at, rw e refl)
]

AreTouched-refl : (o : Option AuthTokenWithEmployee) → AreTouched o o
AreTouched-refl none = tt
AreTouched-refl (some r) = record { at = r.token.last_used_at; same = refl }

AreTouched-cons :
    (hash : Bytes) (es : List Employee) (u t : AuthToken) (at : Option ℕ) (us ts : List AuthToken)
    → u ≡ record t { last_used_at = at }
    → AreTouched (join_row hash es us) (join_row hash es ts)
    → AreTouched (join_row hash es (u ∷ us)) (join_row hash es (t ∷ ts))
unfolding join_row
AreTouched-cons hash es u t at us ts q later =
    subst (λ x. AreTouched (join_row hash es (x ∷ us)) (join_row hash es (t ∷ ts))) (sym q)
      (elim (Bool-cases (bytes_eq t.token_hash hash)) [
        | inr f ↦ rw f later
        | inl f ↦ elim (Option-cases (first (λ x. bytes_eq x.id t.employee_id) es)) [
          | inl g ↦ rw (f, g, join_owner) later
          | inr (owner, g) ↦ rw (f, g, join_owner) (record { at = at; same = refl })
        ]
      ])

join_row-touch_rows :
    (hash : Bytes) (es : List Employee) (id : Bytes) (now : ℕ) (ts : List AuthToken)
    → AreTouched (join_row hash es (touch_rows id now ts)) (join_row hash es ts)
unfolding touch_rows
join_row-touch_rows hash es id now [] = AreTouched-refl (join_row hash es [])
join_row-touch_rows hash es id now (t ∷ ts) =
    let (at, q) = touched-last_used_at id now t in
    AreTouched-cons hash es (touched id now t) t at (touch_rows id now ts) ts q
      (join_row-touch_rows hash es id now ts)

module _ {S : Type 0} (b : Backend S) (raw : Bytes) (w : World S) where
  AreTouched-authenticate :
      (ts : List AuthToken)
      → AreTouched (join_row (b.hash_token (trim_space raw)) w.employees ts) (found_row b raw w)
      → (authenticate b raw (record w { tokens = ts })).1 ≡ (authenticate b raw w).1
  unfolding authenticate find_active_by_hash
  AreTouched-authenticate ts h =
      let w' = record w { tokens = ts } in
      elim (Bool-cases (is_empty (trim_space raw))) [
        | inl e ↦ rw (e, authenticate) refl
        | inr e ↦ elim (Option-cases (b.serve w.env).1) [
          | inr (x, f) ↦ rw (e, f, authenticate, find_active_by_hash) refl
          | inl f ↦ elim (Option-cases (found_row b raw w)) [
            | inl g ↦ elim (Option-cases (found_row b raw w')) [
              | inl k ↦ rw (e, f, g, k, authenticate, find_active_by_hash) refl
              | inr (r, k) ↦ absurd (rw (g, k) at h)
            ]
            | inr (q, g) ↦ elim (Option-cases (found_row b raw w')) [
              | inl k ↦ absurd (rw (g, k) at h)
              | inr (r, k) ↦
                  let now = judged_at b raw w in
                  let same = refusal-IsTouched now r q (rw (g, k) at h) in
                  elim (Outcome-cases (refusal now q)) [
                    | inl (x, z) ↦
                        rw
                          (
                            e,
                            f,
                            g,
                            k,
                            authenticate,
                            find_active_by_hash,
                            admit,
                            find-env b raw w,
                            find-env b raw w',
                            same,
                            z,
                          )
                          refl
                    | inr (x, z) ↦
                        rw
                          (
                            e,
                            f,
                            g,
                            k,
                            authenticate,
                            find_active_by_hash,
                            admit,
                            find-env b raw w,
                            find-env b raw w',
                            same,
                            z,
                          )
                          refl
                  ]
            ]
          ]
        ]
      ]

-- The UPDATE of `TouchLastUsed`, which runs at any time behind a check, changes no answer of
-- `Authenticate`: whatever token's use it notes, every text gets the same answer before and after.
pub authenticate-touch_rows :
    {S : Type 0} (b : Backend S) (raw id : Bytes) (now : ℕ) (w : World S)
    → (authenticate b raw (record w { tokens = touch_rows id now w.tokens })).1
      ≡ (authenticate b raw w).1
authenticate-touch_rows b raw id now w =
    AreTouched-authenticate b raw w (touch_rows id now w.tokens)
      (join_row-touch_rows (b.hash_token (trim_space raw)) w.employees id now w.tokens)
