-- ===== src/Auth/Grants.antt =====
-- To whom `Authenticate` grants access.
use dijex_api.Prelude.{
  ap, ◌∙◌, sym, ◌≡◌, refl, ◌<◌, ◌↔◌, ℕ, true, false, List, Option, none, some, ltb, ltb→lt,
  Bool-cases, inl, inr, Option-cases, arith,
}
use mathlib.Core.List.{Memᴰ}
use dijex_api.Text.{Bytes, is_empty, trim_space, bytes_eq}
use dijex_api.Text.Equality.{bytes_eq_iff}
use dijex_api.Auth.Types.{
  AuthToken, AuthTokenWithEmployee, Employee, Principal, enabled, is_active, Outcome-cases,
  done-injective, done,
}
use dijex_api.Auth.Tables.{Backend, World, join_row, query, find_active_by_hash}
use dijex_api.Auth.Service.{refusal, authenticate, admit}
use dijex_api.Auth.Lookup.{IsKeyed, IsOwned, owned_row, join_row-eq-some, join_row-IsKeyed}

abbrev pub principal_of : AuthTokenWithEmployee → Principal
principal_of row = record {
  employee_id = row.token.employee_id;
  token_id = row.token.id;
  role = row.employee_role;
  status = row.employee_status;
}

-- A row that the `switch` lets through at this instant.
pub record IsFit (now : ℕ) (row : AuthTokenWithEmployee) : Type 0 where
  pub unrevoked : row.token.revoked_at ≡ none
  pub unexpired : now < row.token.expires_at
  pub enabled : row.employee_status ≡ enabled

pub refusal-eq-done :
    (now : ℕ) (row : AuthTokenWithEmployee) (pr : Principal)
    → refusal now row ≡ done pr
    → IsFit now row × (pr ≡ principal_of row)
unfolding refusal is_active
refusal-eq-done now row pr h = elim (Option-cases row.token.revoked_at) [
  | inr (x, e) ↦ absurd (let q = rw (e, refusal) at h in cc)
  | inl e ↦ elim (Bool-cases (ltb now row.token.expires_at)) [
    | inr l ↦ absurd (let q = rw (e, l, refusal, is_active) at h in cc)
    | inl l ↦ elim (Bool-cases (bytes_eq row.employee_status enabled)) [
      | inr k ↦ absurd (let q = rw (e, l, k, refusal, is_active) at h in cc)
      | inl k ↦
          let q : done (principal_of row) ≡ done pr = rw (e, l, k, refusal, is_active) at h in
          (
            record {
              unrevoked = e;
              unexpired = ltb→lt now row.token.expires_at l;
              enabled = (bytes_eq_iff row.employee_status enabled).0 k;
            },
            cc,
          )
    ]
  ]
]

lt→ltb : (a b : ℕ) → a < b → ltb a b ≡ true
lt→ltb a b h = ground arith

pub refusal-IsFit :
    (now : ℕ) (row : AuthTokenWithEmployee)
    → IsFit now row
    → refusal now row ≡ done (principal_of row)
unfolding refusal is_active
refusal-IsFit now row h =
    let l = lt→ltb now row.token.expires_at h.unexpired in
    let k = (bytes_eq_iff row.employee_status enabled).1 h.enabled in
    rw (h.unrevoked, l, k, refusal, is_active) refl

module _ {S : Type 0} (b : Backend S) (raw : Bytes) (w : World S) where
  -- The instant at which the token is judged, behind the query.
  abbrev pub judged_at : ℕ
  judged_at = (b.clock (b.serve w.env).0).1

  abbrev pub found_row : Option AuthTokenWithEmployee
  found_row = join_row (b.hash_token (trim_space raw)) w.employees w.tokens

  pub find-env : (find_active_by_hash b (b.hash_token (trim_space raw)) w).0.env ≡ (b.serve w.env).0
  unfolding find_active_by_hash
  find-env = elim (Option-cases (b.serve w.env).1) [
    | inl e ↦ rw (e, find_active_by_hash, query) refl
    | inr (x, e) ↦ rw (e, find_active_by_hash, query) refl
  ]

  -- Access for a row that was found and is fit.
  pub authenticate-eq-done :
      (pr : Principal)
      → (authenticate b raw w).1 ≡ done pr
      → (row : AuthTokenWithEmployee) × (found_row ≡ some row)
        × (is_empty (trim_space raw) ≡ false)
        × IsFit judged_at row
        × (pr ≡ principal_of row)
  unfolding authenticate find_active_by_hash
  authenticate-eq-done pr h = elim (Bool-cases (is_empty (trim_space raw))) [
    | inl e ↦ absurd (let q = rw (e, authenticate) at h in cc)
    | inr e ↦ elim (Option-cases (b.serve w.env).1) [
      | inr (x, f) ↦ absurd (let q = rw (e, f, authenticate, find_active_by_hash) at h in cc)
      | inl f ↦ elim (Option-cases found_row) [
        | inl g ↦ absurd (let q = rw (e, f, g, authenticate, find_active_by_hash) at h in cc)
        | inr (row, g) ↦ elim (Outcome-cases (refusal judged_at row)) [
          | inl (x, k) ↦ absurd (
              let q = rw (e, f, g, authenticate, find_active_by_hash, admit, find-env, k) at h in
              cc)
          | inr (given, k) ↦
              let q = rw (e, f, g, authenticate, find_active_by_hash, admit, find-env, k) at h in
              let (fit, same) = refusal-eq-done judged_at row given k in
              (row, g, e, fit, sym (done-injective _ _ q) ∙ same)
        ]
      ]
    ]
  ]

  pub authenticate-IsFit :
      (row : AuthTokenWithEmployee)
      → is_empty (trim_space raw) ≡ false
      → (b.serve w.env).1 ≡ none
      → found_row ≡ some row
      → IsFit judged_at row
      → (authenticate b raw w).1 ≡ done (principal_of row)
  unfolding authenticate find_active_by_hash
  authenticate-IsFit row e f g h =
      let k = refusal-IsFit judged_at row h in
      rw (e, f, g, authenticate, find_active_by_hash, admit, find-env, k) refl

IsOwned-row :
    (es : List Employee) (row : AuthTokenWithEmployee) (o : IsOwned es row)
    → row ≡ owned_row row.token o.owner
IsOwned-row es row o = rw (o.role, o.status) refl

-- The token in the header, its owner, and what a session needs of both at this instant.
pub record Grants {S : Type 0} (b : Backend S) (raw : Bytes) (w : World S) (pr : Principal)
    : Type 0 where
  pub token : AuthToken
  pub owner : Employee
  pub token_there : Memᴰ token w.tokens
  pub owner_there : Memᴰ owner w.employees
  pub presented : is_empty (trim_space raw) ≡ false
  pub hash : token.token_hash ≡ b.hash_token (trim_space raw)
  pub owns : owner.id ≡ token.employee_id
  pub unrevoked : token.revoked_at ≡ none
  pub unexpired : judged_at b raw w < token.expires_at
  pub owner_enabled : owner.status ≡ enabled
  pub principal : pr ≡ principal_of (owned_row token owner)

-- Where no two tokens have the same hash and no two employees the same id, and the query is served:
-- `Authenticate` accepts a text with this principal exactly if the text, trimmed, is not empty and
-- its hash is that of a stored token that is not revoked and has not expired at the instant of the
-- check, whose owner is stored and ENABLED; the principal is then made from both.
pub authenticate_iff :
    {S : Type 0} (b : Backend S) (raw : Bytes) (w : World S) (pr : Principal)
    → IsKeyed (λ t. t.token_hash) w.tokens
    → IsKeyed (λ e. e.id) w.employees
    → (b.serve w.env).1 ≡ none
    → ((authenticate b raw w).1 ≡ done pr) ↔ Grants b raw w pr
authenticate_iff b raw w pr hashes ids served = (
  λ h.
      let (row, g, e, fit, same) = authenticate-eq-done b raw w pr h in
      let (there, hash, o) =
        join_row-eq-some (b.hash_token (trim_space raw)) w.employees w.tokens row g in
      record {
        token = row.token;
        owner = o.owner;
        token_there = there;
        owner_there = o.there;
        presented = e;
        hash = hash;
        owns = o.owns;
        unrevoked = fit.unrevoked;
        unexpired = fit.unexpired;
        owner_enabled = sym o.status ∙ fit.enabled;
        principal = same ∙ ap principal_of (IsOwned-row w.employees row o);
      },
  λ g.
      let found =
        join_row-IsKeyed w.employees w.tokens g.token g.owner hashes ids g.token_there g.owner_there
          g.owns in
      authenticate-IsFit b raw w (owned_row g.token g.owner) g.presented served
        (ap (λ h. join_row h w.employees w.tokens) (sym g.hash) ∙ found)
        (record { unrevoked = g.unrevoked; unexpired = g.unexpired; enabled = g.owner_enabled })
      ∙ ap done (sym g.principal),
)
