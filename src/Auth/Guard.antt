-- ===== src/Auth/Guard.antt =====
-- Whom the middleware `Auth` lets through.
use dijex_api.Prelude.{
  ◌≡◌, refl, ap, ◌∙◌, ◌↔◌, true, false, ◌++◌, none, Bool-cases, Option-cases, inl, inr,
}
use dijex_api.Text.{Bytes, codes, is_empty, has_prefix, trim_space}
use dijex_api.Text.Equality.{is_empty_iff, has_prefix-append}
use dijex_api.Auth.Types.{AuthError, Principal, Outcome-cases, done}
use dijex_api.Auth.Tables.{Backend, World}
use dijex_api.Auth.Service.{authenticate}
use dijex_api.Auth.Middleware.{
  next, auth, answer_error, map_auth_error, write_unauthorized, bearer_prefix, extract_bearer_token,
}
use dijex_api.Auth.Lookup.{IsKeyed}
use dijex_api.Auth.Grants.{Grants, authenticate_iff}

next-injective : (p q : Principal) → next p ≡ next q → p ≡ q
next-injective p q h = cc

answer_error-ne-next : (e : AuthError) (pr : Principal) → answer_error e ≡ next pr → ⊥
unfolding write_unauthorized
answer_error-ne-next e pr h = elim (Option-cases (map_auth_error e)) [
  | inl n ↦ let q = rw (n, answer_error) at h in cc
  | inr (x, n) ↦ let q = rw (n, answer_error) at h in cc
]

-- A token in the header stands behind "Bearer ".
extract_bearer_token-prefix :
    (header : Bytes)
    → is_empty (extract_bearer_token header) ≡ false
    → has_prefix (trim_space header) bearer_prefix ≡ true
unfolding extract_bearer_token
extract_bearer_token-prefix header h =
    elim (Bool-cases (has_prefix (trim_space header) bearer_prefix)) [
      | inl e ↦ e
      | inr e ↦ elim (Bool-cases (is_empty (trim_space header))) [
        | inl f ↦ absurd (let q = rw (e, f, extract_bearer_token) at h in cc)
        | inr f ↦ absurd (let q = rw (e, f, extract_bearer_token) at h in cc)
      ]
    ]

-- The token of a header that begins with "Bearer ".
extract_bearer_token-behind :
    (header rest : Bytes)
    → trim_space header ≡ codes "Bearer " ++ rest
    → extract_bearer_token header ≡ trim_space rest
unfolding extract_bearer_token has_prefix
extract_bearer_token-behind header rest e = rw (e, extract_bearer_token) refl

trim_space-presented : (s : Bytes) → is_empty (trim_space s) ≡ false → is_empty s ≡ false
unfolding trim_space
trim_space-presented s h = elim (Bool-cases (is_empty s)) [
  | inr e ↦ e
  | inl e ↦ absurd (let q = rw ((is_empty_iff s).0 e) at h in cc)
]

module _ {S : Type 0} (b : Backend S) (header : Bytes) (w : World S) (pr : Principal) where
  auth-eq-next :
      (auth b header w).1 ≡ next pr
      → (is_empty (extract_bearer_token header) ≡ false)
        × ((authenticate b (extract_bearer_token header) w).1 ≡ done pr)
  unfolding auth write_unauthorized
  auth-eq-next h = elim (Bool-cases (is_empty (extract_bearer_token header))) [
    | inl e ↦ absurd (let q = rw (e, auth) at h in cc)
    | inr e ↦ elim (Outcome-cases (authenticate b (extract_bearer_token header) w).1) [
      | inl (x, f) ↦ absurd (answer_error-ne-next x pr (rw (e, f, auth) at h))
      | inr (p, f) ↦ (e, f ∙ ap done (next-injective p pr (rw (e, f, auth) at h)))
    ]
  ]

  auth-lets_through :
      is_empty (extract_bearer_token header) ≡ false
      → (authenticate b (extract_bearer_token header) w).1 ≡ done pr
      → (auth b header w).1 ≡ next pr
  unfolding auth
  auth-lets_through e f = rw (e, f, auth) refl

-- Where no two tokens have the same hash and no two employees the same id, and the query is served:
-- the middleware calls the next handler with this principal exactly if the header, trimmed, is
-- "Bearer " and a rest, and access is granted to the rest, trimmed.
pub auth_iff :
    {S : Type 0} (b : Backend S) (header : Bytes) (w : World S) (pr : Principal)
    → IsKeyed (λ t. t.token_hash) w.tokens
    → IsKeyed (λ e. e.id) w.employees
    → (b.serve w.env).1 ≡ none
    → ((auth b header w).1 ≡ next pr) ↔ (
        (rest : Bytes) × (trim_space header ≡ codes "Bearer " ++ rest)
        × Grants b (trim_space rest) w pr)
auth_iff b header w pr hashes ids served =
    let granted = authenticate_iff b (extract_bearer_token header) w pr hashes ids served in
    (
      λ h.
          let (e, f) = auth-eq-next b header w pr h in
          let (rest, q) =
            has_prefix-append (trim_space header) bearer_prefix
              (extract_bearer_token-prefix header e) in
          (rest, q, rw (← extract_bearer_token-behind header rest q) (granted.0 f)),
      λ (rest, q, g).
          let k = extract_bearer_token-behind header rest q in
          let g' : Grants b (extract_bearer_token header) w pr = rw k g in
          auth-lets_through b header w pr
            (trim_space-presented (extract_bearer_token header) g'.presented) (granted.1 g'),
    )
