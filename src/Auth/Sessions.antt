-- ===== src/Auth/Sessions.antt =====
-- How a session ends: `Logout`, and what `Authenticate` says afterwards.
use dijex_api.Prelude.{
  ap, ◌∙◌, sym, ◌≡◌, ◌≢◌, refl, ℕ, none, some, List, [], ◌∷◌, ◌++◌, Bool-cases, inl, inr,
  Option-cases,
}
use mathlib.Core.Option.{some-injective}
use mathlib.Core.List.{Memᴰ}
use mathlib.Core.List.Memᴰ
use dijex_api.Text.{Bytes, codes, bytes_eq, trim_space}
use dijex_api.Text.Equality.{bytes_eq_iff}
use dijex_api.Auth.Types.{AuthToken, Principal, failed, done, internal}
use dijex_api.Auth.Tables.{Backend, World, first, revoke_rows, revoke, query}
use dijex_api.Auth.Service.{authenticate, logout, tick}
use dijex_api.Auth.Lookup.{IsKeyed, first-IsKeyed, join_row-eq-some}
use dijex_api.Auth.Grants.{authenticate-eq-done}

IsKeyed-unique :
    {A : Type 0} (key : A → Bytes) (x y : A) (xs : List A)
    → IsKeyed key xs
    → Memᴰ x xs
    → Memᴰ y xs
    → key x ≡ key y
    → x ≡ y
IsKeyed-unique key x y xs k m n e = some-injective _ _ (
    sym (first-IsKeyed key x xs k m)
    ∙ ap (λ h. first (λ z. bytes_eq (key z) h) xs) e
    ∙ first-IsKeyed key y xs k n)

-- A row that is not revoked behind the UPDATE stood there before, under another id.
revoke_rows-Mem :
    (id reason : Bytes) (now : ℕ) (t : AuthToken) (ts : List AuthToken)
    → Memᴰ t (revoke_rows id reason now ts)
    → t.revoked_at ≡ none
    → (u : AuthToken) × Memᴰ u ts × (u.token_hash ≡ t.token_hash) × (u.id ≢ id)
unfolding revoke_rows
revoke_rows-Mem id reason now t [] m h = absurd (Memᴰ.not-nil m)
revoke_rows-Mem id reason now t (v ∷ vs) (Memᴰ.tail m) h =
    let (u, n, e, d) = revoke_rows-Mem id reason now t vs m h in (u, Memᴰ.tail n, e, d)
revoke_rows-Mem id reason now t (v ∷ vs) (Memᴰ.head e) h = elim (Bool-cases (bytes_eq v.id id)) [
  | inr d ↦ (
    v,
    Memᴰ.head refl,
    ap (λ x. x.token_hash) (sym (rw d at e)),
    λ q. absurd (let k = (bytes_eq_iff v.id id).1 q in cc),
  )
  | inl d ↦ elim (Option-cases v.revoked_at) [
    | inl n ↦
        absurd (let q : t.revoked_at ≡ some now = ap (λ x. x.revoked_at) (rw (d, n) at e) in cc)
    | inr (x, n) ↦
        absurd (let q : t.revoked_at ≡ some x = ap (λ x. x.revoked_at) (rw (d, n) at e) in cc)
  ]
]

revoke-served :
    {S : Type 0} (b : Backend S) (id reason : Bytes) (now : ℕ) (w : World S)
    → (b.serve w.env).1 ≡ none
    → revoke b id reason now w ≡ (
      record w {
        env = (b.serve w.env).0;
        tokens = revoke_rows id reason (b.column_instant now) w.tokens;
      },
      done tt,
    )
unfolding revoke
revoke-served b id reason now w e = rw (e, revoke, query) refl

revoke-refused :
    {S : Type 0} (b : Backend S) (id reason : Bytes) (now : ℕ) (w : World S) (x : Bytes)
    → (b.serve w.env).1 ≡ some x
    → (revoke b id reason now w).1 ≡ failed (internal (codes "postgres: revoke auth token: " ++ x))
unfolding revoke
revoke-refused b id reason now w x e = rw (e, revoke, query) refl

logout-eq-done :
    {S : Type 0} (b : Backend S) (id : Bytes) (w : World S)
    → (logout b id w).1 ≡ done tt
    → (logout b id w).0.tokens
      ≡ revoke_rows id (codes "user logout") (b.column_instant (b.clock w.env).1) w.tokens
unfolding logout
logout-eq-done b id w h = elim (Option-cases (b.serve (b.clock w.env).0).1) [
  | inl e ↦
      let q = revoke-served b id (codes "user logout") (b.clock w.env).1 (tick b w).0 e in
      rw (q, logout) (ap (λ x. x.0.tokens) q)
  | inr (x, e) ↦
      let q = revoke-refused b id (codes "user logout") (b.clock w.env).1 (tick b w).0 x e in
      absurd (let k = rw (q, logout) at h in cc)
]

-- Once a text was accepted and `Logout` with the principal's token id has succeeded, `Authenticate`
-- never accepts the text again with the rows as `Logout` left them, whatever time it is, provided
-- that no two tokens have the same hash.
pub logout-authenticate :
    {S : Type 0} (b : Backend S) (raw : Bytes) (w : World S) (pr again : Principal) (s later : S)
    → IsKeyed (λ t. t.token_hash) w.tokens
    → (authenticate b raw w).1 ≡ done pr
    → (logout b pr.token_id (record w { env = s })).1 ≡ done tt
    → (authenticate b raw
        (record (logout b pr.token_id (record w { env = s })).0 { env = later })).1
      ≢ done again
logout-authenticate b raw w pr again s later keyed accepted gone twice =
    let w1 = record w { env = s } in
    let w2 = record (logout b pr.token_id w1).0 { env = later } in
    let (row, found, _, _, same) = authenticate-eq-done b raw w pr accepted in
    let (there, hash, _) =
      join_row-eq-some (b.hash_token (trim_space raw)) w.employees w.tokens row found in
    let (row2, found2, _, fit2, _) = authenticate-eq-done b raw w2 again twice in
    let (there2, hash2, _) =
      join_row-eq-some (b.hash_token (trim_space raw)) w2.employees w2.tokens row2 found2 in
    let kept = rw (logout-eq-done b pr.token_id w1 gone) at there2 in
    let (u, m, e, other) =
      revoke_rows-Mem pr.token_id (codes "user logout") (b.column_instant (b.clock s).1) row2.token
        w.tokens kept fit2.unrevoked in
    let is_same =
      IsKeyed-unique (λ t. t.token_hash) u row.token w.tokens keyed m there
        (e ∙ hash2 ∙ sym hash) in
    other (ap (λ x. x.id) is_same ∙ sym (ap (λ x. x.token_id) same))
