-- ===== src/Auth/FirstUse.antt =====
-- How a session begins: the token that `Login` gave is accepted by `Authenticate`.
use dijex_api.Prelude.{ap, ◌∙◌, ◌≡◌, refl, ℕ, ◌<◌, false, none, some, List, ◌∷◌, All, length, arith}
use mathlib.Core.List.{Memᴰ}
use dijex_api.Text.{Bytes, is_empty, trim_space}
use dijex_api.Text.Equality.{bytes_eq_refl}
use dijex_api.Auth.Types.{Employee, enabled, AuthToken, done, LoginInput, LoginOutput}
use dijex_api.Auth.Tables.{Backend, World, inserted, join_row}
use dijex_api.Auth.Base64.{encode}
use dijex_api.Auth.TokenText.{encode-IsInk, trim_space-IsInk, encode-ne-nil}
use dijex_api.Auth.Service.{default_token_byte_length, new_token, authenticate, login}
use dijex_api.Auth.Lookup.{IsKeyed, first-eq-some, join_owner-IsKeyed, owned_row}
use dijex_api.Auth.LoginTrace.{IsDrawn, login-IsLogin}
use dijex_api.Auth.LoginGrant.{can_work-true}
use dijex_api.Auth.Grants.{authenticate-IsFit}

-- `rand.Read` fills the buffer: as many bytes as were asked for.
abbrev pub Fills : {S : Type 0} → Backend S → Type 0
Fills {S} b =
    (n : ℕ) (s : S) (buffer : Bytes)
    → (b.random n s).1 ≡ done buffer
    → (length buffer ≡ n) × All (λ c. c < 256) buffer

module _ {S : Type 0} (b : Backend S) where
  IsDrawn-trim_space :
      (raw : Bytes) → Fills b → IsDrawn b raw → (trim_space raw ≡ raw) × (is_empty raw ≡ false)
  IsDrawn-trim_space raw fills d =
      let (size, bytes) = fills default_token_byte_length d.before d.buffer d.filled in
      rw d.encoded (
        trim_space-IsInk (encode d.buffer) (encode-IsInk d.buffer bytes),
        encode-ne-nil d.buffer (rw size (omega arith)),
      )

  fresh_row :
      (t : AuthToken) (emp : Employee) (es : List Employee) (ts : List AuthToken)
      → IsKeyed (λ e. e.id) es
      → Memᴰ emp es
      → emp.id ≡ t.employee_id
      → join_row t.token_hash es (t ∷ ts) ≡ some (owned_row t emp)
  unfolding join_row
  fresh_row t emp es ts keyed m q =
      let j = join_owner-IsKeyed es t emp keyed m q in rw (bytes_eq_refl t.token_hash, j) refl

  -- If `rand.Read` fills its buffer and no two employees have the same id, the token of a successful
  -- `Login` is accepted by `Authenticate` as long as the tables stay as `Login` left them, the query
  -- is served and the expiry of the answer, as far as the column keeps it, has not come; the principal
  -- is the employee of the answer, ENABLED.
  pub login-authenticate :
      (ttl : ℕ) (input : LoginInput) (w : World S) (out : LoginOutput) (s : S)
      → Fills b
      → IsKeyed (λ e. e.id) w.employees
      → (login b ttl input w).1 ≡ done out
      → (b.serve s).1 ≡ none
      → (b.clock (b.serve s).0).1 < b.column_instant out.expires_at
      → (id : Bytes) × ((authenticate b out.token (record (login b ttl input w).0 { env = s })).1
          ≡ done (record {
            employee_id = out.employee.id;
            token_id = id;
            role = out.employee.role;
            status = enabled;
          }))
  unfolding inserted
  login-authenticate ttl input w out s fills keyed success served early =
      let (emp, found, _, able, l) = login-IsLogin b ttl input w out success in
      let p = l.written in
      let raw = l.raw in
      let w2 = record (login b ttl input w).0 { env = s } in
      let t = inserted b.column_instant (new_token b ttl raw p.now p.id input emp) in
      let status = (can_work-true emp able).0 in
      let (trimmed, filled) = IsDrawn-trim_space raw fills l.drawn in
      let (m, _) = first-eq-some _ w.employees emp found in
      let row : join_row (b.hash_token (trim_space raw)) w2.employees w2.tokens
          ≡ some (owned_row t emp) =
        rw (trimmed, p.tokens, p.employees) (fresh_row t emp w.employees w.tokens keyed m refl) in
      let before : (b.clock (b.serve s).0).1 < t.expires_at = rw p.answer at early in
      (
        p.id,
        rw p.answer (
            authenticate-IsFit b raw w2 (owned_row t emp) (ap is_empty trimmed ∙ filled) served row
              (record { unrevoked = refl; unexpired = before; enabled = status })
            ∙ ap
                (λ x.
                  done
                    (record { employee_id = emp.id; token_id = p.id; role = emp.role; status = x }))
                status),
      )
