-- ===== src/Auth/Service.antt =====
-- internal/service/auth_service.go, with `GenerateOpaqueToken` of pkg/crypto/token.go and
-- `PasswordHasher.Verify` of pkg/crypto/password.go. `Login` is cut into its stages.
use dijex_api.Prelude.{
  ℕ, ◌+◌, Bool, true, false, ◌||◌, [], ◌∷◌, ◌++◌, none, is_some, if◌then◌else◌, not,
}
use dijex_api.Text.{Bytes, codes, bytes_eq, is_empty, to_lower, trim_space}
use dijex_api.Auth.Types.{
  AuthToken, is_active, AuthTokenWithEmployee, Principal, Employee, can_work, enabled, AuthError,
  unauthenticated, token_invalid, token_expired, token_revoked, employee_disabled,
  invalid_credentials, not_found, internal, wrap, Outcome, failed, done, LoginInput, LoginOutput,
}
use dijex_api.Auth.Tables.{
  Backend, World, matching, mismatched, broken, find_active_by_hash, find_by_email, create, revoke,
  touch_last_used,
}
use dijex_api.Auth.Base64.{encode}

abbrev pub default_token_byte_length : ℕ
default_token_byte_length = 32

abbrev pub is_not_found : AuthError → Bool
is_not_found not_found = true
is_not_found e = false

-- The errors of the `switch` over a token that was found, in its order.
unfoldable pub refusal : ℕ → AuthTokenWithEmployee → Outcome Principal
unfolding is_active
refusal now row =
    if is_some row.token.revoked_at
    then failed token_revoked
    else if not (is_active row.token now)
    then failed token_expired
    else if not (bytes_eq row.employee_status enabled)
    then failed employee_disabled
    else done (record {
      employee_id = row.token.employee_id;
      token_id = row.token.id;
      role = row.employee_role;
      status = row.employee_status;
    })

module _ {S : Type 0} (b : Backend S) where
  abbrev pub tick : World S → World S × ℕ
  tick w = let (s, now) = b.clock w.env in (record w { env = s }, now)

  -- Behind a token that was found.
  abbrev pub admit : AuthTokenWithEmployee → World S → World S × Outcome Principal
  admit row w =
      let (w1, now) = tick w in
      elim (refusal now row) [
        | failed e ↦ (w1, failed e)
        | done pr ↦ (record w1 { touches = (row.token.id, now) ∷ w1.touches }, done pr)
      ]

  unfoldable pub authenticate : Bytes → World S → World S × Outcome Principal
  unfolding refusal
  authenticate raw_token w =
      let raw = trim_space raw_token in
      if is_empty raw
      then (w, failed unauthenticated)
      else let (w1, found) = find_active_by_hash b (b.hash_token raw) w in
        elim found [
          | failed e ↦
              if is_not_found e
              then (w1, failed token_invalid)
              else (w1, failed (wrap (codes "auth: find token: ") e))
          | done row ↦ admit row w1
        ]

  -- One goroutine of `touchLastUsedAsync`, the one that began last; its error is only logged.
  unfoldable pub run_touch : World S → World S
  run_touch w = elim w.touches [
    | [] ↦ w
    | (id, now) ∷ more ↦ (touch_last_used b id now (record w { touches = more })).0
  ]

  unfoldable pub logout : Bytes → World S → World S × Outcome (Unit {0})
  logout token_id w =
      let (w1, now) = tick w in
      let (w2, gone) = revoke b token_id (codes "user logout") now w1 in
      elim gone [
        | failed e ↦ (w2, failed (wrap (codes "auth: logout: ") e))
        | done u ↦ (w2, done u)
      ]

  unfoldable pub normalize_email : Bytes → Bytes
  normalize_email s = to_lower b.unicode_lower (trim_space s)

  -- `GenerateOpaqueToken(DefaultTokenByteLength)`
  unfoldable pub generate_opaque_token : World S → World S × Outcome Bytes
  generate_opaque_token w =
      let (s, filled) = b.random default_token_byte_length w.env in
      let w1 = record w { env = s } in
      elim filled [
        | failed e ↦ (w1, failed (wrap (codes "crypto: generate random token: ") e))
        | done buf ↦ (w1, done (encode buf))
      ]

  -- The token that a login writes.
  abbrev pub new_token : ℕ → Bytes → ℕ → Bytes → LoginInput → Employee → AuthToken
  new_token ttl raw now id input emp = record {
    id = id;
    employee_id = emp.id;
    token_hash = b.hash_token raw;
    token_type = codes "ACCESS";
    issued_at = now;
    expires_at = now + ttl;
    last_used_at = none;
    revoked_at = none;
    revoked_reason = [];
    client = input.client_info;
    country_code = [];
    city = [];
  }

  abbrev pub login_output : Bytes → AuthToken → Employee → LoginOutput
  login_output raw token emp = record {
    token = raw;
    token_type = codes "Bearer";
    expires_at = token.expires_at;
    employee = record {
      id = emp.id;
      full_name = emp.full_name;
      email = emp.email;
      role = emp.role;
    };
  }

  -- From the drawn token on.
  unfoldable pub persist_token :
      ℕ → LoginInput → Employee → Bytes → World S → World S × Outcome LoginOutput
  persist_token ttl input emp raw w =
      let (w1, now) = tick w in
      let (s, id) = b.new_uuid w1.env in
      let token = new_token ttl raw now id input emp in
      let (w2, written) = create b token (record w1 { env = s }) in
      elim written [
        | failed e ↦ (w2, failed (wrap (codes "auth: persist token: ") e))
        | done u ↦ (w2, done (login_output raw token emp))
      ]

  unfoldable pub issue_token : ℕ → LoginInput → Employee → World S → World S × Outcome LoginOutput
  issue_token ttl input emp w =
      let (w1, drawn) = generate_opaque_token w in
      elim drawn [
        | failed e ↦ (w1, failed (wrap (codes "auth: generate token: ") e))
        | done raw ↦ persist_token ttl input emp raw w1
      ]

  -- From the employee on.
  unfoldable pub check_password :
      ℕ → LoginInput → Employee → World S → World S × Outcome LoginOutput
  unfolding can_work
  check_password ttl input emp w = elim (b.compare_password emp.password_hash input.password) [
    | mismatched ↦ (w, failed invalid_credentials)
    | broken e ↦ (
      w,
      failed (
          wrap (codes "auth: verify password: ")
            (internal (codes "crypto: verify password: " ++ e))),
    )
    | matching ↦
        if not (can_work emp) then (w, failed invalid_credentials) else issue_token ttl input emp w
  ]

  unfoldable pub login : ℕ → LoginInput → World S → World S × Outcome LoginOutput
  login ttl input w =
      let email = normalize_email input.email in
      if is_empty email || is_empty input.password
      then (w, failed invalid_credentials)
      else let (w1, found) = find_by_email b email w in
        elim found [
          | failed e ↦
              if is_not_found e
              then (w1, failed invalid_credentials)
              else (w1, failed (wrap (codes "auth: find employee by email: ") e))
          | done emp ↦ check_password ttl input emp w1
        ]
