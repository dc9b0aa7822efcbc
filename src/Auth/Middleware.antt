-- ===== src/Auth/Middleware.antt =====
-- internal/transport/http/middleware/auth.go: what the middleware `Auth` does with a request, given
-- its header Authorization.
use dijex_api.Prelude.{ℕ, [], Option, none, some, not, if◌then◌else◌, drop, length}
use dijex_api.Text.{Bytes, codes, is_empty, has_prefix, trim_space}
use dijex_api.Auth.Types.{
  Principal, AuthError, unauthenticated, token_invalid, token_expired, token_revoked,
  employee_disabled, invalid_credentials, not_found, internal, failed, done,
}
use dijex_api.Auth.Tables.{Backend, World}
use dijex_api.Auth.Service.{authenticate}

-- `next` is called with the principal in the context, or an error is written: its status, code and
-- message.
pub data Response : Type 0 where
  next : Principal → Response
  error : ℕ → Bytes → Bytes → Response

-- `bearerPrefix`
abbrev pub bearer_prefix : Bytes
bearer_prefix = codes "Bearer "

unfoldable pub extract_bearer_token : Bytes → Bytes
extract_bearer_token header =
    let trimmed = trim_space header in
    if is_empty trimmed
    then []
    else if not (has_prefix trimmed bearer_prefix)
    then []
    else trim_space (drop (length bearer_prefix) trimmed)

-- `mapAuthError`; `none` is `ok = false`.
unfoldable pub map_auth_error : AuthError → Option (Bytes × Bytes)
map_auth_error unauthenticated = some (codes "UNAUTHORIZED", codes "invalid auth token")
map_auth_error token_invalid = some (codes "UNAUTHORIZED", codes "invalid auth token")
map_auth_error token_expired = some (codes "TOKEN_EXPIRED", codes "auth token expired")
map_auth_error token_revoked = some (codes "TOKEN_REVOKED", codes "auth token revoked")
map_auth_error employee_disabled =
    some (codes "EMPLOYEE_DISABLED", codes "employee account disabled")
map_auth_error invalid_credentials = none
map_auth_error not_found = none
map_auth_error (internal message) = none

unfoldable pub write_unauthorized : Bytes → Bytes → Response
write_unauthorized code message = error 401 code message

abbrev pub answer_error : AuthError → Response
answer_error e = elim (map_auth_error e) [
  | some (code, message) ↦ write_unauthorized code message
  | none ↦ error 500 (codes "INTERNAL_ERROR") (codes "internal server error")
]

unfoldable pub auth : {S : Type 0} → Backend S → Bytes → World S → World S × Response
unfolding map_auth_error write_unauthorized
auth b header w =
    let raw = extract_bearer_token header in
    if is_empty raw
    then (
      w,
      write_unauthorized (codes "UNAUTHORIZED") (codes "missing or invalid Authorization header"),
    )
    else let (w1, verdict) = authenticate b raw w in
      elim verdict [ failed e ↦ (w1, answer_error e) | done pr ↦ (w1, next pr) ]
