-- ===== src/Auth/Types.antt =====
-- internal/domain/auth.go, internal/domain/employee.go, and the input and output of a login from
-- internal/service/dto.go. Of an employee the phone and two time stamps, which nothing here reads, are
-- left out. An instant is a number of nanoseconds; an id is the text of a UUID.
use dijex_api.Prelude.{
  ◌≡◌, refl, ◌⊎◌, inl, inr, ℕ, Bool, false, ◌&&◌, not, Option, ltb, if◌then◌else◌, is_some, ◌++◌,
}
use dijex_api.Text.{Bytes, codes, bytes_eq}

-- `service.ClientInfo`; the same fields of `AuthToken` are one field here.
pub record ClientInfo : Type 0 where
  pub ip_address : Bytes
  pub user_agent : Bytes
  pub device_type : Bytes
  pub device_name : Bytes
  pub os : Bytes
  pub os_version : Bytes
  pub browser : Bytes
  pub browser_version : Bytes
  pub app_version : Bytes

pub record AuthToken : Type 0 where
  pub id : Bytes
  pub employee_id : Bytes
  pub token_hash : Bytes
  pub token_type : Bytes
  pub issued_at : ℕ
  pub expires_at : ℕ
  pub last_used_at : Option ℕ
  pub revoked_at : Option ℕ
  pub revoked_reason : Bytes
  pub client : ClientInfo
  pub country_code : Bytes
  pub city : Bytes

-- `AuthToken.IsActive`
unfoldable pub is_active : AuthToken → ℕ → Bool
is_active t now = if is_some t.revoked_at then false else ltb now t.expires_at

pub record AuthTokenWithEmployee : Type 0 where
  pub token : AuthToken
  pub employee_role : Bytes
  pub employee_status : Bytes

pub record Principal : Type 0 where
  pub employee_id : Bytes
  pub token_id : Bytes
  pub role : Bytes
  pub status : Bytes

pub record Employee : Type 0 where
  pub id : Bytes
  pub full_name : Bytes
  pub email : Bytes
  pub role : Bytes
  pub status : Bytes
  pub password_hash : Bytes
  pub deleted_at : Option ℕ

abbrev pub enabled : Bytes
enabled = codes "ENABLED"

-- `Employee.IsActive`
unfoldable pub can_work : Employee → Bool
can_work e = bytes_eq e.status enabled && not (is_some e.deleted_at)

-- The errors that the code tells apart, and any other with its message.
pub data AuthError : Type 0 where
  unauthenticated token_invalid token_expired token_revoked employee_disabled : AuthError
  invalid_credentials not_found : AuthError
  internal : Bytes → AuthError

-- `fmt.Errorf("prefix: %w", err)`: `errors.Is` still finds the error within.
abbrev pub wrap : Bytes → AuthError → AuthError
wrap prefix unauthenticated = unauthenticated
wrap prefix token_invalid = token_invalid
wrap prefix token_expired = token_expired
wrap prefix token_revoked = token_revoked
wrap prefix employee_disabled = employee_disabled
wrap prefix invalid_credentials = invalid_credentials
wrap prefix not_found = not_found
wrap prefix (internal message) = internal (prefix ++ message)

pub data Outcome (A : Type 0) : Type 0 where
  failed : AuthError → Outcome A
  done : A → Outcome A

pub Outcome-cases :
    {A : Type 0} (o : Outcome A) → ((e : AuthError) × (o ≡ failed e)) ⊎ ((a : A) × (o ≡ done a))
Outcome-cases (failed e) = inl (e, refl)
Outcome-cases (done a) = inr (a, refl)

pub done-injective : {A : Type 0} (x y : A) → done x ≡ done y → x ≡ y
done-injective x y h = cc

pub record LoginInput : Type 0 where
  pub email : Bytes
  pub password : Bytes
  pub client_info : ClientInfo

pub record LoginEmployee : Type 0 where
  pub id : Bytes
  pub full_name : Bytes
  pub email : Bytes
  pub role : Bytes

pub record LoginOutput : Type 0 where
  pub token : Bytes
  pub token_type : Bytes
  pub expires_at : ℕ
  pub employee : LoginEmployee
