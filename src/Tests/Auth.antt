-- ===== src/Tests/Auth.antt =====
-- Sessions over a concrete backend and a table of one employee.
use dijex_api.Prelude.{
  ◌≡◌, ◌≢◌, refl, ◌↔◌, ℕ, zero, suc, ◌+◌, ◌*◌, ◌/◌, ◌<◌, none, [], ◌∷◌, ◌++◌, All, length,
  if◌then◌else◌, arith, ap,
}
use dijex_api.Text.{Bytes, codes, bytes_eq, trim_space}
use dijex_api.Auth.Types.{
  AuthToken, ClientInfo, Employee, Principal, LoginInput, LoginOutput, enabled, done,
  done-injective,
}
use dijex_api.Auth.Tables.{touch_rows, Backend, World, matching, mismatched}
use dijex_api.Auth.Service.{authenticate, login, logout, normalize_email}
use dijex_api.Auth.Middleware.{auth, next}
use dijex_api.Auth.Grants.{Grants, authenticate_iff}
use dijex_api.Auth.Sessions.{logout-authenticate}
use dijex_api.Auth.FirstUse.{Fills, login-authenticate}
use dijex_api.Auth.Guard.{auth_iff}
use dijex_api.Auth.Touch.{authenticate-touch_rows}

abbrev sevens : ℕ → Bytes
sevens zero = []
sevens (suc n) = 7 ∷ sevens n

abbrev toy : Backend ℕ
toy = record {
  serve = λ s. (s, none);
  column_error = λ t. none;
  column_instant = λ t. t / 1000 * 1000;
  clock = λ s. (s + 1, s);
  random = λ n s. (s, done (sevens n));
  new_uuid = λ s. (s, codes "t2");
  hash_token = λ raw. 35 ∷ raw;
  compare_password = λ hash raw. if bytes_eq hash raw then matching else mismatched;
  unicode_lower = λ s. s;
}

abbrev no_client : ClientInfo
no_client = record {
  ip_address = [];
  user_agent = [];
  device_type = [];
  device_name = [];
  os = [];
  os_version = [];
  browser = [];
  browser_version = [];
  app_version = [];
}

abbrev alice : Employee
alice = record {
  id = codes "e1";
  full_name = codes "Alice";
  email = codes "alice@example.com";
  role = codes "ADMIN";
  status = enabled;
  password_hash = codes "pa55";
  deleted_at = none;
}

abbrev old_token : AuthToken
old_token = record {
  id = codes "t1";
  employee_id = codes "e1";
  token_hash = codes "#abc";
  token_type = codes "ACCESS";
  issued_at = 0;
  expires_at = 100;
  last_used_at = none;
  revoked_at = none;
  revoked_reason = [];
  client = no_client;
  country_code = [];
  city = [];
}

abbrev office : World ℕ
office = record { env = 5; tokens = old_token ∷ []; employees = alice ∷ []; touches = [] }

abbrev as_alice : Principal
as_alice = record {
  employee_id = codes "e1";
  token_id = codes "t1";
  role = codes "ADMIN";
  status = enabled;
}

authenticate_iff_example :
    ((authenticate toy (codes " abc") office).1 ≡ done as_alice)
    ↔ Grants toy (codes " abc") office as_alice
authenticate_iff_example =
    authenticate_iff toy (codes " abc") office as_alice (tt, tt) (tt, tt) refl

auth_iff_example : ((auth toy (codes "Bearer abc") office).1 ≡ next as_alice) ↔ (
    (rest : Bytes) × (trim_space (codes "Bearer abc") ≡ codes "Bearer " ++ rest)
    × Grants toy (trim_space rest) office as_alice)
auth_iff_example = auth_iff toy (codes "Bearer abc") office as_alice (tt, tt) (tt, tt) refl

alice-accepted : (authenticate toy (codes " abc") office).1 ≡ done as_alice
unfolding authenticate trim_space dijex_api.Auth.Tables.find_active_by_hash
alice-accepted = refl

alice-leaves : (logout toy as_alice.token_id (record office { env = 6 })).1 ≡ done tt
unfolding logout dijex_api.Auth.Tables.revoke
alice-leaves = refl

logout-authenticate_example :
    (authenticate toy
      (codes " abc")
      (record (logout toy as_alice.token_id (record office { env = 6 })).0 { env = 7 })).1
    ≢ done as_alice
logout-authenticate_example =
    logout-authenticate toy (codes " abc") office as_alice as_alice 6 7 (tt, tt) alice-accepted
      alice-leaves

abbrev alice_input : LoginInput
alice_input = record {
  email = codes " Alice@example.com";
  password = codes "pa55";
  client_info = no_client;
}

abbrev alice_output : LoginOutput
alice_output = record {
  token = codes "BwcHBwcHBwcHBwcHBwcHBwcHBwcHBwcHBwcHBwcHBwc";
  token_type = codes "Bearer";
  expires_at = 3605;
  employee = record {
    id = codes "e1";
    full_name = codes "Alice";
    email = codes "alice@example.com";
    role = codes "ADMIN";
  };
}

alice-logs_in : (login toy 3600 alice_input office).1 ≡ done alice_output
unfolding login normalize_email dijex_api.Text.to_lower trim_space
    dijex_api.Auth.Tables.find_by_email dijex_api.Auth.Service.check_password
    dijex_api.Auth.Service.issue_token dijex_api.Auth.Service.generate_opaque_token
    dijex_api.Auth.Service.persist_token dijex_api.Auth.Tables.create dijex_api.Auth.Base64.encode
alice-logs_in = refl

sevens-fill : (n : ℕ) → (length (sevens n) ≡ n) × All (λ c. c < 256) (sevens n)
sevens-fill zero = (refl, tt)
sevens-fill (suc n) = let (l, h) = sevens-fill n in (ap suc l, (omega arith, h))

toy-Fills : Fills toy
toy-Fills n s buffer h = rw (← done-injective (sevens n) buffer h) (sevens-fill n)

login-authenticate_example :
    (id : Bytes) × ((authenticate toy alice_output.token
        (record (login toy 3600 alice_input office).0 { env = 9 })).1
      ≡ done (record {
        employee_id = alice_output.employee.id;
        token_id = id;
        role = alice_output.employee.role;
        status = enabled;
      }))
login-authenticate_example =
    login-authenticate toy 3600 alice_input office alice_output 9 toy-Fills (tt, tt) alice-logs_in
      refl (omega arith)

authenticate-touch_rows_example :
    (authenticate toy
      (codes "abc")
      (record office { tokens = touch_rows (codes "t1") 8 office.tokens })).1
    ≡ (authenticate toy (codes "abc") office).1
authenticate-touch_rows_example = authenticate-touch_rows toy (codes "abc") (codes "t1") 8 office
