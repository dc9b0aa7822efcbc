-- ===== src/Auth/Tables.antt =====
-- The queries of internal/repository/postgres/auth_token_repository.go and of
-- EmployeeRepository.FindByEmail, over tables as lists of rows. PostgreSQL and all else that is
-- outside the repository is the parameter `Backend`.
use dijex_api.Prelude.{
  ℕ, Bool, ◌&&◌, ◌||◌, List, [], ◌∷◌, ◌++◌, Option, none, some, if◌then◌else◌, is_some, not,
}
use dijex_api.Text.{Bytes, codes, bytes_eq, is_empty}
use dijex_api.Auth.Types.{
  AuthToken, AuthTokenWithEmployee, Employee, Outcome, failed, done, internal, not_found,
}

-- What bcrypt says of a password and a hash.
pub data PasswordCheck : Type 0 where
  matching mismatched : PasswordCheck
  broken : Bytes → PasswordCheck

pub record Backend (S : Type 0) : Type 0 where
  -- the error of the next query, if the connection or the context does not serve it
  pub serve : S → S × Option Bytes
  -- the error of an INSERT whose values the columns do not take, by type or by length
  pub column_error : AuthToken → Option Bytes
  -- what a TIMESTAMPTZ column keeps of an instant: it holds whole microseconds
  pub column_instant : ℕ → ℕ
  pub clock : S → S × ℕ
  -- `rand.Read` into a buffer of this length
  pub random : ℕ → S → S × Outcome Bytes
  pub new_uuid : S → S × Bytes
  -- SHA-256 in hexadecimal digits
  pub hash_token : Bytes → Bytes
  -- `bcrypt.CompareHashAndPassword`
  pub compare_password : Bytes → Bytes → PasswordCheck
  pub unicode_lower : Bytes → Bytes

-- The tables, the goroutines of `touchLastUsedAsync` that have not run yet, and all else.
pub record World (S : Type 0) : Type 0 where
  pub env : S
  pub tokens : List AuthToken
  pub employees : List Employee
  pub touches : List (Bytes × ℕ)

-- The first row of a SELECT.
unfoldable pub first : {A : Type 0} → (A → Bool) → List A → Option A
first p [] = none
first p (x ∷ xs) = if p x then some x else first p xs

-- The row of a token with its owner's columns, if it has an owner.
abbrev pub join_owner : List Employee → AuthToken → Option AuthTokenWithEmployee
join_owner es t = elim (first (λ e. bytes_eq e.id t.employee_id) es) [
  | none ↦ none
  | some e ↦ some (record { token = t; employee_role = e.role; employee_status = e.status })
]

-- The first row of the JOIN.
unfoldable pub join_row : Bytes → List Employee → List AuthToken → Option AuthTokenWithEmployee
unfolding first
join_row hash es [] = none
join_row hash es (t ∷ ts) =
    let later = join_row hash es ts in
    if bytes_eq t.token_hash hash
    then elim (join_owner es t) [ none ↦ later | some r ↦ some r ]
    else later

-- `SET revoked_at = now, revoked_reason = reason WHERE id = $3 AND revoked_at IS NULL`
unfoldable pub revoke_rows : Bytes → Bytes → ℕ → List AuthToken → List AuthToken
revoke_rows id reason now [] = []
revoke_rows id reason now (t ∷ ts) =
    (if bytes_eq t.id id && not (is_some t.revoked_at)
      then record t { revoked_at = some now; revoked_reason = reason }
      else t)
    ∷ revoke_rows id reason now ts

-- `SET last_used_at = $1 WHERE id = $2`
unfoldable pub touch_rows : Bytes → ℕ → List AuthToken → List AuthToken
touch_rows id now [] = []
touch_rows id now (t ∷ ts) =
    (if bytes_eq t.id id then record t { last_used_at = some now } else t) ∷ touch_rows id now ts

-- A primary key or a UNIQUE column that the row would repeat, or an owner that is not there.
unfoldable pub breaks_key : AuthToken → List AuthToken → List Employee → Bool
unfolding first
breaks_key t ts es =
    is_some (first (λ u. bytes_eq u.id t.id || bytes_eq u.token_hash t.token_hash) ts)
    || not (is_some (first (λ e. bytes_eq e.id t.employee_id) es))

-- The row that an INSERT leaves: `COALESCE(NULLIF($9, ''), 'UNKNOWN')` for the device. NULL and the
-- empty text are one here, as for the code that reads the row; `at` is what the columns keep of an
-- instant.
unfoldable pub inserted : (ℕ → ℕ) → AuthToken → AuthToken
inserted at t = record t {
  issued_at = at t.issued_at;
  expires_at = at t.expires_at;
  last_used_at = none;
  revoked_at = none;
  revoked_reason = [];
  client = record t.client {
    device_type = if is_empty t.client.device_type then codes "UNKNOWN" else t.client.device_type;
  };
}

module _ {S : Type 0} (b : Backend S) where
  -- A query: its error, or the state behind it.
  abbrev pub query :
      {A : Type 0} → Bytes → World S → (World S → World S × Outcome A) → World S × Outcome A
  query what w go =
      let (s, refused) = b.serve w.env in
      let w1 = record w { env = s } in
      elim refused [ some e ↦ (w1, failed (internal (what ++ e))) | none ↦ go w1 ]

  unfoldable pub find_active_by_hash : Bytes → World S → World S × Outcome AuthTokenWithEmployee
  unfolding join_row
  find_active_by_hash hash w = query (codes "postgres: find auth token by hash: ") w (λ w1. (
    w1,
    elim (join_row hash w1.employees w1.tokens) [ none ↦ failed not_found | some r ↦ done r ],
  ))

  unfoldable pub find_by_email : Bytes → World S → World S × Outcome Employee
  unfolding first
  find_by_email email w = query (codes "postgres: find employee by email: ") w (λ w1. (
    w1,
    elim (first (λ e. bytes_eq e.email email) w1.employees) [
      | none ↦ failed not_found
      | some e ↦ done e
    ],
  ))

  unfoldable pub create : AuthToken → World S → World S × Outcome (Unit {0})
  unfolding breaks_key inserted
  create t w = query (codes "postgres: create auth token: ") w (λ w1. elim (b.column_error t) [
    | some e ↦ (w1, failed (internal (codes "postgres: create auth token: " ++ e)))
    | none ↦
        if breaks_key t w1.tokens w1.employees
        then (w1, failed (internal (codes "postgres: create auth token: constraint")))
        else (record w1 { tokens = inserted b.column_instant t ∷ w1.tokens }, done tt)
  ])

  unfoldable pub revoke : Bytes → Bytes → ℕ → World S → World S × Outcome (Unit {0})
  unfolding revoke_rows
  revoke id reason now w = query (codes "postgres: revoke auth token: ") w (λ w1.
      (record w1 { tokens = revoke_rows id reason (b.column_instant now) w1.tokens }, done tt))

  unfoldable pub touch_last_used : Bytes → ℕ → World S → World S × Outcome (Unit {0})
  unfolding touch_rows
  touch_last_used id now w =
      query (codes "postgres: touch auth token last_used_at: ") w
        (λ w1. (record w1 { tokens = touch_rows id (b.column_instant now) w1.tokens }, done tt))
