-- ===== src/Crypto/Password.antt =====
-- pkg/crypto/password.go. bcrypt is the parameter `Bcrypt`; the salt that it draws is an argument.
use dijex_api.Prelude.{ℕ, ◌++◌, ◌||◌, Option, none, some, ltb, if◌then◌else◌, length}
use dijex_api.Prelude.Int.{ℤ, pos, int_lt}
use dijex_api.Text.{Bytes, codes, is_empty}
use dijex_api.Auth.Tables.{PasswordCheck, matching, mismatched, broken}

pub data PasswordError : Type 0 where
  empty too_long mismatch : PasswordError
  cost_out_of_range : ℤ → PasswordError
  other : Bytes → PasswordError

-- What bcrypt made of a password: its error, or the hash.
pub data Hashed (A : Type 0) : Type 0 where
  refused : PasswordError → Hashed A
  hashed : A → Hashed A

pub record Bcrypt : Type 0 where
  -- salt, password, cost
  pub generate : Bytes → Bytes → ℤ → Hashed Bytes
  -- hash, password
  pub compare : Bytes → Bytes → PasswordCheck

abbrev pub min_password_cost : ℤ
min_password_cost = pos 4

abbrev pub max_password_cost : ℤ
max_password_cost = pos 31

abbrev pub max_password_bytes : ℕ
max_password_bytes = 72

-- A hasher is its cost.
unfoldable pub new_password_hasher : ℤ → Hashed ℤ
new_password_hasher cost =
    if int_lt cost min_password_cost || int_lt max_password_cost cost
    then refused (cost_out_of_range cost)
    else hashed cost

abbrev pub hash_error : PasswordError → PasswordError
hash_error (other e) = other (codes "crypto: hash password: " ++ e)
hash_error e = e

unfoldable pub hash : Bcrypt → ℤ → Bytes → Bytes → Hashed Bytes
hash b cost salt raw =
    if is_empty raw
    then refused empty
    else if ltb max_password_bytes (length raw)
    then refused too_long
    else elim (b.generate salt raw cost) [
      | refused e ↦ refused (hash_error e)
      | hashed h ↦ hashed h
    ]

-- The error, if there is one.
unfoldable pub verify : Bcrypt → Bytes → Bytes → Option PasswordError
verify b raw h = elim (b.compare h raw) [
  | matching ↦ none
  | mismatched ↦ some mismatch
  | broken e ↦ some (other (codes "crypto: verify password: " ++ e))
]
