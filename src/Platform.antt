-- ===== src/Platform.antt =====
-- What the services of registries and servers share: the two tables, the parameter `Platform` for
-- PostgreSQL, the clock, random numbers and AES-GCM, the queries' way to fail, and transactions.
-- An instant is what a column of PostgreSQL holds, a number of microseconds; an id is the text of a
-- UUID.
pub mod Rows
pub mod Keys
pub mod Keeping
pub mod Checks
pub mod Pages
pub mod Paging
pub mod Rules
use dijex_api.Prelude.{
  ℕ, Bool, true, false, [], ◌∷◌, ◌++◌, List, Option, none, some, if◌then◌else◌, take, drop,
}
use dijex_api.Prelude.Int.{ℤ, pos, negsuc}
use dijex_api.Text.{Bytes, codes, bytes_eq, is_empty}
use dijex_api.Action.{
  FieldError, Failure, validation, already_exists, internal, wrap, Reply, failed, done, Action,
  pure, raise, modify, ◌>>=◌, ◌>>◌,
}
use dijex_api.Crypto.Cipher.{Aead, Result, error, ok, error_message, encrypt, decrypt}
use dijex_api.Platform.Rules.{problem}
use dijex_api.Registry.Types.{Registry}
use dijex_api.Server.Types.{Server}

-- The tables and all else.
pub record World (S : Type 0) : Type 0 where
  pub env : S
  pub registries : List Registry
  pub servers : List Server

pub record Platform (S : Type 0) : Type 0 where
  -- the error of the next statement, if the connection or the context does not serve it
  pub serve : S → S × Option Bytes
  -- `NOW()`
  pub db_now : S → S × ℕ
  pub clock : S → S × ℕ
  pub new_uuid : S → S × Bytes
  -- `io.ReadFull(rand.Reader, ...)` into a buffer of this length
  pub random : ℕ → S → S × Result Bytes
  pub aead : Aead
  pub unicode_lower : Bytes → Bytes
  pub unicode_upper : Bytes → Bytes
  -- whether `mail.ParseAddress` takes the text
  pub is_address : Bytes → Bool
  -- the error of a row whose values the columns do not take, by type, by length or by a CHECK
  pub registry_error : Registry → Option Bytes
  pub server_error : Server → Option Bytes
  -- `text ILIKE pattern`
  pub ilike : Bytes → Bytes → Bool
  -- `ORDER BY column direction, id` for a column's name and whether the direction is DESC
  pub order_registries : Bytes → Bool → List Registry → List Registry
  pub order_servers : Bytes → Bool → List Server → List Server

abbrev pub nil_uuid : Bytes
nil_uuid = codes "00000000-0000-0000-0000-000000000000"

-- A single problem as an error.
unfoldable pub invalid : {A : Type 0} {W : Type 0} → Bytes → Bytes → Action W A
unfolding raise
invalid field message = raise (validation (problem field message ∷ []))

-- `if id == uuid.Nil` at the head of a method.
unfoldable pub require_id : {W : Type 0} → Bytes → Bytes → Action W (Unit {0})
unfolding invalid pure
require_id field id = if bytes_eq id nil_uuid then invalid field (codes "is required") else pure tt

-- A unique key that the row would repeat: SQLSTATE 23505.
unfoldable pub unless_clash : {W : Type 0} → Bool → Action W (Unit {0})
unfolding raise pure
unless_clash true = raise already_exists
unless_clash false = pure tt

-- `LIMIT limit OFFSET offset`: PostgreSQL refuses an offset below 0.
unfoldable pub page_of : {A : Type 0} {W : Type 0} → Bytes → ℕ → ℤ → List A → Action W (List A)
unfolding pure raise
page_of what limit (pos offset) rows = pure (take limit (drop offset rows))
page_of what limit (negsuc n) rows =
    raise (internal (what ++ codes "ERROR: OFFSET must not be negative (SQLSTATE 2201X)"))

module _ {S : Type 0} where
  unfoldable pub from_env : {A : Type 0} → (S → S × A) → Action (World S) A
  from_env f w = let (s, a) = f w.env in (record w { env = s }, done a)

  -- An error that the database gave, if it gave one.
  unfoldable pub fits : Bytes → Option Bytes → Action (World S) (Unit {0})
  unfolding pure raise
  fits what none = pure tt
  fits what (some e) = raise (internal (what ++ e))

  unfoldable pub refused : {A : Type 0} → Bytes → Result A → Action (World S) A
  unfolding raise pure
  refused what (error e) = raise (internal (what ++ error_message e))
  refused what (ok a) = pure a

  -- The rows that a transaction found come back if it fails.
  abbrev pub roll_back : {A : Type 0} → World S → World S → Reply A → World S × Reply A
  roll_back before w (done a) = (w, done a)
  roll_back before w (failed e) = (record before { env = w.env }, failed e)

  unfoldable pub transaction : {A : Type 0} → Action (World S) A → Action (World S) A
  transaction m w = let (w', r) = m w in roll_back w w' r

module _ {S : Type 0} (p : Platform S) where
  unfoldable pub query : Bytes → Action (World S) (Unit {0})
  unfolding ◌>>=◌ from_env fits
  query what = from_env p.serve >>= fits what

  -- `Cipher.Encrypt`
  unfoldable pub encrypt_text : Bytes → Action (World S) Bytes
  unfolding encrypt from_env refused
  encrypt_text plaintext = do
    drawn ← from_env (p.random p.aead.nonce_size)
    nonce ← refused (codes "crypto: generate nonce: ") drawn
    pure (encrypt p.aead nonce plaintext)

  -- `Cipher.Decrypt` of a stored secret, which is empty where none is stored.
  unfoldable pub decrypt_stored : Bytes → Action (World S) Bytes
  unfolding decrypt refused
  decrypt_stored stored = if is_empty stored then pure [] else refused [] (decrypt p.aead stored)
