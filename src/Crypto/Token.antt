-- ===== src/Crypto/Token.antt =====
-- `TokenSigner` of pkg/crypto/token.go. HMAC-SHA256 and encoding/json are the parameter `Signing`;
-- the time is an argument, in seconds.
use dijex_api.Prelude.{
  Bool, false, ◌||◌, not, List, [], ◌∷◌, ◌++◌, Option, none, some, ltb, if◌then◌else◌, length, ℕ,
}
use dijex_api.Prelude.Int.{ℤ, pos, int_lt, int_eq}
use dijex_api.Text.{Bytes, codes, is_empty, bytes_eq, split}
use dijex_api.Crypto.Base64.{url_decode}
use dijex_api.Auth.Base64.{encode}

pub record SignedTokenPayload : Type 0 where
  pub subject : Bytes
  pub purpose : Bytes
  pub issued_at : ℤ
  pub expires_at : ℤ
  pub extra : List (Bytes × Bytes)

-- The errors that the callers tell apart, and any other with its message.
pub data TokenError : Type 0 where
  malformed invalid expired : TokenError
  secret_too_short : ℕ → TokenError
  other : Bytes → TokenError

pub data Signed (A : Type 0) : Type 0 where
  refused : TokenError → Signed A
  ok : A → Signed A

pub record Signing : Type 0 where
  -- secret, text
  pub hmac : Bytes → Bytes → Bytes
  -- `json.Marshal` and `json.Unmarshal`: `none` is an error
  pub marshal : SignedTokenPayload → Option Bytes
  pub unmarshal : Bytes → Option SignedTokenPayload

abbrev pub min_token_secret_length : ℕ
min_token_secret_length = 32

-- `NewTokenSigner`: a signer is its secret.
unfoldable pub new_token_signer : Bytes → Signed Bytes
new_token_signer secret =
    if ltb (length secret) min_token_secret_length
    then refused (secret_too_short (length secret))
    else ok secret

unfoldable pub is_expired : SignedTokenPayload → ℤ → Bool
is_expired p now = if int_eq p.expires_at (pos 0) then false else not (int_lt now p.expires_at)

module _ (g : Signing) (secret : Bytes) where
  unfoldable pub signature : Bytes → Bytes
  unfolding encode
  signature body = encode (g.hmac secret body)

  unfoldable pub sign : SignedTokenPayload → Signed Bytes
  unfolding encode signature
  sign payload = elim (g.marshal payload) [
    | none ↦ refused (other (codes "crypto: marshal signed token payload"))
    | some body ↦ ok (encode body ++ (b'.' ∷ signature (encode body)))
  ]

  -- Behind the signature.
  unfoldable pub read_payload : ℤ → Bytes → Signed SignedTokenPayload
  unfolding url_decode is_expired
  read_payload now part = elim (url_decode part) [
    | none ↦ refused malformed
    | some body ↦ elim (g.unmarshal body) [
      | none ↦ refused malformed
      | some payload ↦ if is_expired payload now then refused expired else ok payload
    ]
  ]

  unfoldable pub verify_parts : ℤ → Bytes → Bytes → Signed SignedTokenPayload
  unfolding url_decode read_payload
  verify_parts now body sig =
      if is_empty body || is_empty sig then refused malformed else elim (url_decode sig) [
        | none ↦ refused malformed
        | some wanted ↦
            if bytes_eq wanted (g.hmac secret body) then read_payload now body else refused invalid
      ]

  unfoldable pub verify_split : ℤ → List Bytes → Signed SignedTokenPayload
  unfolding verify_parts
  verify_split now (body ∷ sig ∷ []) = verify_parts now body sig
  verify_split now parts = refused malformed

  unfoldable pub verify : ℤ → Bytes → Signed SignedTokenPayload
  unfolding split verify_split
  verify now token = verify_split now (split b'.' token)
