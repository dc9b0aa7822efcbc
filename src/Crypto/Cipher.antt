-- ===== src/Crypto/Cipher.antt =====
-- pkg/crypto/cipher.go. SHA-256, AES and GCM are the parameter `Suite`; a cipher is what
-- `cipher.NewGCM` returned, and the bytes of a nonce are an argument.
use dijex_api.Prelude.{◌++◌, ℕ, none, some, ltb, if◌then◌else◌, length, take, drop}
use dijex_api.Text.{Bytes, codes}
use dijex_api.Crypto.Base64.{std_encode, std_decode}

-- The errors of pkg/crypto/cipher.go, and any other with its message.
pub data CipherError : Type 0 where
  secret_too_short malformed : CipherError
  other : Bytes → CipherError

pub data Result (A : Type 0) : Type 0 where
  error : CipherError → Result A
  ok : A → Result A

-- `cipher.AEAD` without additional data: `Seal` without the nonce that it appends to, and `Open`,
-- which may refuse with an error.
pub record Aead : Type 0 where
  pub nonce_size : ℕ
  pub seal : Bytes → Bytes → Bytes
  pub open_sealed : Bytes → Bytes → Result Bytes

pub record Suite (Block : Type 0) : Type 0 where
  pub sha256 : Bytes → Bytes
  -- `aes.NewCipher`
  pub aes : Bytes → Result Block
  -- `cipher.NewGCM`
  pub gcm : Block → Result Aead

abbrev pub min_cipher_secret_length : ℕ
min_cipher_secret_length = 16

-- `fmt.Errorf("prefix: %w", err)` and, for the errors of this package, `err.Error()`.
abbrev pub error_message : CipherError → Bytes
error_message secret_too_short = codes "crypto: cipher secret too short, want >= 16 chars"
error_message malformed = codes "crypto: ciphertext malformed"
error_message (other e) = e

abbrev pub prefix_error : Bytes → CipherError → CipherError
prefix_error prefix e = other (prefix ++ error_message e)

unfoldable pub new_cipher : {Block : Type 0} → Suite Block → Bytes → Result Aead
new_cipher suite secret =
    if ltb (length secret) min_cipher_secret_length
    then error secret_too_short
    else elim (suite.aes (suite.sha256 secret)) [
      | error e ↦ error (prefix_error (codes "crypto: new aes cipher: ") e)
      | ok block ↦ elim (suite.gcm block) [
        | error e ↦ error (prefix_error (codes "crypto: new gcm: ") e)
        | ok aead ↦ ok aead
      ]
    ]

-- `Cipher.Encrypt` from the nonce on: base64 of the nonce and what was sealed.
unfoldable pub encrypt : Aead → Bytes → Bytes → Bytes
unfolding std_encode
encrypt c nonce plaintext = std_encode (nonce ++ c.seal nonce plaintext)

-- `Cipher.Decrypt` behind the decoder.
abbrev pub open_bytes : Aead → Bytes → Result Bytes
open_bytes c bytes =
    if ltb (length bytes) c.nonce_size
    then error malformed
    else elim (c.open_sealed (take c.nonce_size bytes) (drop c.nonce_size bytes)) [
      | error e ↦ error (prefix_error (codes "crypto: decrypt: ") e)
      | ok plaintext ↦ ok plaintext
    ]

unfoldable pub decrypt : Aead → Bytes → Result Bytes
unfolding std_decode
decrypt c encoded = elim (std_decode encoded) [
  | none ↦ error malformed
  | some bytes ↦ open_bytes c bytes
]
