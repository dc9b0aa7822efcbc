-- ===== src/Tests/Crypto.antt =====
-- Secrets, tokens and passwords over small parameters.
use dijex_api.Prelude.{◌≡◌, refl, ◌≤◌, false, none, some, [], ◌∷◌, length, arith}
use dijex_api.Prelude.Int.{pos}
use dijex_api.Text.{codes}
use dijex_api.Auth.Tables.{matching}
use dijex_api.Crypto.Cipher.{ok, encrypt, decrypt}
use dijex_api.Crypto.Secrets.{Opens, decrypt-encrypt}
use dijex_api.Crypto.Token as Token
use dijex_api.Crypto.Token.{SignedTokenPayload, Signing, is_expired, sign}
use dijex_api.Crypto.Tokens.{Signs, Accepted, verify-sign, verify-Accepted}
use dijex_api.Crypto.Password as Password
use dijex_api.Crypto.Password.{Bcrypt, hashed, hash}
use dijex_api.Crypto.Passwords.{verify-hash}
use dijex_api.Tests.Services.{plain_aead}

plain-Opens : Opens plain_aead (1 ∷ 2 ∷ []) (codes "pw")
plain-Opens = record {
  size = refl;
  nonce_bytes = (omega arith, (omega arith, tt));
  sealed_bytes = (omega arith, (omega arith, tt));
  opened = refl;
}

decrypt-encrypt_example :
    decrypt plain_aead (encrypt plain_aead (1 ∷ 2 ∷ []) (codes "pw")) ≡ ok (codes "pw")
decrypt-encrypt_example = decrypt-encrypt plain_aead (1 ∷ 2 ∷ []) (codes "pw") plain-Opens

abbrev reset : SignedTokenPayload
reset = record {
  subject = codes "e1";
  purpose = codes "password_reset";
  issued_at = pos 10;
  expires_at = pos 20;
  extra = [];
}

abbrev signing : Signing
signing = record {
  hmac = λ secret text. 7 ∷ 8 ∷ [];
  marshal = λ p. some (codes "{}");
  unmarshal = λ s. some reset;
}

reset-Signs : Signs signing (codes "k") reset
reset-Signs = record {
  head = b'{';
  rest = b'}' ∷ [];
  marshalled = refl;
  read_back = refl;
  body_bytes = (omega arith, (omega arith, tt));
  mac_head = 7;
  mac_rest = 8 ∷ [];
  mac = refl;
  mac_bytes = (omega arith, (omega arith, tt));
}

reset_made : sign signing (codes "k") reset ≡ Token.ok (codes "e30.Bwg")
unfolding sign
reset_made = refl

reset_fresh : is_expired reset (pos 15) ≡ false
unfolding is_expired
reset_fresh = refl

verify-sign_example : Token.verify signing (codes "k") (pos 15) (codes "e30.Bwg") ≡ Token.ok reset
verify-sign_example =
    verify-sign signing (codes "k") reset (pos 15) (codes "e30.Bwg") reset-Signs reset_fresh
      reset_made

reset_verified : Token.verify signing (codes "k") (pos 15) (codes "e30.Bwg") ≡ Token.ok reset
unfolding Token.verify
reset_verified = refl

verify-Accepted_example : Accepted signing (codes "k") (pos 15) (codes "e30.Bwg") reset
verify-Accepted_example =
    verify-Accepted signing (codes "k") (pos 15) (codes "e30.Bwg") reset reset_verified

abbrev slow : Bcrypt
slow = record { generate = λ salt raw cost. hashed (36 ∷ raw); compare = λ h raw. matching }

hash_made : hash slow (pos 12) [] (codes "pa55") ≡ hashed (36 ∷ codes "pa55")
unfolding hash
hash_made = refl

verify-hash_example :
    (1 ≤ length (codes "pa55"))
    × (length (codes "pa55") ≤ 72)
    × (Password.verify slow (codes "pa55") (36 ∷ codes "pa55") ≡ none)
verify-hash_example =
    verify-hash slow (pos 12) [] (codes "pa55") (36 ∷ codes "pa55") (λ h e. refl) hash_made
