-- ===== src/Crypto/Secrets.antt =====
-- What is encrypted can be decrypted again.
use dijex_api.Prelude.{
  ◌≡◌, refl, sym, ap, ℕ, ◌+◌, ◌<◌, false, [], ◌∷◌, ◌++◌, All-append, length, take, drop, ltb,
  length-append, arith,
}
use dijex_api.Text.{Bytes}
use dijex_api.Crypto.Coding.{AreBytes, std_decode-encode}
use dijex_api.Crypto.Cipher.{Aead, ok, encrypt, decrypt}

-- What GCM promises of a nonce of its size: what it seals are bytes, and it opens them again.
pub record Opens (c : Aead) (nonce text : Bytes) : Type 0 where
  pub size : length nonce ≡ c.nonce_size
  pub nonce_bytes : AreBytes nonce
  pub sealed_bytes : AreBytes (c.seal nonce text)
  pub opened : c.open_sealed nonce (c.seal nonce text) ≡ ok text

take-append : (xs ys : Bytes) → take (length xs) (xs ++ ys) ≡ xs
take-append [] ys = refl
take-append (x ∷ xs) ys = ap (λ zs. x ∷ zs) (take-append xs ys)

drop-append_all : (xs ys : Bytes) → drop (length xs) (xs ++ ys) ≡ ys
drop-append_all [] ys = refl
drop-append_all (x ∷ xs) ys = drop-append_all xs ys

not_below : (n m : ℕ) → ltb (n + m) n ≡ false
not_below n m = ground arith

not_shorter : (xs ys : Bytes) → ltb (length (xs ++ ys)) (length xs) ≡ false
not_shorter xs ys = rw (length-append xs ys) (not_below (length xs) (length ys))

-- `Decrypt` of what `Encrypt` returned is the text, whatever the text and the nonce are, provided
-- that the AEAD opens what it sealed under a nonce of its size.
pub decrypt-encrypt :
    (c : Aead) (nonce text : Bytes)
    → Opens c nonce text
    → decrypt c (encrypt c nonce text) ≡ ok text
unfolding decrypt encrypt
decrypt-encrypt c nonce text o =
    let whole = All-append (λ b. b < 256) nonce (c.seal nonce text) o.nonce_bytes o.sealed_bytes in
    rw
      (
        decrypt,
        encrypt,
        std_decode-encode (nonce ++ c.seal nonce text) whole,
        sym o.size,
        not_shorter nonce (c.seal nonce text),
        take-append nonce (c.seal nonce text),
        drop-append_all nonce (c.seal nonce text),
        o.opened,
      )
      refl
