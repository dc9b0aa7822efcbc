-- ===== src/Crypto/Passwords.antt =====
-- Hashes of passwords: which passwords are hashed, and that the hash is the password's.
use dijex_api.Prelude.{
  ◌≡◌, ◌⊎◌, refl, ap, ◌∙◌, ◌≤◌, false, [], ◌∷◌, none, Bool-cases, inl, inr, length, ltb, arith,
}
use dijex_api.Prelude.Int.{ℤ}
use dijex_api.Text.{Bytes, is_empty}
use dijex_api.Auth.Tables.{matching}
use dijex_api.Crypto.Password.{Bcrypt, Hashed, PasswordError, refused, hashed, hash, verify}

-- What bcrypt promises of a password that it hashed.
abbrev pub Matches : Bcrypt → ℤ → Bytes → Bytes → Type 0
Matches b cost salt raw =
    (h : Bytes) → b.generate salt raw cost ≡ hashed h → b.compare h raw ≡ matching

hashed-injective : {A : Type 0} (x y : A) → hashed x ≡ hashed y → x ≡ y
hashed-injective x y h = cc

Hashed-cases :
    {A : Type 0} (o : Hashed A)
    → ((e : PasswordError) × (o ≡ refused e)) ⊎ ((a : A) × (o ≡ hashed a))
Hashed-cases (refused e) = inl (e, refl)
Hashed-cases (hashed a) = inr (a, refl)

generated :
    (b : Bcrypt) (cost : ℤ) (salt raw h : Bytes)
    → is_empty raw ≡ false
    → ltb 72 (length raw) ≡ false
    → hash b cost salt raw ≡ hashed h
    → b.generate salt raw cost ≡ hashed h
unfolding hash
generated b cost salt raw h e f made = elim (Hashed-cases (b.generate salt raw cost)) [
  | inl (x, g) ↦ absurd (let k = rw (hash, e, f, g) at made in cc)
  | inr (a, g) ↦ g ∙ ap hashed (hashed-injective a h (rw (hash, e, f, g) at made))
]

-- A password that `Hash` took has 1 to 72 bytes, and `Verify` accepts it against its hash, provided
-- that bcrypt accepts what it hashed.
pub verify-hash :
    (b : Bcrypt) (cost : ℤ) (salt raw h : Bytes)
    → Matches b cost salt raw
    → hash b cost salt raw ≡ hashed h
    → (1 ≤ length raw) × (length raw ≤ 72) × (verify b raw h ≡ none)
unfolding hash verify
verify-hash b cost salt [] h m made = absurd (cc)
verify-hash b cost salt (c ∷ s) h m made = elim (Bool-cases (ltb 72 (length (c ∷ s)))) [
  | inl e ↦ absurd (let k = rw (hash, e) at made in cc)
  | inr e ↦
      let same = m h (generated b cost salt (c ∷ s) h refl e made) in
      (omega arith, ground arith, rw (verify, same) refl)
]
