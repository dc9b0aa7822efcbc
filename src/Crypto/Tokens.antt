-- ===== src/Crypto/Tokens.antt =====
-- Signed tokens: what `Verify` accepts, and that it accepts what `Sign` made.
use dijex_api.Prelude.{
  ◌≡◌, refl, sym, ap, ◌∙◌, ℕ, false, ◌||◌, List, [], ◌∷◌, ◌++◌, some, All, Bool-cases, Option-cases,
  inl, inr, ◌==◌,
}
use dijex_api.Prelude.Int.{ℤ}
use dijex_api.Text.{Bytes, is_empty, bytes_eq, split}
use dijex_api.Text.Equality.{bytes_eq_iff, bytes_eq_refl}
use dijex_api.Crypto.Base64.{url_decode}
use dijex_api.Crypto.Coding.{AreBytes, url_decode-encode, encode-no_dot}
use dijex_api.Auth.Base64.{encode}
use dijex_api.Crypto.Token.{
  SignedTokenPayload, Signing, ok, is_expired, sign, verify, verify_parts, verify_split,
  read_payload, signature,
}

split-no_byte : (s : Bytes) → All (λ c. (c == b'.') ≡ false) s → split b'.' s ≡ s ∷ []
unfolding split
split-no_byte [] h = refl
split-no_byte (c ∷ s) (e, h) = rw (e, split-no_byte s h) refl

split-two :
    (s t : Bytes)
    → All (λ c. (c == b'.') ≡ false) s
    → All (λ c. (c == b'.') ≡ false) t
    → split b'.' (s ++ (b'.' ∷ t)) ≡ s ∷ t ∷ []
unfolding split
split-two [] t hs ht = rw (split-no_byte t ht) refl
split-two (c ∷ s) t (e, hs) ht = rw (e, split-two s t hs ht) refl

-- What the parameters promise of a payload.
pub record Signs (g : Signing) (secret : Bytes) (p : SignedTokenPayload) : Type 0 where
  pub head : ℕ
  pub rest : Bytes
  pub marshalled : g.marshal p ≡ some (head ∷ rest)
  pub read_back : g.unmarshal (head ∷ rest) ≡ some p
  pub body_bytes : AreBytes (head ∷ rest)
  pub mac_head : ℕ
  pub mac_rest : Bytes
  pub mac : g.hmac secret (encode (head ∷ rest)) ≡ mac_head ∷ mac_rest
  pub mac_bytes : AreBytes (mac_head ∷ mac_rest)

ok-injective : {A : Type 0} (x y : A) → ok x ≡ ok y → x ≡ y
ok-injective x y h = cc

encode-cons : (c : ℕ) (s : Bytes) → is_empty (encode (c ∷ s)) ≡ false
unfolding encode
encode-cons c [] = refl
encode-cons c (d ∷ []) = refl
encode-cons c (d ∷ e ∷ s) = refl

-- A token that `Sign` made of a payload is accepted by `Verify` with the same secret as long as the
-- payload has not expired, and gives the payload back, provided that JSON reads back what it wrote
-- and that neither it nor the signature is empty.
pub verify-sign :
    (g : Signing) (secret : Bytes) (p : SignedTokenPayload) (now : ℤ) (token : Bytes)
    → Signs g secret p
    → is_expired p now ≡ false
    → sign g secret p ≡ ok token
    → verify g secret now token ≡ ok p
unfolding sign signature verify verify_split verify_parts read_payload
verify-sign g secret p now token s fresh made =
    let body = s.head ∷ s.rest in
    let sig = s.mac_head ∷ s.mac_rest in
    let text : encode body ++ (b'.' ∷ encode sig) ≡ token =
      ok-injective _ _ (rw (sign, s.marshalled, s.mac) at made) in
    let parts =
      split-two (encode body) (encode sig) (encode-no_dot body s.body_bytes)
        (encode-no_dot sig s.mac_bytes) in
    rw
      (
        sym text,
        parts,
        encode-cons s.head s.rest,
        encode-cons s.mac_head s.mac_rest,
        url_decode-encode sig s.mac_bytes,
        s.mac,
        bytes_eq_refl sig,
        read_payload,
        url_decode-encode body s.body_bytes,
        s.read_back,
        fresh,
      )
      refl

-- What a token must be to be accepted: two parts, of which the second is the signature of the first
-- and the first holds a payload that has not expired.
pub record Accepted (g : Signing) (secret : Bytes) (now : ℤ) (token : Bytes)
    (p : SignedTokenPayload) : Type 0 where
  pub body : Bytes
  pub sig : Bytes
  pub parts : split b'.' token ≡ body ∷ sig ∷ []
  pub signed : url_decode sig ≡ some (g.hmac secret body)
  pub json : Bytes
  pub decoded : url_decode body ≡ some json
  pub payload : g.unmarshal json ≡ some p
  pub fresh : is_expired p now ≡ false

module _ (g : Signing) (secret : Bytes) (now : ℤ) (p : SignedTokenPayload) where
  read_payload-ok :
      (body : Bytes)
      → read_payload g secret now body ≡ ok p
      → (json : Bytes) × (url_decode body ≡ some json)
        × (g.unmarshal json ≡ some p)
        × (is_expired p now ≡ false)
  unfolding read_payload
  read_payload-ok body h = elim (Option-cases (url_decode body)) [
    | inl e ↦ absurd (let k = rw (read_payload, e) at h in cc)
    | inr (json, e) ↦ elim (Option-cases (g.unmarshal json)) [
      | inl f ↦ absurd (let k = rw (read_payload, e, f) at h in cc)
      | inr (q, f) ↦ elim (Bool-cases (is_expired q now)) [
        | inl x ↦ absurd (let k = rw (read_payload, e, f, x) at h in cc)
        | inr x ↦
            let same : q ≡ p = ok-injective q p (rw (read_payload, e, f, x) at h) in
            (json, e, f ∙ ap some same, ap (λ r. is_expired r now) (sym same) ∙ x)
      ]
    ]
  ]

  verify_parts-ok :
      (token body sig : Bytes)
      → split b'.' token ≡ body ∷ sig ∷ []
      → verify_parts g secret now body sig ≡ ok p
      → Accepted g secret now token p
  unfolding verify_parts
  verify_parts-ok token body sig e h = elim (Bool-cases (is_empty body || is_empty sig)) [
    | inl x ↦ absurd (let k = rw (verify_parts, x) at h in cc)
    | inr x ↦ elim (Option-cases (url_decode sig)) [
      | inl f ↦ absurd (let k = rw (verify_parts, x, f) at h in cc)
      | inr (mac, f) ↦ elim (Bool-cases (bytes_eq mac (g.hmac secret body))) [
        | inr y ↦ absurd (let k = rw (verify_parts, x, f, y) at h in cc)
        | inl y ↦
            let (json, d, u, fresh) = read_payload-ok body (rw (verify_parts, x, f, y) at h) in
            record {
              body = body;
              sig = sig;
              parts = e;
              signed = f ∙ ap some ((bytes_eq_iff mac (g.hmac secret body)).0 y);
              json = json;
              decoded = d;
              payload = u;
              fresh = fresh;
            }
      ]
    ]
  ]

  verify_split-ok :
      (token : Bytes) (parts : List Bytes)
      → split b'.' token ≡ parts
      → verify_split g secret now parts ≡ ok p
      → Accepted g secret now token p
  unfolding verify_split
  verify_split-ok token (body ∷ sig ∷ []) e h = verify_parts-ok token body sig e h
  verify_split-ok token [] e h = absurd (cc)
  verify_split-ok token (body ∷ []) e h = absurd (cc)
  verify_split-ok token (body ∷ sig ∷ x ∷ parts) e h = absurd (cc)

-- `Verify` accepts a token only if it has two parts, the second decodes to the HMAC of the first under
-- the secret, and the first decodes to the JSON of the payload that is returned, which has not
-- expired.
pub verify-Accepted :
    (g : Signing) (secret : Bytes) (now : ℤ) (token : Bytes) (p : SignedTokenPayload)
    → verify g secret now token ≡ ok p
    → Accepted g secret now token p
unfolding verify
verify-Accepted g secret now token p h =
    verify_split-ok g secret now p token (split b'.' token) refl h
