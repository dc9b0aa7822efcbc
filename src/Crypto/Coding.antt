-- ===== src/Crypto/Coding.antt =====
-- Decoding takes encoding back, in both alphabets.
use dijex_api.Prelude.{
  ◌≡◌, refl, sym, ap, ℕ, ◌+◌, ◌*◌, ◌/◌, ◌%◌, ◌<◌, false, ◌||◌, List, [], ◌∷◌, ◌++◌, some, All,
  append-nil, length, ◌==◌, arith,
}
use dijex_api.Text.{Bytes}
use dijex_api.Crypto.Base64.{
  Alphabet, std, url, char_of, value_of, std_encode, drop_line_ends, values_of, join_groups,
  is_padding, unpad, decode_chars, std_decode, url_decode,
}
use dijex_api.Auth.Base64.{url_char, encode}

-- Bytes are below 256.
abbrev pub AreBytes : Bytes → Type 0
AreBytes s = All (λ c. c < 256) s

std_value : (v : ℕ) → v < 64 → value_of std (char_of std v) ≡ some v
unfolding value_of char_of
std_value v h = ground arith

url_value : (v : ℕ) → v < 64 → value_of url (url_char v) ≡ some v
unfolding value_of url_char
url_value v h = ground arith

first_byte : (a b : ℕ) → a < 256 → b < 256 → a / 4 * 4 + (a % 4 * 16 + b / 16) / 16 ≡ a
first_byte a b h k = omega arith

second_byte :
    (a b c : ℕ)
    → a < 256
    → b < 256
    → c < 256
    → (a % 4 * 16 + b / 16) % 16 * 16 + (b % 16 * 4 + c / 64) / 4 ≡ b
second_byte a b c h k l = omega arith

third_byte : (b c : ℕ) → b < 256 → c < 256 → (b % 16 * 4 + c / 64) % 4 * 64 + c % 64 ≡ c
third_byte b c h k = omega arith

-- The six-bit groups of the bytes.
groups : Bytes → List ℕ
groups [] = []
groups (a ∷ []) = (a / 4) ∷ (a % 4 * 16) ∷ []
groups (a ∷ b ∷ []) = (a / 4) ∷ (a % 4 * 16 + b / 16) ∷ (b % 16 * 4) ∷ []
groups (a ∷ b ∷ c ∷ s) =
    (a / 4) ∷ (a % 4 * 16 + b / 16) ∷ (b % 16 * 4 + c / 64) ∷ (c % 64) ∷ groups s

groups-below : (s : Bytes) → AreBytes s → All (λ v. v < 64) (groups s)
unfolding groups
groups-below [] h = tt
groups-below (a ∷ []) (ha, h) = (omega arith, (omega arith, tt))
groups-below (a ∷ b ∷ []) (ha, (hb, h)) = (omega arith, (omega arith, (omega arith, tt)))
groups-below (a ∷ b ∷ c ∷ s) (ha, (hb, (hc, h))) =
    (omega arith, (omega arith, (omega arith, (omega arith, groups-below s h))))

join_groups-groups : (s : Bytes) → AreBytes s → join_groups (groups s) ≡ some s
unfolding groups
join_groups-groups [] h = refl
join_groups-groups (a ∷ []) (ha, h) =
    let e : a / 4 * 4 + a % 4 * 16 / 16 ≡ a = omega arith in ap (λ x. some (x ∷ [])) e
join_groups-groups (a ∷ b ∷ []) (ha, (hb, h)) =
    let e : (a % 4 * 16 + b / 16) % 16 * 16 + b % 16 * 4 / 4 ≡ b = omega arith in
    rw (first_byte a b ha hb, e) refl
join_groups-groups (a ∷ b ∷ c ∷ s) (ha, (hb, (hc, h))) =
    rw
      (
        join_groups-groups s h,
        first_byte a b ha hb,
        second_byte a b c ha hb hc,
        third_byte b c hb hc,
      )
      refl

-- Characters that the decoder neither skips nor takes for padding, and no dot.
abbrev IsPlain : ℕ → Type 0
IsPlain c = ((c == b'\n' || c == b'\r') ≡ false) × ((c == b'=') ≡ false) × ((c == b'.') ≡ false)

std-IsPlain : (v : ℕ) → v < 64 → IsPlain (char_of std v)
unfolding char_of
std-IsPlain v h = (ground arith, ground arith, ground arith)

url-IsPlain : (v : ℕ) → v < 64 → IsPlain (url_char v)
unfolding url_char
url-IsPlain v h = (ground arith, ground arith, ground arith)

not_padding : (c : ℕ) (s : Bytes) → (c == b'=') ≡ false → is_padding (c ∷ s) ≡ false
unfolding is_padding
not_padding c [] e = e
not_padding c (d ∷ []) e = rw e refl
not_padding c (d ∷ x ∷ s) e = refl

abbrev spell : (ℕ → ℕ) → List ℕ → Bytes
spell f [] = []
spell f (v ∷ vs) = f v ∷ spell f vs

module _ (al : Alphabet) (f : ℕ → ℕ) (value : (v : ℕ) → v < 64 → value_of al (f v) ≡ some v)
    (plain : (v : ℕ) → v < 64 → IsPlain (f v)) where
  values_of-spell : (vs : List ℕ) → All (λ v. v < 64) vs → values_of al (spell f vs) ≡ some vs
  unfolding values_of
  values_of-spell [] h = refl
  values_of-spell (v ∷ vs) (hv, h) = rw (values_of-spell vs h, value v hv) refl

  drop_line_ends-spell :
      (vs : List ℕ) (end : Bytes)
      → All (λ v. v < 64) vs
      → drop_line_ends end ≡ end
      → drop_line_ends (spell f vs ++ end) ≡ spell f vs ++ end
  drop_line_ends-spell [] end h e = e
  drop_line_ends-spell (v ∷ vs) end (hv, h) e =
      rw (drop_line_ends-spell vs end h e, (plain v hv).0) refl

  unpad-spell :
      (vs : List ℕ) (end : Bytes)
      → All (λ v. v < 64) vs
      → unpad end ≡ []
      → unpad (spell f vs ++ end) ≡ spell f vs
  unfolding unpad
  unpad-spell [] end h e = e
  unpad-spell (v ∷ vs) end (hv, h) e =
      rw (unpad-spell vs end h e, not_padding (f v) (spell f vs ++ end) (plain v hv).1) refl

spell-no_dot :
    (vs : List ℕ) → All (λ v. v < 64) vs → All (λ c. (c == b'.') ≡ false) (spell url_char vs)
spell-no_dot [] h = tt
spell-no_dot (v ∷ vs) (hv, h) = ((url-IsPlain v hv).2, spell-no_dot vs h)

-- What is put behind the characters.
abbrev padding : Bytes → Bytes
padding [] = []
padding (a ∷ []) = b'=' ∷ b'=' ∷ []
padding (a ∷ b ∷ []) = b'=' ∷ []
padding (a ∷ b ∷ c ∷ s) = padding s

std_encode-spell : (s : Bytes) → std_encode s ≡ spell (char_of std) (groups s) ++ padding s
unfolding std_encode groups
std_encode-spell [] = refl
std_encode-spell (a ∷ []) = refl
std_encode-spell (a ∷ b ∷ []) = refl
std_encode-spell (a ∷ b ∷ c ∷ s) = rw (std_encode-spell s) refl

encode-spell : (s : Bytes) → encode s ≡ spell url_char (groups s)
unfolding encode groups
encode-spell [] = refl
encode-spell (a ∷ []) = refl
encode-spell (a ∷ b ∷ []) = refl
encode-spell (a ∷ b ∷ c ∷ s) = rw (encode-spell s) refl

padding-kept : (s : Bytes) → drop_line_ends (padding s) ≡ padding s
padding-kept [] = refl
padding-kept (a ∷ []) = refl
padding-kept (a ∷ b ∷ []) = refl
padding-kept (a ∷ b ∷ c ∷ s) = padding-kept s

padding-cut : (s : Bytes) → unpad (padding s) ≡ []
unfolding unpad
padding-cut [] = refl
padding-cut (a ∷ []) = refl
padding-cut (a ∷ b ∷ []) = refl
padding-cut (a ∷ b ∷ c ∷ s) = padding-cut s

length-std_encode : (s : Bytes) → length (std_encode s) % 4 ≡ 0
unfolding std_encode
length-std_encode [] = refl
length-std_encode (a ∷ []) = refl
length-std_encode (a ∷ b ∷ []) = refl
length-std_encode (a ∷ b ∷ c ∷ s) = omega (arith, length-std_encode s)

pub std_decode-encode : (s : Bytes) → AreBytes s → std_decode (std_encode s) ≡ some s
unfolding std_decode decode_chars
std_decode-encode s h =
    let below = groups-below s h in
    let kept : drop_line_ends (std_encode s) ≡ std_encode s = rw (std_encode-spell s) (
      drop_line_ends-spell std (char_of std) std_value std-IsPlain (groups s) (padding s) below
        (padding-kept s)) in
    let cut : unpad (std_encode s) ≡ spell (char_of std) (groups s) = rw (std_encode-spell s) (
      unpad-spell std (char_of std) std_value std-IsPlain (groups s) (padding s) below
        (padding-cut s)) in
    rw
      (
        kept,
        length-std_encode s,
        cut,
        decode_chars,
        values_of-spell std (char_of std) std_value std-IsPlain (groups s) below,
      )
      (join_groups-groups s h)

pub url_decode-encode : (s : Bytes) → AreBytes s → url_decode (encode s) ≡ some s
unfolding url_decode decode_chars
url_decode-encode s h =
    let below = groups-below s h in
    let kept : drop_line_ends (encode s) ≡ encode s =
      rw (encode-spell s, sym (append-nil (spell url_char (groups s))))
        (drop_line_ends-spell url url_char url_value url-IsPlain (groups s) [] below refl) in
    rw
      (
        kept,
        encode-spell s,
        decode_chars,
        values_of-spell url url_char url_value url-IsPlain (groups s) below,
      )
      (join_groups-groups s h)

-- Where no character is a dot.
pub encode-no_dot : (s : Bytes) → AreBytes s → All (λ c. (c == b'.') ≡ false) (encode s)
encode-no_dot s h = rw (encode-spell s) (spell-no_dot (groups s) (groups-below s h))
