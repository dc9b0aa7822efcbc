-- ===== src/Crypto/Base64.antt =====
-- The two alphabets of encoding/base64 that the program uses: `StdEncoding` with padding for the
-- cipher, `RawURLEncoding` without it for tokens. A decoder skips line ends and does not look at the
-- bits left over.
use dijex_api.Prelude.{
  ℕ, ◌+◌, ◌-◌, ◌*◌, ◌/◌, ◌%◌, Bool, false, ◌&&◌, ◌||◌, List, [], ◌∷◌, Option, none, some, ltb, leb,
  ◌==◌, if◌then◌else◌, length,
}
use dijex_api.Text.{Bytes}

-- The characters for 62 and 63 are all that tells the alphabets apart.
pub record Alphabet : Type 0 where
  pub plus : ℕ
  pub slash : ℕ

abbrev pub std : Alphabet
std = record { plus = b'+'; slash = b'/' }

abbrev pub url : Alphabet
url = record { plus = b'-'; slash = b'_' }

unfoldable pub char_of : Alphabet → ℕ → ℕ
char_of al v =
    if ltb v 26
    then v + b'A'
    else if ltb v 52
    then v - 26 + b'a'
    else if ltb v 62
    then v - 52 + b'0'
    else if v == 62
    then al.plus
    else al.slash

unfoldable pub value_of : Alphabet → ℕ → Option ℕ
value_of al c =
    if leb b'A' c && leb c b'Z'
    then some (c - b'A')
    else if leb b'a' c && leb c b'z'
    then some (c - b'a' + 26)
    else if leb b'0' c && leb c b'9'
    then some (c - b'0' + 52)
    else if c == al.plus
    then some 62
    else if c == al.slash
    then some 63
    else none

-- `StdEncoding.EncodeToString`
unfoldable pub std_encode : Bytes → Bytes
unfolding char_of
std_encode [] = []
std_encode (a ∷ []) = char_of std (a / 4) ∷ char_of std (a % 4 * 16) ∷ b'=' ∷ b'=' ∷ []
std_encode (a ∷ b ∷ []) =
    char_of std (a / 4) ∷ char_of std (a % 4 * 16 + b / 16) ∷ char_of std (b % 16 * 4) ∷ b'=' ∷ []
std_encode (a ∷ b ∷ c ∷ s) =
    char_of std (a / 4)
    ∷ char_of std (a % 4 * 16 + b / 16)
    ∷ char_of std (b % 16 * 4 + c / 64)
    ∷ char_of std (c % 64)
    ∷ std_encode s

abbrev pub drop_line_ends : Bytes → Bytes
drop_line_ends [] = []
drop_line_ends (c ∷ s) =
    let rest = drop_line_ends s in if c == b'\n' || c == b'\r' then rest else c ∷ rest

unfoldable pub values_of : Alphabet → Bytes → Option (List ℕ)
unfolding value_of
values_of al [] = some []
values_of al (c ∷ s) = elim (values_of al s) [
  | none ↦ none
  | some vs ↦ elim (value_of al c) [ none ↦ none | some v ↦ some (v ∷ vs) ]
]

-- The bytes of six-bit groups: a single group at the end holds no byte and is an error.
abbrev pub join_groups : List ℕ → Option Bytes
join_groups [] = some []
join_groups (u ∷ []) = none
join_groups (u ∷ v ∷ []) = some ((u * 4 + v / 16) ∷ [])
join_groups (u ∷ v ∷ w ∷ []) = some ((u * 4 + v / 16) ∷ (v % 16 * 16 + w / 4) ∷ [])
join_groups (u ∷ v ∷ w ∷ x ∷ vs) = elim (join_groups vs) [
  | none ↦ none
  | some s ↦ some ((u * 4 + v / 16) ∷ (v % 16 * 16 + w / 4) ∷ (w % 4 * 64 + x) ∷ s)
]

unfoldable pub is_padding : Bytes → Bool
is_padding (c ∷ []) = c == b'='
is_padding (c ∷ d ∷ []) = c == b'=' && d == b'='
is_padding s = false

-- The text without the one or two `=` at its end.
unfoldable pub unpad : Bytes → Bytes
unfolding is_padding
unpad [] = []
unpad (c ∷ s) = let rest = unpad s in if is_padding (c ∷ s) then [] else c ∷ rest

unfoldable pub decode_chars : Alphabet → Bytes → Option Bytes
unfolding values_of
decode_chars al s = elim (values_of al s) [ none ↦ none | some vs ↦ join_groups vs ]

-- `StdEncoding.DecodeString`: whole groups of four, padded at the end.
unfoldable pub std_decode : Bytes → Option Bytes
unfolding decode_chars unpad
std_decode s =
    let t = drop_line_ends s in if length t % 4 == 0 then decode_chars std (unpad t) else none

-- `RawURLEncoding.DecodeString`
unfoldable pub url_decode : Bytes → Option Bytes
unfolding decode_chars
url_decode s = decode_chars url (drop_line_ends s)
