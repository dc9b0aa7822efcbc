-- ===== src/Text.antt =====
-- Go strings as lists of bytes, and the functions of the packages `strings` and `strconv` that the
-- program calls. `TrimSpace` also cuts the white space outside ASCII, read from its UTF-8 bytes.
pub mod Equality
use Prim.Native.Char.{code}
use mathlib.Core.List.{reverse}
use dijex_api.Prelude.{
  ℕ, zero, suc, ◌+◌, ◌-◌, ◌/◌, ◌%◌, String, Bool, true, false, ◌&&◌, ◌||◌, List, [], ◌∷◌, ◌++◌, map,
  ltb, leb, ◌==◌, if◌then◌else◌,
}
use dijex_api.Prelude.Int.{ℤ, pos, negsuc}

abbrev pub Bytes : Type 0
Bytes = List ℕ

-- The UTF-8 bytes of a character, in front of a text.
abbrev encode_rune : ℕ → Bytes → Bytes
encode_rune c s =
    if ltb c 0x80
    then c ∷ s
    else if ltb c 0x800
    then (0xc0 + c / 64) ∷ (0x80 + c % 64) ∷ s
    else if ltb c 0x10000
    then (0xe0 + c / 4096) ∷ (0x80 + c / 64 % 64) ∷ (0x80 + c % 64) ∷ s
    else (0xf0 + c / 262144) ∷ (0x80 + c / 4096 % 64) ∷ (0x80 + c / 64 % 64) ∷ (0x80 + c % 64) ∷ s

-- The UTF-8 bytes of a literal.
abbrev pub codes : String → Bytes
codes String.[] = []
codes (String.◌∷◌ c s) = encode_rune (code c) (codes s)

abbrev pub is_empty : Bytes → Bool
is_empty [] = true
is_empty (c ∷ s) = false

-- `s == t`
abbrev pub bytes_eq : Bytes → Bytes → Bool
bytes_eq [] [] = true
bytes_eq [] (d ∷ t) = false
bytes_eq (c ∷ s) [] = false
bytes_eq (c ∷ s) (d ∷ t) = c == d && bytes_eq s t

-- `strings.HasPrefix(s, prefix)`
unfoldable pub has_prefix : Bytes → Bytes → Bool
has_prefix s [] = true
has_prefix [] (d ∷ t) = false
has_prefix (c ∷ s) (d ∷ t) = c == d && has_prefix s t

-- `strings.Contains(s, sub)`
unfoldable pub contains : Bytes → Bytes → Bool
unfolding has_prefix
contains [] sub = is_empty sub
contains (c ∷ s) sub = has_prefix (c ∷ s) sub || contains s sub

-- Whether a byte of `chars` stands in the text: `strings.ContainsAny` for ASCII characters.
unfoldable pub member : ℕ → Bytes → Bool
member c [] = false
member c (d ∷ s) = c == d || member c s

unfoldable pub contains_any : Bytes → Bytes → Bool
unfolding member
contains_any [] chars = false
contains_any (c ∷ s) chars = member c chars || contains_any s chars

-- `strings.Split(s, sep)` at a separator of one byte: at least one part.
abbrev add_to_first : ℕ → List Bytes → List Bytes
add_to_first c [] = (c ∷ []) ∷ []
add_to_first c (p ∷ ps) = (c ∷ p) ∷ ps

unfoldable pub split : ℕ → Bytes → List Bytes
split sep [] = [] ∷ []
split sep (c ∷ s) = if c == sep then [] ∷ split sep s else add_to_first c (split sep s)

-- `strings.SplitN(s, sep, n)` for a positive `n`: the last part keeps the rest.
unfoldable pub split_n : ℕ → ℕ → Bytes → List Bytes
split_n sep zero s = []
split_n sep (suc zero) s = s ∷ []
split_n sep (suc (suc n)) [] = [] ∷ []
split_n sep (suc (suc n)) (c ∷ s) =
    if c == sep then [] ∷ split_n sep (suc n) s else add_to_first c (split_n sep (suc (suc n)) s)

-- `strings.Join(parts, sep)`
unfoldable pub join : Bytes → List Bytes → Bytes
join sep [] = []
join sep (p ∷ []) = p
join sep (p ∷ q ∷ ps) = p ++ (sep ++ join sep (q ∷ ps))

-- `asciiSpace` of the package `strings`: tab, newline, vertical tab, form feed, return, blank.
abbrev ascii_space : ℕ → Bool
ascii_space c = (leb 9 c && leb c 13) || c == 32

-- The bytes of the white-space character that a text begins with, 0 if it begins with none:
-- U+0085, U+00A0, U+1680, U+2000 to U+200A, U+2028, U+2029, U+202F, U+205F and U+3000.
unfoldable pub wide_space : ℕ → ℕ → ℕ → Bool
wide_space a b c =
    (a == 0xe1 && (b == 0x9a && c == 0x80))
    || (a == 0xe2 && (b == 0x80 && (leb 0x80 c && leb c 0x8a)))
    || (a == 0xe2 && (b == 0x80 && (c == 0xa8 || c == 0xa9 || c == 0xaf)))
    || (a == 0xe2 && (b == 0x81 && c == 0x9f))
    || (a == 0xe3 && (b == 0x80 && c == 0x80))

abbrev pair_space : ℕ → ℕ → Bool
pair_space a b = a == 0xc2 && (b == 0x85 || b == 0xa0)

unfoldable pub space_width : Bytes → ℕ
unfolding wide_space
space_width [] = 0
space_width (a ∷ []) = if ascii_space a then 1 else 0
space_width (a ∷ b ∷ []) = if ascii_space a then 1 else if pair_space a b then 2 else 0
space_width (a ∷ b ∷ c ∷ s) =
    if ascii_space a then 1 else if pair_space a b then 2 else if wide_space a b c then 3 else 0

-- The same for the end of a text, which is handed over with its last byte first.
unfoldable pub last_space_width : Bytes → ℕ
unfolding wide_space
last_space_width [] = 0
last_space_width (a ∷ []) = if ascii_space a then 1 else 0
last_space_width (b ∷ a ∷ []) = if ascii_space b then 1 else if pair_space a b then 2 else 0
last_space_width (c ∷ b ∷ a ∷ s) =
    if ascii_space c then 1 else if pair_space b c then 2 else if wide_space a b c then 3 else 0

-- Drops white-space characters as long as there is one; the first argument counts the bytes of
-- the character at hand that are still to go.
unfoldable pub trim_by : (Bytes → ℕ) → ℕ → Bytes → Bytes
trim_by width k [] = []
trim_by width (suc k) (c ∷ s) = trim_by width k s
trim_by width zero (c ∷ s) = elim (width (c ∷ s)) [ zero ↦ c ∷ s | suc k ↦ trim_by width k s ]

-- `strings.TrimSpace(s)`
unfoldable pub trim_space : Bytes → Bytes
unfolding trim_by space_width last_space_width
trim_space s = reverse (trim_by last_space_width 0 (reverse (trim_by space_width 0 s)))

-- `strings.TrimRight(s, cutset)` for a cutset of ASCII characters.
drop_while_member : Bytes → Bytes → Bytes
unfolding member
drop_while_member chars [] = []
drop_while_member chars (c ∷ s) = if member c chars then drop_while_member chars s else c ∷ s

unfoldable pub trim_right : Bytes → Bytes → Bytes
unfolding drop_while_member
trim_right s chars = reverse (drop_while_member chars (reverse s))

-- `strings.TrimPrefix(s, prefix)`: the text itself where the prefix does not stand.
unfoldable pub trim_prefix : Bytes → Bytes → Bytes
unfolding has_prefix
trim_prefix s [] = s
trim_prefix [] (d ∷ t) = []
trim_prefix (c ∷ s) (d ∷ t) = if has_prefix (c ∷ s) (d ∷ t) then trim_prefix s t else c ∷ s

-- The decimal digits of a number: fuel bounds the digits, and a number has at most as many as its
-- own value, or one.
unfoldable pub digits : ℕ → ℕ → Bytes → Bytes
digits zero n out = (b'0' + n % 10) ∷ out
digits (suc fuel) n out =
    let more = digits fuel (n / 10) ((b'0' + n % 10) ∷ out) in
    if ltb n 10 then (b'0' + n % 10) ∷ out else more

-- `strconv.Itoa(n)`
unfoldable pub itoa : ℤ → Bytes
unfolding digits
itoa (pos n) = digits n n []
itoa (negsuc n) = b'-' ∷ digits (suc n) (suc n) []

-- `strings.ToLower(s)`: byte by byte if the text is ASCII, as the package does; `unicode_lower` is
-- what it gives for any other text.
abbrev ascii_lower : ℕ → ℕ
ascii_lower c = if leb b'A' c && leb c b'Z' then c + 32 else c

abbrev is_ascii : Bytes → Bool
is_ascii [] = true
is_ascii (c ∷ s) = ltb c 128 && is_ascii s

unfoldable pub to_lower : (Bytes → Bytes) → Bytes → Bytes
to_lower unicode_lower s = if is_ascii s then map ascii_lower s else unicode_lower s

-- `strings.ToUpper(s)`, with what it gives for a text that is not ASCII.
abbrev ascii_upper : ℕ → ℕ
ascii_upper c = if leb b'a' c && leb c b'z' then c - 32 else c

unfoldable pub to_upper : (Bytes → Bytes) → Bytes → Bytes
to_upper unicode_upper s = if is_ascii s then map ascii_upper s else unicode_upper s

-- `strings.TrimSuffix(s, suffix)`
unfoldable pub trim_suffix : Bytes → Bytes → Bytes
unfolding trim_prefix
trim_suffix s suffix =
    if has_prefix (reverse s) (reverse suffix)
    then reverse (trim_prefix (reverse s) (reverse suffix))
    else s

-- `s[:strings.Index(s, c)]` for one byte, or the whole text if the byte is not there.
unfoldable pub before_byte : ℕ → Bytes → Bytes
before_byte c [] = []
before_byte c (d ∷ s) = let rest = before_byte c s in if d == c then [] else d ∷ rest

abbrev continuation : ℕ → Bool
continuation c = leb 0x80 c && leb c 0xbf

-- The second byte that UTF-8 allows behind a first byte of three, and of four.
abbrev second_of_three : ℕ → ℕ → Bool
second_of_three a b =
    if a == 0xe0
    then leb 0xa0 b && leb b 0xbf
    else if a == 0xed
    then leb 0x80 b && leb b 0x9f
    else continuation b

abbrev second_of_four : ℕ → ℕ → Bool
second_of_four a b =
    if a == 0xf0
    then leb 0x90 b && leb b 0xbf
    else if a == 0xf4
    then leb 0x80 b && leb b 0x8f
    else continuation b

-- The bytes behind the first that belong to the first character: none behind a byte that begins no
-- valid character.
unfoldable pub rune_tail : Bytes → ℕ
rune_tail (a ∷ b ∷ []) = if leb 0xc2 a && leb a 0xdf && continuation b then 1 else 0
rune_tail (a ∷ b ∷ c ∷ []) =
    if leb 0xc2 a && leb a 0xdf && continuation b
    then 1
    else if leb 0xe0 a && leb a 0xef && second_of_three a b && continuation c
    then 2
    else 0
rune_tail (a ∷ b ∷ c ∷ d ∷ s) =
    if leb 0xc2 a && leb a 0xdf && continuation b
    then 1
    else if leb 0xe0 a && leb a 0xef && second_of_three a b && continuation c
    then 2
    else if leb 0xf0 a && leb a 0xf4 && second_of_four a b && continuation c && continuation d
    then 3
    else 0
rune_tail s = 0

-- `utf8.RuneCountInString(s)`; the first argument counts the bytes of the character at hand that
-- are still to go.
abbrev count_runes : ℕ → Bytes → ℕ
unfolding rune_tail
count_runes k [] = 0
count_runes (suc k) (c ∷ s) = count_runes k s
count_runes zero (c ∷ s) = suc (count_runes (rune_tail (c ∷ s)) s)

unfoldable pub rune_count : Bytes → ℕ
unfolding rune_tail
rune_count s = count_runes 0 s
