-- ===== src/Auth/TokenText.antt =====
-- The text of a token: characters that `strings.TrimSpace` leaves alone.
use dijex_api.Prelude.{
  All-append, length, ◌≡◌, refl, ℕ, ◌/◌, ◌%◌, ◌+◌, ◌*◌, ◌<◌, false, [], ◌∷◌, All, arith,
}
use mathlib.Core.List.{reverse, reverse-cons, reverse-reverse}
use dijex_api.Text.{Bytes, space_width, last_space_width, trim_by, trim_space, is_empty}
use dijex_api.Auth.Base64.{url_char, encode}

-- ASCII, and not white space.
abbrev pub IsInk : ℕ → Type 0
IsInk c = (32 < c) × (c < 128)

url_char-IsInk : (v : ℕ) → v < 64 → IsInk (url_char v)
unfolding url_char
url_char-IsInk v h = ground arith

pub encode-IsInk : (s : Bytes) → All (λ c. c < 256) s → All IsInk (encode s)
unfolding encode
encode-IsInk [] h = tt
encode-IsInk (a ∷ []) (h, _) =
    (url_char-IsInk (a / 4) (omega arith), (url_char-IsInk (a % 4 * 16) (omega arith), tt))
encode-IsInk (a ∷ b ∷ []) (h, (k, _)) = (
  url_char-IsInk (a / 4) (omega arith),
  (
    url_char-IsInk (a % 4 * 16 + b / 16) (omega arith),
    (url_char-IsInk (b % 16 * 4) (omega arith), tt),
  ),
)
encode-IsInk (a ∷ b ∷ c ∷ s) (h, (k, (l, more))) = (
  url_char-IsInk (a / 4) (omega arith),
  (
    url_char-IsInk (a % 4 * 16 + b / 16) (omega arith),
    (
      url_char-IsInk (b % 16 * 4 + c / 64) (omega arith),
      (url_char-IsInk (c % 64) (omega arith), encode-IsInk s more),
    ),
  ),
)

space_width-IsInk : (c : ℕ) (s : Bytes) → IsInk c → space_width (c ∷ s) ≡ 0
unfolding space_width dijex_api.Text.wide_space
space_width-IsInk c [] (h, k) = ground arith
space_width-IsInk c (a ∷ []) (h, k) = ground arith
space_width-IsInk c (a ∷ b ∷ s) (h, k) = ground arith

last_space_width-IsInk : (c : ℕ) (s : Bytes) → IsInk c → last_space_width (c ∷ s) ≡ 0
unfolding last_space_width dijex_api.Text.wide_space
last_space_width-IsInk c [] (h, k) = ground arith
last_space_width-IsInk c (a ∷ []) (h, k) = ground arith
last_space_width-IsInk c (a ∷ b ∷ s) (h, k) = ground arith

trim_by-front :
    (width : Bytes → ℕ) (s : Bytes)
    → ((c : ℕ) (t : Bytes) → IsInk c → width (c ∷ t) ≡ 0)
    → All IsInk s
    → trim_by width 0 s ≡ s
unfolding trim_by
trim_by-front width [] narrow h = refl
trim_by-front width (c ∷ s) narrow (k, h) = rw (narrow c s k, trim_by) refl

reverse-IsInk : (s : Bytes) → All IsInk s → All IsInk (reverse s)
reverse-IsInk [] h = tt
reverse-IsInk (c ∷ s) (k, h) =
    rw (reverse-cons c s) (All-append IsInk (reverse s) (c ∷ []) (reverse-IsInk s h) (k, tt))

pub trim_space-IsInk : (s : Bytes) → All IsInk s → trim_space s ≡ s
unfolding trim_space
trim_space-IsInk s h =
    let front = trim_by-front space_width s space_width-IsInk h in
    let back =
      trim_by-front last_space_width (reverse s) last_space_width-IsInk (reverse-IsInk s h) in
    rw (front, back) (reverse-reverse s)

pub encode-ne-nil : (s : Bytes) → 0 < length s → is_empty (encode s) ≡ false
unfolding encode
encode-ne-nil [] h = absurd (omega arith)
encode-ne-nil (a ∷ []) h = refl
encode-ne-nil (a ∷ b ∷ []) h = refl
encode-ne-nil (a ∷ b ∷ c ∷ s) h = refl
