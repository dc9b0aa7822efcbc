-- ===== src/Auth/Base64.antt =====
-- `base64.RawURLEncoding.EncodeToString`, for `GenerateOpaqueToken` of pkg/crypto/token.go.
use dijex_api.Prelude.{ℕ, ◌+◌, ◌-◌, ◌*◌, ◌/◌, ◌%◌, [], ◌∷◌, ltb, ◌==◌, if◌then◌else◌}
use dijex_api.Text.{Bytes}

-- The character for six bits.
unfoldable pub url_char : ℕ → ℕ
url_char v =
    if ltb v 26
    then v + b'A'
    else if ltb v 52
    then v - 26 + b'a'
    else if ltb v 62
    then v - 52 + b'0'
    else if v == 62
    then b'-'
    else b'_'

-- Three bytes are four characters; one byte that is left is two, two are three.
unfoldable pub encode : Bytes → Bytes
unfolding url_char
encode [] = []
encode (a ∷ []) = url_char (a / 4) ∷ url_char (a % 4 * 16) ∷ []
encode (a ∷ b ∷ []) = url_char (a / 4) ∷ url_char (a % 4 * 16 + b / 16) ∷ url_char (b % 16 * 4) ∷ []
encode (a ∷ b ∷ c ∷ s) =
    url_char (a / 4)
    ∷ url_char (a % 4 * 16 + b / 16)
    ∷ url_char (b % 16 * 4 + c / 64)
    ∷ url_char (c % 64)
    ∷ encode s
