-- ===== src/Server/Hosts.antt =====
-- `normalizeRegistryHost`: the host of a registry's URL.
use dijex_api.Prelude.{
  ◌≡◌, ◌≢◌, refl, sym, ap, ◌∙◌, ◌⊎◌, false, [], ◌∷◌, ◌++◌, All, Bool-cases, inl, inr, ◌==◌,
}
use mathlib.Core.List.{reverse, reverse-cons, reverse-reverse}
use dijex_api.Text.{
  Bytes, codes, is_empty, has_prefix, before_byte, trim_space, trim_prefix, trim_suffix,
}
use dijex_api.Text.Equality.{is_empty_iff, has_prefix-append}
use dijex_api.Server.Images.{normalize_registry_host}

abbrev pub HasNoSlash : Bytes → Type 0
HasNoSlash = All (λ c. (c == b'/') ≡ false)

-- Nothing, or a slash and whatever is behind it.
abbrev pub IsPath : Bytes → Type 0
IsPath tail = (tail ≡ []) ⊎ ((rest : Bytes) × (tail ≡ b'/' ∷ rest))

abbrev pub IsScheme : Bytes → Type 0
IsScheme s = (s ≡ []) ⊎ (s ≡ codes "https://") ⊎ (s ≡ codes "http://")

before_byte-host : (h tail : Bytes) → HasNoSlash h → IsPath tail → before_byte b'/' (h ++ tail) ≡ h
unfolding before_byte
before_byte-host [] tail k (inl e) = rw e refl
before_byte-host [] tail k (inr (rest, e)) = rw e refl
before_byte-host (c ∷ h) tail (e, k) t = rw (e, before_byte-host h tail k t) refl

before_byte-last : (s : Bytes) → before_byte b'/' (s ++ b'/' ∷ []) ≡ before_byte b'/' s
unfolding before_byte
before_byte-last [] = refl
before_byte-last (c ∷ s) = elim (Bool-cases (c == b'/')) [
  | inl e ↦ rw e refl
  | inr e ↦ rw (e, before_byte-last s) refl
]

trim_prefix-none : (s p : Bytes) → has_prefix s p ≡ false → trim_prefix s p ≡ s
unfolding trim_prefix
trim_prefix-none s [] h = refl
trim_prefix-none [] (d ∷ p) h = refl
trim_prefix-none (c ∷ s) (d ∷ p) h = rw (h, trim_prefix) refl

-- The suffix is a slash that was cut, or nothing was.
trim_suffix-slash :
    (s : Bytes) → (trim_suffix s (codes "/") ≡ s) ⊎ (s ≡ trim_suffix s (codes "/") ++ b'/' ∷ [])
unfolding trim_suffix trim_prefix
trim_suffix-slash s = elim (Bool-cases (has_prefix (reverse s) (codes "/"))) [
  | inr e ↦ inl (rw (e, trim_suffix) refl)
  | inl e ↦
      let (rest, q) = has_prefix-append (reverse s) (codes "/") e in
      let whole : s ≡ reverse rest ++ b'/' ∷ [] =
        sym (reverse-reverse s) ∙ ap reverse q ∙ reverse-cons b'/' rest in
      let cut : trim_suffix s (codes "/") ≡ reverse rest = rw (e, trim_suffix, q) refl in
      inr (whole ∙ ap (λ t. t ++ b'/' ∷ []) (sym cut))
]

module _ (h tail : Bytes) (k : HasNoSlash h) (there : is_empty h ≡ false) (t : IsPath tail) where
  -- No scheme stands before the host, unless the host is its name.
  trim_prefix-http : h ≢ codes "http:" → trim_prefix (h ++ tail) (codes "http://") ≡ h ++ tail
  unfolding before_byte
  trim_prefix-http n = elim (Bool-cases (has_prefix (h ++ tail) (codes "http://"))) [
    | inr e ↦ trim_prefix-none (h ++ tail) (codes "http://") e
    | inl e ↦
        let (rest, q) = has_prefix-append (h ++ tail) (codes "http://") e in
        absurd (n (sym (before_byte-host h tail k t) ∙ ap (before_byte b'/') q))
  ]

  trim_prefix-https : h ≢ codes "https:" → trim_prefix (h ++ tail) (codes "https://") ≡ h ++ tail
  unfolding before_byte
  trim_prefix-https n = elim (Bool-cases (has_prefix (h ++ tail) (codes "https://"))) [
    | inr e ↦ trim_prefix-none (h ++ tail) (codes "https://") e
    | inl e ↦
        let (rest, q) = has_prefix-append (h ++ tail) (codes "https://") e in
        absurd (n (sym (before_byte-host h tail k t) ∙ ap (before_byte b'/') q))
  ]

  host_left : before_byte b'/' (trim_suffix (h ++ tail) (codes "/")) ≡ h
  host_left = elim (trim_suffix-slash (h ++ tail)) [
    | inl e ↦ ap (before_byte b'/') e ∙ before_byte-host h tail k t
    | inr e ↦
        sym (before_byte-last (trim_suffix (h ++ tail) (codes "/")))
        ∙ ap (before_byte b'/') (sym e)
        ∙ before_byte-host h tail k t
  ]

  something_left : is_empty (trim_suffix (h ++ tail) (codes "/")) ≡ false
  unfolding before_byte
  something_left = elim (Bool-cases (is_empty (trim_suffix (h ++ tail) (codes "/")))) [
    | inr e ↦ e
    | inl e ↦
        let none = (is_empty_iff (trim_suffix (h ++ tail) (codes "/"))).0 e in
        let gone : h ≡ [] = sym host_left ∙ ap (before_byte b'/') none in
        absurd (let q = rw gone at there in cc)
  ]

  bare_host :
      (scheme : Bytes)
      → IsScheme scheme
      → h ≢ codes "http:"
      → h ≢ codes "https:"
      → trim_prefix (trim_prefix (scheme ++ (h ++ tail)) (codes "https://")) (codes "http://")
        ≡ h ++ tail
  unfolding trim_prefix has_prefix
  bare_host scheme (inl e) n m = rw (e, trim_prefix-https m) (trim_prefix-http n)
  bare_host scheme (inr (inl e)) n m = rw e (trim_prefix-http n)
  bare_host scheme (inr (inr e)) n m = rw e refl

-- A registry's URL that is, without the white space around it, a host, behind `https://`, `http://` or
-- no scheme, and with nothing or a slash and anything else behind it, gives docker that host; a host
-- is here any text without a slash other than the empty one, `http:` and `https:`.
pub normalize_registry_host-host :
    (url scheme h tail : Bytes)
    → HasNoSlash h
    → is_empty h ≡ false
    → h ≢ codes "http:"
    → h ≢ codes "https:"
    → IsScheme scheme
    → IsPath tail
    → trim_space url ≡ scheme ++ (h ++ tail)
    → normalize_registry_host url ≡ h
unfolding normalize_registry_host
normalize_registry_host-host url scheme h tail k there n m s t e =
    rw
      (
        normalize_registry_host,
        e,
        bare_host h tail k there t scheme s n m,
        something_left h tail k there t,
      )
      (host_left h tail k there t)
