-- ===== src/RemoteDeploy/Validate/Alphabet.antt =====
-- What accepted parameters hold: bounds on lengths, and no byte that a shell reads as anything but
-- itself.
use dijex_api.Prelude.{
  ℕ, ◌≤◌, ◌≡◌, refl, true, [], ◌∷◌, ◌++◌, inl, inr, none, All, All-append, length, arith, ◌||◌,
  ◌&&◌, leb, ◌==◌, ==_iff, if◌then◌else◌,
}
use mathlib.Core.Path.{subst⁻¹}
use dijex_api.Text.{Bytes, is_empty}
use dijex_api.Regex.{Regex}
use dijex_api.Regex.Language.{Language}
use dijex_api.Regex.Classes.{Language-All, Language-length}
use dijex_api.Shell.Words.{is_plain}
use dijex_api.RemoteDeploy.Types.{DeployParams, image_ref, reference}
use dijex_api.RemoteDeploy.Validate.{
  validate_params, lower_alnum, alnum, dot_line, image_ref_re, tag_re, container_name_re,
  registry_host_re,
}
use dijex_api.RemoteDeploy.Validate.Rules.{IsUnsetOr}
use dijex_api.RemoteDeploy.Validate.Sound.{validate_params_iff}

abbrev Plain : ℕ → Type 0
Plain c = is_plain c ≡ true

lower-Plain : (c : ℕ) → lower_alnum c ≡ true → Plain c
lower-Plain c h = ground arith

alnum-Plain : (c : ℕ) → alnum c ≡ true → Plain c
alnum-Plain c h = ground arith

lower_or_line-Plain : (c : ℕ) → (lower_alnum c || dot_line c) ≡ true → Plain c
lower_or_line-Plain c h = ground arith

alnum_or_line-Plain : (c : ℕ) → (alnum c || dot_line c) ≡ true → Plain c
alnum_or_line-Plain c h = ground arith

byte-Plain : (d c : ℕ) → is_plain d ≡ true → (c == d) ≡ true → Plain c
byte-Plain d c h e = rw ((==_iff c d).0 e) h

image-Plain : (s : Bytes) → Language image_ref_re s → All Plain s
image-Plain s = Language-All Plain image_ref_re s (
  (lower-Plain, (lower_or_line-Plain, lower-Plain)),
  ((λ c. byte-Plain b'/' c refl), (lower-Plain, (lower_or_line-Plain, lower-Plain))),
)

tag_first-Plain : (c : ℕ) → (alnum c || c == b'_') ≡ true → Plain c
tag_first-Plain c h = ground arith

tag-Plain : (s : Bytes) → Language tag_re s → All Plain s
tag-Plain s = Language-All Plain tag_re s (tag_first-Plain, alnum_or_line-Plain)

container_name-Plain : (s : Bytes) → Language container_name_re s → All Plain s
container_name-Plain s = Language-All Plain container_name_re s (alnum-Plain, alnum_or_line-Plain)

dot_dash-Plain : (c : ℕ) → (alnum c || (c == b'.' || c == b'-')) ≡ true → Plain c
dot_dash-Plain c h = ground arith

digit-Plain : (c : ℕ) → (leb b'0' c && leb c b'9') ≡ true → Plain c
digit-Plain c h = ground arith

host-Plain : (s : Bytes) → Language registry_host_re s → All Plain s
host-Plain s = Language-All Plain registry_host_re s (
  (alnum-Plain, (dot_dash-Plain, alnum-Plain)),
  ((λ c. byte-Plain b':' c refl), (digit-Plain, digit-Plain)),
)

unset_or_Plain :
    (r : Regex) (s : Bytes)
    → ((t : Bytes) → Language r t → All Plain t)
    → IsUnsetOr r s
    → All Plain s
unset_or_Plain r s f (inl e) = subst⁻¹ (All Plain) e tt
unset_or_Plain r s f (inr h) = f s h

-- A part in front of a slash, if there is one.
prefix-Plain :
    (s t : Bytes)
    → All Plain s
    → All Plain t
    → All Plain (if is_empty s then t else s ++ (b'/' ∷ t))
prefix-Plain [] t h k = k
prefix-Plain (c ∷ s) t h k = All-append Plain (c ∷ s) (b'/' ∷ t) h (refl, k)

reference-Plain :
    (host namespace image tag : Bytes)
    → All Plain host
    → All Plain namespace
    → All Plain image
    → All Plain tag
    → All Plain (reference host namespace image tag)
unfolding reference
reference-Plain host namespace image tag h n i t =
    All-append Plain _ (b':' ∷ tag) (prefix-Plain host _ h (prefix-Plain namespace image n i))
      (refl, t)

-- Of accepted parameters the image reference and the container's name hold only letters, digits and
-- `.`, `_`, `-`, `/`, `:`, which a shell reads as themselves; the tag has 1 to 128 bytes and the
-- container's name 1 to 255.
pub validate_params-plain :
    (p : DeployParams)
    → validate_params p ≡ none
    → All (λ c. is_plain c ≡ true) (image_ref p)
      × All (λ c. is_plain c ≡ true) p.container_name
      × ((1 ≤ length p.tag) × (length p.tag ≤ 128))
      × ((1 ≤ length p.container_name) × (length p.container_name ≤ 255))
unfolding image_ref
validate_params-plain p accepted =
    let v = (validate_params_iff p).0 accepted in
    (
      reference-Plain p.registry_host p.registry_namespace p.image p.tag
          (unset_or_Plain registry_host_re p.registry_host host-Plain v.registry_host)
          (unset_or_Plain image_ref_re p.registry_namespace image-Plain v.registry_namespace)
          (image-Plain p.image v.image) (tag-Plain p.tag v.tag),
      container_name-Plain p.container_name v.container_name,
      Language-length _ _ 127 p.tag v.tag,
      Language-length _ _ 254 p.container_name v.container_name,
    )
