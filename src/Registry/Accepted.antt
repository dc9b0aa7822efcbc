-- ===== src/Registry/Accepted.antt =====
-- Which fields of a registry the checks accept.
use dijex_api.Prelude.{
  ◌≡◌, refl, ◌↔◌, ◌≤◌, Bool, true, false, List, [], ◌∷◌, Bool-cases, inl, inr, arith,
}
use mathlib.Core.List.{Memᴰ}
use mathlib.Core.List.Memᴰ
use dijex_api.Text.{Bytes, codes, is_empty, rune_count, bytes_eq}
use dijex_api.Text.Equality.{bytes_eq_iff}
use dijex_api.Platform.Rows.{has_row}
use dijex_api.Platform.Rules.{unless, optional_problems}
use dijex_api.Platform.Checks.{
  append-eq-nil, unless_iff, name_problems_iff, required_problems_iff, optional_problems_iff,
}
use dijex_api.Registry.Types.{is_valid_registry_type}
use dijex_api.Registry.Validate.{type_message, email_problems, validate_registry_fields}

abbrev pub registry_types : List Bytes
registry_types =
    codes "DOCKERHUB"
    ∷ codes "GHCR"
    ∷ codes "GITLAB"
    ∷ codes "HARBOR"
    ∷ codes "ECR"
    ∷ codes "GENERIC"
    ∷ []

pub record IsValid (is_address : Bytes → Bool) (name type url username email namespace : Bytes)
    : Type 0 where
  pub name_long : 2 ≤ rune_count name
  pub name_short : rune_count name ≤ 100
  pub type_known : Memᴰ type registry_types
  pub url_there : is_empty url ≡ false
  pub url_short : rune_count url ≤ 500
  pub username_short : rune_count username ≤ 255
  pub email_there : is_empty email ≡ false
  pub email_address : is_address email ≡ true
  pub email_short : rune_count email ≤ 255
  pub namespace_short : rune_count namespace ≤ 255

has_row-Memᴰ : (t : Bytes) (ts : List Bytes) → (has_row (λ x. bytes_eq t x) ts ≡ true) ↔ Memᴰ t ts
unfolding has_row
has_row-Memᴰ t [] = (λ h. absurd (cc), λ m. absurd (Memᴰ.not-nil m))
has_row-Memᴰ t (x ∷ ts) = (
  λ h. elim (Bool-cases (bytes_eq t x)) [
    | inl e ↦ Memᴰ.head ((bytes_eq_iff t x).0 e)
    | inr e ↦ Memᴰ.tail ((has_row-Memᴰ t ts).0 (rw e at h))
  ],
  λ m. elim m [
    | Memᴰ.head e ↦ rw ((bytes_eq_iff t x).1 e) refl
    | Memᴰ.tail k ↦ elim (Bool-cases (bytes_eq t x)) [
      | inl e ↦ rw e refl
      | inr e ↦ rw e ((has_row-Memᴰ t ts).1 k)
    ]
  ],
)

has_row-registry_types :
    (t : Bytes) → has_row (λ x. bytes_eq t x) registry_types ≡ is_valid_registry_type t
unfolding has_row is_valid_registry_type
has_row-registry_types t = ground arith

registry_type_iff : (t : Bytes) → (is_valid_registry_type t ≡ true) ↔ Memᴰ t registry_types
registry_type_iff t = rw (← has_row-registry_types t) (has_row-Memᴰ t registry_types)

email_problems_iff :
    (is_address : Bytes → Bool) (s : Bytes)
    → (email_problems is_address s ≡ [])
      ↔ ((is_empty s ≡ false) × (is_address s ≡ true) × (rune_count s ≤ 255))
unfolding email_problems
email_problems_iff is_address [] = (λ h. absurd (cc), λ (a, b, c). absurd (cc))
email_problems_iff is_address (c ∷ s) =
    let (split, both) =
      append-eq-nil (unless (is_address (c ∷ s)) (codes "email") (codes "is not a valid email"))
        (optional_problems (codes "email") 255 (codes "must be at most 255 characters") (c ∷ s)) in
    let (go, back) =
      unless_iff (is_address (c ∷ s)) (codes "email") (codes "is not a valid email") in
    let (to, from) =
      optional_problems_iff (codes "email") 255 (codes "must be at most 255 characters") (c ∷ s) in
    (λ h. let (a, b) = split h in (refl, go a, to b), λ (e, a, b). both (back a, from b))

-- The fields of a registry are accepted exactly if the name has 2 to 100 characters, the type is
-- DOCKERHUB, GHCR, GITLAB, HARBOR, ECR or GENERIC, the URL is there with at most 500 characters, the email is there, is an address and
-- has at most 255 characters, and user name and namespace have at most 255.
pub validate_registry_fields_iff :
    (is_address : Bytes → Bool) (name type url username email namespace : Bytes)
    → (validate_registry_fields is_address name type url username email namespace ≡ [])
      ↔ IsValid is_address name type url username email namespace
unfolding validate_registry_fields
validate_registry_fields_iff is_address name type url username email namespace =
    let limit = codes "must be at most 255 characters" in
    let names = name_problems_iff name in
    let types = unless_iff (is_valid_registry_type type) (codes "type") type_message in
    let urls =
      required_problems_iff (codes "url") 500 (codes "must be at most 500 characters") url in
    let users = optional_problems_iff (codes "username") 255 limit username in
    let emails = email_problems_iff is_address email in
    let spaces = optional_problems_iff (codes "namespace") 255 limit namespace in
    (
      λ h.
          let (n, h1) = (append-eq-nil _ _).0 h in
          let (t, h2) = (append-eq-nil _ _).0 h1 in
          let (u, h3) = (append-eq-nil _ _).0 h2 in
          let (w, h4) = (append-eq-nil _ _).0 h3 in
          let (e, s) = (append-eq-nil _ _).0 h4 in
          let (long, short) = names.0 n in
          let (there, fits) = urls.0 u in
          let (mail, address, brief) = emails.0 e in
          record {
            name_long = long;
            name_short = short;
            type_known = (registry_type_iff type).0 (types.0 t);
            url_there = there;
            url_short = fits;
            username_short = users.0 w;
            email_there = mail;
            email_address = address;
            email_short = brief;
            namespace_short = spaces.0 s;
          },
      λ v.
          rw
            (
              names.1 (v.name_long, v.name_short),
              types.1 ((registry_type_iff type).1 v.type_known),
              urls.1 (v.url_there, v.url_short),
              users.1 v.username_short,
              emails.1 (v.email_there, v.email_address, v.email_short),
              spaces.1 v.namespace_short,
            )
            refl,
    )
