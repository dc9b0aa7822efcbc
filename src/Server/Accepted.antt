-- ===== src/Server/Accepted.antt =====
-- Which fields of a server the checks accept.
use dijex_api.Prelude.{
  ◌≡◌, refl, ◌↔◌, ℕ, ◌≤◌, true, false, not, ◌||◌, List, [], ◌∷◌, All, length, ltb, Bool-cases, inl,
  inr, arith,
}
use dijex_api.Prelude.Int.{ℤ, pos, negsuc}
use dijex_api.Text.{Bytes, codes, is_empty, rune_count}
use dijex_api.Platform.Checks.{
  append-eq-nil, unless_iff, name_problems_iff, required_problems_iff, optional_problems_iff,
}
use dijex_api.Server.Types.{
  is_valid_server_protocol, is_valid_server_auth_method, is_valid_server_environment,
}
use dijex_api.Server.Validate.{
  ServerFields, has_long_tag, tag_problems, port_problems, choice_problems, validate_server_fields,
}

-- A port of TCP.
abbrev pub IsPort : ℤ → Type 0
IsPort (pos n) = (1 ≤ n) × (n ≤ 65535)
IsPort (negsuc n) = ⊥

pub record IsValid (f : ServerFields) : Type 0 where
  pub name_length : (2 ≤ rune_count f.name) × (rune_count f.name ≤ 100)
  pub host_length : (is_empty f.host ≡ false) × (rune_count f.host ≤ 255)
  pub port : IsPort f.port
  pub protocol : is_valid_server_protocol f.protocol ≡ true
  pub auth_method : is_valid_server_auth_method f.auth_method ≡ true
  pub environment : is_valid_server_environment f.environment ≡ true
  pub username_short : rune_count f.username ≤ 255
  pub provider_short : rune_count f.provider ≤ 100
  pub location_short : rune_count f.location ≤ 100
  pub tags_few : length f.tags ≤ 30
  pub tags_short : All (λ t. rune_count t ≤ 50) f.tags

port_problems_iff : (n : ℤ) → (port_problems n ≡ []) ↔ IsPort n
unfolding port_problems
port_problems_iff (pos n) =
    let (go, back) =
      unless_iff (not (ltb n 1 || ltb 65535 n)) (codes "port")
        (codes "must be between 1 and 65535") in
    let to : not (ltb n 1 || ltb 65535 n) ≡ true → (1 ≤ n) × (n ≤ 65535) =
      λ h. (ground arith, ground arith) in
    let from : (1 ≤ n) × (n ≤ 65535) → not (ltb n 1 || ltb 65535 n) ≡ true =
      λ (a, b). ground arith in
    (λ h. to (go h), λ h. back (from h))
port_problems_iff (negsuc n) = (λ h. absurd (cc), λ h. absurd h)

has_long_tag_iff :
    (ts : List Bytes) → (not (has_long_tag ts) ≡ true) ↔ All (λ t. rune_count t ≤ 50) ts
unfolding has_long_tag
has_long_tag_iff [] = (λ h. tt, λ h. refl)
has_long_tag_iff (t ∷ ts) =
    let (go, back) = has_long_tag_iff ts in
    (
      λ h. elim (Bool-cases (ltb 50 (rune_count t))) [
        | inl e ↦ absurd (let k = rw e at h in cc)
        | inr e ↦ (ground arith, go (rw e at h))
      ],
      λ (a, h). let e : ltb 50 (rune_count t) ≡ false = ground arith in rw e (back h),
    )

few_iff : (n : ℕ) → (not (ltb 30 n) ≡ true) ↔ (n ≤ 30)
few_iff n = (λ h. ground arith, λ h. ground arith)

-- The fields of a server are accepted exactly if the name has 2 to 100 characters, the host is there
-- with at most 255, the port is 1 to 65535, protocol, method and environment are words of their
-- enumerations, user name, provider and location have at most 255, 100 and 100 characters, and there
-- are at most 30 tags of at most 50 characters.
pub validate_server_fields_iff : (f : ServerFields) → (validate_server_fields f ≡ []) ↔ IsValid f
unfolding validate_server_fields choice_problems tag_problems
validate_server_fields_iff f =
    let limit = codes "must be at most 255 characters" in
    let brief = codes "must be at most 100 characters" in
    let names = name_problems_iff f.name in
    let hosts = required_problems_iff (codes "host") 255 limit f.host in
    let ports = port_problems_iff f.port in
    let protocols =
      unless_iff (is_valid_server_protocol f.protocol) (codes "protocol")
        (codes "must be one of SSH, WINRM, RDP") in
    let methods =
      unless_iff (is_valid_server_auth_method f.auth_method) (codes "auth_method")
        (codes "must be one of PASSWORD, PRIVATE_KEY, AGENT") in
    let places =
      unless_iff (is_valid_server_environment f.environment) (codes "environment")
        (codes "must be one of PRODUCTION, STAGING, DEVELOPMENT, TESTING, OTHER") in
    let users = optional_problems_iff (codes "username") 255 limit f.username in
    let providers = optional_problems_iff (codes "provider") 100 brief f.provider in
    let locations = optional_problems_iff (codes "location") 100 brief f.location in
    let few =
      unless_iff (not (ltb 30 (length f.tags))) (codes "tags") (codes "must be at most 30 tags") in
    let short =
      unless_iff (not (has_long_tag f.tags)) (codes "tags")
        (codes "each tag must be at most 50 characters") in
    (
      λ h.
          let (n, h1) = (append-eq-nil _ _).0 h in
          let (o, h2) = (append-eq-nil _ _).0 h1 in
          let (q, h3) = (append-eq-nil _ _).0 h2 in
          let (c, h4) = (append-eq-nil _ _).0 h3 in
          let (u, h5) = (append-eq-nil _ _).0 h4 in
          let (v, h6) = (append-eq-nil _ _).0 h5 in
          let (l, t) = (append-eq-nil _ _).0 h6 in
          let (c1, c23) = (append-eq-nil _ _).0 c in
          let (c2, c3) = (append-eq-nil _ _).0 c23 in
          let (t1, t2) = (append-eq-nil _ _).0 t in
          record {
            name_length = names.0 n;
            host_length = hosts.0 o;
            port = ports.0 q;
            protocol = protocols.0 c1;
            auth_method = methods.0 c2;
            environment = places.0 c3;
            username_short = users.0 u;
            provider_short = providers.0 v;
            location_short = locations.0 l;
            tags_few = (few_iff (length f.tags)).0 (few.0 t1);
            tags_short = (has_long_tag_iff f.tags).0 (short.0 t2);
          },
      λ v.
          rw
            (
              names.1 v.name_length,
              hosts.1 v.host_length,
              ports.1 v.port,
              protocols.1 v.protocol,
              methods.1 v.auth_method,
              places.1 v.environment,
              users.1 v.username_short,
              providers.1 v.provider_short,
              locations.1 v.location_short,
              few.1 ((few_iff (length f.tags)).1 v.tags_few),
              short.1 ((has_long_tag_iff f.tags).1 v.tags_short),
            )
            refl,
    )
