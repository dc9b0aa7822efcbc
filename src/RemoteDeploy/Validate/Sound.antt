-- ===== src/RemoteDeploy/Validate/Sound.antt =====
-- The validator accepts exactly the parameters that keep the rules.
use dijex_api.Prelude.{
  ℕ, ◌≡◌, ◌≢◌, refl, ◌||◌, Bool, true, false, List, [], ◌∷◌, ◌↔◌, Option, none, some, arith,
  Bool-cases, inl, inr, not, ◌&&◌, if◌then◌else◌,
}
use mathlib.Core.Path.{subst⁻¹}
use mathlib.Core.List.{cons-ne-nil}
use dijex_api.Text.Equality.{bytes_eq_sound}
use dijex_api.Text.{Bytes, codes, is_empty, bytes_eq}
use dijex_api.Regex.{Regex, matches}
use dijex_api.Regex.Correct.{matches_iff}
use dijex_api.Regex.Language.{Language}
use dijex_api.RemoteDeploy.Types.{DeployParams, PortMapping}
use dijex_api.RemoteDeploy.Validate.{
  ParamError, validate_params, breaks, breaks_if_set, valid_restart_policy, has_no_ports,
}
use dijex_api.RemoteDeploy.Validate.Ports.{check_ports_lem}
use dijex_api.RemoteDeploy.Validate.Rules.{
  IsValid, IsUnsetOr, IsPolicy, unset, never, on_failure, always, unless_stopped,
}

-- A chain of checks that each may end in an error.
pub check_iff :
    (b : Bool) (e : ParamError) (rest : Option ParamError)
    → ((if b then some e else rest) ≡ none) ↔ ((b ≡ false) × (rest ≡ none))
check_iff true e rest = (λ h. absurd (cc), λ h. absurd (cc h.0))
check_iff false e rest = (λ h. (refl, h), λ h. h.1)

not-eq-false : (b : Bool) → (not b ≡ false) ↔ (b ≡ true)
not-eq-false true = (λ _. refl, λ _. refl)
not-eq-false false = (λ h. absurd (cc), λ h. absurd (cc))

pub breaks_iff : (r : Regex) (s : Bytes) → (breaks r s ≡ false) ↔ Language r s
breaks_iff r s =
    let (to, from) = matches_iff r s in
    let (yes_if, no_if) = not-eq-false (matches r s) in (λ h. to (yes_if h), λ h. no_if (from h))

pub breaks_if_set_iff : (r : Regex) (s : Bytes) → (breaks_if_set r s ≡ false) ↔ IsUnsetOr r s
breaks_if_set_iff r [] = (λ _. inl refl, λ _. refl)
breaks_if_set_iff r (c ∷ s) =
    let (to, from) = breaks_iff r (c ∷ s) in
    (λ h. inr (to h), elim [ inl e ↦ absurd (cc e) | inr h ↦ from h ])

last_choice :
    {a b c d : Bool}
    → a ≡ false
    → b ≡ false
    → c ≡ false
    → (a || (b || (c || (d || false)))) ≡ true
    → d ≡ true
last_choice p q r h = ground arith

policy_complete : (c : ℕ) (s : Bytes) → IsPolicy (c ∷ s) → valid_restart_policy (c ∷ s) ≡ true
unfolding valid_restart_policy
policy_complete c s (unset e) = absurd (cc)
policy_complete c s (never e) = subst⁻¹ (λ t. valid_restart_policy t ≡ true) e refl
policy_complete c s (on_failure e) = subst⁻¹ (λ t. valid_restart_policy t ≡ true) e refl
policy_complete c s (always e) = subst⁻¹ (λ t. valid_restart_policy t ≡ true) e refl
policy_complete c s (unless_stopped e) = subst⁻¹ (λ t. valid_restart_policy t ≡ true) e refl

IsPolicy-sound : (c : ℕ) (s : Bytes) → valid_restart_policy (c ∷ s) ≡ true → IsPolicy (c ∷ s)
unfolding valid_restart_policy
IsPolicy-sound c s h = elim (Bool-cases (bytes_eq (c ∷ s) (codes "no"))) [
  | inl e ↦ never (bytes_eq_sound _ _ e)
  | inr not_never ↦ elim (Bool-cases (bytes_eq (c ∷ s) (codes "on-failure"))) [
    | inl e ↦ on_failure (bytes_eq_sound _ _ e)
    | inr not_failure ↦ elim (Bool-cases (bytes_eq (c ∷ s) (codes "always"))) [
      | inl e ↦ always (bytes_eq_sound _ _ e)
      | inr not_always ↦
          unless_stopped (bytes_eq_sound _ _ (last_choice not_never not_failure not_always h))
    ]
  ]
]

IsPolicy-iff :
    (s : Bytes) → ((not (is_empty s) && not (valid_restart_policy s)) ≡ false) ↔ IsPolicy s
unfolding valid_restart_policy
IsPolicy-iff [] = (λ _. unset refl, λ _. refl)
IsPolicy-iff (c ∷ s) =
    let (yes_if, no_if) = not-eq-false (valid_restart_policy (c ∷ s)) in
    (λ h. IsPolicy-sound c s (yes_if h), λ h. no_if (policy_complete c s h))

ports_iff : (ms : List PortMapping) → (has_no_ports ms ≡ false) ↔ (ms ≢ [])
ports_iff [] = (λ h. absurd (cc), λ h. absurd (h refl))
ports_iff (m ∷ ms) = (λ h. cons-ne-nil m ms, λ h. refl)

accepted : (p : DeployParams) → validate_params p ≡ none → IsValid p
unfolding validate_params
accepted p h0 =
    let (image, h1) = (check_iff _ _ _).0 h0 in
    let (tag, h2) = (check_iff _ _ _).0 h1 in
    let (container_name, h3) = (check_iff _ _ _).0 h2 in
    let (registry_host, h4) = (check_iff _ _ _).0 h3 in
    let (registry_namespace, h5) = (check_iff _ _ _).0 h4 in
    let (registry_username, h6) = (check_iff _ _ _).0 h5 in
    let (restart_policy, h7) = (check_iff _ _ _).0 h6 in
    let (some_port, h8) = (check_iff _ _ _).0 h7 in
    let (in_range, distinct) = (check_ports_lem p.ports).0 h8 in
    record {
      image = (breaks_iff _ _).0 image;
      tag = (breaks_iff _ _).0 tag;
      container_name = (breaks_iff _ _).0 container_name;
      registry_host = (breaks_if_set_iff _ _).0 registry_host;
      registry_namespace = (breaks_if_set_iff _ _).0 registry_namespace;
      registry_username = (breaks_if_set_iff _ _).0 registry_username;
      restart_policy = (IsPolicy-iff _).0 restart_policy;
      some_port = (ports_iff _).0 some_port;
      in_range = in_range;
      distinct = distinct;
    }

accepts : (p : DeployParams) → IsValid p → validate_params p ≡ none
unfolding validate_params
accepts p v = (check_iff _ _ _).1 (
  (breaks_iff _ _).1 v.image,
  (check_iff _ _ _).1 (
    (breaks_iff _ _).1 v.tag,
    (check_iff _ _ _).1 (
      (breaks_iff _ _).1 v.container_name,
      (check_iff _ _ _).1 (
        (breaks_if_set_iff _ _).1 v.registry_host,
        (check_iff _ _ _).1 (
          (breaks_if_set_iff _ _).1 v.registry_namespace,
          (check_iff _ _ _).1 (
            (breaks_if_set_iff _ _).1 v.registry_username,
            (check_iff _ _ _).1 (
              (IsPolicy-iff _).1 v.restart_policy,
              (check_iff _ _ _).1 (
                (ports_iff _).1 v.some_port,
                (check_ports_lem p.ports).1 (v.in_range, v.distinct),
              ),
            ),
          ),
        ),
      ),
    ),
  ),
)

-- The parameters are accepted exactly if every text is in the language of its expression (or unset,
-- where that is allowed), the restart policy is one of the four or unset, there is a port, all ports
-- lie in 1 to 65535, and no two mappings have the same host port.
pub validate_params_iff : (p : DeployParams) → (validate_params p ≡ none) ↔ IsValid p
validate_params_iff p = (accepted p, accepts p)
