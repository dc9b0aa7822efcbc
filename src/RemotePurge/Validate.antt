-- ===== src/RemotePurge/Validate.antt =====
-- internal/remotepurge/validate.go: its expressions are those of the deployment.
use dijex_api.Prelude.{◌≡◌, refl, ◌↔◌, Option, none, some, if◌then◌else◌}
use dijex_api.Regex.Language.{Language}
use dijex_api.RemoteDeploy.Validate.{
  ParamError, bad_image, bad_tag, bad_container_name, bad_registry_host, bad_registry_namespace,
  breaks, breaks_if_set, image_ref_re, tag_re, container_name_re, registry_host_re,
}
use dijex_api.RemoteDeploy.Validate.Rules.{IsUnsetOr}
use dijex_api.RemoteDeploy.Validate.Sound.{breaks_iff, breaks_if_set_iff, check_iff}
use dijex_api.RemotePurge.Types.{PurgeParams}

unfoldable pub validate_params : PurgeParams → Option ParamError
validate_params p =
    if breaks image_ref_re p.image
    then some bad_image
    else if breaks tag_re p.tag
    then some bad_tag
    else if breaks_if_set container_name_re p.container_name
    then some bad_container_name
    else if breaks_if_set registry_host_re p.registry_host
    then some bad_registry_host
    else if breaks_if_set image_ref_re p.registry_namespace
    then some bad_registry_namespace
    else none

pub record IsValid (p : PurgeParams) : Type 0 where
  pub image : Language image_ref_re p.image
  pub tag : Language tag_re p.tag
  pub container_name : IsUnsetOr container_name_re p.container_name
  pub registry_host : IsUnsetOr registry_host_re p.registry_host
  pub registry_namespace : IsUnsetOr image_ref_re p.registry_namespace

accepted : (p : PurgeParams) → validate_params p ≡ none → IsValid p
unfolding validate_params
accepted p h0 =
    let (image, h1) = (check_iff _ _ _).0 h0 in
    let (tag, h2) = (check_iff _ _ _).0 h1 in
    let (container_name, h3) = (check_iff _ _ _).0 h2 in
    let (registry_host, h4) = (check_iff _ _ _).0 h3 in
    let (registry_namespace, _) = (check_iff _ _ _).0 h4 in
    record {
      image = (breaks_iff _ _).0 image;
      tag = (breaks_iff _ _).0 tag;
      container_name = (breaks_if_set_iff _ _).0 container_name;
      registry_host = (breaks_if_set_iff _ _).0 registry_host;
      registry_namespace = (breaks_if_set_iff _ _).0 registry_namespace;
    }

accepts : (p : PurgeParams) → IsValid p → validate_params p ≡ none
unfolding validate_params
accepts p v = (check_iff _ _ _).1 (
  (breaks_iff _ _).1 v.image,
  (check_iff _ _ _).1 (
    (breaks_iff _ _).1 v.tag,
    (check_iff _ _ _).1 (
      (breaks_if_set_iff _ _).1 v.container_name,
      (check_iff _ _ _).1 (
        (breaks_if_set_iff _ _).1 v.registry_host,
        (check_iff _ _ _).1 ((breaks_if_set_iff _ _).1 v.registry_namespace, refl),
      ),
    ),
  ),
)

-- The parameters of a purge are accepted exactly if every text is in the language of its expression,
-- or unset, which the image and the tag may not be.
pub validate_params_lem : (p : PurgeParams) → (validate_params p ≡ none) ↔ IsValid p
validate_params_lem p = (accepted p, accepts p)
