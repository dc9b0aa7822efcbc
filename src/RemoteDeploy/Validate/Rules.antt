-- ===== src/RemoteDeploy/Validate/Rules.antt =====
-- The rules that the parameters have to keep, stated without the validator.
use mathlib.Core.Logic.{◌≢◌}
use dijex_api.Prelude.{◌≤◌, ◌≡◌, List, [], ◌∷◌, ◌⊎◌, All, map}
use dijex_api.Prelude.Int.{ℤ, pos, negsuc}
use dijex_api.Text.{Bytes, codes}
use dijex_api.Regex.{Regex}
use dijex_api.Regex.Language.{Language}
use dijex_api.RemoteDeploy.Types.{DeployParams, PortMapping}
use dijex_api.RemoteDeploy.Validate.{
  image_ref_re, tag_re, container_name_re, registry_host_re, username_re,
}

-- Empty, or in the language of the expression.
abbrev pub IsUnsetOr : Regex → Bytes → Type 0
IsUnsetOr r s = (s ≡ []) ⊎ Language r s

abbrev pub IsPort : ℤ → Type 0
IsPort (pos n) = (1 ≤ n) × (n ≤ 65535)
IsPort (negsuc n) = ⊥

abbrev pub Distinct : List ℤ → Type 0
Distinct [] = Unit
Distinct (n ∷ ns) = All (λ m. n ≢ m) ns × Distinct ns

pub data IsPolicy : Bytes → Type 0 where
  unset : {s : Bytes} → s ≡ [] → IsPolicy s
  never : {s : Bytes} → s ≡ codes "no" → IsPolicy s
  on_failure : {s : Bytes} → s ≡ codes "on-failure" → IsPolicy s
  always : {s : Bytes} → s ≡ codes "always" → IsPolicy s
  unless_stopped : {s : Bytes} → s ≡ codes "unless-stopped" → IsPolicy s

pub record IsValid (p : DeployParams) : Type 0 where
  pub image : Language image_ref_re p.image
  pub tag : Language tag_re p.tag
  pub container_name : Language container_name_re p.container_name
  pub registry_host : IsUnsetOr registry_host_re p.registry_host
  pub registry_namespace : IsUnsetOr image_ref_re p.registry_namespace
  pub registry_username : IsUnsetOr username_re p.registry_username
  pub restart_policy : IsPolicy p.restart_policy
  pub some_port : p.ports ≢ []
  pub in_range : All (λ (m : PortMapping). IsPort m.host × IsPort m.container) p.ports
  pub distinct : Distinct (map (λ (m : PortMapping). m.host) p.ports)
