-- ===== src/Tests/Forms.antt =====
-- The forms of a registry and of a server, a page and a host.
use dijex_api.Prelude.{◌≡◌, ◌↔◌, ℕ, true, List, [], ◌∷◌, ◌++◌, inl, inr, refl}
use dijex_api.Prelude.Int.{pos}
use dijex_api.Text.{codes, trim_space}
use dijex_api.Tests.Services.{apart}
use dijex_api.Registry.Accepted as RegistryAccepted
use dijex_api.Registry.Validate.{validate_registry_fields}
use dijex_api.Registry.Accepted.{validate_registry_fields_iff}
use dijex_api.Server.Accepted as ServerAccepted
use dijex_api.Server.Accepted.{validate_server_fields_iff}
use dijex_api.Server.Validate.{ServerFields, validate_server_fields}
use dijex_api.Server.Images.{normalize_registry_host}
use dijex_api.Server.Hosts.{normalize_registry_host-host}

validate_registry_fields_iff_example :
    (validate_registry_fields
        (λ s. true)
        (codes "hub")
        (codes "GHCR")
        (codes "https://ghcr.io")
        []
        (codes "a@b.c")
        []
      ≡ [])
    ↔ RegistryAccepted.IsValid
        (λ s. true)
        (codes "hub")
        (codes "GHCR")
        (codes "https://ghcr.io")
        []
        (codes "a@b.c")
        []
validate_registry_fields_iff_example =
    validate_registry_fields_iff (λ s. true) (codes "hub") (codes "GHCR") (codes "https://ghcr.io")
      [] (codes "a@b.c") []

abbrev web : ServerFields
web = record {
  name = codes "web";
  host = codes "10.0.0.1";
  port = pos 22;
  protocol = codes "SSH";
  username = codes "root";
  auth_method = codes "PASSWORD";
  environment = codes "PRODUCTION";
  provider = [];
  location = [];
  tags = codes "eu" ∷ [];
}

validate_server_fields_iff_example : (validate_server_fields web ≡ []) ↔ ServerAccepted.IsValid web
validate_server_fields_iff_example = validate_server_fields_iff web

ghcr :
    trim_space (codes " https://ghcr.io/v2/")
    ≡ codes "https://" ++ (codes "ghcr.io" ++ codes "/v2/")
unfolding trim_space
ghcr = refl

normalize_registry_host-host_example :
    normalize_registry_host (codes " https://ghcr.io/v2/") ≡ codes "ghcr.io"
normalize_registry_host-host_example =
    normalize_registry_host-host (codes " https://ghcr.io/v2/") (codes "https://") (codes "ghcr.io")
      (codes "/v2/") (refl, (refl, (refl, (refl, (refl, (refl, (refl, tt))))))) refl
      (apart (codes "ghcr.io") (codes "http:") refl) (apart (codes "ghcr.io") (codes "https:") refl)
      (inr (inl refl)) (inr (codes "v2/", refl)) ghcr

abbrev nine : List ℕ
nine = 1 ∷ 2 ∷ 3 ∷ 4 ∷ 5 ∷ 6 ∷ 7 ∷ 8 ∷ 9 ∷ []
