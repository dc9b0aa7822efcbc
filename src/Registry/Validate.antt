-- ===== src/Registry/Validate.antt =====
-- The normal forms and the checks of internal/service/registry_service.go.
use dijex_api.Prelude.{Bool, ◌&&◌, not, List, [], ◌∷◌, ◌++◌, if◌then◌else◌}
use dijex_api.Text.{Bytes, codes, is_empty, contains, trim_space, to_lower, to_upper}
use dijex_api.Action.{FieldError}
use dijex_api.Platform.{Platform}
use dijex_api.Platform.Rules.{problem, unless, name_problems, required_problems, optional_problems}
use dijex_api.Registry.Types.{is_valid_registry_type, CreateRegistryInput, UpdateRegistryInput}

abbrev pub type_message : Bytes
type_message = codes "must be one of DOCKERHUB, GHCR, GITLAB, HARBOR, ECR, GENERIC"

-- The URL with a scheme, unless it is empty.
unfoldable pub normalize_url : Bytes → Bytes
unfolding trim_space contains
normalize_url text =
    let url = trim_space text in
    if not (is_empty url) && not (contains url (codes "://")) then codes "https://" ++ url else url

-- `email`: required, an address, at most 255 characters.
unfoldable pub email_problems : (Bytes → Bool) → Bytes → List FieldError
unfolding optional_problems
email_problems is_address email =
    if is_empty email
    then problem (codes "email") (codes "is required") ∷ []
    else unless (is_address email) (codes "email") (codes "is not a valid email")
      ++ optional_problems (codes "email") 255 (codes "must be at most 255 characters") email

unfoldable pub validate_registry_fields :
    (Bytes → Bool) → Bytes → Bytes → Bytes → Bytes → Bytes → Bytes → List FieldError
unfolding name_problems required_problems optional_problems email_problems is_valid_registry_type
validate_registry_fields is_address name type url username email namespace =
    name_problems name
    ++ (unless (is_valid_registry_type type) (codes "type") type_message
        ++ (required_problems (codes "url") 500 (codes "must be at most 500 characters") url
            ++ (optional_problems (codes "username") 255 (codes "must be at most 255 characters")
                  username
                ++ (email_problems is_address email
                    ++ optional_problems (codes "namespace") 255
                        (codes "must be at most 255 characters") namespace))))

module _ {S : Type 0} (p : Platform S) where
  unfoldable pub normalize_registry_input : CreateRegistryInput → CreateRegistryInput
  unfolding trim_space normalize_url to_upper to_lower
  normalize_registry_input i = record {
    name = trim_space i.name;
    type = to_upper p.unicode_upper (trim_space i.type);
    url = normalize_url i.url;
    username = trim_space i.username;
    password = i.password;
    email = to_lower p.unicode_lower (trim_space i.email);
    namespace = trim_space i.namespace;
    is_default = i.is_default;
    insecure = i.insecure;
  }

  unfoldable pub normalize_update_registry_input : UpdateRegistryInput → UpdateRegistryInput
  unfolding trim_space normalize_url to_upper to_lower
  normalize_update_registry_input i = record {
    id = i.id;
    name = trim_space i.name;
    type = to_upper p.unicode_upper (trim_space i.type);
    url = normalize_url i.url;
    username = trim_space i.username;
    password = i.password;
    email = to_lower p.unicode_lower (trim_space i.email);
    namespace = trim_space i.namespace;
    is_default = i.is_default;
    is_active = i.is_active;
    insecure = i.insecure;
  }
