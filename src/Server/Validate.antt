-- ===== src/Server/Validate.antt =====
-- The normal forms and the checks of internal/service/server_service.go.
use dijex_api.Prelude.{ℕ, Bool, false, ◌||◌, not, List, [], ◌∷◌, ◌++◌, length, ltb, if◌then◌else◌}
use dijex_api.Prelude.Int.{ℤ, pos, int_lt, int_eq}
use dijex_api.Text.{Bytes, codes, is_empty, trim_space, to_upper, rune_count}
use dijex_api.Action.{FieldError}
use dijex_api.Platform.{Platform}
use dijex_api.Platform.Rules.{unless, name_problems, required_problems, optional_problems}
use dijex_api.Server.Types.{
  protocol_ssh, auth_password, env_production, is_valid_server_protocol,
  is_valid_server_auth_method, is_valid_server_environment,
}
use dijex_api.Server.Forms.{CreateServerInput, UpdateServerInput}

abbrev pub default_ssh_port : ℤ
default_ssh_port = pos 22

abbrev pub max_server_tags : ℕ
max_server_tags = 30

abbrev pub max_server_tag_len : ℕ
max_server_tag_len = 50

unfoldable pub normalize_tags : List Bytes → List Bytes
unfolding trim_space
normalize_tags [] = []
normalize_tags (t ∷ ts) =
    let rest = normalize_tags ts in if is_empty (trim_space t) then rest else trim_space t ∷ rest

-- `applyServerDefaults`, one for the port and one for a text.
abbrev pub port_or_default : ℤ → ℤ
port_or_default port = if int_eq port (pos 0) then default_ssh_port else port

abbrev pub or_default : Bytes → Bytes → Bytes
or_default default text = if is_empty text then default else text

-- Whether some tag is too long: the loop stops at the first.
unfoldable pub has_long_tag : List Bytes → Bool
unfolding rune_count
has_long_tag [] = false
has_long_tag (t ∷ ts) = ltb max_server_tag_len (rune_count t) || has_long_tag ts

unfoldable pub tag_problems : List Bytes → List FieldError
unfolding has_long_tag
tag_problems tags =
    unless (not (ltb max_server_tags (length tags))) (codes "tags")
      (codes "must be at most 30 tags")
    ++ unless (not (has_long_tag tags)) (codes "tags")
        (codes "each tag must be at most 50 characters")

unfoldable pub port_problems : ℤ → List FieldError
port_problems port =
    unless (not (int_lt port (pos 1) || int_lt (pos 65535) port)) (codes "port")
      (codes "must be between 1 and 65535")

-- The three columns of an enumeration.
unfoldable pub choice_problems : Bytes → Bytes → Bytes → List FieldError
unfolding is_valid_server_protocol is_valid_server_auth_method is_valid_server_environment
choice_problems protocol auth_method environment =
    unless (is_valid_server_protocol protocol) (codes "protocol")
      (codes "must be one of SSH, WINRM, RDP")
    ++ (unless (is_valid_server_auth_method auth_method) (codes "auth_method")
          (codes "must be one of PASSWORD, PRIVATE_KEY, AGENT")
        ++ unless (is_valid_server_environment environment) (codes "environment")
            (codes "must be one of PRODUCTION, STAGING, DEVELOPMENT, TESTING, OTHER"))

-- The fields of both inputs that are checked.
pub record ServerFields : Type 0 where
  pub name : Bytes
  pub host : Bytes
  pub port : ℤ
  pub protocol : Bytes
  pub username : Bytes
  pub auth_method : Bytes
  pub environment : Bytes
  pub provider : Bytes
  pub location : Bytes
  pub tags : List Bytes

unfoldable pub validate_server_fields : ServerFields → List FieldError
unfolding name_problems required_problems optional_problems tag_problems port_problems
    choice_problems
validate_server_fields f =
    name_problems f.name
    ++ (required_problems (codes "host") 255 (codes "must be at most 255 characters") f.host
        ++ (port_problems f.port
            ++ (choice_problems f.protocol f.auth_method f.environment
                ++ (optional_problems (codes "username") 255
                      (codes "must be at most 255 characters") f.username
                    ++ (optional_problems (codes "provider") 100
                          (codes "must be at most 100 characters") f.provider
                        ++ (optional_problems (codes "location") 100
                              (codes "must be at most 100 characters") f.location
                            ++ tag_problems f.tags))))))

module _ {S : Type 0} (p : Platform S) where
  -- A word of an enumeration as the database spells it.
  abbrev pub word : Bytes → Bytes
  word text = to_upper p.unicode_upper (trim_space text)

  unfoldable pub normalize_create_server_input : CreateServerInput → CreateServerInput
  unfolding trim_space to_upper normalize_tags
  normalize_create_server_input i = record {
    name = trim_space i.name;
    host = trim_space i.host;
    port = port_or_default i.port;
    protocol = or_default protocol_ssh (word i.protocol);
    username = trim_space i.username;
    auth_method = or_default auth_password (word i.auth_method);
    password = i.password;
    private_key = i.private_key;
    private_key_passphrase = i.private_key_passphrase;
    description = trim_space i.description;
    environment = or_default env_production (word i.environment);
    provider = trim_space i.provider;
    location = trim_space i.location;
    tags = normalize_tags i.tags;
  }

  unfoldable pub normalize_update_server_input : UpdateServerInput → UpdateServerInput
  unfolding trim_space to_upper normalize_tags
  normalize_update_server_input i = record {
    id = i.id;
    name = trim_space i.name;
    host = trim_space i.host;
    port = port_or_default i.port;
    protocol = or_default protocol_ssh (word i.protocol);
    username = trim_space i.username;
    auth_method = or_default auth_password (word i.auth_method);
    password = i.password;
    private_key = i.private_key;
    private_key_passphrase = i.private_key_passphrase;
    description = trim_space i.description;
    environment = or_default env_production (word i.environment);
    provider = trim_space i.provider;
    location = trim_space i.location;
    tags = normalize_tags i.tags;
    is_active = i.is_active;
  }

abbrev pub fields_of_create : CreateServerInput → ServerFields
fields_of_create i = record {
  name = i.name;
  host = i.host;
  port = i.port;
  protocol = i.protocol;
  username = i.username;
  auth_method = i.auth_method;
  environment = i.environment;
  provider = i.provider;
  location = i.location;
  tags = i.tags;
}

abbrev pub fields_of_update : UpdateServerInput → ServerFields
fields_of_update i = record {
  name = i.name;
  host = i.host;
  port = i.port;
  protocol = i.protocol;
  username = i.username;
  auth_method = i.auth_method;
  environment = i.environment;
  provider = i.provider;
  location = i.location;
  tags = i.tags;
}
