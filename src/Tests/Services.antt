-- ===== src/Tests/Services.antt =====
-- The services over a small platform and tables with a live and a deleted row each.
use dijex_api.Prelude.{◌≡◌, ◌≢◌, refl, ℕ, zero, suc, ◌+◌, true, false, none, some, List, [], ◌∷◌}
use dijex_api.Prelude.Int.{pos}
use mathlib.Core.List.{Memᴰ}
use dijex_api.Text.{Bytes, codes, bytes_eq}
use dijex_api.Text.Equality.{bytes_eq_iff}
use dijex_api.Action.{done}
use dijex_api.Crypto.Cipher.{Aead, ok}
use dijex_api.Platform.{World, Platform}
use dijex_api.Registry.Types.{Registry, CreateRegistryInput}
use dijex_api.Registry.Connection.{RegistryConnector, CheckResult}
use dijex_api.Server.Types.{Server}
use dijex_api.Server.Connector.{Connector, SshResult, InstallResult, reached}
use dijex_api.Tests.Hosts.{willing}
use dijex_api.Services.{
  Call, create_registry_call, ping_registry_call, delete_registry_call, remote_ping_call,
}
use dijex_api.Services.Steps.{tables}
use dijex_api.Services.Every.{perform_all}
use dijex_api.Services.Consistent.{IsConsistent, perform_all-IsConsistent}
use dijex_api.Services.Deleted.{perform_all-keeps_deleted}

abbrev pub zeros : ℕ → Bytes
zeros zero = []
zeros (suc n) = 0 ∷ zeros n

abbrev pub plain_aead : Aead
plain_aead = record {
  nonce_size = 2;
  seal = λ nonce text. text;
  open_sealed = λ nonce text. ok text;
}

abbrev pub platform : Platform ℕ
platform = record {
  serve = λ s. (s + 1, none);
  db_now = λ s. (s, s);
  clock = λ s. (s, s);
  new_uuid = λ s. (s, codes "r3");
  random = λ n s. (s, ok (zeros n));
  aead = plain_aead;
  unicode_lower = λ t. t;
  unicode_upper = λ t. t;
  is_address = λ t. true;
  registry_error = λ r. none;
  server_error = λ s. none;
  ilike = λ text pattern. true;
  order_registries = λ column desc rows. rows;
  order_servers = λ column desc rows. rows;
}

abbrev pub up : CheckResult
up = record {
  connected = true;
  authenticated = true;
  status = codes "OK";
  message = [];
  api_version = [];
}

abbrev pub registries_up : RegistryConnector ℕ
registries_up = record {
  check = λ t s. (s, up);
  list_images =
      λ t n s. (s, done (record { source = []; namespace = n; total = pos 0; images = [] }));
}

abbrev pub ssh_up : SshResult
ssh_up = record {
  connected = true;
  method = codes "password";
  status = codes "OK";
  message = [];
  facts = none;
}

abbrev pub key_in : InstallResult
key_in = record {
  connected = true;
  already_installed = false;
  installed = true;
  verified = true;
  status = codes "OK";
  message = [];
}

abbrev pub connector : Connector ℕ
connector = record {
  connect = λ t s. (s, ssh_up);
  ping = λ t s. (s, ssh_up);
  install_public_key = λ t k s. (s, key_in);
  dial = λ t s. (s, reached (record { host = willing; close = λ s. s }) (codes "password"));
  check_key = λ s. (s, done (record { valid = true; public_key = codes "ssh-ed25519 AAAA" }));
  lookup_country = λ ip. none;
}

abbrev pub live_registry : Registry
live_registry = record {
  id = codes "r1";
  name = codes "hub";
  type = codes "DOCKERHUB";
  url = codes "https://registry-1.docker.io";
  username = codes "ann";
  password_encrypted = [];
  email = codes "ann@example.com";
  namespace = codes "ann";
  is_default = true;
  is_active = false;
  insecure = false;
  last_checked_at = none;
  last_status = [];
  last_error = [];
  created_at = 1;
  updated_at = 1;
  deleted_at = none;
}

abbrev pub deleted_registry : Registry
deleted_registry = record live_registry {
  id = codes "r2";
  name = codes "old";
  is_default = false;
  deleted_at = some 3;
}

abbrev pub live_server : Server
live_server = record {
  id = codes "s1";
  name = codes "web";
  host = codes "10.0.0.1";
  port = pos 22;
  protocol = codes "SSH";
  username = codes "root";
  auth_method = codes "PASSWORD";
  password_encrypted = [];
  private_key_encrypted = [];
  private_key_passphrase_encrypted = [];
  description = [];
  environment = codes "PRODUCTION";
  provider = [];
  location = [];
  tags = [];
  os = [];
  os_version = [];
  arch = [];
  kernel_version = [];
  remote_hostname = [];
  cpu_cores = none;
  memory_total_bytes = none;
  disk_total_bytes = none;
  remote_public_ip = [];
  country_code = [];
  country = [];
  is_active = false;
  ssh_key_installed = false;
  last_checked_at = none;
  last_status = [];
  last_error = [];
  created_at = 1;
  updated_at = 1;
  deleted_at = none;
}

abbrev pub deleted_server : Server
deleted_server = record live_server { id = codes "s2"; name = codes "db"; deleted_at = some 4 }

abbrev pub world : World ℕ
world = record {
  env = 9;
  registries = live_registry ∷ deleted_registry ∷ [];
  servers = live_server ∷ deleted_server ∷ [];
}

abbrev pub new_hub : CreateRegistryInput
new_hub = record {
  name = codes " ghcr ";
  type = codes "ghcr";
  url = codes "ghcr.io";
  username = [];
  password = codes "pw ";
  email = codes "Bob@Example.com";
  namespace = [];
  is_default = true;
  insecure = false;
}

abbrev busy_day : List (Call ℕ)
busy_day =
    create_registry_call new_hub
    ∷ ping_registry_call (codes "r1")
    ∷ delete_registry_call (codes "r3")
    ∷ remote_ping_call (codes "s1")
    ∷ []

pub apart : (s t : Bytes) → bytes_eq s t ≡ false → s ≢ t
apart s t e q = let k = (bytes_eq_iff s t).1 q in absurd (cc)

world-IsConsistent : IsConsistent (tables world)
world-IsConsistent = (
  record {
    ids = ((apart (codes "r1") (codes "r2") refl, tt), (tt, tt));
    names = ((apart (codes "hub") (codes "old") refl, tt), (tt, tt));
    one_default = ((λ _. (refl, tt)), ((λ e. tt), tt));
  },
  record {
    ids = ((apart (codes "s1") (codes "s2") refl, tt), (tt, tt));
    names = ((apart (codes "web") (codes "db") refl, tt), (tt, tt));
  },
)

perform_all-IsConsistent_example :
    IsConsistent (tables (perform_all platform registries_up connector busy_day world))
perform_all-IsConsistent_example =
    perform_all-IsConsistent platform registries_up connector busy_day world world-IsConsistent

perform_all-keeps_deleted_example :
    Memᴰ deleted_registry (perform_all platform registries_up connector busy_day world).registries
    × Memᴰ deleted_server (perform_all platform registries_up connector busy_day world).servers
perform_all-keeps_deleted_example =
    perform_all-keeps_deleted platform registries_up connector busy_day world deleted_registry
      deleted_server 3 4 refl refl (Memᴰ.tail (Memᴰ.head refl)) (Memᴰ.tail (Memᴰ.head refl))
