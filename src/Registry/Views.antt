-- ===== src/Registry/Views.antt =====
-- The rows that internal/service/registry_service.go builds, and the outputs that it builds from rows.
use dijex_api.Prelude.{ℕ, false, not, [], none}
use dijex_api.Text.{Bytes, is_empty}
use dijex_api.Registry.Types.{
  Registry, CreateRegistryInput, CreateRegistryOutput, RegistryItem, UpdateRegistryInput,
  UpdateRegistryOutput,
}

abbrev pub new_registry : CreateRegistryInput → Bytes → Bytes → ℕ → Registry
new_registry i id encrypted now = record {
  id = id;
  name = i.name;
  type = i.type;
  url = i.url;
  username = i.username;
  password_encrypted = encrypted;
  email = i.email;
  namespace = i.namespace;
  is_default = i.is_default;
  is_active = false;
  insecure = i.insecure;
  last_checked_at = none;
  last_status = [];
  last_error = [];
  created_at = now;
  updated_at = now;
  deleted_at = none;
}

abbrev pub created_output : Registry → CreateRegistryOutput
created_output r = record {
  id = r.id;
  name = r.name;
  type = r.type;
  url = r.url;
  username = r.username;
  email = r.email;
  namespace = r.namespace;
  is_default = r.is_default;
  is_active = r.is_active;
  insecure = r.insecure;
  has_credentials = not (is_empty r.password_encrypted);
  created_at = r.created_at;
}

abbrev pub item_of : Registry → RegistryItem
item_of r = record {
  id = r.id;
  name = r.name;
  type = r.type;
  url = r.url;
  username = r.username;
  email = r.email;
  namespace = r.namespace;
  is_default = r.is_default;
  is_active = r.is_active;
  insecure = r.insecure;
  has_credentials = not (is_empty r.password_encrypted);
  last_checked_at = r.last_checked_at;
  last_status = r.last_status;
  created_at = r.created_at;
  updated_at = r.updated_at;
}

-- The `Registry` that `UpdateRegistry` hands to the table; the fields that it leaves unset are not
-- read there.
abbrev pub changed_registry : UpdateRegistryInput → Bytes → Registry
changed_registry i encrypted = record {
  id = i.id;
  name = i.name;
  type = i.type;
  url = i.url;
  username = i.username;
  password_encrypted = encrypted;
  email = i.email;
  namespace = i.namespace;
  is_default = i.is_default;
  is_active = i.is_active;
  insecure = i.insecure;
  last_checked_at = none;
  last_status = [];
  last_error = [];
  created_at = 0;
  updated_at = 0;
  deleted_at = none;
}

abbrev pub updated_output : Registry → Registry → UpdateRegistryOutput
updated_output r row = record {
  id = r.id;
  name = r.name;
  type = r.type;
  url = r.url;
  username = r.username;
  email = r.email;
  namespace = r.namespace;
  is_default = r.is_default;
  is_active = r.is_active;
  insecure = r.insecure;
  has_credentials = not (is_empty r.password_encrypted);
  created_at = row.created_at;
  updated_at = row.updated_at;
}
