-- ===== src/Server/Rows.antt =====
-- The conditions and the assignments in the statements of
-- internal/repository/postgres/server_repository.go, with the UNIQUE columns and the trigger of
-- migrations/000005_create_servers.up.sql.
use dijex_api.Prelude.{
  ℕ, Bool, false, ◌&&◌, ◌||◌, not, List, [], Option, none, some, if◌then◌else◌, is_some,
}
use dijex_api.Text.{Bytes, codes, bytes_eq}
use dijex_api.Platform.Rows.{has_row, text_is, flag_is, text_has, coalesce}
use dijex_api.Server.Types.{Server, ServerFacts, ServerListFilter, auth_private_key}

abbrev pub is_live : Server → Bool
is_live s = not (is_some s.deleted_at)

-- `WHERE id = $1 AND deleted_at IS NULL`
abbrev pub is_row : Bytes → Server → Bool
is_row id s = bytes_eq s.id id && is_live s

-- The primary key and the UNIQUE name, which deleted rows keep too.
unfoldable pub insert_clashes : Server → List Server → Bool
unfolding has_row
insert_clashes s rows = has_row (λ x. bytes_eq x.id s.id || bytes_eq x.name s.name) rows

-- The same for an UPDATE of the row with this id.
unfoldable pub update_clashes : Server → List Server → Bool
unfolding has_row
update_clashes s rows = has_row (λ x. not (bytes_eq x.id s.id) && bytes_eq x.name s.name) rows

-- The row that the INSERT leaves: the columns that it does not name are NULL, or FALSE.
unfoldable pub inserted : Server → Server
inserted s = record s {
  os = [];
  os_version = [];
  arch = [];
  kernel_version = [];
  remote_hostname = [];
  cpu_cores = none;
  memory_total_bytes = none;
  disk_total_bytes = none;
  remote_public_ip = [];
  country_code = [];
  country = [];
  ssh_key_installed = false;
  last_checked_at = none;
  last_status = [];
  last_error = [];
  deleted_at = none;
}

-- The row that `Update` leaves in place of the one that it found.
unfoldable pub updated : ℕ → Server → Server → Server
updated now s old = record old {
  name = s.name;
  host = s.host;
  port = s.port;
  protocol = s.protocol;
  username = s.username;
  auth_method = s.auth_method;
  password_encrypted = s.password_encrypted;
  private_key_encrypted = s.private_key_encrypted;
  private_key_passphrase_encrypted = s.private_key_passphrase_encrypted;
  description = s.description;
  environment = s.environment;
  provider = s.provider;
  location = s.location;
  tags = s.tags;
  is_active = s.is_active;
  updated_at = now;
}

unfoldable pub deleted : ℕ → Server → Server
deleted now s = record s { deleted_at = some now; updated_at = now }

unfoldable pub with_status : ℕ → Bytes → Bytes → ℕ → Option Bool → Server → Server
with_status now status err at set_active s = record s {
  last_checked_at = some at;
  last_status = status;
  last_error = err;
  is_active = coalesce set_active s.is_active;
  updated_at = now;
}

unfoldable pub with_facts : ℕ → ServerFacts → Server → Server
with_facts now f s = record s {
  os = f.os;
  os_version = f.os_version;
  arch = f.arch;
  kernel_version = f.kernel_version;
  remote_hostname = f.remote_hostname;
  cpu_cores = f.cpu_cores;
  remote_public_ip = f.remote_public_ip;
  country_code = f.country_code;
  country = f.country;
  updated_at = now;
}

-- `SET ssh_key_installed = $2, auth_method = CASE WHEN $2 THEN 'PRIVATE_KEY' ...`
unfoldable pub with_key : ℕ → Bool → Server → Server
with_key now installed s = record s {
  ssh_key_installed = installed;
  auth_method = if installed then auth_private_key else s.auth_method;
  updated_at = now;
}

-- `serverSortColumn`
unfoldable pub sort_column : Bytes → Bytes
sort_column s =
    if bytes_eq s (codes "updated_at")
      || bytes_eq s (codes "name")
      || bytes_eq s (codes "host")
      || bytes_eq s (codes "environment")
    then s
    else codes "created_at"

-- The WHERE of `List`; an empty text to search for is found everywhere.
unfoldable pub matches : (Bytes → Bytes → Bool) → ServerListFilter → Server → Bool
matches ilike f s =
    is_live s
    && text_is f.environment s.environment
    && text_is f.protocol s.protocol
    && text_is f.auth_method s.auth_method
    && flag_is f.is_active s.is_active
    && (text_has ilike f.search s.name || text_has ilike f.search s.host)
