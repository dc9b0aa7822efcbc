-- ===== src/Server/Views.antt =====
-- The rows that internal/service/server_service.go builds, and `toServerView`.
use dijex_api.Prelude.{ℕ, true, false, not, [], none}
use dijex_api.Text.{Bytes, is_empty}
use dijex_api.Server.Types.{Server}
use dijex_api.Server.Forms.{CreateServerInput, UpdateServerInput, ServerView}

unfoldable pub to_server_view : Server → ServerView
to_server_view s = record {
  id = s.id;
  name = s.name;
  host = s.host;
  port = s.port;
  protocol = s.protocol;
  username = s.username;
  auth_method = s.auth_method;
  description = s.description;
  environment = s.environment;
  provider = s.provider;
  location = s.location;
  tags = s.tags;
  os = s.os;
  os_version = s.os_version;
  arch = s.arch;
  kernel_version = s.kernel_version;
  remote_hostname = s.remote_hostname;
  cpu_cores = s.cpu_cores;
  memory_total_bytes = s.memory_total_bytes;
  disk_total_bytes = s.disk_total_bytes;
  remote_public_ip = s.remote_public_ip;
  country_code = s.country_code;
  country = s.country;
  has_password = not (is_empty s.password_encrypted);
  has_private_key = not (is_empty s.private_key_encrypted);
  is_active = s.is_active;
  ssh_key_installed = s.ssh_key_installed;
  last_checked_at = s.last_checked_at;
  last_status = s.last_status;
  created_at = s.created_at;
  updated_at = s.updated_at;
}

-- The three secrets of a server, as they are stored.
pub record Secrets : Type 0 where
  pub password : Bytes
  pub private_key : Bytes
  pub passphrase : Bytes

abbrev pub new_server : CreateServerInput → Bytes → Secrets → ℕ → Server
new_server i id secrets now = record {
  id = id;
  name = i.name;
  host = i.host;
  port = i.port;
  protocol = i.protocol;
  username = i.username;
  auth_method = i.auth_method;
  password_encrypted = secrets.password;
  private_key_encrypted = secrets.private_key;
  private_key_passphrase_encrypted = secrets.passphrase;
  description = i.description;
  environment = i.environment;
  provider = i.provider;
  location = i.location;
  tags = i.tags;
  os = [];
  os_version = [];
  arch = [];
  kernel_version = [];
  remote_hostname = [];
  cpu_cores = none;
  memory_total_bytes = none;
  disk_total_bytes = none;
  remote_public_ip = [];
  country_code = [];
  country = [];
  is_active = true;
  ssh_key_installed = false;
  last_checked_at = none;
  last_status = [];
  last_error = [];
  created_at = now;
  updated_at = now;
  deleted_at = none;
}

-- The `Server` that `UpdateServer` hands to the table: the facts and the state of the connection
-- have their zero values.
abbrev pub changed_server : UpdateServerInput → Secrets → Server
changed_server i secrets = record {
  id = i.id;
  name = i.name;
  host = i.host;
  port = i.port;
  protocol = i.protocol;
  username = i.username;
  auth_method = i.auth_method;
  password_encrypted = secrets.password;
  private_key_encrypted = secrets.private_key;
  private_key_passphrase_encrypted = secrets.passphrase;
  description = i.description;
  environment = i.environment;
  provider = i.provider;
  location = i.location;
  tags = i.tags;
  os = [];
  os_version = [];
  arch = [];
  kernel_version = [];
  remote_hostname = [];
  cpu_cores = none;
  memory_total_bytes = none;
  disk_total_bytes = none;
  remote_public_ip = [];
  country_code = [];
  country = [];
  is_active = i.is_active;
  ssh_key_installed = false;
  last_checked_at = none;
  last_status = [];
  last_error = [];
  created_at = 0;
  updated_at = 0;
  deleted_at = none;
}

-- What `Update` scans from RETURNING into the struct.
abbrev pub returned : Server → Server → Server
returned s row = record s {
  created_at = row.created_at;
  updated_at = row.updated_at;
  ssh_key_installed = row.ssh_key_installed;
}
