-- ===== src/Server/Types.antt =====
-- internal/domain/server.go. The text of a nullable column is empty where the column is NULL.
use dijex_api.Prelude.{ℕ, Bool, ◌||◌, List, Option}
use dijex_api.Prelude.Int.{ℤ}
use dijex_api.Text.{Bytes, codes, bytes_eq}

pub record Server : Type 0 where
  pub id : Bytes
  pub name : Bytes
  pub host : Bytes
  pub port : ℤ
  pub protocol : Bytes
  pub username : Bytes
  pub auth_method : Bytes
  pub password_encrypted : Bytes
  pub private_key_encrypted : Bytes
  pub private_key_passphrase_encrypted : Bytes
  pub description : Bytes
  pub environment : Bytes
  pub provider : Bytes
  pub location : Bytes
  pub tags : List Bytes
  pub os : Bytes
  pub os_version : Bytes
  pub arch : Bytes
  pub kernel_version : Bytes
  pub remote_hostname : Bytes
  pub cpu_cores : Option ℤ
  pub memory_total_bytes : Option ℤ
  pub disk_total_bytes : Option ℤ
  pub remote_public_ip : Bytes
  pub country_code : Bytes
  pub country : Bytes
  pub is_active : Bool
  pub ssh_key_installed : Bool
  pub last_checked_at : Option ℕ
  pub last_status : Bytes
  pub last_error : Bytes
  pub created_at : ℕ
  pub updated_at : ℕ
  pub deleted_at : Option ℕ

abbrev pub protocol_ssh : Bytes
protocol_ssh = codes "SSH"

abbrev pub auth_password : Bytes
auth_password = codes "PASSWORD"

abbrev pub auth_private_key : Bytes
auth_private_key = codes "PRIVATE_KEY"

abbrev pub env_production : Bytes
env_production = codes "PRODUCTION"

unfoldable pub is_valid_server_protocol : Bytes → Bool
is_valid_server_protocol s =
    bytes_eq s protocol_ssh || bytes_eq s (codes "WINRM") || bytes_eq s (codes "RDP")

unfoldable pub is_valid_server_auth_method : Bytes → Bool
is_valid_server_auth_method s =
    bytes_eq s auth_password || bytes_eq s auth_private_key || bytes_eq s (codes "AGENT")

unfoldable pub is_valid_server_environment : Bytes → Bool
is_valid_server_environment s =
    bytes_eq s env_production
    || bytes_eq s (codes "STAGING")
    || bytes_eq s (codes "DEVELOPMENT")
    || bytes_eq s (codes "TESTING")
    || bytes_eq s (codes "OTHER")

pub record ServerFacts : Type 0 where
  pub os : Bytes
  pub os_version : Bytes
  pub arch : Bytes
  pub kernel_version : Bytes
  pub remote_hostname : Bytes
  pub cpu_cores : Option ℤ
  pub remote_public_ip : Bytes
  pub country_code : Bytes
  pub country : Bytes

pub record ServerListFilter : Type 0 where
  pub environment : Bytes
  pub protocol : Bytes
  pub auth_method : Bytes
  pub is_active : Option Bool
  pub search : Bytes
  pub limit : ℕ
  pub offset : ℤ
  pub sort_by : Bytes
  pub sort_desc : Bool
