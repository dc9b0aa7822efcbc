-- ===== src/Server/Forms.antt =====
-- The servers' part of the inputs and outputs of internal/service/server_dto.go.
use dijex_api.Prelude.{ℕ, Bool, List, Option}
use dijex_api.Prelude.Int.{ℤ}
use dijex_api.Text.{Bytes}
use dijex_api.Registry.Types.{Pagination}
use dijex_api.RemoteDeploy.Types.{PortMapping}

pub record CreateServerInput : Type 0 where
  pub name : Bytes
  pub host : Bytes
  pub port : ℤ
  pub protocol : Bytes
  pub username : Bytes
  pub auth_method : Bytes
  pub password : Bytes
  pub private_key : Bytes
  pub private_key_passphrase : Bytes
  pub description : Bytes
  pub environment : Bytes
  pub provider : Bytes
  pub location : Bytes
  pub tags : List Bytes

-- A secret: `none` keeps the stored one, the empty text clears it.
pub record UpdateServerInput : Type 0 where
  pub id : Bytes
  pub name : Bytes
  pub host : Bytes
  pub port : ℤ
  pub protocol : Bytes
  pub username : Bytes
  pub auth_method : Bytes
  pub password : Option Bytes
  pub private_key : Option Bytes
  pub private_key_passphrase : Option Bytes
  pub description : Bytes
  pub environment : Bytes
  pub provider : Bytes
  pub location : Bytes
  pub tags : List Bytes
  pub is_active : Bool

pub record ListServersInput : Type 0 where
  pub page : ℤ
  pub page_size : ℤ
  pub environment : Bytes
  pub protocol : Bytes
  pub auth_method : Bytes
  pub is_active : Option Bool
  pub search : Bytes
  pub sort_by : Bytes
  pub order : Bytes

pub record ServerView : Type 0 where
  pub id : Bytes
  pub name : Bytes
  pub host : Bytes
  pub port : ℤ
  pub protocol : Bytes
  pub username : Bytes
  pub auth_method : Bytes
  pub description : Bytes
  pub environment : Bytes
  pub provider : Bytes
  pub location : Bytes
  pub tags : List Bytes
  pub os : Bytes
  pub os_version : Bytes
  pub arch : Bytes
  pub kernel_version : Bytes
  pub remote_hostname : Bytes
  pub cpu_cores : Option ℤ
  pub memory_total_bytes : Option ℤ
  pub disk_total_bytes : Option ℤ
  pub remote_public_ip : Bytes
  pub country_code : Bytes
  pub country : Bytes
  pub has_password : Bool
  pub has_private_key : Bool
  pub is_active : Bool
  pub ssh_key_installed : Bool
  pub last_checked_at : Option ℕ
  pub last_status : Bytes
  pub created_at : ℕ
  pub updated_at : ℕ

pub record ListServersOutput : Type 0 where
  pub items : List ServerView
  pub pagination : Pagination

pub record DeleteServerOutput : Type 0 where
  pub id : Bytes
  pub deleted_at : ℕ

pub record RemoteConnectOutput : Type 0 where
  pub id : Bytes
  pub connected : Bool
  pub method : Bytes
  pub status : Bytes
  pub message : Bytes
  pub checked_at : ℕ
  pub remote_hostname : Bytes
  pub os : Bytes
  pub kernel_version : Bytes
  pub arch : Bytes
  pub cpu_cores : Option ℤ
  pub remote_public_ip : Bytes
  pub country_code : Bytes
  pub country : Bytes

pub record RemotePingOutput : Type 0 where
  pub id : Bytes
  pub connected : Bool
  pub method : Bytes
  pub status : Bytes
  pub message : Bytes
  pub is_active : Bool
  pub checked_at : ℕ

pub record DeployInput : Type 0 where
  pub server_id : Bytes
  pub registry_id : Bytes
  pub image : Bytes
  pub tag : Bytes
  pub container_name : Bytes
  pub ports : List PortMapping
  pub restart_policy : Bytes

pub record PurgeImageInput : Type 0 where
  pub server_id : Bytes
  pub registry_id : Bytes
  pub image : Bytes
  pub tag : Bytes
  pub container_name : Bytes

pub record RemoteLogsInput : Type 0 where
  pub server_id : Bytes
  pub container : Bytes
  pub tail : ℤ
  pub since : Bytes
  pub until : Bytes
  pub timestamps : Bool
  pub include_stderr : Bool

-- `DeployOutput`, `PurgeImageOutput`, `RemoteLogsOutput`, `RemoteContainersOutput`,
-- `RemoteImagesOutput`, `RemoteServicesOutput` and `RemoteSystemInfoOutput`, which differ in the
-- type of what was collected; `none` is the nil pointer.
pub record RemoteOutput (R : Type 0) : Type 0 where
  pub id : Bytes
  pub connected : Bool
  pub method : Bytes
  pub status : Bytes
  pub message : Bytes
  pub checked_at : ℕ
  pub result : Option R

pub record InstallSshKeyOutput : Type 0 where
  pub id : Bytes
  pub connected : Bool
  pub already_installed : Bool
  pub installed : Bool
  pub verified : Bool
  pub ssh_key_installed : Bool
  pub status : Bytes
  pub message : Bytes
  pub checked_at : ℕ
