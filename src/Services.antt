-- ===== src/Services.antt =====
-- The calls of the two services, `RegistryService` and `ServerService`, over one pair of tables.
pub mod Steps
pub mod Conforms
pub mod Servers
pub mod Remote
pub mod Every
pub mod Keys
pub mod Consistent
pub mod Deleted
pub mod Removed
use dijex_api.Prelude.{Bool, Option}
use dijex_api.Text.{Bytes}
use dijex_api.Action.{Action, pure, ◌>>=◌, ◌>>◌}
use dijex_api.Platform.{World, Platform}
use dijex_api.Registry.Types.{
  CreateRegistryInput, ListRegistriesInput, UpdateRegistryInput, ListRegistryImagesInput,
}
use dijex_api.Registry.Service.{create_registry, list_registries, update_registry, delete_registry}
use dijex_api.Registry.Connection.{
  RegistryConnector, connect_registry, ping_registry, list_registry_images,
}
use dijex_api.Server.Forms.{
  CreateServerInput, UpdateServerInput, ListServersInput, DeployInput, PurgeImageInput,
  RemoteLogsInput,
}
use dijex_api.Server.Connector.{Client, Connector}
use dijex_api.Server.Service.{create_server, update_server, list_servers, delete_server}
use dijex_api.Server.Remote.{
  ConnectionInfo, remote_connect, remote_ping, remote_system_info, remote_collect, remote_logs,
}
use dijex_api.Server.Images.{deploy, purge_image}
use dijex_api.Server.Key.{install_ssh_key}

-- A request to a service; a collector, which may be nil, comes with the call that uses it.
pub data Call (S : Type 0) : Type 1 where
  create_registry_call : CreateRegistryInput → Call S
  list_registries_call : ListRegistriesInput → Call S
  update_registry_call : UpdateRegistryInput → Call S
  delete_registry_call : Bytes → Call S
  connect_registry_call : Bytes → Call S
  ping_registry_call : Bytes → Call S
  list_registry_images_call : ListRegistryImagesInput → Call S
  create_server_call : CreateServerInput → Call S
  update_server_call : UpdateServerInput → Call S
  list_servers_call : ListServersInput → Call S
  delete_server_call : Bytes → Call S
  remote_connect_call : Bytes → Call S
  remote_ping_call : Bytes → Call S
  remote_system_info_call :
      {R : Type 0} → Option (ConnectionInfo → Client S → S → S × R) → Bytes → Call S
  remote_collect_call : {R : Type 0} → Bytes → Option (Client S → S → S × R) → Bytes → Call S
  remote_logs_call : Bool → RemoteLogsInput → Call S
  deploy_call : Bool → DeployInput → Call S
  purge_image_call : Bool → PurgeImageInput → Call S
  install_ssh_key_call : Bytes → Call S

module _ {S : Type 0} (p : Platform S) (rc : RegistryConnector S) (c : Connector S) where
  -- A call without its answer.
  unfoldable pub perform : Call S → Action (World S) (Unit {0})
  unfolding create_registry list_registries update_registry delete_registry connect_registry
      ping_registry list_registry_images create_server update_server list_servers delete_server
      remote_connect remote_ping remote_system_info remote_collect remote_logs deploy purge_image
      install_ssh_key
  perform (create_registry_call i) = do create_registry p i; pure tt
  perform (list_registries_call i) = do list_registries p i; pure tt
  perform (update_registry_call i) = do update_registry p i; pure tt
  perform (delete_registry_call id) = do delete_registry p id; pure tt
  perform (connect_registry_call id) = do connect_registry p rc id; pure tt
  perform (ping_registry_call id) = do ping_registry p rc id; pure tt
  perform (list_registry_images_call i) = do list_registry_images p rc i; pure tt
  perform (create_server_call i) = do create_server p i; pure tt
  perform (update_server_call i) = do update_server p i; pure tt
  perform (list_servers_call i) = do list_servers p i; pure tt
  perform (delete_server_call id) = do delete_server p id; pure tt
  perform (remote_connect_call id) = do remote_connect p c id; pure tt
  perform (remote_ping_call id) = do remote_ping p c id; pure tt
  perform (remote_system_info_call gather id) = do remote_system_info p c gather id; pure tt
  perform (remote_collect_call what gather id) = do remote_collect p c what gather id; pure tt
  perform (remote_logs_call configured i) = do remote_logs p c configured i; pure tt
  perform (deploy_call configured i) = do deploy p c configured i; pure tt
  perform (purge_image_call configured i) = do purge_image p c configured i; pure tt
  perform (install_ssh_key_call id) = do install_ssh_key p c id; pure tt
