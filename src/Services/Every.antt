-- ===== src/Services/Every.antt =====
-- All calls of both services, and whole sequences of them.
use dijex_api.Prelude.{List, [], ◌∷◌}
use dijex_api.Action.{Action, pure, ◌>>=◌}
use dijex_api.Action.Keeps.{Keeps, Keeps-pure, Keeps-bind}
use dijex_api.Platform.{World, Platform}
use dijex_api.Registry.Connection.{RegistryConnector}
use dijex_api.Server.Connector.{Connector}
use dijex_api.Services.{
  Call, create_registry_call, list_registries_call, update_registry_call, delete_registry_call,
  connect_registry_call, ping_registry_call, list_registry_images_call, create_server_call,
  update_server_call, list_servers_call, delete_server_call, remote_connect_call, remote_ping_call,
  remote_system_info_call, remote_collect_call, remote_logs_call, deploy_call, purge_image_call,
  install_ssh_key_call, perform,
}
use dijex_api.Services.Steps.{Tables, tables, Reach, here}
use dijex_api.Services.Conforms.{
  Reached, create_registry-Reached, list_registries-Reached, update_registry-Reached,
  delete_registry-Reached, connect_registry-Reached, ping_registry-Reached,
  list_registry_images-Reached,
}
use dijex_api.Services.Servers.{
  create_server-Reached, update_server-Reached, list_servers-Reached, delete_server-Reached,
}
use dijex_api.Services.Remote.{
  remote_connect-Reached, remote_ping-Reached, remote_system_info-Reached, remote_collect-Reached,
  remote_logs-Reached, deploy-Reached, purge_image-Reached, install_ssh_key-Reached,
}

module _ {S : Type 0} (p : Platform S) (rc : RegistryConnector S) (c : Connector S) where
  answered :
      {A : Type 0} (t0 : Tables) (m : Action (World S) A)
      → Keeps (Reached t0 p) m
      → Keeps (Reached t0 p) (m >>= λ _. pure tt)
  answered t0 m k = Keeps-bind m (λ _. pure tt) k (λ _. Keeps-pure tt)

  perform-Keeps : (t0 : Tables) (call : Call S) → Keeps (Reached t0 p) (perform p rc c call)
  unfolding perform
  perform-Keeps t (create_registry_call i) = answered t _ (create_registry-Reached t p i)
  perform-Keeps t (list_registries_call i) = answered t _ (list_registries-Reached t p i)
  perform-Keeps t (update_registry_call i) = answered t _ (update_registry-Reached t p i)
  perform-Keeps t (delete_registry_call id) = answered t _ (delete_registry-Reached t p id)
  perform-Keeps t (connect_registry_call id) = answered t _ (connect_registry-Reached t p rc id)
  perform-Keeps t (ping_registry_call id) = answered t _ (ping_registry-Reached t p rc id)
  perform-Keeps t (list_registry_images_call i) =
      answered t _ (list_registry_images-Reached t p rc i)
  perform-Keeps t (create_server_call i) = answered t _ (create_server-Reached t p i)
  perform-Keeps t (update_server_call i) = answered t _ (update_server-Reached t p i)
  perform-Keeps t (list_servers_call i) = answered t _ (list_servers-Reached t p i)
  perform-Keeps t (delete_server_call id) = answered t _ (delete_server-Reached t p id)
  perform-Keeps t (remote_connect_call id) = answered t _ (remote_connect-Reached t p c id)
  perform-Keeps t (remote_ping_call id) = answered t _ (remote_ping-Reached t p c id)
  perform-Keeps t (remote_system_info_call gather id) =
      answered t _ (remote_system_info-Reached t p c gather id)
  perform-Keeps t (remote_collect_call what gather id) =
      answered t _ (remote_collect-Reached t p c what gather id)
  perform-Keeps t (remote_logs_call b i) = answered t _ (remote_logs-Reached t p c b i)
  perform-Keeps t (deploy_call b i) = answered t _ (deploy-Reached t p c b i)
  perform-Keeps t (purge_image_call b i) = answered t _ (purge_image-Reached t p c b i)
  perform-Keeps t (install_ssh_key_call id) = answered t _ (install_ssh_key-Reached t p c id)

  -- Whatever the platform, the client of registries and the connector answer, every call of the two
  -- services changes the tables by steps of the database only: an INSERT or an UPDATE that repeats no
  -- key, the clearing of the default, a deletion, the notes of a check, and the facts and the flag of
  -- the key of a server.
  pub perform-Reach :
      (call : Call S) (w : World S) → Reach (tables w) (tables (perform p rc c call w).0)
  perform-Reach call w = (perform-Keeps (tables w) call).at w here

  -- A sequence of calls, each from where the one before it left off.
  unfoldable pub perform_all : List (Call S) → World S → World S
  unfolding perform
  perform_all [] w = w
  perform_all (call ∷ calls) w = perform_all calls (perform p rc c call w).0

  pub perform_all-Reach :
      (t0 : Tables) (calls : List (Call S)) (w : World S)
      → Reach t0 (tables w)
      → Reach t0 (tables (perform_all calls w))
  unfolding perform_all
  perform_all-Reach t0 [] w r = r
  perform_all-Reach t0 (call ∷ calls) w r =
      perform_all-Reach t0 calls (perform p rc c call w).0 ((perform-Keeps t0 call).at w r)
