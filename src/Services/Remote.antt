-- ===== src/Services/Remote.antt =====
-- The calls of `ServerService` over SSH change the tables by steps that the database allows, and by
-- nothing else.
use dijex_api.Prelude.{ℕ, Bool, true, false, Option, none, some}
use dijex_api.Text.{Bytes}
use dijex_api.Action.Keeps.{Keeps, Keeps-pure}
use dijex_api.Platform.{World, Platform}
use dijex_api.Platform.Keeping.{table_rules}
use dijex_api.RemoteDeploy.Types.{DeployParams, DeployResult}
use dijex_api.RemoteDeploy.Validate.{ParamError}
use dijex_api.RemoteLogs.Types.{LogResult}
use dijex_api.RemoteLogs.Validate.{LogParamError}
use dijex_api.RemotePurge.Types.{PurgeParams, PurgeResult}
use dijex_api.Registry.Kept.{Keeps-get_by_id}
use dijex_api.Server.Types.{Server}
use dijex_api.Server.Forms.{DeployInput, PurgeImageInput, RemoteLogsInput, RemoteConnectOutput}
use dijex_api.Server.Connector.{Facts, Client, Dialed, unreached, reached, Connector}
use dijex_api.Server.Remote.{
  ConnectionInfo, store_facts, remote_connect, remote_ping, look_at_system, after_system_dial,
  remote_system_info, remote_collect, answer_logs, read_logs, remote_logs,
}
use dijex_api.Server.Images.{
  answer_deploy, deploy_checked, deploy, answer_purge, purge_checked, purge_image,
}
use dijex_api.Server.Key.{install_key, install_checked, install_ssh_key}
use dijex_api.Services.Steps.{Tables}
use dijex_api.Services.Conforms.{Reached, tables_only}
use dijex_api.Services.Servers.{
  noted_server, stored_facts, marked, closing-Reached, load-Reached, over-Reached, conclude-Reached,
}

module _ {S : Type 0} (t0 : Tables) (p : Platform S) (c : Connector S) where
  abbrev OnPath : World S → Type 0
  OnPath = Reached t0 p

  store_facts-Reached :
      (id : Bytes) (connected : Bool) (o : Option Facts) (out : RemoteConnectOutput)
      → Keeps OnPath (store_facts p c id connected o out)
  unfolding store_facts
  store_facts-Reached id true (some seen) out = search (table_rules, stored_facts) depth 8
  store_facts-Reached id true none out = Keeps-pure out
  store_facts-Reached id false o out = Keeps-pure out

  pub remote_connect-Reached : (id : Bytes) → Keeps OnPath (remote_connect p c id)
  unfolding remote_connect
  remote_connect-Reached id =
      search (table_rules, load-Reached, noted_server, store_facts-Reached) depth 12

  pub remote_ping-Reached : (id : Bytes) → Keeps OnPath (remote_ping p c id)
  unfolding remote_ping
  remote_ping-Reached id = search (table_rules, load-Reached, noted_server) depth 12

  module _ {R : Type 0} where
    look-Reached :
        (gather : ConnectionInfo → Client S → S → S × R) (id : Bytes) (srv : Server) (start : ℕ)
        (client : Client S) (method : Bytes)
        → Keeps OnPath (look_at_system p c gather id srv start client method)
    unfolding look_at_system
    look-Reached gather id srv start client method = search (table_rules, conclude-Reached) depth 8

    after_system_dial-Reached :
        (gather : ConnectionInfo → Client S → S → S × R) (id : Bytes) (srv : Server) (start : ℕ)
        (d : Dialed S)
        → Keeps OnPath (after_system_dial p c gather id srv start d)
    unfolding after_system_dial
    after_system_dial-Reached gather id srv start (reached client method) =
        search (closing-Reached, look-Reached)
    after_system_dial-Reached gather id srv start (unreached res) =
        search (table_rules, noted_server) depth 8

    pub remote_system_info-Reached :
        (o : Option (ConnectionInfo → Client S → S → S × R)) (id : Bytes)
        → Keeps OnPath (remote_system_info p c o id)
    unfolding remote_system_info
    remote_system_info-Reached none id = search table_rules
    remote_system_info-Reached (some gather) id =
        search (table_rules, load-Reached, after_system_dial-Reached) depth 12

    pub remote_collect-Reached :
        (what : Bytes) (o : Option (Client S → S → S × R)) (id : Bytes)
        → Keeps OnPath (remote_collect p c what o id)
    unfolding remote_collect
    remote_collect-Reached what none id = search table_rules
    remote_collect-Reached what (some gather) id =
        search (table_rules, over-Reached, conclude-Reached) depth 10

  answer_logs-Reached :
      (id method : Bytes) (o : Option LogResult) → Keeps OnPath (answer_logs p c id method o)
  unfolding answer_logs
  answer_logs-Reached id method none = search table_rules
  answer_logs-Reached id method (some logs) = search conclude-Reached

  read_logs-Reached :
      (i : RemoteLogsInput) (o : Option LogParamError) → Keeps OnPath (read_logs p c i o)
  unfolding read_logs
  read_logs-Reached i (some e) = search table_rules
  read_logs-Reached i none = search (table_rules, over-Reached, answer_logs-Reached) depth 10

  pub remote_logs-Reached :
      (configured : Bool) (i : RemoteLogsInput) → Keeps OnPath (remote_logs p c configured i)
  unfolding remote_logs
  remote_logs-Reached false i = search table_rules
  remote_logs-Reached true i = search (table_rules, read_logs-Reached)

  answer_deploy-Reached :
      (id method : Bytes) (o : Option DeployResult) → Keeps OnPath (answer_deploy p c id method o)
  unfolding answer_deploy
  answer_deploy-Reached id method none = search table_rules
  answer_deploy-Reached id method (some r) = search (table_rules, conclude-Reached)

  deploy_checked-Reached :
      (id : Bytes) (params : DeployParams) (o : Option ParamError)
      → Keeps OnPath (deploy_checked p c id params o)
  unfolding deploy_checked
  deploy_checked-Reached id params (some e) = search table_rules
  deploy_checked-Reached id params none =
      search (table_rules, over-Reached, answer_deploy-Reached) depth 10

  pub deploy-Reached :
      (configured : Bool) (i : DeployInput) → Keeps OnPath (deploy p c configured i)
  unfolding deploy
  deploy-Reached false i = search table_rules
  deploy-Reached true i =
      let reg : (id : Bytes) → Keeps OnPath _ = Keeps-get_by_id p (tables_only t0 p) in
      search (table_rules, reg, deploy_checked-Reached) depth 12

  answer_purge-Reached :
      (id method : Bytes) (o : Option PurgeResult) → Keeps OnPath (answer_purge p c id method o)
  unfolding answer_purge
  answer_purge-Reached id method none = search table_rules
  answer_purge-Reached id method (some r) = search (table_rules, conclude-Reached)

  purge_checked-Reached :
      (id : Bytes) (params : PurgeParams) (o : Option ParamError)
      → Keeps OnPath (purge_checked p c id params o)
  unfolding purge_checked
  purge_checked-Reached id params (some e) = search table_rules
  purge_checked-Reached id params none =
      search (table_rules, over-Reached, answer_purge-Reached) depth 10

  pub purge_image-Reached :
      (configured : Bool) (i : PurgeImageInput) → Keeps OnPath (purge_image p c configured i)
  unfolding purge_image
  purge_image-Reached false i = search table_rules
  purge_image-Reached true i = search (table_rules, Keeps-get_by_id, purge_checked-Reached) depth 12

  install_key-Reached :
      (id : Bytes) (srv : Server) (password public_key : Bytes)
      → Keeps OnPath (install_key p c id srv password public_key)
  unfolding install_key
  install_key-Reached id srv password public_key =
      search (table_rules, marked, noted_server) depth 14

  install_checked-Reached :
      (id : Bytes) (srv : Server) (password : Bytes) (valid : Bool) (public_key : Bytes)
      → Keeps OnPath (install_checked p c id srv password valid public_key)
  unfolding install_checked
  install_checked-Reached id srv password valid public_key =
      search (table_rules, install_key-Reached)

  pub install_ssh_key-Reached : (id : Bytes) → Keeps OnPath (install_ssh_key p c id)
  unfolding install_ssh_key
  install_ssh_key-Reached id = search (table_rules, load-Reached, install_checked-Reached) depth 14
