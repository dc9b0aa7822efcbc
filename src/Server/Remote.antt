-- ===== src/Server/Remote.antt =====
-- The methods of internal/service/server_service.go that look at a server over SSH: `RemoteConnect`,
-- `RemotePing`, `RemoteSystemInfo`, `RemoteContainers`, `RemoteImages`, `RemoteServices` and
-- `RemoteLogs`. The collectors, which may be nil, are parameters but for that of the logs. The entries of
-- the log are left out.
use dijex_api.Prelude.{ℕ, ◌-◌, ◌/◌, Bool, true, false, [], ◌++◌, Option, none, some, if◌then◌else◌}
use dijex_api.Prelude.Int.{ℤ, pos, int_lt}
use dijex_api.Text.{Bytes, codes, is_empty}
use dijex_api.Action.{Action, internal, panicked, pure, raise, attempt, ◌>>=◌, ◌>>◌}
use dijex_api.Platform.{World, Platform, from_env, require_id, invalid}
use dijex_api.RemoteLogs.Types.{Params, LogResult}
use dijex_api.RemoteLogs.Validate.{LogParamError, validate_params}
use dijex_api.RemoteLogs.Messages.{error_message}
use dijex_api.RemoteLogs.Collect.{collect}
use dijex_api.Server.Types.{Server, ServerFacts}
use dijex_api.Server.Forms.{RemoteConnectOutput, RemotePingOutput, RemoteLogsInput, RemoteOutput}
use dijex_api.Server.Table.{update_connection_status, update_facts}
use dijex_api.Server.Connector.{Facts, SshResult, Client, Dialed, unreached, reached, Connector}
use dijex_api.Server.Session.{
  status_ok, target_of, not_connected, closing, load_server_for_ssh, over_session, conclude,
}

-- `remoteinfo.ConnectionInfo`
pub record ConnectionInfo : Type 0 where
  pub host : Bytes
  pub port : ℤ
  pub user : Bytes
  pub method : Bytes
  pub latency_ms : ℕ

abbrev pub error_of : SshResult → Bytes
error_of res = if res.connected then [] else res.message

-- The output before the facts.
abbrev pub attempted : Bytes → SshResult → ℕ → RemoteConnectOutput
attempted id res now = record {
  id = id;
  connected = res.connected;
  method = res.method;
  status = res.status;
  message = res.message;
  checked_at = now;
  remote_hostname = [];
  os = [];
  kernel_version = [];
  arch = [];
  cpu_cores = none;
  remote_public_ip = [];
  country_code = [];
  country = [];
}

abbrev pub with_server_facts : Facts → ServerFacts → RemoteConnectOutput → RemoteConnectOutput
with_server_facts seen f out = record out {
  remote_hostname = seen.hostname;
  os = seen.os;
  kernel_version = seen.kernel_version;
  arch = seen.arch;
  cpu_cores = f.cpu_cores;
  remote_public_ip = f.remote_public_ip;
  country_code = f.country_code;
  country = f.country;
}

module _ {S : Type 0} (p : Platform S) (c : Connector S) where
  -- The facts as they are stored, with the country of the address that the server sees.
  unfoldable pub facts_of : Facts → ServerFacts
  facts_of seen =
      let country = if is_empty seen.public_ip then none else c.lookup_country seen.public_ip in
      record {
        os = seen.os;
        os_version = [];
        arch = seen.arch;
        kernel_version = seen.kernel_version;
        remote_hostname = seen.hostname;
        cpu_cores = if int_lt (pos 0) seen.cpu_cores then some seen.cpu_cores else none;
        remote_public_ip = seen.public_ip;
        country_code = elim country [ none ↦ [] | some (code, name) ↦ code ];
        country = elim country [ none ↦ [] | some (code, name) ↦ name ];
      }

  -- `if res.Connected && res.Facts != nil { ... }`
  unfoldable pub store_facts :
      Bytes → Bool → Option Facts → RemoteConnectOutput → Action (World S) RemoteConnectOutput
  unfolding facts_of update_facts
  store_facts id true (some seen) out = do
    attempt (update_facts p id (facts_of seen))
    pure (with_server_facts seen (facts_of seen) out)
  store_facts id true none out = pure out
  store_facts id false seen out = pure out

  unfoldable pub remote_connect : Bytes → Action (World S) RemoteConnectOutput
  unfolding load_server_for_ssh update_connection_status store_facts
  remote_connect id = do
    (srv, password) ← load_server_for_ssh p c id
    res ← from_env (c.connect (target_of srv password))
    now ← from_env p.clock
    attempt (update_connection_status p id res.status (error_of res) now none)
    store_facts id res.connected res.facts (attempted id res now)

  unfoldable pub remote_ping : Bytes → Action (World S) RemotePingOutput
  unfolding load_server_for_ssh update_connection_status
  remote_ping id = do
    (srv, password) ← load_server_for_ssh p c id
    res ← from_env (c.ping (target_of srv password))
    now ← from_env p.clock
    attempt (update_connection_status p id res.status (error_of res) now (some res.connected))
    pure (record {
      id = id;
      connected = res.connected;
      method = res.method;
      status = res.status;
      message = res.message;
      is_active = res.connected;
      checked_at = now;
    })

  -- `RemoteSystemInfo` over an open client, dialed at `start`.
  unfoldable pub look_at_system :
      {R : Type 0}
      → (ConnectionInfo → Client S → S → S × R)
      → Bytes
      → Server
      → ℕ
      → Client S
      → Bytes
      → Action (World S) (RemoteOutput R)
  unfolding conclude
  look_at_system gather id srv start client method = do
    arrived ← from_env p.clock
    let conn : ConnectionInfo = record {
      host = srv.host;
      port = srv.port;
      user = srv.username;
      method = method;
      latency_ms = (arrived - start) / 1000;
    }
    system ← from_env (gather conn client)
    conclude p c id method status_ok [] (codes "system info collected via " ++ method) system

  unfoldable pub after_system_dial :
      {R : Type 0}
      → (ConnectionInfo → Client S → S → S × R)
      → Bytes
      → Server
      → ℕ
      → Dialed S
      → Action (World S) (RemoteOutput R)
  unfolding look_at_system update_connection_status closing
  after_system_dial gather id srv start (reached client method) =
      closing client (look_at_system gather id srv start client method)
  after_system_dial gather id srv start (unreached res) = do
    now ← from_env p.clock
    attempt (update_connection_status p id res.status res.message now none)
    pure (not_connected id res now)

  unfoldable pub remote_system_info :
      {R : Type 0}
      → Option (ConnectionInfo → Client S → S → S × R)
      → Bytes
      → Action (World S) (RemoteOutput R)
  unfolding load_server_for_ssh after_system_dial
  remote_system_info none id =
      raise (internal (codes "server: remote system collector is not configured"))
  remote_system_info (some gather) id = do
    (srv, password) ← load_server_for_ssh p c id
    start ← from_env p.clock
    dialed ← from_env (c.dial (target_of srv password))
    after_system_dial gather id srv start dialed

  -- `RemoteContainers`, `RemoteImages` and `RemoteServices`, which differ in the collector and in
  -- the word for what it collects.
  unfoldable pub remote_collect :
      {R : Type 0}
      → Bytes
      → Option (Client S → S → S × R)
      → Bytes
      → Action (World S) (RemoteOutput R)
  unfolding over_session conclude
  remote_collect what none id =
      raise (internal (codes "server: remote " ++ (what ++ codes " collector is not configured")))
  remote_collect what (some gather) id = over_session p c id (λ client method. do
    info ← from_env (gather client)
    conclude p c id method status_ok [] (what ++ (codes " collected via " ++ method)) info)

  abbrev pub params_of : RemoteLogsInput → Params
  params_of i = record {
    container = i.container;
    tail = i.tail;
    since = i.since;
    until = i.until;
    timestamps = i.timestamps;
    include_stderr = i.include_stderr;
  }

  abbrev logs_message : Bytes → LogResult → Bytes
  logs_message method logs =
      if logs.available
      then codes "logs collected via " ++ method
      else codes "logs unavailable: " ++ logs.reason

  -- Behind the collector, where `none` is a panic.
  unfoldable pub answer_logs :
      Bytes → Bytes → Option LogResult → Action (World S) (RemoteOutput LogResult)
  unfolding conclude
  answer_logs id method none = raise panicked
  answer_logs id method (some logs) =
      conclude p c id method status_ok [] (logs_message method logs) logs

  -- Behind the checks of the parameters.
  unfoldable pub read_logs :
      RemoteLogsInput → Option LogParamError → Action (World S) (RemoteOutput LogResult)
  unfolding over_session answer_logs collect
  read_logs i (some e) = invalid (codes "params") (error_message e)
  read_logs i none = over_session p c i.server_id (λ client method. do
    logs ← from_env (collect client.host p.unicode_lower (params_of i))
    answer_logs i.server_id method logs)

  -- The first argument tells whether there is a collector.
  unfoldable pub remote_logs : Bool → RemoteLogsInput → Action (World S) (RemoteOutput LogResult)
  unfolding read_logs validate_params
  remote_logs false i = raise (internal (codes "server: remote logs collector is not configured"))
  remote_logs true i = do
    require_id (codes "server_id") i.server_id
    read_logs i (validate_params (params_of i))
