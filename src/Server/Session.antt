-- ===== src/Server/Session.antt =====
-- `loadServerForSSH` and `openRemoteSession` of internal/service/server_service.go, and the end that
-- the methods over an open client share.
use dijex_api.Prelude.{ℕ, true, false, [], none, some}
use dijex_api.Text.{Bytes, codes}
use dijex_api.Action.{Action, pure, prefixed, attempt, ◌>>=◌, ◌>>◌}
use dijex_api.Platform.{World, Platform, require_id, from_env, decrypt_stored}
use dijex_api.Server.Types.{Server}
use dijex_api.Server.Forms.{RemoteOutput}
use dijex_api.Server.Table.{get_by_id, update_connection_status}
use dijex_api.Server.Connector.{Target, SshResult, Client, Dialed, unreached, reached, Connector}

abbrev pub status_ok : Bytes
status_ok = codes "OK"

abbrev pub status_error : Bytes
status_error = codes "ERROR"

abbrev pub target_of : Server → Bytes → Target
target_of srv password = record {
  host = srv.host;
  port = srv.port;
  user = srv.username;
  password = password;
}

-- The output where the server was not reached.
abbrev pub not_connected : {R : Type 0} → Bytes → SshResult → ℕ → RemoteOutput R
not_connected id res now = record {
  id = id;
  connected = false;
  method = [];
  status = res.status;
  message = res.message;
  checked_at = now;
  result = none;
}

abbrev pub connected_output : {R : Type 0} → Bytes → Bytes → Bytes → Bytes → ℕ → R → RemoteOutput R
connected_output id method status message now result = record {
  id = id;
  connected = true;
  method = method;
  status = status;
  message = message;
  checked_at = now;
  result = some result;
}

-- `defer client.Close()`
unfoldable pub closing : {S A : Type 0} → Client S → Action (World S) A → Action (World S) A
closing client m w = let (w', r) = m w in (record w' { env = client.close w'.env }, r)

module _ {S : Type 0} (p : Platform S) (c : Connector S) where
  unfoldable pub load_server_for_ssh : Bytes → Action (World S) (Server × Bytes)
  unfolding get_by_id decrypt_stored
  load_server_for_ssh id = do
    require_id (codes "id") id
    srv ← get_by_id p id
    password ←
        prefixed (codes "server: decrypt password: ") (decrypt_stored p srv.password_encrypted)
    pure (srv, password)

  -- An attempt that did not reach the server is written down.
  unfoldable pub noted_dial : Bytes → Dialed S → Action (World S) (Dialed S)
  unfolding update_connection_status
  noted_dial id (reached client method) = pure (reached client method)
  noted_dial id (unreached res) = do
    now ← from_env p.clock
    attempt (update_connection_status p id res.status res.message now none)
    pure (unreached res)

  unfoldable pub open_remote_session : Bytes → Action (World S) (Dialed S)
  unfolding load_server_for_ssh noted_dial
  open_remote_session id = do
    (srv, password) ← load_server_for_ssh id
    dialed ← from_env (c.dial (target_of srv password))
    noted_dial id dialed

  unfoldable pub after_dial :
      {R : Type 0}
      → Bytes
      → (Client S → Bytes → Action (World S) (RemoteOutput R))
      → Dialed S
      → Action (World S) (RemoteOutput R)
  unfolding closing
  after_dial id go (reached client method) = closing client (go client method)
  after_dial id go (unreached res) = do now ← from_env p.clock; pure (not_connected id res now)

  -- Opens a session and goes on over its client.
  unfoldable pub over_session :
      {R : Type 0}
      → Bytes
      → (Client S → Bytes → Action (World S) (RemoteOutput R))
      → Action (World S) (RemoteOutput R)
  unfolding open_remote_session after_dial
  over_session id go = do dialed ← open_remote_session id; after_dial id go dialed

  -- The state of the connection behind what was done over it; the status is written best-effort.
  unfoldable pub conclude :
      {R : Type 0} → Bytes → Bytes → Bytes → Bytes → Bytes → R → Action (World S) (RemoteOutput R)
  unfolding update_connection_status
  conclude id method status err message result = do
    now ← from_env p.clock
    attempt (update_connection_status p id status err now none)
    pure (connected_output id method status message now result)
