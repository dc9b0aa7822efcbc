-- ===== src/Server/Key.antt =====
-- `InstallSSHKey` of internal/service/server_service.go. The entries of the log are left out.
use dijex_api.Prelude.{Bool, true, false, not, ◌||◌, [], none, if◌then◌else◌}
use dijex_api.Text.{Bytes, codes, is_empty}
use dijex_api.Action.{Action, pure, lift, prefixed, attempt, ◌>>=◌, ◌>>◌}
use dijex_api.Platform.{World, Platform, from_env, invalid}
use dijex_api.Server.Types.{Server}
use dijex_api.Server.Forms.{InstallSshKeyOutput}
use dijex_api.Server.Table.{update_connection_status, mark_ssh_key_installed}
use dijex_api.Server.Connector.{Connector}
use dijex_api.Server.Session.{target_of, load_server_for_ssh}

module _ {S : Type 0} (p : Platform S) (c : Connector S) where
  -- The flag in the table, only if the key was seen to work: whether it is set.
  abbrev mark : Bytes → Bool → Action (World S) Bool
  unfolding mark_ssh_key_installed
  mark id verified = if verified then attempt (mark_ssh_key_installed p id true) else pure false

  -- Over a password and a valid key.
  unfoldable pub install_key : Bytes → Server → Bytes → Bytes → Action (World S) InstallSshKeyOutput
  unfolding update_connection_status mark_ssh_key_installed
  install_key id srv password public_key = do
    res ← from_env (c.install_public_key (target_of srv password) public_key)
    now ← from_env p.clock
    flag_set ← mark id res.verified
    attempt (
        update_connection_status p id res.status (if res.connected then [] else res.message) now
          none)
    pure (record {
      id = id;
      connected = res.connected;
      already_installed = res.already_installed;
      installed = res.installed;
      verified = res.verified;
      ssh_key_installed = flag_set;
      status = res.status;
      message = res.message;
      checked_at = now;
    })

  -- Behind the look for the application's key.
  unfoldable pub install_checked :
      Bytes → Server → Bytes → Bool → Bytes → Action (World S) InstallSshKeyOutput
  unfolding install_key
  install_checked id srv password valid public_key =
      if not valid || is_empty public_key
      then invalid (codes "ssh_key")
          (codes "app ssh key is missing or invalid — create it via POST /api/system/ssh/create")
      else install_key id srv password public_key

  unfoldable pub install_ssh_key : Bytes → Action (World S) InstallSshKeyOutput
  unfolding load_server_for_ssh install_checked
  install_ssh_key id = do
    (srv, password) ← load_server_for_ssh p c id
    if is_empty password
        then invalid (codes "password")
            (codes "server has no password — install-key requires password to bootstrap")
        else do
          checked ← from_env c.check_key
          key ← prefixed (codes "install-key: read app ssh key: ") (lift checked)
          install_checked id srv password key.valid key.public_key
