-- ===== src/Registry/Connection.antt =====
-- `ConnectRegistry`, `PingRegistry` and `ListRegistryImages` of internal/service/registry_service.go.
-- The client of registries, internal/registryclient, is the parameter `RegistryConnector`. The entries
-- of the log are left out.
use dijex_api.Prelude.{ℕ, Bool, true, ◌||◌, [], List, none, some, if◌then◌else◌}
use dijex_api.Prelude.Int.{ℤ}
use dijex_api.Text.{Bytes, codes, is_empty, trim_space}
use dijex_api.Action.{Reply, Action, pure, lift, prefixed, attempt, ◌>>=◌, ◌>>◌}
use dijex_api.Platform.{World, Platform, require_id, from_env, decrypt_stored}
use dijex_api.Registry.Types.{
  Registry, CheckRegistryOutput, ListRegistryImagesInput, RegistryImage, ListRegistryImagesOutput,
}
use dijex_api.Registry.Table.{update_connection_status, get_by_id}

-- `registryclient.Target`
pub record Target : Type 0 where
  pub type : Bytes
  pub url : Bytes
  pub username : Bytes
  pub password : Bytes
  pub insecure : Bool

-- `registryclient.Result`
pub record CheckResult : Type 0 where
  pub connected : Bool
  pub authenticated : Bool
  pub status : Bytes
  pub message : Bytes
  pub api_version : Bytes

-- `registryclient.ImageList`; its images have the fields of `RegistryImage`.
pub record ImageList : Type 0 where
  pub source : Bytes
  pub namespace : Bytes
  pub total : ℤ
  pub images : List RegistryImage

pub record RegistryConnector (S : Type 0) : Type 0 where
  pub check : Target → S → S × CheckResult
  -- with the namespace as the second argument
  pub list_images : Target → Bytes → S → S × Reply ImageList

abbrev pub target_of : Registry → Bytes → Target
target_of r password = record {
  type = r.type;
  url = r.url;
  username = r.email;
  password = password;
  insecure = r.insecure;
}

abbrev pub check_output : Bytes → CheckResult → Bool → ℕ → CheckRegistryOutput
check_output id res active now = record {
  id = id;
  connected = res.connected;
  authenticated = res.authenticated;
  status = res.status;
  message = res.message;
  api_version = res.api_version;
  is_active = active;
  checked_at = now;
}

-- Where to begin looking for images: the request's namespace, the row's, the row's user.
unfoldable pub namespace_of : Bytes → Registry → Bytes
unfolding trim_space
namespace_of wanted r =
    let asked = trim_space wanted in
    let named = if is_empty asked then r.namespace else asked in
    if is_empty named then r.username else named

module _ {S : Type 0} (p : Platform S) (c : RegistryConnector S) where
  -- The row of an id with its password, at the head of the three methods.
  unfoldable pub load : Bytes → Action (World S) (Registry × Bytes)
  unfolding get_by_id decrypt_stored
  load id = do
    require_id (codes "id") id
    reg ← get_by_id p id
    password ←
        prefixed (codes "registry: decrypt password: ") (decrypt_stored p reg.password_encrypted)
    pure (reg, password)

  -- The message of a check that failed.
  abbrev error_of : CheckResult → Bytes
  error_of res = if res.connected then [] else res.message

  -- `connect` only ever switches a registry on.
  unfoldable pub connect_registry : Bytes → Action (World S) CheckRegistryOutput
  unfolding load update_connection_status
  connect_registry id = do
    (reg, password) ← load id
    res ← from_env (c.check (target_of reg password))
    now ← from_env p.clock
    attempt (
        update_connection_status p id res.status (error_of res) now
          (if res.connected then some true else none))
    pure (check_output id res (res.connected || reg.is_active) now)

  -- `ping` switches it on and off.
  unfoldable pub ping_registry : Bytes → Action (World S) CheckRegistryOutput
  unfolding load update_connection_status
  ping_registry id = do
    (reg, password) ← load id
    res ← from_env (c.check (target_of reg password))
    now ← from_env p.clock
    attempt (update_connection_status p id res.status (error_of res) now (some res.connected))
    pure (check_output id res res.connected now)

  unfoldable pub list_registry_images :
      ListRegistryImagesInput → Action (World S) ListRegistryImagesOutput
  unfolding load namespace_of
  list_registry_images input = do
    (reg, password) ← load input.id
    listed ← from_env (c.list_images (target_of reg password) (namespace_of input.namespace reg))
    images ← lift listed
    pure (record {
      registry_id = reg.id;
      type = reg.type;
      source = images.source;
      namespace = images.namespace;
      total = images.total;
      images = images.images;
    })
