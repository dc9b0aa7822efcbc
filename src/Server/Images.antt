-- ===== src/Server/Images.antt =====
-- `Deploy` and `PurgeImage` of internal/service/server_service.go, with the helpers that stand between
-- them. The entries of the log are left out.
use dijex_api.Prelude.{Bool, true, false, List, [], ◌∷◌, ◌++◌, Option, none, some, if◌then◌else◌}
use dijex_api.Prelude.Int.{pos}
use dijex_api.Text.{
  Bytes, codes, is_empty, trim_space, trim_prefix, trim_suffix, trim_right, before_byte,
}
use dijex_api.Action.{Action, internal, panicked, raise, prefixed, ◌>>=◌, ◌>>◌}
use dijex_api.Platform.{World, Platform, from_env, require_id, invalid, decrypt_stored}
use dijex_api.RemoteSteps.{StepResult, is_failed}
use dijex_api.RemoteDeploy.Types.{PortMapping, DeployParams, DeployResult}
use dijex_api.RemoteDeploy.Validate as DeployValidate
use dijex_api.RemoteDeploy.Validate.{ParamError}
use dijex_api.RemoteDeploy.Messages as DeployMessages
use dijex_api.RemoteDeploy.Messages.{error_message}
use dijex_api.RemoteDeploy.Run as DeployRun
use dijex_api.RemotePurge.Types.{PurgeParams, PurgeResult}
use dijex_api.RemotePurge.Validate as PurgeValidate
use dijex_api.RemotePurge.Messages as PurgeMessages
use dijex_api.RemotePurge.Run as PurgeRun
use dijex_api.Registry.Types.{Registry}
use dijex_api.Registry.Table as RegistryTable
use dijex_api.Server.Forms.{DeployInput, PurgeImageInput, RemoteOutput}
use dijex_api.Server.Connector.{Connector}
use dijex_api.Server.Session.{status_ok, status_error, over_session, conclude}

unfoldable pub normalize_registry_host : Bytes → Bytes
unfolding trim_space trim_prefix trim_suffix before_byte
normalize_registry_host text =
    let bare = trim_prefix (trim_prefix (trim_space text) (codes "https://")) (codes "http://") in
    let url = trim_suffix bare (codes "/") in
    if is_empty url then codes "docker.io" else before_byte b'/' url

-- `firstFailedStep` and `firstFailedPurgeStep` from the list of steps on.
unfoldable pub first_failed :
    {N : Type 0} → (N → Bytes) → Bool → Bytes → List (StepResult N) → Bytes
first_failed name available reason [] = if available then codes "unknown error" else reason
first_failed name available reason (st ∷ sts) =
    let later = first_failed name available reason sts in
    if is_failed st.status then name st.name ++ (codes ": " ++ st.message) else later

abbrev pub first_failed_step : DeployResult → Bytes
unfolding first_failed
first_failed_step r = first_failed DeployMessages.step_text r.available r.reason r.steps

abbrev pub first_failed_purge_step : PurgeResult → Bytes
unfolding first_failed
first_failed_purge_step r = first_failed PurgeMessages.step_text r.available r.reason r.steps

abbrev pub default_ports : List PortMapping → List PortMapping
default_ports [] = record { host = pos 3000; container = pos 80 } ∷ []
default_ports (m ∷ ms) = m ∷ ms

-- What `Deploy` hands to the runner; the password has lost its white space at the end.
unfoldable pub deploy_params : DeployInput → Registry → Bytes → DeployParams
unfolding normalize_registry_host trim_right
deploy_params i reg password = record {
  registry_host = normalize_registry_host reg.url;
  registry_namespace = reg.namespace;
  registry_username = reg.username;
  registry_password = trim_right password (codes "\r\n\t ");
  image = i.image;
  tag = i.tag;
  container_name = i.container_name;
  ports = default_ports i.ports;
  restart_policy = i.restart_policy;
}

unfoldable pub purge_params : PurgeImageInput → Registry → PurgeParams
unfolding normalize_registry_host
purge_params i reg = record {
  registry_host = normalize_registry_host reg.url;
  registry_namespace = reg.namespace;
  image = i.image;
  tag = i.tag;
  container_name = i.container_name;
}

module _ {S : Type 0} (p : Platform S) (c : Connector S) where
  -- The status and the message of a run, and its end.
  abbrev finish :
      {R : Type 0}
      → Bytes
      → Bytes
      → Bytes
      → Bool
      → Bytes
      → Bytes
      → R
      → Action (World S) (RemoteOutput R)
  unfolding conclude
  finish id method what success image_ref failure result =
      if success
      then conclude p c id method status_ok [] (what ++ (codes " succeeded: " ++ image_ref)) result
      else conclude p c id method status_error (what ++ (codes " failed: " ++ failure))
          (what ++ (codes " failed: " ++ failure)) result

  -- Behind the runner, where `none` is a panic.
  unfoldable pub answer_deploy :
      Bytes → Bytes → Option DeployResult → Action (World S) (RemoteOutput DeployResult)
  unfolding first_failed conclude
  answer_deploy id method none = raise panicked
  answer_deploy id method (some r) =
      finish id method (codes "deploy") r.success r.image_ref (first_failed_step r) r

  -- Behind the checks of the parameters.
  unfoldable pub deploy_checked :
      Bytes → DeployParams → Option ParamError → Action (World S) (RemoteOutput DeployResult)
  unfolding DeployRun.run over_session answer_deploy
  deploy_checked id params (some e) = invalid (codes "params") (error_message e)
  deploy_checked id params none = over_session p c id (λ client method. do
    outcome ← from_env (DeployRun.run p.unicode_lower client.host params)
    answer_deploy id method outcome)

  -- The first argument tells whether there is a deployer.
  unfoldable pub deploy : Bool → DeployInput → Action (World S) (RemoteOutput DeployResult)
  unfolding DeployValidate.validate_params RegistryTable.get_by_id decrypt_stored deploy_checked
      deploy_params
  deploy false i = raise (internal (codes "server: deployer is not configured"))
  deploy true i = do
    require_id (codes "server_id") i.server_id
    require_id (codes "registry_id") i.registry_id
    reg ← RegistryTable.get_by_id p i.registry_id
    password ←
        prefixed (codes "deploy: decrypt registry password: ")
          (decrypt_stored p reg.password_encrypted)
    let params = deploy_params i reg password
    deploy_checked i.server_id params (DeployValidate.validate_params params)

  unfoldable pub answer_purge :
      Bytes → Bytes → Option PurgeResult → Action (World S) (RemoteOutput PurgeResult)
  unfolding first_failed conclude
  answer_purge id method none = raise panicked
  answer_purge id method (some r) =
      finish id method (codes "purge") r.success r.image_ref (first_failed_purge_step r) r

  unfoldable pub purge_checked :
      Bytes → PurgeParams → Option ParamError → Action (World S) (RemoteOutput PurgeResult)
  unfolding PurgeRun.run over_session answer_purge
  purge_checked id params (some e) = invalid (codes "params") (error_message e)
  purge_checked id params none = over_session p c id (λ client method. do
    outcome ← from_env (PurgeRun.run p.unicode_lower client.host params)
    answer_purge id method outcome)

  -- The first argument tells whether there is a purger.
  unfoldable pub purge_image : Bool → PurgeImageInput → Action (World S) (RemoteOutput PurgeResult)
  unfolding PurgeValidate.validate_params RegistryTable.get_by_id purge_checked purge_params
  purge_image false i = raise (internal (codes "server: purger is not configured"))
  purge_image true i = do
    require_id (codes "server_id") i.server_id
    require_id (codes "registry_id") i.registry_id
    reg ← RegistryTable.get_by_id p i.registry_id
    let params = purge_params i reg
    purge_checked i.server_id params (PurgeValidate.validate_params params)
