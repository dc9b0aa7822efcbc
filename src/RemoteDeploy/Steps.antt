-- ===== src/RemoteDeploy/Steps.antt =====
-- The steps of internal/remotedeploy/runner.go. A step takes the state of the remote server and
-- returns the new one with what it writes into its report; where the source returns a Boolean too,
-- it is true exactly if the status written is not `failed`, except for `stepFindAndStop`, whose
-- caller reads the status back.
use dijex_api.Prelude.{
  Bool, true, false, ◌||◌, List, [], ◌∷◌, ◌++◌, Option, none, some, if◌then◌else◌, length,
}
use dijex_api.Prelude.Int.{pos}
use dijex_api.Text.{Bytes, codes, is_empty, bytes_eq, join, split_n, itoa, trim_space, to_lower}
use dijex_api.RemoteSession.{Remote, Output, run_ssh, run_ssh_with_stdin, has_failed, error_text}
use dijex_api.RemoteSteps.{
  Verdict, ok, skipped, failed, first_non_empty, short_id, short_ids, container_ids,
}
use dijex_api.RemoteDeploy.Types.{DeployParams, image_ref}
use dijex_api.RemoteDeploy.Commands.{
  sanitize_registry_password, contains_control_char, is_docker_hub_host, is_hard_stop_error,
  login_command, stop_command, remove_command, ps_command, name_filter, ancestor_filter,
  check_image_command, remove_image_command, pull_command, inspect_command,
  build_docker_run_command,
}

abbrev verdict : dijex_api.RemoteSteps.Status → Bytes → Verdict
verdict st message = record { status = st; message = message }

-- `prefix + firstNonEmpty(stderr, err.Error())`
abbrev blame : Bytes → Output → Bytes
blame prefix out = prefix ++ first_non_empty (out.stderr ∷ error_text out.exit_err ∷ [])

abbrev count_text : List Bytes → Bytes
count_text ids = itoa (pos (length ids))

-- The verdict on the answer of `docker inspect`, cut at `|`.
verify_parts : List Bytes → Bytes → Verdict
verify_parts (running ∷ exit_code ∷ state ∷ rest) stdout =
    if bytes_eq running (codes "true")
    then verdict ok (codes "container is running")
    else verdict failed (
        codes "container is not running (state="
        ++ (state ++ (codes ", exit_code=" ++ (exit_code ++ codes ")"))))
verify_parts parts stdout = verdict failed (codes "unexpected inspect output: " ++ stdout)

module _ {S : Type 0} (unicode_lower : Bytes → Bytes) (host : Remote S) where
  unfoldable pub step_login : DeployParams → S → S × Verdict × Bool
  step_login p s =
      let password = sanitize_registry_password p.registry_password in
      let registry = if is_empty p.registry_host then codes "docker.io" else p.registry_host in
      let username =
        if is_docker_hub_host unicode_lower registry
        then to_lower unicode_lower p.registry_username
        else p.registry_username in
      if is_empty p.registry_username || is_empty password
      then (
        s,
        verdict skipped (codes "no credentials in registry record — assuming public access"),
        true,
      )
      else if contains_control_char password
      then (
        s,
        verdict failed (
            codes
              "registry password contains control characters (CR/LF/tab) — re-save the registry credentials"),
        false,
      )
      else let (s', out) =
          run_ssh_with_stdin host (login_command unicode_lower registry username) password s in
        if has_failed out
        then (s', verdict failed (blame (codes "docker login failed: ") out), false)
        else (s', verdict ok (codes "logged in to " ++ registry), true)

  -- `findExistingContainerIDs`: errors of the two searches are dropped.
  unfoldable pub find_existing_container_ids : DeployParams → S → S × List Bytes
  find_existing_container_ids p s =
      let (s1, by_name) = run_ssh host (ps_command (name_filter p.container_name)) s in
      let (s2, by_image) = run_ssh host (ps_command (ancestor_filter (image_ref p))) s1 in
      (s2, container_ids (by_name.stdout ∷ by_image.stdout ∷ []) [])

  unfoldable pub stop_all : List Bytes → S → S × Verdict
  stop_all ids s =
      let (s', out) = run_ssh host (stop_command ids) s in
      let stopped = verdict ok (
        codes "stopped "
        ++ (count_text ids ++ (codes " container(s): " ++ join (codes ", ") (short_ids ids)))) in
      if has_failed out
      then if is_hard_stop_error unicode_lower out.stderr
        then (s', verdict failed (blame (codes "docker stop failed: ") out))
        else (s', stopped)
      else (s', stopped)

  unfoldable pub step_find_and_stop : DeployParams → S → S × Verdict × List Bytes
  step_find_and_stop p s =
      let (s1, ids) = find_existing_container_ids p s in
      elim ids [
        | [] ↦ (s1, verdict skipped (codes "no existing containers found"), [])
        | id ∷ more ↦ let (s2, v) = stop_all (id ∷ more) s1 in (s2, v, id ∷ more)
      ]

  unfoldable pub step_remove_containers : List Bytes → S → S × Verdict × Bool
  step_remove_containers [] s = (s, verdict skipped (codes "no containers to remove"), true)
  step_remove_containers (id ∷ more) s =
      let (s', out) = run_ssh host (remove_command (id ∷ more)) s in
      if has_failed out
      then (s', verdict failed (blame (codes "docker rm failed: ") out), false)
      else (
        s',
        verdict ok (codes "removed " ++ (count_text (id ∷ more) ++ codes " container(s)")),
        true,
      )

  unfoldable pub step_remove_image : DeployParams → S → S × Verdict
  step_remove_image p s =
      let ref = image_ref p in
      let (s1, check) = run_ssh host (check_image_command ref) s in
      if has_failed check
      then (s1, verdict skipped (codes "image not present on host"))
      else let (s2, out) = run_ssh host (remove_image_command ref) s1 in
        if has_failed out
        then (s2, verdict skipped (blame (codes "rmi reported issue (continuing): ") out))
        else (s2, verdict ok (codes "removed image " ++ ref))

  unfoldable pub step_pull : DeployParams → S → S × Verdict × Bool
  step_pull p s =
      let (s', out) = run_ssh host (pull_command (image_ref p)) s in
      if has_failed out
      then (s', verdict failed (blame (codes "docker pull failed: ") out), false)
      else (s', verdict ok (codes "pulled " ++ image_ref p), true)

  -- Also returns the container id that the step puts into the result.
  unfoldable pub step_run : DeployParams → S → S × Verdict × Option Bytes
  step_run p s =
      let (s', out) = run_ssh host (build_docker_run_command p) s in
      let container_id = trim_space out.stdout in
      if has_failed out
      then (s', verdict failed (blame (codes "docker run failed: ") out), none)
      else (
        s',
        verdict ok (
            if is_empty container_id
            then codes "container started"
            else codes "container started: " ++ short_id container_id),
        some container_id,
      )

  unfoldable pub step_verify : DeployParams → S → S × Verdict
  unfolding verify_parts
  step_verify p s =
      let (s1, cancelled) = host.pause s in
      elim cancelled [
        | some e ↦ (s1, verdict failed (codes "verification cancelled: " ++ e))
        | none ↦
            let (s2, out) = run_ssh host (inspect_command p.container_name) s1 in
            if has_failed out
            then (s2, verdict failed (blame (codes "docker inspect failed: ") out))
            else (s2, verify_parts (split_n b'|' 3 out.stdout) out.stdout)
      ]
