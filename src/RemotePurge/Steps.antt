-- ===== src/RemotePurge/Steps.antt =====
-- The steps of internal/remotepurge/runner.go. A step takes the state of the remote server and
-- returns the new one with what it writes into its report; the Boolean that two steps return is true
-- if the purge may go on.
use dijex_api.Prelude.{Bool, true, false, ◌&&◌, List, [], ◌∷◌, ◌++◌, if◌then◌else◌, length}
use dijex_api.Prelude.Int.{pos}
use dijex_api.Text.{Bytes, codes, is_empty, join, itoa}
use dijex_api.RemoteSession.{Remote, Output, run_ssh, has_failed, error_text}
use dijex_api.RemoteSteps.{
  Verdict, Status, ok, skipped, failed, first_non_empty, short_ids, container_ids,
}
use dijex_api.RemoteDeploy.Commands.{
  is_hard_stop_error, stop_command, remove_command, ps_command, name_filter, ancestor_filter,
  check_image_command, remove_image_command,
}
use dijex_api.RemotePurge.Types.{PurgeParams, image_ref}

abbrev verdict : Status → Bytes → Verdict
verdict st message = record { status = st; message = message }

abbrev blame : Bytes → Output → Bytes
blame prefix out = prefix ++ first_non_empty (out.stderr ∷ error_text out.exit_err ∷ [])

abbrev count_text : List Bytes → Bytes
count_text ids = itoa (pos (length ids))

module _ {S : Type 0} (unicode_lower : Bytes → Bytes) (host : Remote S) where
  -- The search by name, if there is one: a list of no output or of one.
  unfoldable pub search_name : PurgeParams → S → S × List Bytes
  search_name p s =
      if is_empty p.container_name
      then (s, [])
      else let (s', out) = run_ssh host (ps_command (name_filter p.container_name)) s in
        (s', out.stdout ∷ [])

  -- `findExistingContainerIDs`
  unfoldable pub find_existing_container_ids : PurgeParams → S → S × List Bytes
  unfolding search_name
  find_existing_container_ids p s =
      let (s1, sources) = search_name p s in
      let (s2, out) = run_ssh host (ps_command (ancestor_filter (image_ref p))) s1 in
      (s2, container_ids (sources ++ out.stdout ∷ []) [])

  unfoldable pub step_find_containers : PurgeParams → S → S × Verdict × List Bytes
  step_find_containers p s =
      let (s', ids) = find_existing_container_ids p s in
      elim ids [
        | [] ↦ (s', verdict skipped (codes "no containers found for " ++ image_ref p), [])
        | id ∷ more ↦ (
          s',
          verdict ok (
              codes "found "
              ++ (count_text (id ∷ more)
                  ++ (codes " container(s): " ++ join (codes ", ") (short_ids (id ∷ more))))),
          id ∷ more,
        )
      ]

  unfoldable pub step_stop_containers : List Bytes → S → S × Verdict × Bool
  step_stop_containers [] s = (s, verdict skipped (codes "no containers to stop"), true)
  step_stop_containers (id ∷ more) s =
      let (s', out) = run_ssh host (stop_command (id ∷ more)) s in
      if has_failed out && is_hard_stop_error unicode_lower out.stderr
      then (s', verdict failed (blame (codes "docker stop failed: ") out), false)
      else (
        s',
        verdict ok (codes "stopped " ++ (count_text (id ∷ more) ++ codes " container(s)")),
        true,
      )

  unfoldable pub step_remove_containers : List Bytes → S → S × Verdict × Bool
  step_remove_containers [] s = (s, verdict skipped (codes "no containers to remove"), true)
  step_remove_containers (id ∷ more) s =
      let (s', out) = run_ssh host (remove_command (id ∷ more)) s in
      if has_failed out
      then (s', verdict failed (blame (codes "docker rm failed: ") out), false)
      else (
        s',
        verdict ok (codes "removed " ++ (count_text (id ∷ more) ++ codes " container(s)")),
        true,
      )

  unfoldable pub step_remove_image : PurgeParams → S → S × Verdict
  step_remove_image p s =
      let ref = image_ref p in
      let (s1, check) = run_ssh host (check_image_command ref) s in
      if has_failed check
      then (s1, verdict skipped (codes "image not present on host"))
      else let (s2, out) = run_ssh host (remove_image_command ref) s1 in
        if has_failed out
        then (s2, verdict failed (blame (codes "docker rmi failed: ") out))
        else (s2, verdict ok (codes "removed image " ++ ref))

  -- The second half of `stepVerifyPurged`, with no container left.
  unfoldable pub verify_image : PurgeParams → S → S × Verdict
  verify_image p s =
      let (s', check) = run_ssh host (check_image_command (image_ref p)) s in
      if has_failed check
      then (s', verdict ok (codes "no containers and no image remain"))
      else (s', verdict failed (codes "image still present on host: " ++ image_ref p))

  unfoldable pub step_verify_purged : PurgeParams → S → S × Verdict
  step_verify_purged p s =
      let (s', remaining) = find_existing_container_ids p s in
      elim remaining [
        | [] ↦ verify_image p s'
        | id ∷ more ↦ (
          s',
          verdict failed
              (codes "containers still present: " ++ join (codes ", ") (short_ids (id ∷ more))),
        )
      ]
