-- ===== src/RemotePurge/Run.antt =====
-- `Runner.Run` of internal/remotepurge/runner.go: one function for each stretch between two early
-- returns. `none` is the panic of `findStep`.
use dijex_api.Prelude.{true, false, ◌||◌, List, Option, none, some, if◌then◌else◌}
use dijex_api.Text.{Bytes, codes, is_empty}
use dijex_api.RemoteSession.{Remote, run_ssh, has_failed}
use dijex_api.RemoteSteps.{
  Verdict, is_failed, set_step, mark_remaining_not_run, mark_all_not_run, all_ok,
}
use dijex_api.RemotePurge.Types.{
  PurgeParams, PurgeResult, StepName, find_containers, stop_containers, remove_containers,
  remove_image, verify_purged, same_step, new_result,
}
use dijex_api.RemotePurge.Steps.{
  step_find_containers, step_stop_containers, step_remove_containers, step_remove_image,
  step_verify_purged,
}

-- Writes a step's report.
abbrev pub report : StepName → Verdict → PurgeResult → Option PurgeResult
report name v res = elim (set_step same_step name v res.steps) [
  | none ↦ none
  | some steps ↦ some (record res { steps = steps })
]

-- The early return behind a step that failed.
abbrev pub stop_behind : StepName → PurgeResult → PurgeResult
stop_behind name res = record res { steps = mark_remaining_not_run same_step name res.steps }

module _ {S : Type 0} (unicode_lower : Bytes → Bytes) (host : Remote S) (p : PurgeParams) where
  unfoldable pub run_verify : S → PurgeResult → S × Option PurgeResult
  run_verify s res =
      let (s', v) = step_verify_purged unicode_lower host p s in
      elim (report verify_purged v res) [
        | none ↦ (s', none)
        | some res' ↦ (s', some (record res' { success = all_ok res'.steps }))
      ]

  unfoldable pub run_remove_image : S → PurgeResult → S × Option PurgeResult
  run_remove_image s res =
      let (s', v) = step_remove_image unicode_lower host p s in
      elim (report remove_image v res) [
        | none ↦ (s', none)
        | some res' ↦ elim (is_failed v.status) [
          | true ↦ (s', some (stop_behind remove_image res'))
          | false ↦ run_verify s' res'
        ]
      ]

  unfoldable pub run_remove : List Bytes → S → PurgeResult → S × Option PurgeResult
  run_remove ids s res =
      let (s', v, go_on) = step_remove_containers unicode_lower host ids s in
      elim (report remove_containers v res) [
        | none ↦ (s', none)
        | some res' ↦ elim go_on [
          | true ↦ run_remove_image s' res'
          | false ↦ (s', some (stop_behind remove_containers res'))
        ]
      ]

  unfoldable pub run_stop : List Bytes → S → PurgeResult → S × Option PurgeResult
  run_stop ids s res =
      let (s', v, go_on) = step_stop_containers unicode_lower host ids s in
      elim (report stop_containers v res) [
        | none ↦ (s', none)
        | some res' ↦ elim go_on [
          | true ↦ run_remove ids s' res'
          | false ↦ (s', some (stop_behind stop_containers res'))
        ]
      ]

  unfoldable pub run_find : S → PurgeResult → S × Option PurgeResult
  run_find s res =
      let (s', v, ids) = step_find_containers unicode_lower host p s in
      elim (report find_containers v res) [
        | none ↦ (s', none)
        | some res' ↦ elim (is_failed v.status) [
          | true ↦ (s', some (stop_behind find_containers res'))
          | false ↦ run_stop ids s' res'
        ]
      ]

  unfoldable pub run : S → S × Option PurgeResult
  run s =
      let res = new_result p in
      let (s', probe) = run_ssh host (codes "command -v docker") s in
      if has_failed probe || is_empty probe.stdout
      then (
        s',
        some (record res {
          reason = codes "docker CLI not found on remote host";
          steps = mark_all_not_run res.steps;
        }),
      )
      else run_find s' (record res { available = true })
