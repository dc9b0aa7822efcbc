-- ===== src/RemoteDeploy/Run.antt =====
-- `Runner.Run` of internal/remotedeploy/runner.go: one function for each stretch between two early
-- returns. `none` is the panic of `findStep`.
use dijex_api.Prelude.{true, false, ◌||◌, List, Option, none, some, if◌then◌else◌}
use dijex_api.Text.{Bytes, codes, is_empty}
use dijex_api.RemoteSession.{Remote, run_ssh, has_failed}
use dijex_api.RemoteSteps.{
  Verdict, is_failed, set_step, mark_remaining_not_run, mark_all_not_run, all_ok,
}
use dijex_api.RemoteDeploy.Types.{
  DeployParams, DeployResult, StepName, registry_login, stop_existing, remove_existing,
  remove_image, pull_image, run_container, verify_running, same_step, new_result,
}
use dijex_api.RemoteDeploy.Steps.{
  step_login, step_find_and_stop, step_remove_containers, step_remove_image, step_pull, step_run,
  step_verify,
}

-- Writes a step's report.
abbrev pub report : StepName → Verdict → DeployResult → Option DeployResult
report name v res = elim (set_step same_step name v res.steps) [
  | none ↦ none
  | some steps ↦ some (record res { steps = steps })
]

-- The early return behind a step that failed.
abbrev pub stop_behind : StepName → DeployResult → DeployResult
stop_behind name res = record res { steps = mark_remaining_not_run same_step name res.steps }

module _ {S : Type 0} (unicode_lower : Bytes → Bytes) (host : Remote S) (p : DeployParams) where
  unfoldable pub run_verify : S → DeployResult → S × Option DeployResult
  run_verify s res =
      let (s', v) = step_verify unicode_lower host p s in
      elim (report verify_running v res) [
        | none ↦ (s', none)
        | some res' ↦ (s', some (record res' { success = all_ok res'.steps }))
      ]

  unfoldable pub run_start : S → DeployResult → S × Option DeployResult
  run_start s res =
      let (s', v, started) = step_run unicode_lower host p s in
      elim (report run_container v res) [
        | none ↦ (s', none)
        | some res' ↦ elim started [
          | none ↦ (s', some (stop_behind run_container res'))
          | some id ↦ run_verify s' (record res' { container_id = id })
        ]
      ]

  unfoldable pub run_pull : S → DeployResult → S × Option DeployResult
  run_pull s res =
      let (s', v, go_on) = step_pull unicode_lower host p s in
      elim (report pull_image v res) [
        | none ↦ (s', none)
        | some res' ↦ elim go_on [
          | true ↦ run_start s' res'
          | false ↦ (s', some (stop_behind pull_image res'))
        ]
      ]

  unfoldable pub run_remove_image : S → DeployResult → S × Option DeployResult
  run_remove_image s res =
      let (s', v) = step_remove_image unicode_lower host p s in
      elim (report remove_image v res) [ none ↦ (s', none) | some res' ↦ run_pull s' res' ]

  unfoldable pub run_remove : List Bytes → S → DeployResult → S × Option DeployResult
  run_remove ids s res =
      let (s', v, go_on) = step_remove_containers unicode_lower host ids s in
      elim (report remove_existing v res) [
        | none ↦ (s', none)
        | some res' ↦ elim go_on [
          | true ↦ run_remove_image s' res'
          | false ↦ (s', some (stop_behind remove_existing res'))
        ]
      ]

  unfoldable pub run_stop : S → DeployResult → S × Option DeployResult
  run_stop s res =
      let (s', v, ids) = step_find_and_stop unicode_lower host p s in
      elim (report stop_existing v res) [
        | none ↦ (s', none)
        | some res' ↦ elim (is_failed v.status) [
          | true ↦ (s', some (stop_behind stop_existing res'))
          | false ↦ run_remove ids s' res'
        ]
      ]

  unfoldable pub run_login : S → DeployResult → S × Option DeployResult
  run_login s res =
      let (s', v, go_on) = step_login unicode_lower host p s in
      elim (report registry_login v res) [
        | none ↦ (s', none)
        | some res' ↦ elim go_on [
          | true ↦ run_stop s' res'
          | false ↦ (s', some (stop_behind registry_login res'))
        ]
      ]

  unfoldable pub run : S → S × Option DeployResult
  run s =
      let res = new_result p in
      let (s', probe) = run_ssh host (codes "command -v docker") s in
      if has_failed probe || is_empty probe.stdout
      then (
        s',
        some (record res {
          reason = codes "docker CLI not found on remote host";
          steps = mark_all_not_run res.steps;
        }),
      )
      else run_login s' (record res { available = true })
