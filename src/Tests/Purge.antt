-- ===== src/Tests/Purge.antt =====
-- The purge on concrete parameters.
use dijex_api.Prelude.{◌≡◌, true, false, [], ◌⊎◌, ◌↔◌, none}
use dijex_api.Text.{codes}
use dijex_api.RemoteSteps.{ok}
use dijex_api.RemotePurge.Types.{PurgeParams}
use dijex_api.RemotePurge.Steps.{step_verify_purged}
use dijex_api.RemotePurge.Validate.{validate_params, IsValid, validate_params_lem}
use dijex_api.RemotePurge.Run.{run}
use dijex_api.RemoteSteps.Sequence.{fill}
use dijex_api.RemotePurge.Types.{initial_steps}
use dijex_api.RemotePurge.Order.{Ends, is_missing, steps_in_order}
use dijex_api.RemotePurge.Contract.{IsDone, IsUnavailable, probed, run-IsDone_purge}
use dijex_api.RemotePurge.Verified.{IsPurged, step_verify_purged-ok}
use dijex_api.Tests.Hosts.{willing, stubborn, same_text}

abbrev old_redis : PurgeParams
old_redis = record {
  registry_host = [];
  registry_namespace = codes "library";
  image = codes "redis";
  tag = codes "7";
  container_name = codes "cache";
}

run-IsDone_purge_example :
    ((is_missing willing 0 ≡ false)
      × Ends
          (λ r.
            IsDone old_redis r
            × (r.steps
                ≡ fill
                    (steps_in_order same_text willing old_redis (probed willing 0)).1
                    initial_steps))
          (run same_text willing old_redis 0)
      × ((run same_text willing old_redis 0).0
          ≡ (steps_in_order same_text willing old_redis (probed willing 0)).0))
    ⊎ ((is_missing willing 0 ≡ true)
        × Ends IsUnavailable (run same_text willing old_redis 0)
        × ((run same_text willing old_redis 0).0 ≡ probed willing 0))
run-IsDone_purge_example = run-IsDone_purge same_text willing old_redis 0

step_verify_purged-ok_example :
    ((step_verify_purged same_text stubborn old_redis 1).1.status ≡ ok)
    ↔ IsPurged stubborn old_redis 1
step_verify_purged-ok_example = step_verify_purged-ok same_text stubborn old_redis 1

validate_params_lem_example : (validate_params old_redis ≡ none) ↔ IsValid old_redis
validate_params_lem_example = validate_params_lem old_redis
