-- ===== src/RemotePurge/Types.antt =====
-- internal/remotepurge/types.go, and the list of steps that internal/remotepurge/runner.go begins
-- with. Times and durations are left out.
use dijex_api.Prelude.{ℕ, Bool, false, List, [], ◌∷◌, ◌==◌}
use dijex_api.Text.{Bytes}
use dijex_api.RemoteSteps.{StepResult, waiting}
use dijex_api.RemoteDeploy.Types.{reference}

pub record PurgeParams : Type 0 where
  pub registry_host : Bytes
  pub registry_namespace : Bytes
  pub image : Bytes
  pub tag : Bytes
  pub container_name : Bytes

unfoldable pub image_ref : PurgeParams → Bytes
unfolding reference
image_ref p = reference p.registry_host p.registry_namespace p.image p.tag

pub data StepName : Type 0 where
  find_containers stop_containers remove_containers remove_image verify_purged : StepName

abbrev position : StepName → ℕ
position find_containers = 1
position stop_containers = 2
position remove_containers = 3
position remove_image = 4
position verify_purged = 5

abbrev pub same_step : StepName → StepName → Bool
same_step a b = position a == position b

pub record PurgeResult : Type 0 where
  pub available : Bool
  pub reason : Bytes
  pub success : Bool
  pub image_ref : Bytes
  pub container_name : Bytes
  pub steps : List (StepResult StepName)

abbrev pub initial_steps : List (StepResult StepName)
initial_steps =
    waiting find_containers "Поиск контейнеров"
    ∷ waiting stop_containers "Остановка контейнеров"
    ∷ waiting remove_containers "Удаление контейнеров"
    ∷ waiting remove_image "Удаление образа"
    ∷ waiting verify_purged "Проверка очистки"
    ∷ []

abbrev pub new_result : PurgeParams → PurgeResult
new_result p = record {
  available = false;
  reason = [];
  success = false;
  image_ref = image_ref p;
  container_name = p.container_name;
  steps = initial_steps;
}
