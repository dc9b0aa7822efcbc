-- ===== src/RemoteDeploy/Types.antt =====
-- internal/remotedeploy/types.go, and the list of steps that internal/remotedeploy/runner.go begins
-- with. `RegistryInsecure` is not read by the package; times and durations are left out.
use dijex_api.Prelude.{ℕ, Bool, false, List, [], ◌∷◌, ◌++◌, if◌then◌else◌, ◌==◌}
use dijex_api.Prelude.Int.{ℤ}
use dijex_api.Text.{Bytes, is_empty}
use dijex_api.RemoteSteps.{StepResult, waiting}

pub record PortMapping : Type 0 where
  pub host : ℤ
  pub container : ℤ

pub record DeployParams : Type 0 where
  pub registry_host : Bytes
  pub registry_namespace : Bytes
  pub registry_username : Bytes
  pub registry_password : Bytes
  pub image : Bytes
  pub tag : Bytes
  pub container_name : Bytes
  pub ports : List PortMapping
  pub restart_policy : Bytes

-- `imageRef`, also that of internal/remotepurge/types.go, over the fields that it reads.
unfoldable pub reference : Bytes → Bytes → Bytes → Bytes → Bytes
reference host namespace image tag =
    let named = if is_empty namespace then image else namespace ++ (b'/' ∷ image) in
    let hosted = if is_empty host then named else host ++ (b'/' ∷ named) in hosted ++ (b':' ∷ tag)

unfoldable pub image_ref : DeployParams → Bytes
unfolding reference
image_ref p = reference p.registry_host p.registry_namespace p.image p.tag

pub data StepName : Type 0 where
  registry_login stop_existing remove_existing remove_image : StepName
  pull_image run_container verify_running : StepName

abbrev position : StepName → ℕ
position registry_login = 1
position stop_existing = 2
position remove_existing = 3
position remove_image = 4
position pull_image = 5
position run_container = 6
position verify_running = 7

abbrev pub same_step : StepName → StepName → Bool
same_step a b = position a == position b

pub record DeployResult : Type 0 where
  pub available : Bool
  pub reason : Bytes
  pub success : Bool
  pub image_ref : Bytes
  pub container_name : Bytes
  pub container_id : Bytes
  pub steps : List (StepResult StepName)

abbrev pub initial_steps : List (StepResult StepName)
initial_steps =
    waiting registry_login "Логин в registry"
    ∷ waiting stop_existing "Остановка существующих контейнеров"
    ∷ waiting remove_existing "Удаление существующих контейнеров"
    ∷ waiting remove_image "Удаление старого образа"
    ∷ waiting pull_image "Загрузка нового образа"
    ∷ waiting run_container "Запуск контейнера"
    ∷ waiting verify_running "Проверка работоспособности"
    ∷ []

abbrev pub new_result : DeployParams → DeployResult
new_result p = record {
  available = false;
  reason = [];
  success = false;
  image_ref = image_ref p;
  container_name = p.container_name;
  container_id = [];
  steps = initial_steps;
}
