-- ===== src/Tests/Deploy.antt =====
-- The roll-out on concrete parameters.
use dijex_api.Prelude.{
  ◌≡◌, refl, ◌⊎◌, ◌↔◌, true, false, [], ◌∷◌, ◌++◌, none, some, All, length, ◌≤◌, if◌then◌else◌,
}
use dijex_api.Prelude.Int.{pos}
use dijex_api.Text.{to_lower, trim_space, codes}
use dijex_api.Shell.Words.{words}
use dijex_api.Shell.Words.{is_plain}
use dijex_api.RemoteDeploy.Types.{DeployParams, PortMapping, image_ref}
use dijex_api.RemoteDeploy.Validate.{validate_params}
use dijex_api.RemoteDeploy.Validate.Rules.{IsValid}
use dijex_api.RemoteDeploy.Validate.Sound.{validate_params_iff}
use dijex_api.RemoteDeploy.Validate.Alphabet.{validate_params-plain}
use dijex_api.RemoteDeploy.Commands.{
  build_docker_run_command, login_command, stop_command, remove_command,
}
use dijex_api.RemoteDeploy.CommandWords.{
  port_values, names_hub, restart_values, words-build_docker_run_command, words-login_command,
  words-id_commands,
}
use dijex_api.RemoteDeploy.Run.{run}
use dijex_api.RemoteSteps.Sequence.{fill}
use dijex_api.RemoteDeploy.Types.{initial_steps}
use dijex_api.RemoteDeploy.Order.{Ends, is_missing, steps_in_order}
use dijex_api.RemoteDeploy.Contract.{IsDone, IsUnavailable, probed, run-IsDone}
use dijex_api.Tests.Hosts.{stubborn, same_text}

abbrev web_port : PortMapping
web_port = record { host = pos 8080; container = pos 80 }

abbrev nginx : DeployParams
nginx = record {
  registry_host = codes "registry.example.com";
  registry_namespace = codes "team";
  registry_username = codes "deployer";
  registry_password = codes "secret";
  image = codes "nginx";
  tag = codes "1.25";
  container_name = codes "web";
  ports = web_port ∷ [];
  restart_policy = codes "unless-stopped";
}

nginx_ref : image_ref nginx ≡ codes "registry.example.com/team/nginx:1.25"
unfolding image_ref
nginx_ref = refl

run-IsDone_example :
    ((is_missing stubborn 0 ≡ false)
      × Ends
          (λ r.
            IsDone nginx r
            × (r.steps
                ≡ fill
                    (steps_in_order same_text stubborn nginx (probed stubborn 0)).1
                    initial_steps))
          (run same_text stubborn nginx 0)
      × ((run same_text stubborn nginx 0).0
          ≡ (steps_in_order same_text stubborn nginx (probed stubborn 0)).0))
    ⊎ ((is_missing stubborn 0 ≡ true)
        × Ends IsUnavailable (run same_text stubborn nginx 0)
        × ((run same_text stubborn nginx 0).0 ≡ probed stubborn 0))
run-IsDone_example = run-IsDone same_text stubborn nginx 0

nginx-accepted : validate_params nginx ≡ none
unfolding validate_params dijex_api.Regex.matches
    dijex_api.RemoteDeploy.Validate.valid_restart_policy
nginx-accepted = refl

validate_params_iff_example : (validate_params nginx ≡ none) ↔ IsValid nginx
validate_params_iff_example = validate_params_iff nginx

validate_params-plain_example :
    All (λ c. is_plain c ≡ true) (image_ref nginx)
    × All (λ c. is_plain c ≡ true) nginx.container_name
    × ((1 ≤ length nginx.tag) × (length nginx.tag ≤ 128))
    × ((1 ≤ length nginx.container_name) × (length nginx.container_name ≤ 255))
validate_params-plain_example = validate_params-plain nginx nginx-accepted

words-build_docker_run_command_example :
    words (build_docker_run_command nginx)
    ≡ some (
        (codes "docker"
          ∷ codes "run"
          ∷ codes "-d"
          ∷ codes "--name"
          ∷ nginx.container_name
          ∷ port_values nginx.ports)
        ++ (restart_values nginx.restart_policy ++ image_ref nginx ∷ []))
words-build_docker_run_command_example = words-build_docker_run_command nginx

words-login_command_example :
    words (login_command same_text (codes "registry.example.com") (codes "o'neil"))
    ≡ some (
        if names_hub (to_lower same_text (trim_space (codes "registry.example.com")))
        then codes "docker"
          ∷ codes "login"
          ∷ codes "-u"
          ∷ codes "o'neil"
          ∷ codes "--password-stdin"
          ∷ []
        else codes "docker"
          ∷ codes "login"
          ∷ codes "registry.example.com"
          ∷ codes "-u"
          ∷ codes "o'neil"
          ∷ codes "--password-stdin"
          ∷ [])
words-login_command_example =
    words-login_command same_text (codes "registry.example.com") (codes "o'neil")

words-id_commands_example :
    (words (stop_command (codes "a1" ∷ codes "b2" ∷ []))
      ≡ some (codes "docker" ∷ codes "stop" ∷ codes "a1" ∷ codes "b2" ∷ []))
    × (words (remove_command (codes "a1" ∷ codes "b2" ∷ []))
        ≡ some (codes "docker" ∷ codes "rm" ∷ codes "-f" ∷ codes "a1" ∷ codes "b2" ∷ []))
words-id_commands_example = words-id_commands (codes "a1") (codes "b2" ∷ [])
