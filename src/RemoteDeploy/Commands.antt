-- ===== src/RemoteDeploy/Commands.antt =====
-- The texts that internal/remotedeploy/runner.go hands to the shell, and the tests on names,
-- passwords and error texts that it makes. `unicode_lower` is `strings.ToLower` outside ASCII.
use dijex_api.Prelude.{Bool, false, not, ◌||◌, List, [], ◌∷◌, ◌++◌, if◌then◌else◌}
use dijex_api.Text.{
  Bytes, codes, is_empty, bytes_eq, contains, contains_any, trim_space, trim_right, join, itoa,
  to_lower,
}
use dijex_api.Shell.{shell_quote, quote_all}
use dijex_api.Shell.Quoting.{blank_text}
use dijex_api.RemoteDeploy.Types.{DeployParams, PortMapping, image_ref}

abbrev line_breaks : Bytes
line_breaks = 13 ∷ 10 ∷ 9 ∷ []

-- `sanitizeRegistryPassword`
unfoldable pub sanitize_registry_password : Bytes → Bytes
sanitize_registry_password pw = trim_right pw (13 ∷ 10 ∷ 9 ∷ 32 ∷ [])

-- `containsControlChar`
unfoldable pub contains_control_char : Bytes → Bool
contains_control_char s = contains_any s line_breaks

abbrev pub one_of : Bytes → List Bytes → Bool
one_of s [] = false
one_of s (t ∷ ts) = bytes_eq s t || one_of s ts

module _ (unicode_lower : Bytes → Bytes) where
  -- `isDockerHubHost`
  unfoldable pub is_docker_hub_host : Bytes → Bool
  is_docker_hub_host host = one_of (to_lower unicode_lower (trim_space host)) (
      []
      ∷ codes "docker.io"
      ∷ codes "index.docker.io"
      ∷ codes "registry-1.docker.io"
      ∷ codes "registry.hub.docker.com"
      ∷ [])

  -- `isHardStopError`
  unfoldable pub is_hard_stop_error : Bytes → Bool
  is_hard_stop_error stderr =
      let s = to_lower unicode_lower stderr in
      if contains s (codes "is not running") || contains s (codes "no such container")
      then false
      else not (is_empty s)

  unfoldable pub login_command : Bytes → Bytes → Bytes
  login_command host username =
      if is_docker_hub_host host
      then codes "docker login -u " ++ (shell_quote username ++ codes " --password-stdin")
      else codes "docker login "
        ++ (shell_quote host
            ++ (codes " -u " ++ (shell_quote username ++ codes " --password-stdin")))

-- `docker stop` and `docker rm -f` over container ids
unfoldable pub stop_command : List Bytes → Bytes
stop_command ids = codes "docker stop " ++ join blank_text (quote_all ids)

unfoldable pub remove_command : List Bytes → Bytes
remove_command ids = codes "docker rm -f " ++ join blank_text (quote_all ids)

-- The two searches of `findExistingContainerIDs`
unfoldable pub ps_command : Bytes → Bytes
ps_command filter = codes "docker ps -a --filter " ++ (shell_quote filter ++ codes " -q --no-trunc")

abbrev pub name_filter : Bytes → Bytes
name_filter name = codes "name=^" ++ (name ++ codes "$")

abbrev pub ancestor_filter : Bytes → Bytes
ancestor_filter ref = codes "ancestor=" ++ ref

unfoldable pub check_image_command : Bytes → Bytes
check_image_command ref =
    codes "docker image inspect " ++ (shell_quote ref ++ codes " >/dev/null 2>&1")

unfoldable pub remove_image_command : Bytes → Bytes
remove_image_command ref = codes "docker rmi -f " ++ shell_quote ref

unfoldable pub pull_command : Bytes → Bytes
pull_command ref = codes "docker pull " ++ shell_quote ref

unfoldable pub inspect_command : Bytes → Bytes
inspect_command name =
    codes "docker inspect -f '{{.State.Running}}|{{.State.ExitCode}}|{{.State.Status}}' "
    ++ shell_quote name

-- `host:container` of a port mapping
abbrev pub port_text : PortMapping → Bytes
port_text m = itoa m.host ++ (b':' ∷ itoa m.container)

unfoldable pub port_parts : List PortMapping → List Bytes
port_parts [] = []
port_parts (m ∷ ms) = codes "-p" ∷ port_text m ∷ port_parts ms

-- `buildDockerRunCommand`
unfoldable pub build_docker_run_command : DeployParams → Bytes
unfolding port_parts
build_docker_run_command p = join blank_text (
    (codes "docker"
      ∷ codes "run"
      ∷ codes "-d"
      ∷ codes "--name"
      ∷ shell_quote p.container_name
      ∷ port_parts p.ports)
    ++ ((if is_empty p.restart_policy
          then []
          else codes "--restart" ∷ shell_quote p.restart_policy ∷ [])
        ++ shell_quote (image_ref p) ∷ []))
