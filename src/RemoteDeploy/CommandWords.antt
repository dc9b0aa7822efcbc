-- ===== src/RemoteDeploy/CommandWords.antt =====
-- What the remote shell reads from the commands of internal/remotedeploy/runner.go.
use dijex_api.Prelude.{
  ◌≡◌, refl, ◌∙◌, Bool, ◌||◌, true, false, List, [], ◌∷◌, ◌++◌, some, All-append, Bool-cases,
  if◌then◌else◌, ap, sym, inl, inr, append-nil, arith,
}
use mathlib.Core.List.{cons-ne-nil}
use dijex_api.Text.{Bytes, codes, is_empty, itoa, bytes_eq, to_lower, trim_space}
use dijex_api.Shell.{shell_quote, quote_all}
use dijex_api.Shell.Words.{is_plain, kind, scan, gap, words}
use dijex_api.Shell.Literals.{literal-IsWord, all_plain, itoa-IsPlain, append-ne-nil}
use dijex_api.Shell.Quoting.{
  IsWord, AreWords, AreWords-append, shell_quote-IsWord, plain-IsWord, quote_all-AreWords,
  words-join, scan-join,
}
use dijex_api.RemoteDeploy.Types.{DeployParams, PortMapping, image_ref}
use dijex_api.RemoteDeploy.Commands.{port_parts}
use dijex_api.RemoteDeploy.Commands.{
  port_text, build_docker_run_command, stop_command, remove_command, ps_command, pull_command,
  remove_image_command, inspect_command, login_command, is_docker_hub_host,
}

port_text-IsWord : (m : PortMapping) → IsWord (port_text m) (port_text m)
port_text-IsWord m =
    let (host_there, host_plain) = itoa-IsPlain m.host in
    plain-IsWord (port_text m) (
      append-ne-nil (itoa m.host) _ host_there,
      All-append (λ c. is_plain c ≡ true) (itoa m.host) _ host_plain
          (refl, (itoa-IsPlain m.container).1),
    )

-- The options for the ports, as the program `docker` gets them: `-p host:container` for each.
abbrev pub port_values : List PortMapping → List Bytes
port_values [] = []
port_values (m ∷ ms) = codes "-p" ∷ (itoa m.host ++ (b':' ∷ itoa m.container)) ∷ port_values ms

port_parts-AreWords : (ms : List PortMapping) → AreWords (port_parts ms) (port_values ms)
unfolding port_parts
port_parts-AreWords [] = tt
port_parts-AreWords (m ∷ ms) = (
  plain-IsWord (codes "-p") (cons-ne-nil _ _, (refl, (refl, tt))),
  (port_text-IsWord m, port_parts-AreWords ms),
)

-- The option for a restart policy, if one is set.
abbrev pub restart_values : Bytes → List Bytes
restart_values [] = []
restart_values (c ∷ s) = codes "--restart" ∷ (c ∷ s) ∷ []

restart-AreWords :
    (policy : Bytes)
    → AreWords
        (if is_empty policy then [] else codes "--restart" ∷ shell_quote policy ∷ [])
        (restart_values policy)
restart-AreWords [] = tt
restart-AreWords (c ∷ s) =
    (literal-IsWord "--restart" (unfold all_plain in refl), (shell_quote-IsWord (c ∷ s), tt))

-- Whatever bytes the container's name, the restart policy and the image reference hold, the shell
-- reads the `docker run` command as `docker run -d --name` and the name, `-p host:container` in
-- decimal for each port in order, `--restart` and the policy if one is set, and the image reference.
pub words-build_docker_run_command :
    (p : DeployParams)
    → words (build_docker_run_command p)
      ≡ some (
          (codes "docker"
            ∷ codes "run"
            ∷ codes "-d"
            ∷ codes "--name"
            ∷ p.container_name
            ∷ port_values p.ports)
          ++ (restart_values p.restart_policy ++ image_ref p ∷ []))
unfolding build_docker_run_command all_plain
words-build_docker_run_command p = words-join _ _ (
    AreWords-append
      (codes "docker"
        ∷ codes "run"
        ∷ codes "-d"
        ∷ codes "--name"
        ∷ shell_quote p.container_name
        ∷ port_parts p.ports)
      _
      (codes "docker"
        ∷ codes "run"
        ∷ codes "-d"
        ∷ codes "--name"
        ∷ p.container_name
        ∷ port_values p.ports)
      _
      (
        literal-IsWord "docker" refl,
        (
          literal-IsWord "run" refl,
          (
            literal-IsWord "-d" refl,
            (
              literal-IsWord "--name" refl,
              (shell_quote-IsWord p.container_name, port_parts-AreWords p.ports),
            ),
          ),
        ),
      )
      (AreWords-append _ (shell_quote (image_ref p) ∷ []) _ (image_ref p ∷ [])
        (restart-AreWords p.restart_policy) (shell_quote-IsWord (image_ref p), tt)))

-- So with the commands over container ids: the ids are the arguments, one each.
pub words-id_commands :
    (id : Bytes) (ids : List Bytes)
    → (words (stop_command (id ∷ ids)) ≡ some (codes "docker" ∷ codes "stop" ∷ id ∷ ids))
      × (words (remove_command (id ∷ ids))
          ≡ some (codes "docker" ∷ codes "rm" ∷ codes "-f" ∷ id ∷ ids))
unfolding stop_command remove_command words scan kind
words-id_commands id ids =
    let h = quote_all-AreWords (id ∷ ids) in
    (
      scan-join (quote_all (id ∷ ids)) (id ∷ ids) (codes "docker" ∷ codes "stop" ∷ []) h,
      scan-join (quote_all (id ∷ ids)) (id ∷ ids) (codes "docker" ∷ codes "rm" ∷ codes "-f" ∷ []) h,
    )

-- A quoted text in the last place of a command is its last argument.
quoted_last :
    (s : Bytes) (done : List Bytes) → scan gap [] done (shell_quote s) ≡ some (done ++ s ∷ [])
unfolding scan
quoted_last s done =
    ap (scan gap [] done) (sym (append-nil (shell_quote s))) ∙ shell_quote-IsWord s done []

-- The commands over one image, one container or one filter read the same way.
pub words-name_commands :
    (s : Bytes)
    → (words (pull_command s) ≡ some (codes "docker" ∷ codes "pull" ∷ s ∷ []))
      × (words (remove_image_command s) ≡ some (codes "docker" ∷ codes "rmi" ∷ codes "-f" ∷ s ∷ []))
      × (words (inspect_command s)
          ≡ some (
              codes "docker"
              ∷ codes "inspect"
              ∷ codes "-f"
              ∷ codes "{{.State.Running}}|{{.State.ExitCode}}|{{.State.Status}}"
              ∷ s
              ∷ []))
      × (words (ps_command s)
          ≡ some (
              codes "docker"
              ∷ codes "ps"
              ∷ codes "-a"
              ∷ codes "--filter"
              ∷ s
              ∷ codes "-q"
              ∷ codes "--no-trunc"
              ∷ []))
unfolding pull_command remove_image_command inspect_command ps_command words scan kind
words-name_commands s = (
  quoted_last s (codes "docker" ∷ codes "pull" ∷ []),
  quoted_last s (codes "docker" ∷ codes "rmi" ∷ codes "-f" ∷ []),
  quoted_last s _,
  shell_quote-IsWord s (codes "docker" ∷ codes "ps" ∷ codes "-a" ∷ codes "--filter" ∷ [])
      (codes " -q --no-trunc"),
)

-- The names of Docker Hub's registry.
abbrev pub names_hub : Bytes → Bool
names_hub h =
    bytes_eq h []
    || bytes_eq h (codes "docker.io")
    || bytes_eq h (codes "index.docker.io")
    || bytes_eq h (codes "registry-1.docker.io")
    || bytes_eq h (codes "registry.hub.docker.com")

is_docker_hub_host-names_hub :
    (lower : Bytes → Bytes) (host : Bytes)
    → is_docker_hub_host lower host ≡ names_hub (to_lower lower (trim_space host))
unfolding is_docker_hub_host
is_docker_hub_host-names_hub lower host = ground arith

module _ (lower : Bytes → Bytes) (host username : Bytes) where
  hub_login :
      is_docker_hub_host lower host ≡ true
      → words (login_command lower host username)
        ≡ words (codes "docker login -u " ++ (shell_quote username ++ codes " --password-stdin"))
  unfolding login_command
  hub_login e = rw e

  other_login :
      is_docker_hub_host lower host ≡ false
      → words (login_command lower host username)
        ≡ words (
            codes "docker login "
            ++ (shell_quote host
                ++ (codes " -u " ++ (shell_quote username ++ codes " --password-stdin"))))
  unfolding login_command
  other_login e = rw e

  hub_words :
      words (codes "docker login -u " ++ (shell_quote username ++ codes " --password-stdin"))
      ≡ some
          (codes "docker" ∷ codes "login" ∷ codes "-u" ∷ username ∷ codes "--password-stdin" ∷ [])
  unfolding words scan kind
  hub_words =
      shell_quote-IsWord username (codes "docker" ∷ codes "login" ∷ codes "-u" ∷ [])
        (codes " --password-stdin")

  other_words :
      words (
        codes "docker login "
        ++ (shell_quote host
            ++ (codes " -u " ++ (shell_quote username ++ codes " --password-stdin"))))
      ≡ some (
          codes "docker"
          ∷ codes "login"
          ∷ host
          ∷ codes "-u"
          ∷ username
          ∷ codes "--password-stdin"
          ∷ [])
  unfolding words scan kind
  other_words =
      shell_quote-IsWord host (codes "docker" ∷ codes "login" ∷ [])
        (codes " -u " ++ (shell_quote username ++ codes " --password-stdin"))
      ∙ shell_quote-IsWord username (codes "docker" ∷ codes "login" ∷ host ∷ codes "-u" ∷ [])
          (codes " --password-stdin")

-- Whatever bytes the registry's host and the user name hold, the shell reads the login command as
-- these words: the host is named unless, trimmed and in lower case, it is empty or docker.io,
-- index.docker.io, registry-1.docker.io or registry.hub.docker.com.
pub words-login_command :
    (lower : Bytes → Bytes) (host username : Bytes)
    → words (login_command lower host username)
      ≡ some (
          if names_hub (to_lower lower (trim_space host))
          then codes "docker"
            ∷ codes "login"
            ∷ codes "-u"
            ∷ username
            ∷ codes "--password-stdin"
            ∷ []
          else codes "docker"
            ∷ codes "login"
            ∷ host
            ∷ codes "-u"
            ∷ username
            ∷ codes "--password-stdin"
            ∷ [])
words-login_command lower host username = elim (Bool-cases (is_docker_hub_host lower host)) [
  | inl e ↦
      hub_login lower host username e
      ∙ rw (← is_docker_hub_host-names_hub lower host, e) (hub_words lower host username)
  | inr e ↦
      other_login lower host username e
      ∙ rw (← is_docker_hub_host-names_hub lower host, e) (other_words lower host username)
]
