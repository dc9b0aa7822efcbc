-- ===== src/RemoteLogs/Command.antt =====
-- internal/remotelogs/collector.go: the command `docker logs`, and what the shell reads from it.
use dijex_api.Prelude.{zero, suc, Bool, List, [], ◌∷◌, ◌++◌, if◌then◌else◌}
use dijex_api.Prelude.Int.{ℤ, pos, negsuc, int_eq}
use dijex_api.Text.{Bytes, codes, is_empty, join, itoa}
use dijex_api.Shell.{shell_quote}
use dijex_api.Shell.Quoting.{blank_text}
use dijex_api.RemoteLogs.Types.{Params, last_n_lines_default, sentinel_tail_all}

-- The value of `--tail`.
unfoldable pub tail_text : ℤ → Bytes
tail_text tail =
    let wanted = if int_eq tail (pos 0) then pos last_n_lines_default else tail in
    if int_eq wanted sentinel_tail_all then codes "all" else itoa wanted

-- An option with a quoted value, if the value is set.
abbrev quoted_option : Bytes → Bytes → List Bytes
quoted_option option value = if is_empty value then [] else option ∷ shell_quote value ∷ []

abbrev pub flag : Bytes → Bool → List Bytes
flag option b = if b then option ∷ [] else []

unfoldable pub build_docker_logs_command : Params → Bytes
unfolding tail_text
build_docker_logs_command p = join blank_text (
    (codes "docker" ∷ codes "logs" ∷ codes "--tail" ∷ tail_text p.tail ∷ [])
    ++ (quoted_option (codes "--since") p.since
        ++ (quoted_option (codes "--until") p.until
            ++ (flag (codes "--timestamps") p.timestamps ++ shell_quote p.container ∷ []))))

-- The option with its value as the program `docker` gets them.
abbrev pub option_values : Bytes → Bytes → List Bytes
option_values option [] = []
option_values option (c ∷ s) = option ∷ (c ∷ s) ∷ []

-- The number of lines as the program `docker` gets it: 0 stands for the default and -1 for all.
abbrev pub tail_value : ℤ → Bytes
tail_value (pos zero) = codes "10000"
tail_value (pos (suc n)) = itoa (pos (suc n))
tail_value (negsuc zero) = codes "all"
tail_value (negsuc (suc n)) = itoa (negsuc (suc n))
