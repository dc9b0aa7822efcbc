-- ===== src/RemoteDeploy/Validate.antt =====
-- internal/remotedeploy/validate.go: the checks on the parameters, before any command is built.
pub mod Rules
mod Ports
pub mod Sound
pub mod Alphabet
use dijex_api.Prelude.{
  ℕ, ◌+◌, Bool, true, false, not, ◌&&◌, ◌||◌, List, [], ◌∷◌, Option, none, some, leb, ◌==◌,
  if◌then◌else◌,
}
use dijex_api.Prelude.Int.{ℤ, pos, int_lt, int_eq}
use dijex_api.Text.{Bytes, codes, is_empty}
use dijex_api.Regex.{Regex, chr, seq, star, upto, opt, plus, byte, matches}
use dijex_api.RemoteDeploy.Types.{DeployParams, PortMapping}
use dijex_api.RemoteDeploy.Commands.{one_of}

abbrev pub lower_alnum : ℕ → Bool
lower_alnum c = (leb b'a' c && leb c b'z') || (leb b'0' c && leb c b'9')

abbrev pub alnum : ℕ → Bool
alnum c = (leb b'a' c && leb c b'z') || (leb b'A' c && leb c b'Z') || (leb b'0' c && leb c b'9')

abbrev pub dot_line : ℕ → Bool
dot_line c = c == b'.' || c == b'_' || c == b'-'

-- `[a-z0-9]([a-z0-9._-]*[a-z0-9])?`
abbrev path_part : Regex
path_part =
    seq (chr lower_alnum)
      (opt (seq (star (chr (λ c. lower_alnum c || dot_line c))) (chr lower_alnum)))

-- Parts joined by slashes; `namespaceRe` is the same expression.
abbrev pub image_ref_re : Regex
image_ref_re = seq path_part (star (seq (byte b'/') path_part))

abbrev pub tag_re : Regex
tag_re = seq (chr (λ c. alnum c || c == b'_')) (upto 127 (chr (λ c. alnum c || dot_line c)))

abbrev pub container_name_re : Regex
container_name_re = seq (chr alnum) (upto 254 (chr (λ c. alnum c || dot_line c)))

abbrev pub registry_host_re : Regex
registry_host_re =
    seq
      (seq (chr alnum)
        (opt (seq (star (chr (λ c. alnum c || (c == b'.' || c == b'-')))) (chr alnum))))
      (opt (
        seq (byte b':') (
          seq (chr (λ c. leb b'0' c && leb c b'9'))
            (upto 4 (chr (λ c. leb b'0' c && leb c b'9'))))))

abbrev pub username_re : Regex
username_re =
    seq (chr alnum) (upto 254 (chr (λ c. alnum c || (dot_line c || (c == b'+' || c == b'@')))))

-- One constructor for each message.
pub data ParamError : Type 0 where
  bad_image bad_tag bad_container_name bad_registry_host : ParamError
  bad_registry_namespace bad_registry_username bad_restart_policy no_ports : ParamError
  bad_host_port bad_container_port : ℕ → ParamError
  duplicate_host_port : ℕ → ℤ → ParamError

unfoldable pub valid_restart_policy : Bytes → Bool
valid_restart_policy s =
    one_of s (codes "no" ∷ codes "on-failure" ∷ codes "always" ∷ codes "unless-stopped" ∷ [])

-- The map `seenHostPorts`.
abbrev pub seen_port : ℤ → List ℤ → Bool
seen_port n [] = false
seen_port n (m ∷ ms) = if int_eq n m then true else seen_port n ms

abbrev pub out_of_range : ℤ → Bool
out_of_range n = int_lt n (pos 1) || int_lt (pos 65535) n

-- The loop over the ports; `i` is its index.
pub check_ports : ℕ → List ℤ → List PortMapping → Option ParamError
check_ports i seen [] = none
check_ports i seen (m ∷ ms) =
    let later = check_ports (i + 1) (m.host ∷ seen) ms in
    if out_of_range m.host
    then some (bad_host_port i)
    else if out_of_range m.container
    then some (bad_container_port i)
    else if seen_port m.host seen
    then some (duplicate_host_port i m.host)
    else later

abbrev pub breaks : Regex → Bytes → Bool
breaks r s = not (matches r s)

-- An optional field is checked only if it is set.
abbrev pub breaks_if_set : Regex → Bytes → Bool
breaks_if_set r s = not (is_empty s) && breaks r s

abbrev pub has_no_ports : List PortMapping → Bool
has_no_ports [] = true
has_no_ports (m ∷ ms) = false

-- `ValidateParams`; `none` is no error. `{1,5}` of the host's port is a digit and up to four more.
unfoldable pub validate_params : DeployParams → Option ParamError
unfolding check_ports
validate_params p =
    if breaks image_ref_re p.image
    then some bad_image
    else if breaks tag_re p.tag
    then some bad_tag
    else if breaks container_name_re p.container_name
    then some bad_container_name
    else if breaks_if_set registry_host_re p.registry_host
    then some bad_registry_host
    else if breaks_if_set image_ref_re p.registry_namespace
    then some bad_registry_namespace
    else if breaks_if_set username_re p.registry_username
    then some bad_registry_username
    else if not (is_empty p.restart_policy) && not (valid_restart_policy p.restart_policy)
    then some bad_restart_policy
    else if has_no_ports p.ports
    then some no_ports
    else check_ports 0 [] p.ports
