-- ===== src/RemoteLogs/Validate.antt =====
-- internal/remotelogs/validate.go: the checks on a request for logs.
use dijex_api.Prelude.{
  ℕ, ◌≤◌, ◌≡◌, refl, Bool, true, false, ◌&&◌, ◌||◌, ◌↔◌, Option, none, some, leb, ◌==◌,
  if◌then◌else◌, arith,
}
use dijex_api.Prelude.Int.{ℤ, pos, negsuc, int_lt}
use dijex_api.Regex.{Regex, chr, seq, alt, plus, byte}
use dijex_api.Regex.Language.{Language}
use dijex_api.RemoteDeploy.Validate.{container_name_re, breaks, breaks_if_set}
use dijex_api.RemoteDeploy.Validate.Rules.{IsUnsetOr}
use dijex_api.RemoteDeploy.Validate.Sound.{breaks_iff, breaks_if_set_iff}
use dijex_api.RemoteLogs.Types.{Params, sentinel_tail_all}

abbrev pub max_tail_lines : ℕ
max_tail_lines = 1_000_000

abbrev is_digit : ℕ → Bool
is_digit c = leb b'0' c && leb c b'9'

abbrev digit : Regex
digit = chr is_digit

-- A number and a unit, or a date and a time; `containerRe` is `containerNameRe` of the deployment.
abbrev pub since_until_re : Regex
since_until_re =
    alt (seq (plus digit) (chr (λ c. c == b's' || (c == b'm' || (c == b'h' || c == b'd'))))) (
      seq (seq digit (seq digit (seq digit digit))) (
        seq (byte b'-') (
          seq (seq digit digit) (
            seq (byte b'-') (
              seq (seq digit digit) (
                seq (chr (λ c. c == b'T' || c == 32)) (
                  plus (
                    chr (λ c.
                      is_digit c
                      || (c == b':'
                          || (c == b'.'
                              || (c == b'+' || (c == b'Z' || (c == 32 || c == b'-'))))))))))))))

pub data LogParamError : Type 0 where
  bad_container bad_tail bad_since bad_until : LogParamError

abbrev bad_tail_number : ℤ → Bool
bad_tail_number n = int_lt n sentinel_tail_all || int_lt (pos max_tail_lines) n

unfoldable pub validate_params : Params → Option LogParamError
validate_params p =
    if breaks container_name_re p.container
    then some bad_container
    else if bad_tail_number p.tail
    then some bad_tail
    else if breaks_if_set since_until_re p.since
    then some bad_since
    else if breaks_if_set since_until_re p.until
    then some bad_until
    else none

-- `-1` for all lines, or a number of lines within the bound.
abbrev pub IsTail : ℤ → Type 0
IsTail (pos n) = n ≤ max_tail_lines
IsTail (negsuc n) = n ≡ 0

pub record IsValid (p : Params) : Type 0 where
  pub container : Language container_name_re p.container
  pub tail : IsTail p.tail
  pub since : IsUnsetOr since_until_re p.since
  pub until : IsUnsetOr since_until_re p.until

check_iff :
    (b : Bool) (e : LogParamError) (rest : Option LogParamError)
    → ((if b then some e else rest) ≡ none) ↔ ((b ≡ false) × (rest ≡ none))
check_iff true e rest = (λ h. absurd (cc), λ h. absurd (cc h.0))
check_iff false e rest = (λ h. (refl, h), λ h. h.1)

IsTail-iff : (n : ℤ) → (bad_tail_number n ≡ false) ↔ IsTail n
IsTail-iff (pos n) = ground arith
IsTail-iff (negsuc n) = ground arith

accepted : (p : Params) → validate_params p ≡ none → IsValid p
unfolding validate_params
accepted p h0 =
    let (container, h1) = (check_iff _ _ _).0 h0 in
    let (tail, h2) = (check_iff _ _ _).0 h1 in
    let (since, h3) = (check_iff _ _ _).0 h2 in
    let (until, _) = (check_iff _ _ _).0 h3 in
    record {
      container = (breaks_iff _ _).0 container;
      tail = (IsTail-iff _).0 tail;
      since = (breaks_if_set_iff _ _).0 since;
      until = (breaks_if_set_iff _ _).0 until;
    }

accepts : (p : Params) → IsValid p → validate_params p ≡ none
unfolding validate_params
accepts p v = (check_iff _ _ _).1 (
  (breaks_iff _ _).1 v.container,
  (check_iff _ _ _).1 (
    (IsTail-iff _).1 v.tail,
    (check_iff _ _ _).1 (
      (breaks_if_set_iff _ _).1 v.since,
      (check_iff _ _ _).1 ((breaks_if_set_iff _ _).1 v.until, refl),
    ),
  ),
)

-- A request is accepted exactly if the container's name is in the language of its expression, the
-- number of lines is -1 or 0 to 1,000,000, and each time is unset or in the language of its own.
pub validate_params-IsValid : (p : Params) → (validate_params p ≡ none) ↔ IsValid p
validate_params-IsValid p = (accepted p, accepts p)
