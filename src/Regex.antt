-- ===== src/Regex.antt =====
-- The regular expressions of the validators, and a matcher for them: what `regexp.MatchString`
-- answers for an expression that is anchored at both ends.
pub mod Language
pub mod Correct
pub mod Classes
use dijex_api.Prelude.{
  ℕ, zero, suc, Bool, true, false, ◌&&◌, ◌||◌, List, [], ◌∷◌, if◌then◌else◌, ◌==◌,
}
use dijex_api.Text.{Bytes}

-- `eps` is the empty text, `chr p` one byte of a class, `upto n r` is `r{0,n}`.
pub data Regex : Type 0 where
  fail eps : Regex
  chr : (ℕ → Bool) → Regex
  seq alt : Regex → Regex → Regex
  star : Regex → Regex
  upto : ℕ → Regex → Regex

pub nullable : Regex → Bool
nullable fail = false
nullable eps = true
nullable (chr p) = false
nullable (seq r q) = nullable r && nullable q
nullable (alt r q) = nullable r || nullable q
nullable (star r) = true
nullable (upto n r) = true

-- What is left to match behind the byte `c`.
pub deriv : ℕ → Regex → Regex
deriv c fail = fail
deriv c eps = fail
deriv c (chr p) = if p c then eps else fail
deriv c (seq r q) = if nullable r then alt (seq (deriv c r) q) (deriv c q) else seq (deriv c r) q
deriv c (alt r q) = alt (deriv c r) (deriv c q)
deriv c (star r) = seq (deriv c r) (star r)
deriv c (upto zero r) = fail
deriv c (upto (suc n) r) = seq (deriv c r) (upto n r)

unfoldable pub matches : Regex → Bytes → Bool
unfolding nullable deriv
matches r [] = nullable r
matches r (c ∷ s) = matches (deriv c r) s

-- `r?`, `r+` and a literal.
abbrev pub opt : Regex → Regex
opt r = upto 1 r

abbrev pub plus : Regex → Regex
plus r = seq r (star r)

abbrev pub byte : ℕ → Regex
byte c = chr (λ d. d == c)
