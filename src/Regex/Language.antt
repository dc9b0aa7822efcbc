-- ===== src/Regex/Language.antt =====
-- The texts that a regular expression stands for, described without the matcher.
use dijex_api.Prelude.{ℕ, zero, suc, ◌≡◌, true, List, [], ◌∷◌, ◌++◌, ◌⊎◌}
use dijex_api.Text.{Bytes}
use dijex_api.Regex.{Regex, fail, eps, chr, seq, alt, star, upto}

-- A text cut in two parts, each with its property.
pub record Cut (P Q : Bytes → Type 0) (s : Bytes) : Type 0 where
  pub front : Bytes
  pub back : Bytes
  pub whole : s ≡ front ++ back
  pub front_fits : P front
  pub back_fits : Q back

-- Any number of parts.
pub data Many (P : Bytes → Type 0) : Bytes → Type 0 where
  stop : {s : Bytes} → s ≡ [] → Many P s
  more : {s : Bytes} (front back : Bytes) → s ≡ front ++ back → P front → Many P back → Many P s

-- At most `n` parts.
abbrev pub AtMost : ℕ → (Bytes → Type 0) → Bytes → Type 0
AtMost zero P s = s ≡ []
AtMost (suc n) P s = (s ≡ []) ⊎ Cut P (AtMost n P) s

pub record OneOf (p : ℕ → dijex_api.Prelude.Bool) (s : Bytes) : Type 0 where
  pub char : ℕ
  pub single : s ≡ char ∷ []
  pub in_class : p char ≡ true

abbrev pub Language : Regex → Bytes → Type 0
Language fail s = ⊥
Language eps s = s ≡ []
Language (chr p) s = OneOf p s
Language (seq r q) s = Cut (Language r) (Language q) s
Language (alt r q) s = Language r s ⊎ Language q s
Language (star r) s = Many (Language r) s
Language (upto n r) s = AtMost n (Language r) s
