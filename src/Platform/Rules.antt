-- ===== src/Platform/Rules.antt =====
-- The checks on texts that `validateRegistryFields` and `validateServerFields` share: the problems
-- of one field each.
use dijex_api.Prelude.{ℕ, Bool, ◌||◌, not, List, [], ◌∷◌, ltb, if◌then◌else◌}
use dijex_api.Text.{Bytes, codes, is_empty, rune_count}
use dijex_api.Action.{FieldError}

abbrev pub problem : Bytes → Bytes → FieldError
problem field message = record { field = field; message = message }

-- The problem, unless the test is passed.
abbrev pub unless : Bool → Bytes → Bytes → List FieldError
unless passed field message = if passed then [] else problem field message ∷ []

-- `name`: 2 to 100 characters.
unfoldable pub name_problems : Bytes → List FieldError
unfolding rune_count
name_problems name =
    if is_empty name
    then problem (codes "name") (codes "is required") ∷ []
    else unless (not (ltb (rune_count name) 2 || ltb 100 (rune_count name))) (codes "name")
        (codes "must be between 2 and 100 characters")

-- A field that has to be there.
unfoldable pub required_problems : Bytes → ℕ → Bytes → Bytes → List FieldError
unfolding rune_count
required_problems field limit message text =
    if is_empty text
    then problem field (codes "is required") ∷ []
    else unless (not (ltb limit (rune_count text))) field message

-- A field that may be empty.
unfoldable pub optional_problems : Bytes → ℕ → Bytes → Bytes → List FieldError
unfolding rune_count
optional_problems field limit message text =
    unless (is_empty text || not (ltb limit (rune_count text))) field message
