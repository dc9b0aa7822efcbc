-- ===== src/Shell.antt =====
-- Quoting for a POSIX shell: `shellQuote` and `quoteAll`, which internal/remotedeploy,
-- internal/remotepurge and internal/remotelogs each declare with the same text.
pub mod Words
pub mod Quoting
pub mod Literals
use dijex_api.Prelude.{List, [], ◌∷◌, ◌++◌, map, ◌==◌, if◌then◌else◌}
use dijex_api.Text.{Bytes}

abbrev pub apostrophe : Bytes
apostrophe = b'\'' ∷ []

-- `strings.ReplaceAll(s, "'", `'\''`)`
escape_quotes : Bytes → Bytes
escape_quotes [] = []
escape_quotes (c ∷ s) =
    if c == b'\'' then b'\'' ∷ b'\\' ∷ b'\'' ∷ b'\'' ∷ escape_quotes s else c ∷ escape_quotes s

unfoldable pub shell_quote : Bytes → Bytes
unfolding escape_quotes
shell_quote s = b'\'' ∷ (escape_quotes s ++ apostrophe)

unfoldable pub quote_all : List Bytes → List Bytes
quote_all items = map shell_quote items
