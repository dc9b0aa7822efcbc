-- ===== src/Shell/Words.antt =====
-- How a POSIX shell cuts a simple command into words, for commands made of plain characters,
-- blanks, backslashes and single quotes. A text that holds anything else outside quotes (an
-- operator, an expansion, a comment, a newline), or that ends inside a quote, is no such command.
use Prim.Native.Nat.{ℕ}
use dijex_api.Prelude.{
  Bool, ◌&&◌, ◌||◌, List, [], ◌∷◌, ◌++◌, Option, none, some, leb, ◌==◌, if◌then◌else◌,
}
use dijex_api.Text.{Bytes}

pub data Kind : Type 0 where
  blank quote backslash plain special : Kind

abbrev pub is_plain : ℕ → Bool
is_plain c =
    (leb b'a' c && leb c b'z')
    || (leb b'A' c && leb c b'Z')
    || (leb b'0' c && leb c b'9')
    || (c == b'-' || c == b'_' || c == b'.' || c == b'/' || c == b':')

unfoldable pub kind : ℕ → Kind
kind c =
    if is_plain c
    then plain
    else if c == 32 || c == 9
    then blank
    else if c == b'\''
    then quote
    else if c == b'\\'
    then backslash
    else special

-- Between words, in a word, between single quotes, behind a backslash.
pub data Mode : Type 0 where
  gap bare quoted escaped : Mode

pub data Action : Type 0 where
  reject finish : Action
  enter put : Mode → Action

abbrev pub act : Mode → Kind → Action
act quoted quote = enter bare
act quoted _ = put quoted
act escaped _ = put bare
act gap blank = enter gap
act gap quote = enter quoted
act gap backslash = enter escaped
act gap plain = put bare
act gap special = reject
act bare blank = finish
act bare quote = enter quoted
act bare backslash = enter escaped
act bare plain = put bare
act bare special = reject

-- `cur` is the word at hand, `done` the words before it.
unfoldable pub scan : Mode → Bytes → List Bytes → Bytes → Option (List Bytes)
scan gap cur done [] = some done
scan bare cur done [] = some (done ++ cur ∷ [])
scan quoted cur done [] = none
scan escaped cur done [] = none
scan mode cur done (c ∷ s) = elim (act mode (kind c)) [
  | reject ↦ none
  | finish ↦ scan gap [] (done ++ cur ∷ []) s
  | enter m ↦ scan m cur done s
  | put m ↦ scan m (cur ++ c ∷ []) done s
]

unfoldable pub words : Bytes → Option (List Bytes)
unfolding scan kind
words s = scan gap [] [] s
