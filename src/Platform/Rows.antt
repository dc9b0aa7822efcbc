-- ===== src/Platform/Rows.antt =====
-- Statements over the rows of a table: the live rows, the row of an id, and UPDATE.
use dijex_api.Prelude.{
  Bool, true, false, ◌||◌, List, [], ◌∷◌, ◌++◌, Option, none, some, if◌then◌else◌,
}
use dijex_api.Text.{Bytes, bytes_eq}

module _ {A : Type 0} where
  -- `SELECT ... WHERE p`: its rows
  unfoldable pub rows_where : (A → Bool) → List A → List A
  rows_where p [] = []
  rows_where p (x ∷ xs) = let rest = rows_where p xs in if p x then x ∷ rest else rest

  -- `UPDATE ... SET f WHERE p`
  unfoldable pub update_where : (A → Bool) → (A → A) → List A → List A
  update_where p f [] = []
  update_where p f (x ∷ xs) = (if p x then f x else x) ∷ update_where p f xs

  -- Whether some row is so.
  unfoldable pub has_row : (A → Bool) → List A → Bool
  has_row p [] = false
  has_row p (x ∷ xs) = p x || has_row p xs

-- A filter that is set or not: `column = value` where the value is there.
abbrev pub text_is : Bytes → Bytes → Bool
text_is [] column = true
text_is (c ∷ s) column = bytes_eq column (c ∷ s)

abbrev pub flag_is : Option Bool → Bool → Bool
flag_is none column = true
flag_is (some true) column = column
flag_is (some false) true = false
flag_is (some false) false = true

-- `column ILIKE '%search%'` where there is a text to search for.
abbrev pub text_has : (Bytes → Bytes → Bool) → Bytes → Bytes → Bool
text_has ilike [] column = true
text_has ilike (c ∷ s) column = ilike column (b'%' ∷ ((c ∷ s) ++ (b'%' ∷ [])))

-- `COALESCE($5, is_active)`
abbrev pub coalesce : Option Bool → Bool → Bool
coalesce none old = old
coalesce (some new) old = new
