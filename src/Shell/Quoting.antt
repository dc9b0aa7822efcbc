-- ===== src/Shell/Quoting.antt =====
-- What the shell reads back from quoted and from plain words.
use dijex_api.Prelude.{
  ℕ, ◌≡◌, ◌≢◌, refl, sym, ==_iff, ◌∙◌, ap, true, false, List, [], ◌∷◌, ◌++◌, append-nil,
  append_assoc, some, arith, All, ◌==◌, Bool-cases, inl, inr,
}
use dijex_api.Text.{Bytes, join}
use dijex_api.Shell.{escape_quotes, shell_quote, apostrophe, quote_all}
use dijex_api.Shell.Words.{is_plain, kind, scan, gap, bare, quoted, words, plain}

-- From between words the shell reads `text` as the beginning of a word, with this value so far.
abbrev pub IsWord : Bytes → Bytes → Type 0
IsWord text value =
    (done : List Bytes) (rest : Bytes) → scan gap [] done (text ++ rest) ≡ scan bare value done rest

quoted_step :
    (c : ℕ) (s cur : Bytes) (done : List Bytes)
    → (c == b'\'') ≡ false
    → scan quoted cur done (c ∷ s) ≡ scan quoted (cur ++ c ∷ []) done s
unfolding scan kind
quoted_step c s cur done h = ground arith

escaped_quote :
    (s cur : Bytes) (done : List Bytes)
    → scan quoted cur done (b'\'' ∷ b'\\' ∷ b'\'' ∷ b'\'' ∷ s)
      ≡ scan quoted (cur ++ b'\'' ∷ []) done s
unfolding scan kind
escaped_quote s cur done = refl

kind_of_plain : (c : ℕ) → is_plain c ≡ true → kind c ≡ plain
unfolding kind
kind_of_plain c h = rw h

bare_step :
    (c : ℕ) (s cur : Bytes) (done : List Bytes)
    → is_plain c ≡ true
    → scan bare cur done (c ∷ s) ≡ scan bare (cur ++ c ∷ []) done s
unfolding scan
bare_step c s cur done h = rw (kind_of_plain c h, scan)

gap_step :
    (c : ℕ) (s : Bytes) (done : List Bytes)
    → is_plain c ≡ true
    → scan gap [] done (c ∷ s) ≡ scan bare (c ∷ []) done s
unfolding scan
gap_step c s done h = rw (kind_of_plain c h, scan)

blank_step :
    (s cur : Bytes) (done : List Bytes)
    → scan bare cur done (32 ∷ s) ≡ scan gap [] (done ++ cur ∷ []) s
unfolding scan kind
blank_step s cur done = refl

scan-escape_quotes :
    (s cur : Bytes) (done : List Bytes) (rest : Bytes)
    → scan quoted cur done (escape_quotes s ++ (apostrophe ++ rest))
      ≡ scan bare (cur ++ s) done rest
unfolding escape_quotes
scan-escape_quotes [] cur done rest = rw append-nil (unfold scan kind in refl)
scan-escape_quotes (c ∷ s) cur done rest = elim (Bool-cases (c == b'\'')) [
  | inl e ↦
      let q = (==_iff c b'\'').0 e in
      rw (e, escaped_quote, q)
        (scan-escape_quotes s (cur ++ b'\'' ∷ []) done rest
          ∙ ap (λ w. scan bare w done rest) (append_assoc cur (b'\'' ∷ []) s))
  | inr e ↦
      rw (e, quoted_step c _ cur done e)
        (scan-escape_quotes s (cur ++ c ∷ []) done rest
          ∙ ap (λ w. scan bare w done rest) (append_assoc cur (c ∷ []) s))
]

-- Whatever the text holds, the shell reads its quoted form as one word with that value.
pub shell_quote-IsWord : (s : Bytes) → IsWord (shell_quote s) s
unfolding shell_quote scan kind
shell_quote-IsWord s done rest =
    ap (scan quoted [] done) (append_assoc (escape_quotes s) apostrophe rest)
    ∙ scan-escape_quotes s [] done rest

-- A text of plain characters only, and not empty, is a word as it stands.
abbrev pub IsPlain : Bytes → Type 0
IsPlain s = (s ≢ []) × All (λ c. is_plain c ≡ true) s

scan-plain :
    (s cur : Bytes) (done : List Bytes) (rest : Bytes)
    → All (λ c. is_plain c ≡ true) s
    → scan bare cur done (s ++ rest) ≡ scan bare (cur ++ s) done rest
scan-plain [] cur done rest h = rw append-nil
scan-plain (c ∷ s) cur done rest (p, h) =
    bare_step c (s ++ rest) cur done p
    ∙ (scan-plain s (cur ++ c ∷ []) done rest h
        ∙ ap (λ w. scan bare w done rest) (append_assoc cur (c ∷ []) s))

pub plain-IsWord : (s : Bytes) → IsPlain s → IsWord s s
plain-IsWord [] h done rest = absurd (h.0 refl)
plain-IsWord (c ∷ s) (_, (p, h)) done rest =
    gap_step c (s ++ rest) done p ∙ scan-plain s (c ∷ []) done rest h

-- The texts spell the values, one word each.
abbrev pub AreWords : List Bytes → List Bytes → Type 0
AreWords [] [] = Unit
AreWords [] (v ∷ vs) = ⊥
AreWords (t ∷ ts) [] = ⊥
AreWords (t ∷ ts) (v ∷ vs) = IsWord t v × AreWords ts vs

pub AreWords-append :
    (ts ts' vs vs' : List Bytes)
    → AreWords ts vs
    → AreWords ts' vs'
    → AreWords (ts ++ ts') (vs ++ vs')
AreWords-append [] ts' [] vs' h k = k
AreWords-append [] ts' (v ∷ vs) vs' h k = absurd h
AreWords-append (t ∷ ts) ts' [] vs' h k = absurd h
AreWords-append (t ∷ ts) ts' (v ∷ vs) vs' (p, h) k = (p, AreWords-append ts ts' vs vs' h k)

pub quote_all-AreWords : (items : List Bytes) → AreWords (quote_all items) items
unfolding quote_all
quote_all-AreWords [] = tt
quote_all-AreWords (s ∷ items) = (shell_quote-IsWord s, quote_all-AreWords items)

abbrev pub blank_text : Bytes
blank_text = 32 ∷ []

pub scan-join :
    (ts vs : List Bytes) (done : List Bytes)
    → AreWords ts vs
    → scan gap [] done (join blank_text ts) ≡ some (done ++ vs)
unfolding join
scan-join [] [] done h = rw append-nil (unfold scan in refl)
scan-join [] (v ∷ vs) done h = absurd h
scan-join (t ∷ ts) [] done h = absurd h
scan-join (t ∷ []) (v ∷ []) done (p, h) =
    ap (scan gap [] done) (sym (append-nil t)) ∙ (p done [] ∙ (unfold scan in refl))
scan-join (t ∷ []) (v ∷ w ∷ vs) done (p, h) = absurd h
scan-join (t ∷ u ∷ ts) (v ∷ []) done (p, h) = absurd h
scan-join (t ∷ u ∷ ts) (v ∷ w ∷ vs) done (p, h) =
    p done (blank_text ++ join blank_text (u ∷ ts))
    ∙ blank_step (join blank_text (u ∷ ts)) v done
    ∙ (scan-join (u ∷ ts) (w ∷ vs) (done ++ v ∷ []) h
        ∙ ap some (append_assoc done (v ∷ []) (w ∷ vs)))

-- The shell cuts texts that are joined by blanks into the values that they spell.
pub words-join : (ts vs : List Bytes) → AreWords ts vs → words (join blank_text ts) ≡ some vs
unfolding words
words-join ts vs h = scan-join ts vs [] h

-- Quoting items, joining them by blanks and reading the line as a shell does gives the items back,
-- whatever bytes they hold.
pub words-quote_all : (items : List Bytes) → words (join blank_text (quote_all items)) ≡ some items
words-quote_all items = words-join (quote_all items) items (quote_all-AreWords items)
