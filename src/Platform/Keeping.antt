-- ===== src/Platform/Keeping.antt =====
-- Invariants of the tables: what the state outside of them is does not matter to these.
use dijex_api.Prelude.{◌≡◌, Bool, true, false, List, Option, none, some, ℕ, Bool-cases, inl, inr}
use dijex_api.Prelude.Int.{ℤ, pos, negsuc}
use dijex_api.Text.{Bytes}
use dijex_api.Action.{Action, Reply, failed, done, gets, modify, ◌>>=◌, ◌>>◌}
use dijex_api.Action.Keeps.{Keeps, Keeps-pure, Keeps-raise, Keeps-bind, Keeps-if, keeps_rules}
use dijex_api.Crypto.Cipher.{Result, error, ok}
use dijex_api.Platform.{
  World, Platform, invalid, require_id, unless_clash, page_of, from_env, fits, refused, roll_back,
  transaction, query, encrypt_text, decrypt_stored,
}

-- A predicate on the tables alone.
abbrev pub OfTables : {S : Type 0} → (World S → Type 0) → Type 0
OfTables {S} P = (w : World S) (s : S) → P w → P (record w { env = s })

module _ {S : Type 0} {P : World S → Type 0} where
  pub Keeps-fits : (what : Bytes) (e : Option Bytes) → Keeps P (fits what e)
  unfolding fits
  Keeps-fits what none = record { at = λ w h. h }
  Keeps-fits what (some e) = record { at = λ w h. h }

  pub Keeps-unless_clash : (b : Bool) → Keeps P (unless_clash b)
  unfolding unless_clash
  Keeps-unless_clash true = record { at = λ w h. h }
  Keeps-unless_clash false = record { at = λ w h. h }

  -- A write behind a test that it needs.
  pub Keeps-checked :
      (test : World S → Bool) (f : World S → World S)
      → ((w : World S) → P w → test w ≡ false → P (f w))
      → Keeps P (gets test >>= λ clash. unless_clash clash >> modify f)
  unfolding ◌>>=◌ unless_clash
  Keeps-checked test f h = record {
    at = λ w pw. elim (Bool-cases (test w)) [ inl e ↦ rw e pw | inr e ↦ rw e (h w pw e) ];
  }

module _ {S A : Type 0} {P : World S → Type 0} where
  pub Keeps-page_of :
      (what : Bytes) (limit : ℕ) (offset : ℤ) (rows : List A)
      → Keeps P (page_of what limit offset rows)
  unfolding page_of
  Keeps-page_of what limit (pos n) rows = record { at = λ w h. h }
  Keeps-page_of what limit (negsuc n) rows = record { at = λ w h. h }

  pub Keeps-refused : (what : Bytes) (r : Result A) → Keeps P (refused what r)
  unfolding refused
  Keeps-refused what (error e) = record { at = λ w h. h }
  Keeps-refused what (ok a) = record { at = λ w h. h }

  pub Keeps-invalid : (field message : Bytes) → Keeps P (invalid {A = A} field message)
  unfolding invalid
  Keeps-invalid field message = record { at = λ w h. h }

  pub Keeps-from_env : (f : S → S × A) → OfTables P → Keeps P (from_env f)
  unfolding from_env
  Keeps-from_env f e = record { at = λ w h. e w (f w.env).0 h }

  Keeps-roll_back :
      (before : World S) (w : World S) (r : Reply A)
      → OfTables P
      → P before
      → P w
      → P (roll_back before w r).0
  Keeps-roll_back before w (failed e) t hb hw = t before w.env hb
  Keeps-roll_back before w (done a) t hb hw = hw

  pub Keeps-transaction :
      (m : Action (World S) A) → OfTables P → Keeps P m → Keeps P (transaction m)
  unfolding transaction
  Keeps-transaction m t k = record { at = λ w h. Keeps-roll_back w (m w).0 (m w).1 t h (k.at w h) }

module _ {S : Type 0} {P : World S → Type 0} where
  pub Keeps-require_id : (field id : Bytes) → Keeps P (require_id field id)
  unfolding require_id
  Keeps-require_id field id = search keeps_rules

module _ {S : Type 0} {P : World S → Type 0} (p : Platform S) (t : OfTables P) where
  pub Keeps-query : (what : Bytes) → Keeps P (query p what)
  unfolding query
  Keeps-query what = Keeps-bind _ _ (Keeps-from_env p.serve t) (Keeps-fits what)

  pub Keeps-encrypt_text : (plaintext : Bytes) → Keeps P (encrypt_text p plaintext)
  unfolding encrypt_text
  Keeps-encrypt_text plaintext = search (keeps_rules, Keeps-from_env, Keeps-refused)

  pub Keeps-decrypt_stored : (stored : Bytes) → Keeps P (decrypt_stored p stored)
  unfolding decrypt_stored
  Keeps-decrypt_stored stored = search (keeps_rules, Keeps-refused)

pub ruleset table_rules = (
  keeps_rules, Keeps-fits, Keeps-unless_clash, Keeps-require_id, Keeps-page_of, Keeps-refused,
  Keeps-invalid, Keeps-from_env, Keeps-transaction, Keeps-query, Keeps-encrypt_text,
  Keeps-decrypt_stored,
)
