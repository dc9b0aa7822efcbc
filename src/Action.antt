-- ===== src/Action.antt =====
-- Go methods that read and write a shared state and may return an error: what was written before
-- the error stays written. The errors are those of internal/domain/errors.go.
pub mod Keeps
use dijex_api.Prelude.{
  ◌≡◌, refl, ◌⊎◌, inl, inr, Bool, true, false, List, [], ◌∷◌, ◌++◌, Option, none, some,
}
use dijex_api.Text.{Bytes, codes, is_empty}

-- `domain.ValidationError`
pub record FieldError : Type 0 where
  pub field : Bytes
  pub message : Bytes

-- The errors that the callers tell apart, and any other with its message.
pub data Failure : Type 0 where
  validation : List FieldError → Failure
  not_found already_exists : Failure
  -- a panic, which is no error but ends the method too
  panicked : Failure
  internal : Bytes → Failure

-- `fmt.Errorf("prefix: %w", err)`: `errors.Is` and `errors.As` still find the error within.
abbrev pub wrap : Bytes → Failure → Failure
wrap prefix (validation es) = validation es
wrap prefix not_found = not_found
wrap prefix already_exists = already_exists
wrap prefix panicked = panicked
wrap prefix (internal message) = internal (prefix ++ message)

pub data Reply {ℓ} (A : Type ℓ) : Type ℓ where
  failed : Failure → Reply A
  done : A → Reply A

pub Reply-cases {ℓ} :
    {A : Type ℓ} (r : Reply A) → ((e : Failure) × (r ≡ failed e)) ⊎ ((a : A) × (r ≡ done a))
Reply-cases (failed e) = inl (e, refl)
Reply-cases (done a) = inr (a, refl)

abbrev pub add_prefix {ℓ} : {A : Type ℓ} → Bytes → Reply A → Reply A
add_prefix prefix (failed e) = failed (wrap prefix e)
add_prefix prefix (done a) = done a

abbrev pub Action {ℓ} : Type ℓ → Type ℓ → Type ℓ
Action W A = W → W × Reply A

module _ {ℓ} {W A : Type ℓ} where
  unfoldable pub pure : A → Action W A
  pure a w = (w, done a)

  unfoldable pub raise : Failure → Action W A
  raise e w = (w, failed e)

  unfoldable pub lift : Reply A → Action W A
  lift r w = (w, r)

  unfoldable pub gets : (W → A) → Action W A
  gets f w = (w, done (f w))

  -- The row that a query found.
  unfoldable pub require : Option A → Action W A
  unfolding pure raise
  require none = raise not_found
  require (some a) = pure a

  -- `return ..., fmt.Errorf("prefix: %w", err)` behind a call.
  unfoldable pub prefixed : Bytes → Action W A → Action W A
  prefixed prefix m w = let (w', r) = m w in (w', add_prefix prefix r)

unfoldable pub modify {ℓ} : {W : Type ℓ} → (W → W) → Action W (Unit {ℓ})
modify f w = (f w, done tt)

abbrev pub is_done {ℓ} : {A : Type ℓ} → Reply A → Bool
is_done (failed e) = false
is_done (done a) = true

-- A call whose error is only logged: whether it went well.
unfoldable pub attempt : {W A : Type 0} → Action W A → Action W Bool
attempt m w = let (w', r) = m w in (w', done (is_done r))

-- `if len(errs) > 0 { return nil, errs }`
unfoldable pub check : {W : Type 0} → List FieldError → Action W (Unit {0})
unfolding pure raise
check [] = pure tt
check (e ∷ es) = raise (validation (e ∷ es))

module _ {ℓ} {W A B : Type ℓ} where
  abbrev continue : Reply A → (A → Action W B) → Action W B
  continue (failed e) f w = (w, failed e)
  continue (done a) f w = f a w

  infixl 5 ◌>>=◌ ◌>>◌
  -- opening this opens the other ways to build an action too
  unfoldable pub ◌>>=◌ : Action W A → (A → Action W B) → Action W B
  unfolding pure raise lift gets require prefixed modify attempt check
  ◌>>=◌ m f w = let (w', r) = m w in continue r f w'

  abbrev pub ◌>>◌ : Action W A → Action W B → Action W B
  m >> n = m >>= λ _. n
