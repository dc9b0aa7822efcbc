-- ===== src/Services/Removed.antt =====
-- What a deletion that succeeds leaves.
use dijex_api.Prelude.{◌≡◌, refl, ℕ, Bool, false, List, [], ◌∷◌, none, Bool-cases, inl, inr}
use dijex_api.Text.{Bytes, bytes_eq}
use dijex_api.Action.{Action, done, Reply-cases, pure, ◌>>=◌}
use dijex_api.Action.Keeps.{Keeps, Keeps-pure}
use dijex_api.Auth.Tables.{first}
use dijex_api.Platform.{World, Platform}
use dijex_api.Platform.Rows.{update_where}
use dijex_api.Registry.Types.{DeleteRegistryOutput}
use dijex_api.Registry.Rows as R
use dijex_api.Registry.Table as RT
use dijex_api.Registry.Service.{delete_registry}
use dijex_api.Server.Forms.{DeleteServerOutput}
use dijex_api.Server.Rows as V
use dijex_api.Server.Table as VT
use dijex_api.Server.Service.{delete_server}
use dijex_api.Services.Deleted.{and_false}

-- What is true whenever the action succeeds.
abbrev Leaves : {W A : Type 0} → (W → Type 0) → Action W A → Type 0
Leaves {W} {A} Q m = (w : W) (a : A) → (m w).1 ≡ done a → Q (m w).0

module _ {W A B : Type 0} (Q : W → Type 0) (m : Action W A) (f : A → Action W B) where
  Leaves-last : ((a : A) → Leaves Q (f a)) → Leaves Q (m >>= f)
  unfolding ◌>>=◌
  Leaves-last k w b h = elim (Reply-cases (m w).1) [
    | inl (e, q) ↦ absurd (let l = rw q at h in cc)
    | inr (a, q) ↦ rw q (k a (m w).0 b (rw q at h))
  ]

  Leaves-first : Leaves Q m → ((a : A) → Keeps Q (f a)) → Leaves Q (m >>= f)
  unfolding ◌>>=◌
  Leaves-first l k w b h = elim (Reply-cases (m w).1) [
    | inl (e, q) ↦ absurd (let l = rw q at h in cc)
    | inr (a, q) ↦ rw q ((k a).at (m w).0 (l w a q))
  ]

first-update_where :
    {A : Type 0} (q : A → Bool) (f : A → A) (xs : List A)
    → ((x : A) → q (f x) ≡ false)
    → first q (update_where q f xs) ≡ none
unfolding first update_where
first-update_where q f [] g = refl
first-update_where q f (x ∷ xs) g = elim (Bool-cases (q x)) [
  | inl e ↦ rw (e, g x) (first-update_where q f xs g)
  | inr e ↦ rw (e, e) (first-update_where q f xs g)
]

module _ {S : Type 0} (p : Platform S) (id : Bytes) where
  abbrev NoRegistry : World S → Type 0
  NoRegistry w = first (R.is_row id) w.registries ≡ none

  abbrev NoServer : World S → Type 0
  NoServer w = first (V.is_row id) w.servers ≡ none

  Leaves-deletion :
      (now : ℕ)
      → Leaves NoRegistry
          (RT.set_rows p (update_where (R.is_row id) (R.deleted now)) >>= λ _. pure now)
  unfolding ◌>>=◌ R.deleted
  Leaves-deletion now w a h =
      first-update_where (R.is_row id) (R.deleted now) w.registries
        (λ x. and_false (bytes_eq x.id id))

  Leaves-server_deletion :
      (now : ℕ)
      → Leaves NoServer
          (VT.set_rows p (update_where (V.is_row id) (V.deleted now)) >>= λ _. pure now)
  unfolding ◌>>=◌ V.deleted
  Leaves-server_deletion now w a h =
      first-update_where (V.is_row id) (V.deleted now) w.servers (λ x. and_false (bytes_eq x.id id))

  soft_delete-NoRegistry : Leaves NoRegistry (RT.soft_delete p id)
  unfolding RT.soft_delete
  soft_delete-NoRegistry = Leaves-last NoRegistry _ _ (λ _.
      Leaves-last NoRegistry _ _ (λ now. Leaves-last NoRegistry _ _ (λ _. Leaves-deletion now)))

  soft_delete-NoServer : Leaves NoServer (VT.soft_delete p id)
  unfolding VT.soft_delete
  soft_delete-NoServer = Leaves-last NoServer _ _ (λ _.
      Leaves-last NoServer _ _ (λ now. Leaves-last NoServer _ _ (λ _. Leaves-server_deletion now)))

  -- A registry that `DeleteRegistry` deletes with success is found under its id no more.
  pub delete_registry-gone :
      (w : World S) (out : DeleteRegistryOutput)
      → (delete_registry p id w).1 ≡ done out
      → first (R.is_row id) (delete_registry p id w).0.registries ≡ none
  unfolding delete_registry
  delete_registry-gone =
      Leaves-last NoRegistry _ _
        (λ _. Leaves-first NoRegistry _ _ soft_delete-NoRegistry (λ at. Keeps-pure _))

  -- A server that `DeleteServer` deletes with success is found under its id no more.
  pub delete_server-gone :
      (w : World S) (out : DeleteServerOutput)
      → (delete_server p id w).1 ≡ done out
      → first (V.is_row id) (delete_server p id w).0.servers ≡ none
  unfolding delete_server
  delete_server-gone =
      Leaves-last NoServer _ _
        (λ _. Leaves-first NoServer _ _ soft_delete-NoServer (λ at. Keeps-pure _))
