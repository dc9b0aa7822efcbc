-- ===== src/Services/Deleted.antt =====
-- Deleted rows: no call finds, changes or revives one.
use dijex_api.Prelude.{
  ◌≡◌, refl, sym, ap, ◌∙◌, ℕ, Bool, true, false, not, ◌&&◌, List, [], ◌∷◌, some,
}
use mathlib.Core.List.{Memᴰ}
use mathlib.Core.List.Memᴰ
use dijex_api.Text.{Bytes, bytes_eq}
use dijex_api.Platform.{World, Platform}
use dijex_api.Platform.Rows.{update_where}
use dijex_api.Registry.Types.{Registry}
use dijex_api.Registry.Rows as R
use dijex_api.Registry.Connection.{RegistryConnector}
use dijex_api.Server.Types.{Server}
use dijex_api.Server.Rows as V
use dijex_api.Server.Connector.{Connector}
use dijex_api.Services.{Call}
use dijex_api.Services.Steps.{
  Tables, tables, Step, add_registry, clear_default, clear_other_default, replace_registry,
  delete_registry, note_registry, add_server, replace_server, delete_server, note_server,
  facts_of_server, key_of_server, Reach, here, next,
}
use dijex_api.Services.Every.{perform_all, perform_all-Reach}

-- An UPDATE that does not match a row leaves it.
Mem-update_where :
    {A : Type 0} (q : A → Bool) (f : A → A) (x : A) (xs : List A)
    → q x ≡ false
    → Memᴰ x xs
    → Memᴰ x (update_where q f xs)
unfolding update_where
Mem-update_where q f x [] e m = absurd (Memᴰ.not-nil m)
Mem-update_where q f x (y ∷ ys) e (Memᴰ.tail m) = Memᴰ.tail (Mem-update_where q f x ys e m)
Mem-update_where q f x (y ∷ ys) e (Memᴰ.head h) =
    let k : q y ≡ false = sym (ap q h) ∙ e in Memᴰ.head (rw k h)

pub and_false : (b : Bool) → (b && false) ≡ false
and_false true = refl
and_false false = refl

module _ (r : Registry) (d : ℕ) (dead : r.deleted_at ≡ some d) where
  unmatched : (id : Bytes) → R.is_row id r ≡ false
  unmatched id = rw dead (and_false (bytes_eq r.id id))

  unchosen : R.is_chosen r ≡ false
  unchosen = rw dead (and_false r.is_default)

  Step-registry : {t u : Tables} → Step t u → Memᴰ r t.registries → Memᴰ r u.registries
  unfolding R.clear_default R.clear_other_default
  Step-registry (add_registry r' e) m = Memᴰ.tail m
  Step-registry (clear_default now) m = Mem-update_where R.is_chosen _ r _ unchosen m
  Step-registry (clear_other_default now id) m =
      Mem-update_where (λ x. R.is_chosen x && not (bytes_eq x.id id)) _ r _ (rw unchosen refl) m
  Step-registry (replace_registry now r' old f e) m =
      Mem-update_where (R.is_row r'.id) _ r _ (unmatched r'.id) m
  Step-registry (delete_registry now id) m = Mem-update_where (R.is_row id) _ r _ (unmatched id) m
  Step-registry (note_registry now id status err at active) m =
      Mem-update_where (R.is_row id) _ r _ (unmatched id) m
  Step-registry (add_server s e) m = m
  Step-registry (replace_server now s old f e) m = m
  Step-registry (delete_server now id) m = m
  Step-registry (note_server now id status err at active) m = m
  Step-registry (facts_of_server now id f) m = m
  Step-registry (key_of_server now id) m = m

  Reach-registry : {t u : Tables} → Reach t u → Memᴰ r t.registries → Memᴰ r u.registries
  Reach-registry here m = m
  Reach-registry (next p s) m = Step-registry s (Reach-registry p m)

module _ (s : Server) (d : ℕ) (dead : s.deleted_at ≡ some d) where
  unmatched_server : (id : Bytes) → V.is_row id s ≡ false
  unmatched_server id = rw dead (and_false (bytes_eq s.id id))

  Step-server : {t u : Tables} → Step t u → Memᴰ s t.servers → Memᴰ s u.servers
  Step-server (add_registry r e) m = m
  Step-server (clear_default now) m = m
  Step-server (clear_other_default now id) m = m
  Step-server (replace_registry now r old f e) m = m
  Step-server (delete_registry now id) m = m
  Step-server (note_registry now id status err at active) m = m
  Step-server (add_server s' e) m = Memᴰ.tail m
  Step-server (replace_server now s' old f e) m =
      Mem-update_where (V.is_row s'.id) _ s _ (unmatched_server s'.id) m
  Step-server (delete_server now id) m =
      Mem-update_where (V.is_row id) _ s _ (unmatched_server id) m
  Step-server (note_server now id status err at active) m =
      Mem-update_where (V.is_row id) _ s _ (unmatched_server id) m
  Step-server (facts_of_server now id f) m =
      Mem-update_where (V.is_row id) _ s _ (unmatched_server id) m
  Step-server (key_of_server now id) m =
      Mem-update_where (V.is_row id) _ s _ (unmatched_server id) m

  Reach-server : {t u : Tables} → Reach t u → Memᴰ s t.servers → Memᴰ s u.servers
  Reach-server here m = m
  Reach-server (next p q) m = Step-server q (Reach-server p m)

-- A registry and a server that are deleted stay in the tables as they are, with the instant of the
-- deletion, whatever sequence of calls the services take.
pub perform_all-keeps_deleted :
    {S : Type 0} (p : Platform S) (rc : RegistryConnector S) (c : Connector S)
    (calls : List (Call S)) (w : World S) (r : Registry) (s : Server) (d e : ℕ)
    → r.deleted_at ≡ some d
    → s.deleted_at ≡ some e
    → Memᴰ r w.registries
    → Memᴰ s w.servers
    → Memᴰ r (perform_all p rc c calls w).registries × Memᴰ s (perform_all p rc c calls w).servers
perform_all-keeps_deleted p rc c calls w r s d e dead gone m n =
    let path = perform_all-Reach p rc c (tables w) calls w here in
    (Reach-registry r d dead path m, Reach-server s e gone path n)
