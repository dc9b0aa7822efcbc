-- ===== src/Services/Steps.antt =====
-- What the database allows the services to do with the rows, one step for each statement that changes
-- them, and the tables that are reached by such steps.
use dijex_api.Prelude.{◌≡◌, ℕ, Bool, true, false, List, ◌∷◌, Option, some}
use dijex_api.Text.{Bytes}
use dijex_api.Auth.Tables.{first}
use dijex_api.Platform.{World}
use dijex_api.Platform.Rows.{update_where}
use dijex_api.Registry.Types.{Registry}
use dijex_api.Registry.Rows as R
use dijex_api.Server.Types.{Server, ServerFacts}
use dijex_api.Server.Rows as V

pub record Tables : Type 0 where
  pub registries : List Registry
  pub servers : List Server

abbrev pub tables : {S : Type 0} → World S → Tables
tables w = record { registries = w.registries; servers = w.servers }

abbrev pub set_registries : Tables → (List Registry → List Registry) → Tables
set_registries t f = record t { registries = f t.registries }

abbrev pub set_servers : Tables → (List Server → List Server) → Tables
set_servers t f = record t { servers = f t.servers }

pub data Step (t : Tables) : Tables → Type 0 where
  add_registry :
      (r : Registry)
      → R.insert_clashes (R.inserted r) t.registries ≡ false
      → Step t (set_registries t (λ rows. R.inserted r ∷ rows))
  clear_default : (now : ℕ) → Step t (set_registries t (R.clear_default now))
  clear_other_default :
      (now : ℕ) (id : Bytes) → Step t (set_registries t (R.clear_other_default now id))
  replace_registry :
      (now : ℕ) (r old : Registry)
      → first (R.is_row r.id) t.registries ≡ some old
      → R.update_clashes (R.updated now r old) t.registries ≡ false
      → Step t (set_registries t (update_where (R.is_row r.id) (R.updated now r)))
  delete_registry :
      (now : ℕ) (id : Bytes)
      → Step t (set_registries t (update_where (R.is_row id) (R.deleted now)))
  note_registry :
      (now : ℕ) (id status err : Bytes) (at : ℕ) (active : Option Bool)
      → Step t
          (set_registries t (update_where (R.is_row id) (R.with_status now status err at active)))
  add_server :
      (s : Server)
      → V.insert_clashes (V.inserted s) t.servers ≡ false
      → Step t (set_servers t (λ rows. V.inserted s ∷ rows))
  replace_server :
      (now : ℕ) (s old : Server)
      → first (V.is_row s.id) t.servers ≡ some old
      → V.update_clashes (V.updated now s old) t.servers ≡ false
      → Step t (set_servers t (update_where (V.is_row s.id) (V.updated now s)))
  delete_server :
      (now : ℕ) (id : Bytes) → Step t (set_servers t (update_where (V.is_row id) (V.deleted now)))
  note_server :
      (now : ℕ) (id status err : Bytes) (at : ℕ) (active : Option Bool)
      → Step t (set_servers t (update_where (V.is_row id) (V.with_status now status err at active)))
  facts_of_server :
      (now : ℕ) (id : Bytes) (f : ServerFacts)
      → Step t (set_servers t (update_where (V.is_row id) (V.with_facts now f)))
  key_of_server :
      (now : ℕ) (id : Bytes)
      → Step t (set_servers t (update_where (V.is_row id) (V.with_key now true)))

pub data Reach (t : Tables) : Tables → Type 0 where
  here : Reach t t
  next : {u v : Tables} → Reach t u → Step u v → Reach t v
