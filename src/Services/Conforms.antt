-- ===== src/Services/Conforms.antt =====
-- Every call of the services changes the tables by steps that the database allows, and by nothing else.
use dijex_api.Prelude.{ℕ, Bool, Option, none, some}
use dijex_api.Text.{Bytes}
use dijex_api.Action.Keeps.{Keeps, Keeps-pure}
use dijex_api.Platform.{World, Platform}
use dijex_api.Platform.Keeping.{OfTables, table_rules}
use dijex_api.Registry.Types.{
  Registry, CreateRegistryInput, ListRegistriesInput, UpdateRegistryInput, ListRegistryImagesInput,
}
use dijex_api.Registry.Table as T
use dijex_api.Registry.Kept.{
  Keeps-get_by_id, Keeps-list, Keeps-create, Keeps-soft_delete, Keeps-update_connection_status,
  Keeps-update,
}
use dijex_api.Registry.Service.{
  encrypt_password, resolve_password, create_registry, list_registries, update_registry,
}
use dijex_api.Registry.Service
use dijex_api.Registry.Connection.{
  RegistryConnector, load, connect_registry, ping_registry, list_registry_images,
}
use dijex_api.Services.Steps.{
  Tables, tables, add_registry, clear_default, clear_other_default, replace_registry,
  delete_registry, note_registry, Reach, next,
}

module _ {S : Type 0} (t0 : Tables) (p : Platform S) where
  -- The tables are reached from `t0`.
  abbrev pub Reached : World S → Type 0
  Reached w = Reach t0 (tables w)

  abbrev pub tables_only : OfTables Reached
  tables_only w s h = h

  created : (r : Registry) → Keeps Reached (T.create p r)
  created r =
      Keeps-create p tables_only r (λ w now h. next h (clear_default now))
        (λ w h e. next h (add_registry r e))

  replaced : (r : Registry) → Keeps Reached (T.update p r)
  replaced r =
      Keeps-update p tables_only r (λ w now h. next h (clear_other_default now r.id))
        (λ w now old h e c. next h (replace_registry now r old e c))

  deleted : (id : Bytes) → Keeps Reached (T.soft_delete p id)
  deleted id = Keeps-soft_delete p tables_only id (λ w now h. next h (delete_registry now id))

  noted :
      (id status err : Bytes) (at : ℕ) (active : Option Bool)
      → Keeps Reached (T.update_connection_status p id status err at active)
  noted id status err at active =
      Keeps-update_connection_status p tables_only id status err at active
        (λ w now h. next h (note_registry now id status err at active))

  got : (id : Bytes) → Keeps Reached (T.get_by_id p id)
  got id = Keeps-get_by_id p tables_only id

  encrypt_password-Reached : (password : Bytes) → Keeps Reached (encrypt_password p password)
  unfolding encrypt_password
  encrypt_password-Reached password = search table_rules

  pub create_registry-Reached : (i : CreateRegistryInput) → Keeps Reached (create_registry p i)
  unfolding create_registry
  create_registry-Reached i = search (table_rules, encrypt_password-Reached, created) depth 14

  pub list_registries-Reached : (i : ListRegistriesInput) → Keeps Reached (list_registries p i)
  unfolding list_registries
  list_registries-Reached i = search (table_rules, Keeps-list) depth 10

  resolve_password-Reached :
      (o : Option Bytes) (stored : Bytes) → Keeps Reached (resolve_password p o stored)
  unfolding resolve_password
  resolve_password-Reached none stored = Keeps-pure stored
  resolve_password-Reached (some password) stored = encrypt_password-Reached password

  pub update_registry-Reached : (i : UpdateRegistryInput) → Keeps Reached (update_registry p i)
  unfolding update_registry
  update_registry-Reached i = search (table_rules, resolve_password-Reached, got, replaced) depth 14

  pub delete_registry-Reached : (id : Bytes) → Keeps Reached (Service.delete_registry p id)
  unfolding Service.delete_registry
  delete_registry-Reached id = search (table_rules, deleted) depth 10

  module _ (rc : RegistryConnector S) where
    load-Reached : (id : Bytes) → Keeps Reached (load p rc id)
    unfolding load
    load-Reached id = search (table_rules, got) depth 10

    pub connect_registry-Reached : (id : Bytes) → Keeps Reached (connect_registry p rc id)
    unfolding connect_registry
    connect_registry-Reached id = search (table_rules, load-Reached, noted) depth 12

    pub ping_registry-Reached : (id : Bytes) → Keeps Reached (ping_registry p rc id)
    unfolding ping_registry
    ping_registry-Reached id = search (table_rules, load-Reached, noted) depth 12

    pub list_registry_images-Reached :
        (i : ListRegistryImagesInput) → Keeps Reached (list_registry_images p rc i)
    unfolding list_registry_images
    list_registry_images-Reached i = search (table_rules, load-Reached) depth 12
