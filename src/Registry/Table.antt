-- ===== src/Registry/Table.antt =====
-- The statements of internal/repository/postgres/registry_repository.go. One that the connection does
-- not serve changes nothing.
use dijex_api.Prelude.{
  ℕ, Bool, List, [], ◌∷◌, ◌++◌, Option, none, some, if◌then◌else◌, length, ◌==◌,
}
use dijex_api.Text.{Bytes, codes}
use dijex_api.Auth.Tables.{first}
use dijex_api.Action.{Action, pure, gets, require, modify, ◌>>=◌, ◌>>◌}
use dijex_api.Platform.{World, Platform, from_env, transaction, query, fits, unless_clash, page_of}
use dijex_api.Platform.Rows.{rows_where, update_where}
use dijex_api.Registry.Types.{Registry, RegistryListFilter}
use dijex_api.Registry.Rows.{
  is_row, clear_default, clear_other_default, insert_clashes, update_clashes, inserted, updated,
  with_status, deleted, sort_column, matches,
}

module _ {S : Type 0} (p : Platform S) where
  abbrev pub set_rows : (List Registry → List Registry) → Action (World S) (Unit {0})
  set_rows f = modify (λ w. record w { registries = f w.registries })

  unfoldable pub find : Bytes → Action (World S) Registry
  unfolding first
  find id = do found ← gets (λ w. first (is_row id) w.registries); require found

  -- `Create` behind the statement for the default.
  unfoldable pub insert : Registry → Action (World S) (Unit {0})
  unfolding insert_clashes inserted
  insert r = do
    query p (codes "postgres: create registry: ")
    fits (codes "postgres: create registry: ") (p.registry_error (inserted r))
    clash ← gets (λ w. insert_clashes (inserted r) w.registries)
    unless_clash clash
    set_rows (λ rows. inserted r ∷ rows)

  unfoldable pub clear : Bool → (List Registry → List Registry) → Action (World S) (Unit {0})
  clear is_default f =
      if is_default
      then query p (codes "postgres: clear default registry: ") >> set_rows f
      else pure tt

  unfoldable pub create : Registry → Action (World S) (Unit {0})
  unfolding insert clear clear_default
  create r = transaction (do
    query p (codes "postgres: begin tx: ")
    now ← from_env p.db_now
    clear r.is_default (clear_default now)
    insert r
    query p (codes "postgres: commit tx: "))

  unfoldable pub soft_delete : Bytes → Action (World S) ℕ
  unfolding find deleted update_where
  soft_delete id = do
    query p (codes "postgres: soft delete registry " ++ (id ++ codes ": "))
    now ← from_env p.db_now
    find id
    set_rows (update_where (is_row id) (deleted now))
    pure now

  -- An UPDATE behind the look for its row; that there is none is no error.
  unfoldable pub change_row :
      Bytes → Bytes → (Registry → Registry) → Option Registry → Action (World S) (Unit {0})
  unfolding update_where
  change_row what id f none = pure tt
  change_row what id f (some r) = do
    fits what (p.registry_error (f r))
    set_rows (update_where (is_row id) f)

  unfoldable pub update_connection_status :
      Bytes → Bytes → Bytes → ℕ → Option Bool → Action (World S) (Unit {0})
  unfolding first with_status change_row
  update_connection_status id status err at set_active = do
    query p (codes "postgres: update registry connection status " ++ (id ++ codes ": "))
    now ← from_env p.db_now
    found ← gets (λ w. first (is_row id) w.registries)
    change_row (codes "postgres: update registry connection status " ++ (id ++ codes ": ")) id
        (with_status now status err at set_active) found

  unfoldable pub list : RegistryListFilter → Action (World S) (List Registry × ℕ)
  unfolding rows_where matches sort_column
  list f = do
    query p (codes "postgres: count registries: ")
    total ← gets (λ w. length (rows_where (matches p.ilike f) w.registries))
    if total == 0 then pure ([], 0) else do
      query p (codes "postgres: list registries: ")
      rows ← gets (λ w. rows_where (matches p.ilike f) w.registries)
      page ←
          page_of (codes "postgres: iterate registries: ") f.limit f.offset
            (p.order_registries (sort_column f.sort_by) f.sort_desc rows)
      pure (page, total)

  unfoldable pub get_by_id : Bytes → Action (World S) Registry
  unfolding find
  get_by_id id = do query p (codes "postgres: get registry " ++ (id ++ codes ": ")); find id

  -- `Update` behind the statement for the default: the row as it is now.
  unfoldable pub replace : ℕ → Registry → Action (World S) Registry
  unfolding find update_where update_clashes updated
  replace now r = do
    query p (codes "postgres: update registry: ")
    old ← find r.id
    fits (codes "postgres: update registry: ") (p.registry_error (updated now r old))
    clash ← gets (λ w. update_clashes (updated now r old) w.registries)
    unless_clash clash
    set_rows (update_where (is_row r.id) (updated now r))
    pure (updated now r old)

  unfoldable pub update : Registry → Action (World S) Registry
  unfolding replace clear clear_other_default
  update r = transaction (do
    query p (codes "postgres: begin tx: ")
    now ← from_env p.db_now
    clear r.is_default (clear_other_default now r.id)
    row ← replace now r
    query p (codes "postgres: commit tx: ")
    pure row)
