-- ===== src/Server/Table.antt =====
-- The statements of internal/repository/postgres/server_repository.go. One that the connection does
-- not serve changes nothing.
use dijex_api.Prelude.{
  ℕ, Bool, List, [], ◌∷◌, ◌++◌, Option, none, some, if◌then◌else◌, length, ◌==◌,
}
use dijex_api.Text.{Bytes, codes}
use dijex_api.Auth.Tables.{first}
use dijex_api.Action.{Action, pure, gets, require, modify, ◌>>=◌, ◌>>◌}
use dijex_api.Platform.{World, Platform, from_env, query, fits, unless_clash, page_of}
use dijex_api.Platform.Rows.{rows_where, update_where}
use dijex_api.Server.Types.{Server, ServerFacts, ServerListFilter}
use dijex_api.Server.Rows.{
  is_row, insert_clashes, update_clashes, inserted, updated, deleted, with_status, with_facts,
  with_key, sort_column, matches,
}

module _ {S : Type 0} (p : Platform S) where
  abbrev pub set_rows : (List Server → List Server) → Action (World S) (Unit {0})
  set_rows f = modify (λ w. record w { servers = f w.servers })

  unfoldable pub find : Bytes → Action (World S) Server
  unfolding first
  find id = do found ← gets (λ w. first (is_row id) w.servers); require found

  unfoldable pub create : Server → Action (World S) (Unit {0})
  unfolding insert_clashes inserted
  create s = do
    query p (codes "postgres: create server: ")
    fits (codes "postgres: create server: ") (p.server_error (inserted s))
    clash ← gets (λ w. insert_clashes (inserted s) w.servers)
    unless_clash clash
    set_rows (λ rows. inserted s ∷ rows)

  unfoldable pub get_by_id : Bytes → Action (World S) Server
  unfolding find
  get_by_id id = do query p (codes "postgres: get server " ++ (id ++ codes ": ")); find id

  -- The row as it is now.
  unfoldable pub update : Server → Action (World S) Server
  unfolding find update_where update_clashes updated
  update s = do
    query p (codes "postgres: update server: ")
    now ← from_env p.db_now
    old ← find s.id
    fits (codes "postgres: update server: ") (p.server_error (updated now s old))
    clash ← gets (λ w. update_clashes (updated now s old) w.servers)
    unless_clash clash
    set_rows (update_where (is_row s.id) (updated now s))
    pure (updated now s old)

  unfoldable pub soft_delete : Bytes → Action (World S) ℕ
  unfolding find deleted update_where
  soft_delete id = do
    query p (codes "postgres: soft delete server " ++ (id ++ codes ": "))
    now ← from_env p.db_now
    find id
    set_rows (update_where (is_row id) (deleted now))
    pure now

  -- An UPDATE behind the look for its row.
  unfoldable pub change_found :
      Bytes → Bytes → (Server → Server) → Option Server → Action (World S) (Option Server)
  unfolding update_where
  change_found what id f none = pure none
  change_found what id f (some s) = do
    fits what (p.server_error (f s))
    set_rows (update_where (is_row id) f)
    pure (some s)

  -- `UPDATE ... WHERE id = $n AND deleted_at IS NULL`: the row that it found, if there is one.
  unfoldable pub change_row :
      Bytes → Bytes → (ℕ → Server → Server) → Action (World S) (Option Server)
  unfolding first change_found
  change_row what id f = do
    query p what
    now ← from_env p.db_now
    found ← gets (λ w. first (is_row id) w.servers)
    change_found what id (f now) found

  unfoldable pub update_connection_status :
      Bytes → Bytes → Bytes → ℕ → Option Bool → Action (World S) (Unit {0})
  unfolding change_row with_status
  update_connection_status id status err at set_active = do
    change_row (codes "postgres: update server connection status " ++ (id ++ codes ": ")) id
        (λ now. with_status now status err at set_active)
    pure tt

  unfoldable pub update_facts : Bytes → ServerFacts → Action (World S) (Unit {0})
  unfolding change_row with_facts
  update_facts id f = do
    change_row (codes "postgres: update server facts " ++ (id ++ codes ": ")) id
        (λ now. with_facts now f)
    pure tt

  unfoldable pub mark_ssh_key_installed : Bytes → Bool → Action (World S) (Unit {0})
  unfolding change_row with_key
  mark_ssh_key_installed id installed = do
    found ←
        change_row (codes "postgres: mark ssh_key_installed for " ++ (id ++ codes ": ")) id
          (λ now. with_key now installed)
    require found
    pure tt

  unfoldable pub list : ServerListFilter → Action (World S) (List Server × ℕ)
  unfolding rows_where matches sort_column
  list f = do
    query p (codes "postgres: count servers: ")
    total ← gets (λ w. length (rows_where (matches p.ilike f) w.servers))
    if total == 0 then pure ([], 0) else do
      query p (codes "postgres: list servers: ")
      rows ← gets (λ w. rows_where (matches p.ilike f) w.servers)
      page ←
          page_of (codes "postgres: iterate servers: ") f.limit f.offset
            (p.order_servers (sort_column f.sort_by) f.sort_desc rows)
      pure (page, total)
