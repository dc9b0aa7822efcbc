-- ===== src/Server/Kept.antt =====
-- What the statements over `servers` keep: a predicate on the tables that the change of the rows
-- keeps is kept by the whole statement, served or not.
use dijex_api.Prelude.{
  ◌≡◌, ℕ, Bool, false, List, ◌∷◌, Option, none, some, inl, inr, Bool-cases, Option-cases,
}
use dijex_api.Text.{Bytes, codes}
use dijex_api.Auth.Tables.{first}
use dijex_api.Action.{Action, pure, gets, ◌>>=◌, ◌>>◌}
use dijex_api.Action.Keeps.{Keeps, Keeps-pure, Keeps-bind}
use dijex_api.Platform.{World, Platform, fits, unless_clash}
use dijex_api.Platform.Rows.{update_where}
use dijex_api.Platform.Keeping.{
  OfTables, Keeps-checked, Keeps-fits, Keeps-from_env, Keeps-query, table_rules,
}
use dijex_api.Server.Types.{Server, ServerFacts, ServerListFilter}
use dijex_api.Server.Rows.{
  is_row, insert_clashes, update_clashes, inserted, updated, with_status, deleted, with_facts,
  with_key,
}
use dijex_api.Server.Table.{
  set_rows, find, create, soft_delete, change_found, change_row, update_connection_status,
  update_facts, mark_ssh_key_installed, list, get_by_id, update,
}

-- The rows that a world has behind a change of the servers.
abbrev pub with_rows : {S : Type 0} → World S → (List Server → List Server) → World S
with_rows w f = record w { servers = f w.servers }

module _ {S : Type 0} {P : World S → Type 0} (p : Platform S) (t : OfTables P) where
  pub Keeps-find_server : (id : Bytes) → Keeps P (find p id)
  unfolding find
  Keeps-find_server id = search table_rules

  pub Keeps-get_server : (id : Bytes) → Keeps P (get_by_id p id)
  unfolding get_by_id
  Keeps-get_server id = search (table_rules, Keeps-find_server)

  pub Keeps-list_rows : (f : ServerListFilter) → Keeps P (list p f)
  unfolding list
  Keeps-list_rows f = search table_rules depth 12

  pub Keeps-create_row :
      (s : Server)
      → ((w : World S)
          → P w
          → insert_clashes (inserted s) w.servers ≡ false
          → P (with_rows w (λ rows. inserted s ∷ rows)))
      → Keeps P (create p s)
  unfolding create
  Keeps-create_row s h = Keeps-bind _ _ (Keeps-query p t (codes "postgres: create server: ")) (λ _.
      Keeps-bind _ _ (Keeps-fits (codes "postgres: create server: ") (p.server_error (inserted s)))
        (λ _.
          Keeps-checked (λ w. insert_clashes (inserted s) w.servers)
            (λ w. with_rows w (λ rows. inserted s ∷ rows)) h))

  pub Keeps-delete_row :
      (id : Bytes)
      → ((w : World S) (now : ℕ) → P w → P (with_rows w (update_where (is_row id) (deleted now))))
      → Keeps P (soft_delete p id)
  unfolding soft_delete
  Keeps-delete_row id h = search (table_rules, Keeps-find_server, h) depth 10

  Keeps-change_found :
      (what id : Bytes) (f : Server → Server) (o : Option Server)
      → ((w : World S) → P w → P (with_rows w (update_where (is_row id) f)))
      → Keeps P (change_found p what id f o)
  unfolding change_found
  Keeps-change_found what id f none h = Keeps-pure none
  Keeps-change_found what id f (some s) h = search (table_rules, h)

  Keeps-change :
      (what id : Bytes) (f : ℕ → Server → Server)
      → ((w : World S) (now : ℕ) → P w → P (with_rows w (update_where (is_row id) (f now))))
      → Keeps P (change_row p what id f)
  unfolding change_row
  Keeps-change what id f h =
      let changed : (now : ℕ) (o : Option Server) → Keeps P (change_found p what id (f now) o) =
        λ now o. Keeps-change_found what id (f now) o (λ w pw. h w now pw) in
      search (table_rules, changed) depth 10

  pub Keeps-note :
      (id status err : Bytes) (at : ℕ) (set_active : Option Bool)
      → ((w : World S) (now : ℕ)
          → P w
          → P (with_rows w (update_where (is_row id) (with_status now status err at set_active))))
      → Keeps P (update_connection_status p id status err at set_active)
  unfolding update_connection_status
  Keeps-note id status err at set_active h =
      Keeps-bind _ _ (Keeps-change _ id (λ now. with_status now status err at set_active) h)
        (λ _. Keeps-pure tt)

  pub Keeps-facts :
      (id : Bytes) (f : ServerFacts)
      → ((w : World S) (now : ℕ)
          → P w
          → P (with_rows w (update_where (is_row id) (with_facts now f))))
      → Keeps P (update_facts p id f)
  unfolding update_facts
  Keeps-facts id f h =
      Keeps-bind _ _ (Keeps-change _ id (λ now. with_facts now f) h) (λ _. Keeps-pure tt)

  pub Keeps-mark :
      (id : Bytes) (installed : Bool)
      → ((w : World S) (now : ℕ)
          → P w
          → P (with_rows w (update_where (is_row id) (with_key now installed))))
      → Keeps P (mark_ssh_key_installed p id installed)
  unfolding mark_ssh_key_installed
  Keeps-mark id installed h =
      Keeps-bind _ _ (Keeps-change _ id (λ now. with_key now installed) h) (λ _. search table_rules)

  -- `Update` behind the look for its row.
  place : ℕ → Server → Server → Action (World S) Server
  unfolding update_clashes updated update_where
  place now s old = do
    fits (codes "postgres: update server: ") (p.server_error (updated now s old))
    clash ← gets (λ w. update_clashes (updated now s old) w.servers)
    unless_clash clash
    set_rows p (update_where (is_row s.id) (updated now s))
    pure (updated now s old)

  place-keeps :
      (now : ℕ) (s old : Server) (w : World S)
      → P w
      → (update_clashes (updated now s old) w.servers ≡ false
          → P (with_rows w (update_where (is_row s.id) (updated now s))))
      → P (place now s old w).0
  unfolding place ◌>>=◌ unless_clash fits
  place-keeps now s old w pw h = elim (Option-cases (p.server_error (updated now s old))) [
    | inr (x, e) ↦ rw e pw
    | inl e ↦ elim (Bool-cases (update_clashes (updated now s old) w.servers)) [
      | inl c ↦ rw (e, c) pw
      | inr c ↦ rw (e, c) (h c)
    ]
  ]

  pub Keeps-update_row :
      (s : Server)
      → ((w : World S) (now : ℕ) (old : Server)
          → P w
          → first (is_row s.id) w.servers ≡ some old
          → update_clashes (updated now s old) w.servers ≡ false
          → P (with_rows w (update_where (is_row s.id) (updated now s))))
      → Keeps P (update p s)
  unfolding update find ◌>>=◌ place
  Keeps-update_row s h = Keeps-bind _ _ (Keeps-query p t (codes "postgres: update server: ")) (λ _.
      Keeps-bind _ _ (Keeps-from_env p.db_now t) (λ now. record {
        at = λ w pw. elim (Option-cases (first (is_row s.id) w.servers)) [
          | inl e ↦ rw e pw
          | inr (old, e) ↦ rw e (place-keeps now s old w pw (h w now old pw e))
        ];
      }))
