-- ===== src/Registry/Kept.antt =====
-- What the statements over `registries` keep: a predicate on the tables that the change of the rows
-- keeps is kept by the whole statement, served or not.
use dijex_api.Prelude.{
  ◌≡◌, ℕ, Bool, false, List, ◌∷◌, Option, none, some, inl, inr, Bool-cases, Option-cases,
}
use dijex_api.Text.{Bytes, codes}
use dijex_api.Auth.Tables.{first}
use dijex_api.Action.{Action, pure, gets, ◌>>=◌, ◌>>◌}
use dijex_api.Action.Keeps.{Keeps, Keeps-pure, Keeps-bind}
use dijex_api.Platform.{World, Platform, fits, unless_clash}
use dijex_api.Platform.Rows.{update_where}
use dijex_api.Platform.Keeping.{
  OfTables, Keeps-checked, Keeps-fits, Keeps-from_env, Keeps-query, Keeps-transaction, table_rules,
}
use dijex_api.Registry.Types.{Registry, RegistryListFilter}
use dijex_api.Registry.Rows.{
  is_row, clear_default, clear_other_default, insert_clashes, update_clashes, inserted, updated,
  with_status, deleted,
}
use dijex_api.Registry.Table.{
  set_rows, find, insert, clear, create, soft_delete, change_row, update_connection_status, list,
  get_by_id, replace, update,
}

-- The rows that a world has behind a change of the registries.
abbrev pub with_rows : {S : Type 0} → World S → (List Registry → List Registry) → World S
with_rows w f = record w { registries = f w.registries }

module _ {S : Type 0} {P : World S → Type 0} (p : Platform S) (t : OfTables P) where
  pub Keeps-find : (id : Bytes) → Keeps P (find p id)
  unfolding find
  Keeps-find id = search table_rules

  pub Keeps-get_by_id : (id : Bytes) → Keeps P (get_by_id p id)
  unfolding get_by_id
  Keeps-get_by_id id = search table_rules

  pub Keeps-list : (f : RegistryListFilter) → Keeps P (list p f)
  unfolding list
  Keeps-list f = search table_rules depth 12

  pub Keeps-insert :
      (r : Registry)
      → ((w : World S)
          → P w
          → insert_clashes (inserted r) w.registries ≡ false
          → P (with_rows w (λ rows. inserted r ∷ rows)))
      → Keeps P (insert p r)
  unfolding insert
  Keeps-insert r h = Keeps-bind _ _ (Keeps-query p t (codes "postgres: create registry: ")) (λ _.
      Keeps-bind _ _
        (Keeps-fits (codes "postgres: create registry: ") (p.registry_error (inserted r)))
        (λ _.
          Keeps-checked (λ w. insert_clashes (inserted r) w.registries)
            (λ w. with_rows w (λ rows. inserted r ∷ rows)) h))

  Keeps-clear :
      (b : Bool) (f : List Registry → List Registry)
      → ((w : World S) → P w → P (with_rows w f))
      → Keeps P (clear p b f)
  unfolding clear
  Keeps-clear b f h = search (table_rules, h)

  pub Keeps-create :
      (r : Registry)
      → ((w : World S) (now : ℕ) → P w → P (with_rows w (clear_default now)))
      → ((w : World S)
          → P w
          → insert_clashes (inserted r) w.registries ≡ false
          → P (with_rows w (λ rows. inserted r ∷ rows)))
      → Keeps P (create p r)
  unfolding create
  Keeps-create r hc hi =
      let inner = Keeps-insert r hi in
      let cleared : (now : ℕ) → Keeps P (clear p r.is_default (clear_default now)) =
        λ now. Keeps-clear r.is_default (clear_default now) (λ w h. hc w now h) in
      Keeps-transaction _ t (
        Keeps-bind _ _ (Keeps-query p t (codes "postgres: begin tx: ")) (λ _.
          Keeps-bind _ _ (Keeps-from_env p.db_now t) (λ now.
            Keeps-bind _ _ (cleared now)
              (λ _. Keeps-bind _ _ inner (λ _. Keeps-query p t (codes "postgres: commit tx: "))))))

  pub Keeps-soft_delete :
      (id : Bytes)
      → ((w : World S) (now : ℕ) → P w → P (with_rows w (update_where (is_row id) (deleted now))))
      → Keeps P (soft_delete p id)
  unfolding soft_delete
  Keeps-soft_delete id h = search (table_rules, Keeps-find, h) depth 10

  Keeps-change_row :
      (what id : Bytes) (f : Registry → Registry) (o : Option Registry)
      → ((w : World S) → P w → P (with_rows w (update_where (is_row id) f)))
      → Keeps P (change_row p what id f o)
  unfolding change_row
  Keeps-change_row what id f none h = Keeps-pure tt
  Keeps-change_row what id f (some r) h = search (table_rules, h)

  pub Keeps-update_connection_status :
      (id status err : Bytes) (at : ℕ) (set_active : Option Bool)
      → ((w : World S) (now : ℕ)
          → P w
          → P (with_rows w (update_where (is_row id) (with_status now status err at set_active))))
      → Keeps P (update_connection_status p id status err at set_active)
  unfolding update_connection_status
  Keeps-update_connection_status id status err at set_active h =
      search (table_rules, Keeps-change_row, h) depth 8

  -- `replace` behind the look for its row.
  place : ℕ → Registry → Registry → Action (World S) Registry
  unfolding update_clashes updated update_where
  place now r old = do
    fits (codes "postgres: update registry: ") (p.registry_error (updated now r old))
    clash ← gets (λ w. update_clashes (updated now r old) w.registries)
    unless_clash clash
    set_rows p (update_where (is_row r.id) (updated now r))
    pure (updated now r old)

  place-keeps :
      (now : ℕ) (r old : Registry) (w : World S)
      → P w
      → (update_clashes (updated now r old) w.registries ≡ false
          → P (with_rows w (update_where (is_row r.id) (updated now r))))
      → P (place now r old w).0
  unfolding place ◌>>=◌ unless_clash fits
  place-keeps now r old w pw h = elim (Option-cases (p.registry_error (updated now r old))) [
    | inr (x, e) ↦ rw e pw
    | inl e ↦ elim (Bool-cases (update_clashes (updated now r old) w.registries)) [
      | inl c ↦ rw (e, c) pw
      | inr c ↦ rw (e, c) (h c)
    ]
  ]

  -- `Update` behind the statement for the default, where the row was found and clashes with none.
  Keeps-replace :
      (now : ℕ) (r : Registry)
      → ((w : World S) (old : Registry)
          → P w
          → first (is_row r.id) w.registries ≡ some old
          → update_clashes (updated now r old) w.registries ≡ false
          → P (with_rows w (update_where (is_row r.id) (updated now r))))
      → Keeps P (replace p now r)
  unfolding replace find ◌>>=◌ place
  Keeps-replace now r h =
      Keeps-bind _ _ (Keeps-query p t (codes "postgres: update registry: ")) (λ _. record {
        at = λ w pw. elim (Option-cases (first (is_row r.id) w.registries)) [
          | inl e ↦ rw e pw
          | inr (old, e) ↦ rw e (place-keeps now r old w pw (h w old pw e))
        ];
      })

  pub Keeps-update :
      (r : Registry)
      → ((w : World S) (now : ℕ) → P w → P (with_rows w (clear_other_default now r.id)))
      → ((w : World S) (now : ℕ) (old : Registry)
          → P w
          → first (is_row r.id) w.registries ≡ some old
          → update_clashes (updated now r old) w.registries ≡ false
          → P (with_rows w (update_where (is_row r.id) (updated now r))))
      → Keeps P (update p r)
  unfolding update
  Keeps-update r hc hr =
      let cleared : (now : ℕ) → Keeps P (clear p r.is_default (clear_other_default now r.id)) =
        λ now. Keeps-clear r.is_default (clear_other_default now r.id) (λ w h. hc w now h) in
      let placed : (now : ℕ) → Keeps P (replace p now r) =
        λ now. Keeps-replace now r (λ w old pw. hr w now old pw) in
      Keeps-transaction _ t (
        Keeps-bind _ _ (Keeps-query p t (codes "postgres: begin tx: ")) (λ _.
          Keeps-bind _ _ (Keeps-from_env p.db_now t) (λ now.
            Keeps-bind _ _ (cleared now)
              (λ _. Keeps-bind _ _ (placed now) (λ _. search table_rules)))))
