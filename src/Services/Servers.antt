-- ===== src/Services/Servers.antt =====
-- The calls of `ServerService` change the tables by steps that the database allows, and by nothing
-- else.
use dijex_api.Prelude.{ℕ, Bool, true, Option, none, some}
use dijex_api.Text.{Bytes}
use dijex_api.Action.{Action}
use dijex_api.Action.Keeps.{Keeps, Keeps-pure}
use dijex_api.Platform.{World, Platform}
use dijex_api.Platform.Keeping.{table_rules}
use dijex_api.Server.Types.{Server, ServerFacts}
use dijex_api.Server.Forms.{CreateServerInput, UpdateServerInput, ListServersInput, RemoteOutput}
use dijex_api.Server.Table as T
use dijex_api.Server.Kept.{
  Keeps-get_server, Keeps-list_rows, Keeps-create_row, Keeps-delete_row, Keeps-note, Keeps-facts,
  Keeps-mark, Keeps-update_row,
}
use dijex_api.Server.Service as Service
use dijex_api.Server.Service.{
  encrypt_optional, resolve_secret, create_server, update_server, list_servers,
}
use dijex_api.Server.Connector.{Client, Dialed, unreached, reached, Connector}
use dijex_api.Server.Session.{
  load_server_for_ssh, noted_dial, open_remote_session, closing, after_dial, over_session, conclude,
}
use dijex_api.Services.Steps.{
  Tables, add_server, replace_server, delete_server, note_server, facts_of_server, key_of_server,
  next,
}
use dijex_api.Services.Conforms.{Reached, tables_only}

module _ {S : Type 0} (t0 : Tables) (p : Platform S) where
  abbrev OnPath : World S → Type 0
  OnPath = Reached t0 p

  created : (s : Server) → Keeps OnPath (T.create p s)
  created s = Keeps-create_row p (tables_only t0 p) s (λ w h e. next h (add_server s e))

  replaced : (s : Server) → Keeps OnPath (T.update p s)
  replaced s =
      Keeps-update_row p (tables_only t0 p) s
        (λ w now old h e c. next h (replace_server now s old e c))

  deleted : (id : Bytes) → Keeps OnPath (T.soft_delete p id)
  deleted id = Keeps-delete_row p (tables_only t0 p) id (λ w now h. next h (delete_server now id))

  pub noted_server :
      (id status err : Bytes) (at : ℕ) (active : Option Bool)
      → Keeps OnPath (T.update_connection_status p id status err at active)
  noted_server id status err at active =
      Keeps-note p (tables_only t0 p) id status err at active
        (λ w now h. next h (note_server now id status err at active))

  pub stored_facts : (id : Bytes) (f : ServerFacts) → Keeps OnPath (T.update_facts p id f)
  stored_facts id f =
      Keeps-facts p (tables_only t0 p) id f (λ w now h. next h (facts_of_server now id f))

  pub marked : (id : Bytes) → Keeps OnPath (T.mark_ssh_key_installed p id true)
  marked id = Keeps-mark p (tables_only t0 p) id true (λ w now h. next h (key_of_server now id))

  got : (id : Bytes) → Keeps OnPath (T.get_by_id p id)
  got id = Keeps-get_server p (tables_only t0 p) id

  encrypt_optional-Reached : (plain : Bytes) → Keeps OnPath (encrypt_optional p plain)
  unfolding encrypt_optional
  encrypt_optional-Reached plain = search table_rules

  pub create_server-Reached : (i : CreateServerInput) → Keeps OnPath (create_server p i)
  unfolding create_server
  create_server-Reached i = search (table_rules, encrypt_optional-Reached, created) depth 18

  resolve_secret-Reached :
      (o : Option Bytes) (stored : Bytes) → Keeps OnPath (resolve_secret p o stored)
  unfolding resolve_secret
  resolve_secret-Reached none stored = Keeps-pure stored
  resolve_secret-Reached (some plain) stored = search (table_rules, encrypt_optional-Reached)

  pub update_server-Reached : (i : UpdateServerInput) → Keeps OnPath (update_server p i)
  unfolding update_server
  update_server-Reached i = search (table_rules, resolve_secret-Reached, got, replaced) depth 18

  pub list_servers-Reached : (i : ListServersInput) → Keeps OnPath (list_servers p i)
  unfolding list_servers
  list_servers-Reached i = search (table_rules, Keeps-list_rows) depth 10

  pub delete_server-Reached : (id : Bytes) → Keeps OnPath (Service.delete_server p id)
  unfolding Service.delete_server
  delete_server-Reached id = search (table_rules, deleted) depth 10

  pub closing-Reached :
      {A : Type 0} (client : Client S) (m : Action (World S) A)
      → Keeps OnPath m
      → Keeps OnPath (closing client m)
  unfolding closing
  closing-Reached client m k = record { at = λ w h. k.at w h }

  module _ (c : Connector S) where
    pub load-Reached : (id : Bytes) → Keeps OnPath (load_server_for_ssh p c id)
    unfolding load_server_for_ssh
    load-Reached id = search (table_rules, got) depth 10

    noted_dial-Reached : (id : Bytes) (d : Dialed S) → Keeps OnPath (noted_dial p c id d)
    unfolding noted_dial
    noted_dial-Reached id (reached client method) = Keeps-pure (reached client method)
    noted_dial-Reached id (unreached res) = search (table_rules, noted_server) depth 10

    open-Reached : (id : Bytes) → Keeps OnPath (open_remote_session p c id)
    unfolding open_remote_session
    open-Reached id = search (table_rules, load-Reached, noted_dial-Reached) depth 10

    after_dial-Reached :
        {R : Type 0} (id : Bytes) (go : Client S → Bytes → Action (World S) (RemoteOutput R))
        (d : Dialed S)
        → ((client : Client S) (method : Bytes) → Keeps OnPath (go client method))
        → Keeps OnPath (after_dial p c id go d)
    unfolding after_dial
    after_dial-Reached id go (reached client method) h =
        closing-Reached client (go client method) (h client method)
    after_dial-Reached id go (unreached res) h = search table_rules

    pub over-Reached :
        {R : Type 0} (id : Bytes) (go : Client S → Bytes → Action (World S) (RemoteOutput R))
        → ((client : Client S) (method : Bytes) → Keeps OnPath (go client method))
        → Keeps OnPath (over_session p c id go)
    unfolding over_session
    over-Reached id go h = search (table_rules, open-Reached, after_dial-Reached, h) depth 8

    pub conclude-Reached :
        {R : Type 0} (id method status err message : Bytes) (result : R)
        → Keeps OnPath (conclude p c id method status err message result)
    unfolding conclude
    conclude-Reached id method status err message result =
        search (table_rules, noted_server) depth 10
