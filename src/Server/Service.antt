-- ===== src/Server/Service.antt =====
-- internal/service/server_service.go: one action for each method that only reads or changes the rows.
-- The entries of the log are left out.
use dijex_api.Prelude.{◌||◌, not, ◌++◌, map, Option, none, some, if◌then◌else◌, []}
use dijex_api.Text.{Bytes, codes, bytes_eq, is_empty, trim_space, to_lower}
use dijex_api.Action.{Action, pure, prefixed, check, ◌>>=◌, ◌>>◌}
use dijex_api.Platform.{World, Platform, nil_uuid, require_id, from_env, encrypt_text}
use dijex_api.Platform.Rules.{unless}
use dijex_api.Platform.Paging.{clamp_page, clamp_size, offset_of, pagination_of}
use dijex_api.Server.Types.{
  is_valid_server_protocol, is_valid_server_auth_method, is_valid_server_environment,
  ServerListFilter,
}
use dijex_api.Server.Forms.{
  CreateServerInput, UpdateServerInput, ListServersInput, ServerView, ListServersOutput,
  DeleteServerOutput,
}
use dijex_api.Server.Table.{create, get_by_id, update, soft_delete, list}
use dijex_api.Server.Validate.{
  validate_server_fields, word, normalize_create_server_input, normalize_update_server_input,
  fields_of_create, fields_of_update,
}
use dijex_api.Server.Views.{to_server_view, Secrets, new_server, changed_server, returned}

module _ {S : Type 0} (p : Platform S) where
  unfoldable pub encrypt_optional : Bytes → Action (World S) Bytes
  unfolding encrypt_text
  encrypt_optional plain =
      if is_empty plain
      then pure []
      else prefixed (codes "server: encrypt secret: ") (encrypt_text p plain)

  -- A secret behind an update: `none` keeps the stored one.
  unfoldable pub resolve_secret : Option Bytes → Bytes → Action (World S) Bytes
  unfolding encrypt_optional
  resolve_secret none existing = pure existing
  resolve_secret (some input) existing = if is_empty input then pure [] else encrypt_optional input

  unfoldable pub create_server : CreateServerInput → Action (World S) ServerView
  unfolding encrypt_optional create validate_server_fields normalize_create_server_input
      to_server_view
  create_server input = do
    let i = normalize_create_server_input p input
    check (validate_server_fields (fields_of_create i))
    password ← encrypt_optional i.password
    private_key ← encrypt_optional i.private_key
    passphrase ← encrypt_optional i.private_key_passphrase
    now ← from_env p.clock
    id ← from_env p.new_uuid
    let secrets : Secrets = record {
      password = password;
      private_key = private_key;
      passphrase = passphrase;
    }
    create p (new_server i id secrets now)
    pure (to_server_view (new_server i id secrets now))

  unfoldable pub update_server : UpdateServerInput → Action (World S) ServerView
  unfolding resolve_secret update get_by_id validate_server_fields normalize_update_server_input
      to_server_view
  update_server input = do
    let i = normalize_update_server_input p input
    check (
        unless (not (bytes_eq i.id nil_uuid)) (codes "id") (codes "is required")
        ++ validate_server_fields (fields_of_update i))
    existing ← get_by_id p i.id
    password ← resolve_secret i.password existing.password_encrypted
    private_key ← resolve_secret i.private_key existing.private_key_encrypted
    passphrase ← resolve_secret i.private_key_passphrase existing.private_key_passphrase_encrypted
    let secrets : Secrets = record {
      password = password;
      private_key = private_key;
      passphrase = passphrase;
    }
    row ← update p (changed_server i secrets)
    pure (to_server_view (returned (changed_server i secrets) row))

  abbrev filter_of : ListServersInput → Bytes → Bytes → Bytes → ServerListFilter
  filter_of i environment protocol auth_method = record {
    environment = environment;
    protocol = protocol;
    auth_method = auth_method;
    is_active = i.is_active;
    search = trim_space i.search;
    limit = clamp_size i.page_size;
    offset = offset_of (clamp_page i.page) (clamp_size i.page_size);
    sort_by = i.sort_by;
    sort_desc = not (bytes_eq (to_lower p.unicode_lower i.order) (codes "asc"));
  }

  unfoldable pub list_servers : ListServersInput → Action (World S) ListServersOutput
  unfolding list clamp_page clamp_size offset_of to_server_view
  list_servers i = do
    let environment = word p i.environment
    let protocol = word p i.protocol
    let auth_method = word p i.auth_method
    check (
        unless (is_empty environment || is_valid_server_environment environment)
          (codes "environment") (codes "invalid value")
        ++ (unless (is_empty protocol || is_valid_server_protocol protocol) (codes "protocol")
              (codes "invalid value")
            ++ unless (is_empty auth_method || is_valid_server_auth_method auth_method)
                (codes "auth_method") (codes "invalid value")))
    (rows, total) ← list p (filter_of i environment protocol auth_method)
    pure (record {
      items = map to_server_view rows;
      pagination = pagination_of (clamp_page i.page) (clamp_size i.page_size) total;
    })

  unfoldable pub delete_server : Bytes → Action (World S) DeleteServerOutput
  unfolding soft_delete
  delete_server id = do
    require_id (codes "id") id
    at ← soft_delete p id
    pure (record { id = id; deleted_at = at })
