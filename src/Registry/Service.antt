-- ===== src/Registry/Service.antt =====
-- internal/service/registry_service.go: one action for each method that reads or changes the rows. The
-- entries of the log are left out.
use dijex_api.Prelude.{◌||◌, not, [], ◌++◌, map, Option, none, some, if◌then◌else◌}
use dijex_api.Text.{Bytes, codes, bytes_eq, is_empty, trim_space, to_upper, to_lower}
use dijex_api.Action.{Action, pure, prefixed, check, ◌>>=◌, ◌>>◌}
use dijex_api.Platform.{World, Platform, nil_uuid, require_id, from_env, encrypt_text}
use dijex_api.Platform.Rules.{unless}
use dijex_api.Platform.Paging.{clamp_page, clamp_size, offset_of, pagination_of}
use dijex_api.Registry.Types.{
  is_valid_registry_type, RegistryListFilter, CreateRegistryInput, CreateRegistryOutput,
  ListRegistriesInput, ListRegistriesOutput, UpdateRegistryInput, UpdateRegistryOutput,
  DeleteRegistryOutput,
}
use dijex_api.Registry.Table.{create, soft_delete, list, get_by_id, update}
use dijex_api.Registry.Validate.{
  type_message, validate_registry_fields, normalize_registry_input, normalize_update_registry_input,
}
use dijex_api.Registry.Views.{
  new_registry, created_output, item_of, changed_registry, updated_output,
}

module _ {S : Type 0} (p : Platform S) where
  -- A password is encrypted unless there is none.
  unfoldable pub encrypt_password : Bytes → Action (World S) Bytes
  unfolding encrypt_text
  encrypt_password password =
      if is_empty password
      then pure []
      else prefixed (codes "registry: encrypt password: ") (encrypt_text p password)

  unfoldable pub create_registry : CreateRegistryInput → Action (World S) CreateRegistryOutput
  unfolding encrypt_password create validate_registry_fields normalize_registry_input
  create_registry input = do
    let i = normalize_registry_input p input
    check (validate_registry_fields p.is_address i.name i.type i.url i.username i.email i.namespace)
    encrypted ← encrypt_password i.password
    now ← from_env p.clock
    id ← from_env p.new_uuid
    create p (new_registry i id encrypted now)
    pure (created_output (new_registry i id encrypted now))

  abbrev filter_of : ListRegistriesInput → Bytes → RegistryListFilter
  filter_of i type = record {
    type = type;
    is_active = i.is_active;
    is_default = i.is_default;
    search = trim_space i.search;
    limit = clamp_size i.page_size;
    offset = offset_of (clamp_page i.page) (clamp_size i.page_size);
    sort_by = i.sort_by;
    sort_desc = not (bytes_eq (to_lower p.unicode_lower i.order) (codes "asc"));
  }

  unfoldable pub list_registries : ListRegistriesInput → Action (World S) ListRegistriesOutput
  unfolding list clamp_page clamp_size offset_of
  list_registries i = do
    let type = to_upper p.unicode_upper (trim_space i.type)
    check (unless (is_empty type || is_valid_registry_type type) (codes "type") type_message)
    (rows, total) ← list p (filter_of i type)
    pure (record {
      items = map item_of rows;
      pagination = pagination_of (clamp_page i.page) (clamp_size i.page_size) total;
    })

  -- The password behind an update: `none` keeps the stored one.
  unfoldable pub resolve_password : Option Bytes → Bytes → Action (World S) Bytes
  unfolding encrypt_password
  resolve_password none stored = pure stored
  resolve_password (some password) stored = encrypt_password password

  unfoldable pub update_registry : UpdateRegistryInput → Action (World S) UpdateRegistryOutput
  unfolding resolve_password update get_by_id validate_registry_fields
      normalize_update_registry_input
  update_registry input = do
    let i = normalize_update_registry_input p input
    check (
        unless (not (bytes_eq i.id nil_uuid)) (codes "id") (codes "is required")
        ++ validate_registry_fields p.is_address i.name i.type i.url i.username i.email i.namespace)
    existing ← get_by_id p i.id
    encrypted ← resolve_password i.password existing.password_encrypted
    row ← update p (changed_registry i encrypted)
    pure (updated_output (changed_registry i encrypted) row)

  unfoldable pub delete_registry : Bytes → Action (World S) DeleteRegistryOutput
  unfolding soft_delete
  delete_registry id = do
    require_id (codes "id") id
    at ← soft_delete p id
    pure (record { id = id; deleted_at = at })
