-- ===== src/Registry/Rows.antt =====
-- The conditions and the assignments in the statements of
-- internal/repository/postgres/registry_repository.go, with the constraints and the trigger of
-- migrations/000004_create_registries.up.sql.
use dijex_api.Prelude.{
  ℕ, Bool, false, ◌&&◌, ◌||◌, not, List, [], Option, none, some, if◌then◌else◌, is_some,
}
use dijex_api.Text.{Bytes, codes, bytes_eq}
use dijex_api.Platform.Rows.{update_where, has_row, text_is, flag_is, text_has, coalesce}
use dijex_api.Registry.Types.{Registry, RegistryListFilter}

abbrev pub is_live : Registry → Bool
is_live r = not (is_some r.deleted_at)

-- `WHERE id = $1 AND deleted_at IS NULL`
abbrev pub is_row : Bytes → Registry → Bool
is_row id r = bytes_eq r.id id && is_live r

-- `is_default = TRUE AND deleted_at IS NULL`
abbrev pub is_chosen : Registry → Bool
is_chosen r = r.is_default && is_live r

-- `SET is_default = FALSE`, with the trigger on `updated_at`.
abbrev unchoose : ℕ → Registry → Registry
unchoose now r = record r { is_default = false; updated_at = now }

-- `clearDefault` of `Create`.
unfoldable pub clear_default : ℕ → List Registry → List Registry
unfolding update_where
clear_default now rows = update_where is_chosen (unchoose now) rows

-- `clearDefault` of `Update`: `AND id <> $1`.
unfoldable pub clear_other_default : ℕ → Bytes → List Registry → List Registry
unfolding update_where
clear_other_default now id rows =
    update_where (λ r. is_chosen r && not (bytes_eq r.id id)) (unchoose now) rows

-- The primary key, the UNIQUE name, which deleted rows keep too, and the index
-- `idx_registries_single_default`.
unfoldable pub insert_clashes : Registry → List Registry → Bool
unfolding has_row
insert_clashes r rows =
    has_row (λ x. bytes_eq x.id r.id || bytes_eq x.name r.name) rows
    || (is_chosen r && has_row is_chosen rows)

-- The same for an UPDATE of the row with this id.
unfoldable pub update_clashes : Registry → List Registry → Bool
unfolding has_row
update_clashes r rows =
    has_row (λ x. not (bytes_eq x.id r.id) && bytes_eq x.name r.name) rows
    || (is_chosen r && has_row (λ x. not (bytes_eq x.id r.id) && is_chosen x) rows)

-- The row that the INSERT leaves: the columns that it does not name are NULL.
unfoldable pub inserted : Registry → Registry
inserted r = record r {
  last_checked_at = none;
  last_status = [];
  last_error = [];
  deleted_at = none;
}

-- The row that `Update` leaves in place of the one that it found.
unfoldable pub updated : ℕ → Registry → Registry → Registry
updated now r old = record old {
  name = r.name;
  type = r.type;
  url = r.url;
  username = r.username;
  password_encrypted = r.password_encrypted;
  email = r.email;
  namespace = r.namespace;
  is_default = r.is_default;
  is_active = r.is_active;
  insecure = r.insecure;
  updated_at = now;
}

unfoldable pub with_status : ℕ → Bytes → Bytes → ℕ → Option Bool → Registry → Registry
with_status now status err at set_active r = record r {
  last_checked_at = some at;
  last_status = status;
  last_error = err;
  is_active = coalesce set_active r.is_active;
  updated_at = now;
}

-- `SET deleted_at = NOW(), is_default = FALSE`
unfoldable pub deleted : ℕ → Registry → Registry
deleted now r = record r { deleted_at = some now; is_default = false; updated_at = now }

-- `registrySortColumn`
unfoldable pub sort_column : Bytes → Bytes
sort_column s =
    if bytes_eq s (codes "updated_at") || bytes_eq s (codes "name") || bytes_eq s (codes "type")
    then s
    else codes "created_at"

-- The WHERE of `List`.
unfoldable pub matches : (Bytes → Bytes → Bool) → RegistryListFilter → Registry → Bool
matches ilike f r =
    is_live r
    && text_is f.type r.type
    && flag_is f.is_active r.is_active
    && flag_is f.is_default r.is_default
    && text_has ilike f.search r.name
