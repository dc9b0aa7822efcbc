-- ===== src/Registry/Types.antt =====
-- internal/domain/registry.go, and the registries' part of internal/service/dto.go. The text of a
-- nullable column is empty where the column is NULL.
use dijex_api.Prelude.{ℕ, Bool, ◌||◌, List, Option}
use dijex_api.Prelude.Int.{ℤ}
use dijex_api.Text.{Bytes, codes, bytes_eq}

pub record Registry : Type 0 where
  pub id : Bytes
  pub name : Bytes
  pub type : Bytes
  pub url : Bytes
  pub username : Bytes
  pub password_encrypted : Bytes
  pub email : Bytes
  pub namespace : Bytes
  pub is_default : Bool
  pub is_active : Bool
  pub insecure : Bool
  pub last_checked_at : Option ℕ
  pub last_status : Bytes
  pub last_error : Bytes
  pub created_at : ℕ
  pub updated_at : ℕ
  pub deleted_at : Option ℕ

unfoldable pub is_valid_registry_type : Bytes → Bool
is_valid_registry_type t =
    bytes_eq t (codes "DOCKERHUB")
    || bytes_eq t (codes "GHCR")
    || bytes_eq t (codes "GITLAB")
    || bytes_eq t (codes "HARBOR")
    || bytes_eq t (codes "ECR")
    || bytes_eq t (codes "GENERIC")

pub record RegistryListFilter : Type 0 where
  pub type : Bytes
  pub is_active : Option Bool
  pub is_default : Option Bool
  pub search : Bytes
  pub limit : ℕ
  pub offset : ℤ
  pub sort_by : Bytes
  pub sort_desc : Bool

pub record CreateRegistryInput : Type 0 where
  pub name : Bytes
  pub type : Bytes
  pub url : Bytes
  pub username : Bytes
  pub password : Bytes
  pub email : Bytes
  pub namespace : Bytes
  pub is_default : Bool
  pub insecure : Bool

pub record CreateRegistryOutput : Type 0 where
  pub id : Bytes
  pub name : Bytes
  pub type : Bytes
  pub url : Bytes
  pub username : Bytes
  pub email : Bytes
  pub namespace : Bytes
  pub is_default : Bool
  pub is_active : Bool
  pub insecure : Bool
  pub has_credentials : Bool
  pub created_at : ℕ

pub record ListRegistriesInput : Type 0 where
  pub page : ℤ
  pub page_size : ℤ
  pub type : Bytes
  pub is_active : Option Bool
  pub is_default : Option Bool
  pub search : Bytes
  pub sort_by : Bytes
  pub order : Bytes

pub record RegistryItem : Type 0 where
  pub id : Bytes
  pub name : Bytes
  pub type : Bytes
  pub url : Bytes
  pub username : Bytes
  pub email : Bytes
  pub namespace : Bytes
  pub is_default : Bool
  pub is_active : Bool
  pub insecure : Bool
  pub has_credentials : Bool
  pub last_checked_at : Option ℕ
  pub last_status : Bytes
  pub created_at : ℕ
  pub updated_at : ℕ

pub record Pagination : Type 0 where
  pub page : ℕ
  pub page_size : ℕ
  pub total : ℕ
  pub total_pages : ℕ

pub record ListRegistriesOutput : Type 0 where
  pub items : List RegistryItem
  pub pagination : Pagination

-- The password: `none` keeps the stored one, the empty text clears it.
pub record UpdateRegistryInput : Type 0 where
  pub id : Bytes
  pub name : Bytes
  pub type : Bytes
  pub url : Bytes
  pub username : Bytes
  pub password : Option Bytes
  pub email : Bytes
  pub namespace : Bytes
  pub is_default : Bool
  pub is_active : Bool
  pub insecure : Bool

pub record UpdateRegistryOutput : Type 0 where
  pub id : Bytes
  pub name : Bytes
  pub type : Bytes
  pub url : Bytes
  pub username : Bytes
  pub email : Bytes
  pub namespace : Bytes
  pub is_default : Bool
  pub is_active : Bool
  pub insecure : Bool
  pub has_credentials : Bool
  pub created_at : ℕ
  pub updated_at : ℕ

pub record DeleteRegistryOutput : Type 0 where
  pub id : Bytes
  pub deleted_at : ℕ

-- `ConnectRegistryOutput` and `PingRegistryOutput`, which have the same fields.
pub record CheckRegistryOutput : Type 0 where
  pub id : Bytes
  pub connected : Bool
  pub authenticated : Bool
  pub status : Bytes
  pub message : Bytes
  pub api_version : Bytes
  pub is_active : Bool
  pub checked_at : ℕ

pub record ListRegistryImagesInput : Type 0 where
  pub id : Bytes
  pub namespace : Bytes

pub record RegistryImage : Type 0 where
  pub name : Bytes
  pub tags : List Bytes
  pub tag_count : ℤ
  pub description : Bytes
  pub is_private : Option Bool
  pub pull_count : Option ℤ
  pub star_count : Option ℤ
  pub last_updated : Bytes

pub record ListRegistryImagesOutput : Type 0 where
  pub registry_id : Bytes
  pub type : Bytes
  pub source : Bytes
  pub namespace : Bytes
  pub total : ℤ
  pub images : List RegistryImage
