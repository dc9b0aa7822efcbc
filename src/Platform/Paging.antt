-- ===== src/Platform/Paging.antt =====
-- The paging of `ListRegistries` and `ListServers`, which have one text: the page and its size from
-- the request, the offset in 64 bits, and the number of pages.
use dijex_api.Prelude.{ℕ, zero, suc, ◌+◌, ◌-◌, ◌*◌, ◌/◌, ◌%◌, ◌^◌, ltb, ◌==◌, if◌then◌else◌}
use dijex_api.Prelude.Int.{ℤ, pos, negsuc}
use dijex_api.Registry.Types.{Pagination}

abbrev pub default_page_size : ℕ
default_page_size = 20

abbrev pub max_page_size : ℕ
max_page_size = 100

unfoldable pub clamp_page : ℤ → ℕ
clamp_page (pos zero) = 1
clamp_page (pos (suc n)) = suc n
clamp_page (negsuc n) = 1

unfoldable pub clamp_size : ℤ → ℕ
clamp_size (pos zero) = default_page_size
clamp_size (pos (suc n)) = if ltb max_page_size (suc n) then max_page_size else suc n
clamp_size (negsuc n) = default_page_size

-- The value of an `int` of 64 bits behind an operation that may overflow.
unfoldable pub int64 : ℕ → ℤ
int64 n = let m = n % 2 ^ 64 in if ltb m (2 ^ 63) then pos m else negsuc (2 ^ 64 - 1 - m)

-- `(page - 1) * size`
unfoldable pub offset_of : ℕ → ℕ → ℤ
unfolding int64
offset_of page size = int64 ((page - 1) * size)

unfoldable pub total_pages_of : ℕ → ℕ → ℕ
total_pages_of total size = if total == 0 then 0 else (total + size - 1) / size

abbrev pub pagination_of : ℕ → ℕ → ℕ → Pagination
unfolding total_pages_of
pagination_of page size total = record {
  page = page;
  page_size = size;
  total = total;
  total_pages = total_pages_of total size;
}
