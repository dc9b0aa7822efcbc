-- ===== src/Platform/Pages.antt =====
-- The page that a request gets.
use dijex_api.Prelude.{ℕ, List, if◌then◌else◌, ◌==◌, ltb}
use dijex_api.Prelude.Int.{ℤ}
use dijex_api.Text.{Bytes}
use dijex_api.Action.{Reply}
use dijex_api.Platform.{page_of}
use dijex_api.Platform.Paging.{clamp_page, clamp_size, offset_of}

-- The size of a page that asks for `size` rows: 20 if it asks for none, at most 100.
abbrev pub shown : ℕ → ℕ
shown size = if size == 0 then 20 else if ltb 100 size then 100 else size

module _ {W A : Type 0} (what : Bytes) (rows : List A) (w : W) where
  -- What the database answers to a request for a page.
  abbrev pub page_shown : ℤ → ℤ → W × Reply (List A)
  page_shown page size =
      page_of what (clamp_size size) (offset_of (clamp_page page) (clamp_size size)) rows w
