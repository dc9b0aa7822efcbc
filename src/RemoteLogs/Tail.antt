-- ===== src/RemoteLogs/Tail.antt =====
-- internal/remotelogs/shell.go: `tailWriter`, which keeps the last bytes of a stream.
pub mod Refinement
use dijex_api.Prelude.{
  ℕ, ◌+◌, ◌-◌, Bool, true, false, List, [], ◌∷◌, ◌++◌, leb, ltb, if◌then◌else◌, length, take, drop,
}
use dijex_api.Text.{Bytes}

-- `Total` is an int64; a stream of 2 ^ 63 bytes is out of reach, so it does not wrap here.
pub record TailWriter : Type 0 where
  pub max : ℕ
  pub buf : Bytes
  pub truncated : Bool
  pub total : ℕ

unfoldable pub new_tail_writer : ℕ → TailWriter
new_tail_writer max = record { max = max; buf = []; truncated = false; total = 0 }

-- The three cases of `Write` that follow the sum: a chunk of at least `max` bytes, a chunk that
-- pushes old bytes out, a chunk that fits. `copy(w.buf, w.buf[len(w.buf)-keep:])` and the cut to
-- `keep` leave the last `keep` bytes.
unfoldable pub write : Bytes → TailWriter → TailWriter
write p w =
    let n = length p in
    let counted = record w { total = w.total + n } in
    let keep = w.max - n in
    if leb n 0
    then counted
    else if leb w.max n
    then record counted { buf = drop (n - w.max) p; truncated = true }
    else if ltb w.max (length w.buf + n)
    then record counted { buf = drop (length w.buf - keep) w.buf ++ p; truncated = true }
    else record counted { buf = w.buf ++ p }

-- The writes of a session, in order.
unfoldable pub write_all : List Bytes → TailWriter → TailWriter
unfolding write
write_all [] w = w
write_all (p ∷ ps) w = write_all ps (write p w)
