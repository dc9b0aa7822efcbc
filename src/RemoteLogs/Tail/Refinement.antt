-- ===== src/RemoteLogs/Tail/Refinement.antt =====
-- The bounded buffer against the stream itself: it holds the last bytes of all that was written.
use dijex_api.Prelude.{
  ℕ, ◌+◌, ◌-◌, ◌≤◌, ◌<◌, ◌≡◌, refl, sym, ap, ◌∙◌, true, false, List, [], ◌∷◌, ◌++◌, append-nil,
  append_assoc, arith, length, drop, drop-append, drop_past, drop_congr, drop-drop, drop-nil,
  length-append, length-drop, leb, ltb, Bool-cases, inl, inr, leb→le,
}
use dijex_api.Text.{Bytes}
use dijex_api.RemoteSession.{stream}
use dijex_api.RemoteLogs.Tail.{TailWriter, new_tail_writer, write, write_all}

-- The last `n` bytes of a stream, or all of it.
abbrev pub last : ℕ → Bytes → Bytes
last n s = drop (length s - n) s

-- A writer that has taken the stream `s`.
pub record Holds (s : Bytes) (w : TailWriter) : Type 0 where
  pub tail : w.buf ≡ last w.max s
  pub counted : w.total ≡ length s
  pub cut : w.max < length s → w.truncated ≡ true
  pub uncut : length s < w.max → w.truncated ≡ false

last-long : (n : ℕ) (s p : Bytes) → n ≤ length p → last n (s ++ p) ≡ last n p
last-long n s p h =
    drop_past (length (s ++ p) - n) s p (omega (arith, length-append s p))
    ∙ drop_congr (length (s ++ p) - n - length s) (length p - n) p
        (omega (arith, length-append s p))

last-append : (n : ℕ) (s p : Bytes) → length p ≤ n → last n (s ++ p) ≡ last (n - length p) s ++ p
last-append n s p h =
    drop-append (length (s ++ p) - n) s p (omega (arith, length-append s p))
    ∙ ap (λ t. t ++ p)
        (drop_congr (length (s ++ p) - n) (length s - (n - length p)) s
          (omega (arith, length-append s p)))

last-last : (m n : ℕ) (s : Bytes) → m ≤ n → last m (last n s) ≡ last m s
last-last m n s h =
    drop-drop (length (last n s) - m) (length s - n) s
    ∙ drop_congr (length s - n + (length (last n s) - m)) (length s - m) s
        (omega (arith, length-drop (length s - n) s))

last-all : (n : ℕ) (s : Bytes) → length s ≤ n → last n s ≡ s
last-all n s h = drop_congr (length s - n) 0 s (omega arith)

empty-nil : (p : Bytes) → length p ≤ 0 → p ≡ []
empty-nil [] h = refl
empty-nil (c ∷ p) h = absurd (omega arith)

module _ (s p : Bytes) (w : TailWriter) where
  -- the buffer when old bytes are pushed out
  shifted :
      w.buf ≡ last w.max s
      → length p ≤ w.max
      → drop (length w.buf - (w.max - length p)) w.buf ++ p ≡ last w.max (s ++ p)
  shifted h k =
      ap (λ b. last (w.max - length p) b ++ p) h
      ∙ ap (λ t. t ++ p) (last-last (w.max - length p) w.max s (omega arith))
      ∙ sym (last-append w.max s p k)

  -- the buffer when the chunk fits
  extended :
      w.buf ≡ last w.max s
      → length w.buf + length p ≤ w.max
      → 0 < length p
      → w.buf ++ p ≡ last w.max (s ++ p)
  extended h k pos_p =
      let len : length w.buf ≡ length s - (length s - w.max) =
        ap length h ∙ length-drop (length s - w.max) s in
      ap (λ b. b ++ p) h
      ∙ ap (λ t. t ++ p)
          (last-all w.max s (omega arith) ∙ sym (last-all (w.max - length p) s (omega arith)))
      ∙ sym (last-append w.max s p (omega arith))

  write-buf : w.buf ≡ last w.max s → (write p w).buf ≡ last w.max (s ++ p)
  unfolding write
  write-buf h = elim (Bool-cases (leb (length p) 0)) [
    | inl empty ↦ rw (empty, empty-nil p (leb→le _ _ empty), append-nil) h
    | inr some_bytes ↦ elim (Bool-cases (leb w.max (length p))) [
      | inl long ↦ rw (some_bytes, long) (sym (last-long w.max s p (leb→le _ _ long)))
      | inr short ↦ elim (Bool-cases (ltb w.max (length w.buf + length p))) [
        | inl over ↦ rw (some_bytes, short, over) (shifted h (ground arith))
        | inr fits ↦ rw (some_bytes, short, fits) (extended h (ground arith) (ground arith))
      ]
    ]
  ]

  write-max : (write p w).max ≡ w.max
  unfolding write
  write-max = ground arith

  write-total : (write p w).total ≡ w.total + length p
  unfolding write
  write-total = ground arith

  -- the flag after one write
  write-truncated :
      Holds s w
      → (w.max < length s + length p → (write p w).truncated ≡ true)
        × (length s + length p < w.max → (write p w).truncated ≡ false)
  unfolding write
  write-truncated h =
      let len : length w.buf ≡ length s - (length s - w.max) =
        ap length h.tail ∙ length-drop (length s - w.max) s in
      (λ k. ground (arith, len), λ k. ground (arith, len))

  write-Holds : Holds s w → Holds (s ++ p) (write p w)
  write-Holds h =
      let flag = write-truncated h in
      record {
        tail = rw write-max (write-buf h.tail);
        counted = omega (arith, write-total, h.counted, length-append s p);
        cut = rw (write-max, length-append) (flag.0);
        uncut = rw (write-max, length-append) (flag.1);
      }

new-Holds : (max : ℕ) → Holds [] (new_tail_writer max)
unfolding new_tail_writer
new-Holds max = record {
  tail = sym (drop-nil (0 - max));
  counted = refl;
  cut = λ h. absurd (omega arith);
  uncut = λ h. refl;
}

new-max : (max : ℕ) → (new_tail_writer max).max ≡ max
unfolding new_tail_writer
new-max max = refl

write_all-Holds :
    (ps : List Bytes) (s : Bytes) (w : TailWriter)
    → Holds s w
    → Holds (s ++ stream ps) (write_all ps w)
unfolding write_all
write_all-Holds [] s w h = rw append-nil h
write_all-Holds (p ∷ ps) s w h =
    rw (← append_assoc s p (stream ps))
      (write_all-Holds ps (s ++ p) (write p w) (write-Holds s p w h))

write_all-max : (ps : List Bytes) (w : TailWriter) → (write_all ps w).max ≡ w.max
unfolding write_all
write_all-max [] w = refl
write_all-max (p ∷ ps) w = write_all-max ps (write p w) ∙ write-max [] p w

-- However the stream is cut into writes, the buffer ends as its last `max` bytes (all of it, if it
-- is no longer), `Total` as its length, and `Truncated` as true if it is longer than `max` and as
-- false if it is shorter.
pub write_all-last :
    (max : ℕ) (ps : List Bytes)
    → let w = write_all ps (new_tail_writer max) in
      (w.buf ≡ last max (stream ps))
      × (w.total ≡ length (stream ps))
      × (max < length (stream ps) → w.truncated ≡ true)
      × (length (stream ps) < max → w.truncated ≡ false)
write_all-last max ps =
    let h = write_all-Holds ps [] (new_tail_writer max) (new-Holds max) in
    let m : (write_all ps (new_tail_writer max)).max ≡ max =
      write_all-max ps (new_tail_writer max) ∙ new-max max in
    (rw m at h.tail, h.counted, rw m at h.cut, rw m at h.uncut)

-- The buffer never outgrows its bound.
pub write_all-bound :
    (max : ℕ) (ps : List Bytes) → length (write_all ps (new_tail_writer max)).buf ≤ max
write_all-bound max ps =
    omega (
      arith,
      ap length (write_all-last max ps).0,
      length-drop (length (stream ps) - max) (stream ps),
    )
