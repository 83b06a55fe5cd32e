-- ===== src/Hierarchy/Task/Level.antt =====
-- LpelStreamFillLevel of hrc_stream.c.
use lpel.Base.{
  ltb→lt, ℕ, ◌+◌, ◌-◌, ◌%◌, ◌^◌, ◌<◌, ◌≤◌, ◌≡◌, ◌≢◌, refl, arith, true, null, ltb, lt→ltb, ==_of_ne,
}
use lpel.Base.Int.{pos}
use lpel.Hierarchy.Task.{Tasks, fill_level}

abbrev word : ℕ → ℕ
word n = n % 2 ^ 32

word_difference :
    (w r : ℕ) → r ≤ w → ltb (w - r) (2 ^ 31) ≡ true → word (word w + (2 ^ 32 - word r)) ≡ w - r
word_difference w r h k = omega (arith, ltb→lt (w - r) (2 ^ 31) k)

module _ {D : Type 0} (m : Tasks D) where
  -- The fill level of a stream whose counters started at zero is the number of items that were
  -- written and not yet read, also after the 32-bit counters have wrapped around, as long as that
  -- number is below 2 ^ 31.
  pub fill_level_counts :
      (s w r : ℕ)
      → s ≢ null
      → m.write_cnt s ≡ w % 2 ^ 32
      → m.read_cnt s ≡ r % 2 ^ 32
      → r ≤ w
      → w - r < 2 ^ 31
      → fill_level m s ≡ pos (w - r)
  unfolding fill_level
  fill_level_counts s w r nn ew er h k =
      let small = lt→ltb (w - r) (2 ^ 31) k in
      rw (==_of_ne s null nn, ew, er, word_difference w r h small, small) refl
