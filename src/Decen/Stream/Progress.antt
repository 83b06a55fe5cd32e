-- ===== src/Decen/Stream/Progress.antt =====
-- When a producer and a consumer have no action to make, and when a write blocks.
use lpel.Decen.Buffer.Refine.{is_empty_lem, is_space_lem}
use lpel.Decen.Stream.Inv.{Inv}
use lpel.Base.Run.{out_of_fuel, assert_failed, fault, ◌>>=◌, ok, Run}
use lpel.Decen.Stream.{
  write_block, write_acquire, begin_write, reader_step, try_write, writer_step, system, Reach, pos,
  create, writer_at, reader_at, Stream, Reader, Writer, System,
}
use lpel.Base.{
  ==_of_ne, lt→ltb, null, ◌≢◌, [], ◌∷◌, ◌++◌, length, ap, ==→eq, Bool-cases, ◌∙◌, inr, true, ◌==◌,
  some, inl, false, Option, none, Ptr, ◌^◌, ◌<◌, ◌⊎◌, List, ℕ, ◌≡◌, refl, arith,
}
use lpel.Decen.Stream.Facts.{safe}
use lpel.Decen.Buffer

bind-ne-none : (r : Run System) → ◌>>=◌ {B = Option System} r (λ t. ok (some t)) ≡ ok none → ⊥
bind-ne-none (ok t) e = cc
bind-ne-none assert_failed e = cc
bind-ne-none fault e = cc
bind-ne-none out_of_fuel e = cc

-- A producer without an action is outside, or it waits and has not been woken up.
abbrev WriterRests : Writer → System → Type 0
WriterRests w s = (w ≡ Writer.idle) ⊎ ((x : Ptr) × (w ≡ Writer.blocked x) × (s.writer_wake ≡ 0))

writer_at_rests : (w : Writer) (s : System) → writer_at w s ≡ ok none → WriterRests w s
unfolding writer_at
writer_at_rests Writer.idle s e = inl refl
writer_at_rests (Writer.trying x) s e = absurd (bind-ne-none _ e)
writer_at_rests (Writer.started x) s e = cc
writer_at_rests (Writer.blocked x) s e = elim (Bool-cases (s.writer_wake == 0)) [
  | inl z ↦ inr (x, refl, ==→eq _ _ z)
  | inr z ↦ absurd (woken z)
]
  where
    woken : (s.writer_wake == 0) ≡ false → ⊥
    woken z = ground (arith, e)
writer_at_rests (Writer.granted x) s e = absurd (bind-ne-none _ e)
writer_at_rests (Writer.stored b) s e = cc
writer_at_rests Writer.waking s e = cc
writer_at_rests Writer.waking_poll s e = cc

abbrev ReaderRests : Reader → System → Type 0
ReaderRests r s = (r ≡ Reader.idle) ⊎ ((r ≡ Reader.blocked) × (s.reader_wake ≡ 0))

reader_at_rests : (r : Reader) (s : System) → reader_at r s ≡ ok none → ReaderRests r s
unfolding reader_at
reader_at_rests Reader.idle s e = inl refl
reader_at_rests Reader.started s e = cc
reader_at_rests Reader.blocked s e = elim (Bool-cases (s.reader_wake == 0)) [
  | inl z ↦ inr (refl, ==→eq _ _ z)
  | inr z ↦ absurd (woken z)
]
  where
    woken : (s.reader_wake == 0) ≡ false → ⊥
    woken z = ground (arith, e)
reader_at_rests Reader.granted s e = absurd (bind-ne-none _ e)
reader_at_rests (Reader.topped x) s e = absurd (bind-ne-none _ e)
reader_at_rests (Reader.popped x) s e = cc
reader_at_rests (Reader.waking x) s e = cc

-- Outside: no call is under way. A full buffer: the producer waits, and no read is under way.
-- An empty one: the consumer waits, and no write is under way.
abbrev pub Rests : System → Type 0
Rests s =
    ((s.writer ≡ Writer.idle) × (s.reader ≡ Reader.idle))
    ⊎ (((x : Ptr) × (s.writer ≡ Writer.blocked x)
          × (s.reader ≡ Reader.idle)
          × (Buffer.is_space s.stream.buffer ≡ ok false))
        ⊎ ((s.writer ≡ Writer.idle)
            × (s.reader ≡ Reader.blocked)
            × (Buffer.is_empty s.stream.buffer ≡ ok true)))

module _ {n : ℕ} {s : System} {q : List Ptr} (v : Inv n s q) where
  full_when_blocked :
      (x : Ptr)
      → s.writer ≡ Writer.blocked x
      → s.writer_wake ≡ 0
      → s.reader ≡ Reader.idle
      → Buffer.is_space s.stream.buffer ≡ ok false
  full_when_blocked x e z r = is_space_lem v.holds ∙ ap ok (ground (arith, v.e_count, v.e_wait))

  empty_when_blocked :
      s.writer ≡ Writer.idle
      → s.reader ≡ Reader.blocked
      → s.reader_wake ≡ 0
      → Buffer.is_empty s.stream.buffer ≡ ok true
  empty_when_blocked e r z = is_empty_lem v.holds ∙ ap ok (ground (arith, v.n_count, v.n_wait))

  not_both_blocked :
      (x : Ptr)
      → s.writer ≡ Writer.blocked x
      → s.writer_wake ≡ 0
      → s.reader ≡ Reader.blocked
      → s.reader_wake ≡ 0
      → ⊥
  not_both_blocked x e z r z' =
      ground (arith, v.e_count, v.e_wait, v.n_count, v.n_wait, v.holds.read_in)

  rests : WriterRests s.writer s → ReaderRests s.reader s → Rests s
  rests (inl e) (inl r) = inl (e, r)
  rests (inl e) (inr (r, z)) = inr (inr (e, r, empty_when_blocked e r z))
  rests (inr (x, e, z)) (inl r) = inr (inl (x, e, r, full_when_blocked x e z r))
  rests (inr (x, e, z)) (inr (r, z')) = absurd (not_both_blocked x e z r z')

module _ (n : ℕ) {st : Stream} {s : System} (small : n < 2 ^ 31) (new : create (pos n) ≡ ok st)
    (run : Reach (system st) s) where
  -- On a stream created for fewer than 2^31 items the producer and the consumer are without an
  -- action together only if no call is under way, or a write waits on a full buffer with no read
  -- under way, or a read waits on an empty buffer with no write under way: no wakeup is lost and
  -- neither waits for the other.
  pub steps_rest : writer_step s ≡ ok none → reader_step s ≡ ok none → Rests s
  unfolding writer_step reader_step
  steps_rest w r =
      rests ((safe n small new run).1) (writer_at_rests s.writer s w) (reader_at_rests s.reader s r)

  -- On a stream created for fewer than 2^31 items, between the consumer's removal of an item and
  -- its V(e_sem), a `LpelStreamTryWrite` at `e_sem` 0 finds space and then waits in
  -- `LpelStreamWrite`.
  pub try_write_blocks :
      (x y : Ptr)
      → s.writer ≡ Writer.trying x
      → s.reader ≡ Reader.popped y
      → s.stream.e_sem ≡ pos 0
      → (t u : System) × (writer_step s ≡ ok (some t))
        × (writer_step t ≡ ok (some u))
        × (u.writer ≡ Writer.blocked x)
        × (writer_step u ≡ ok none)
  unfolding writer_step writer_at try_write begin_write write_acquire write_block
  try_write_blocks x y w r e =
      let (q, v) = safe n small new run in
      let room : length q < s.stream.buffer.size = ground (arith, v.e_count, v.e_wait) in
      let t : System = record s { writer = Writer.started x; sent = s.sent ++ (x ∷ []) } in
      let ne : x ≢ null = ground (arith, v.writer_fits) in
      let quiet : s.writer_wake ≡ 0 = ground (arith, v.e_wait) in
      (
        t,
        write_acquire x t,
        ap (λ k. writer_at k s) w
            ∙ rw (is_space_lem v.holds, lt→ltb _ _ room, v.prod_mode, ==_of_ne x null ne),
        refl,
        rw e,
        ground arith,
      )
