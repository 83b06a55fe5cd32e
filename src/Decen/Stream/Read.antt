-- ===== src/Decen/Stream/Read.antt =====
-- The actions of the consumer keep the invariant of a stream.
use lpel.Base.{
  ◌∙◌, ℕ, ◌<◌, ◌≡◌, ◌≢◌, sym, arith, some, List, [], ◌∷◌, ◌++◌, append_assoc, Ptr, null, ◌==◌,
  length, ==_of_ne, Bool-cases, inl, inr, head_or,
}
use lpel.Base.Sem.{decr, incr}
use lpel.Base.Run.{ok, ◌>>=◌}
use lpel.Decen.Buffer.Refine.{AllItems, top-head_or, pop-tail}
use lpel.Decen.Stream.{
  Reader, System, read_acquire, read_block, read_top, read_pop, read_release, wake_writer,
}
use lpel.Decen.Stream.Inv.{Inv, Keeps, ReaderFits, pending}

head_or-ne : (q : List Ptr) → AllItems q → 0 < length q → head_or q null ≢ null
head_or-ne [] all h = absurd (omega arith)
head_or-ne (x ∷ q) all h = all.0

module _ {n : ℕ} {s : System} {q : List Ptr} (v : Inv n s q) where
  pub read_acquire-Inv : s.reader ≡ Reader.started → Inv n (read_acquire s) q
  unfolding read_acquire decr
  read_acquire-Inv e = ground arith

  pub read_block-Inv : s.reader ≡ Reader.blocked → Keeps n (ok (read_block s))
  unfolding read_block
  read_block-Inv e = elim (Bool-cases (s.reader_wake == 0)) [
    | inl z ↦ rw z tt
    | inr z ↦ rw z (q, ground arith)
  ]

  pub read_release-Inv : (x : Ptr) → s.reader ≡ Reader.popped x → Inv n (read_release x s) q
  unfolding read_release incr
  read_release-Inv x e = ground (arith, append_assoc s.received (x ∷ []) (q ++ pending s.writer))

  pub wake_writer-Inv : (x : Ptr) → s.reader ≡ Reader.waking x → Inv n (wake_writer x s) q
  unfolding wake_writer
  wake_writer-Inv x e = ground (arith, append_assoc s.received (x ∷ []) (q ++ pending s.writer))

  pub read_top-Inv : s.reader ≡ Reader.granted → Keeps n (read_top s >>= λ t. ok (some t))
  unfolding read_top
  read_top-Inv e =
      let some_item : 0 < length q = ground arith in
      let ne : head_or q null ≢ null = head_or-ne q v.holds.items some_item in
      rw (top-head_or v.holds, ==_of_ne (head_or q null) null ne) (q, ground arith)

-- `LpelBufferPop` drops the item that `LpelBufferTop` returned.
pub read_pop-Inv :
    {n : ℕ} {s : System} (q : List Ptr) (x : Ptr)
    → Inv n s q
    → s.reader ≡ Reader.topped x
    → Keeps n (read_pop x s >>= λ t. ok (some t))
unfolding read_pop
read_pop-Inv [] x v e =
    let fits : ReaderFits (Reader.topped x) [] = rw e at v.reader_fits in
    absurd (fits.1 (sym fits.0))
read_pop-Inv {s} (y ∷ q) x v e =
    let (buf, pop, held, size) = pop-tail v.holds in
    rw pop (
      q,
      record {
        holds = held;
        size = size ∙ v.size;
        n_count = ground (arith, v.n_count);
        e_count = ground (arith, v.e_count);
        n_wait = ground (arith, v.n_wait);
        e_wait = ground (arith, v.e_wait);
        no_poll = v.no_poll;
        prod_mode = v.prod_mode;
        cons_mode = v.cons_mode;
        writer_fits = v.writer_fits;
        reader_fits = tt;
        order = ground (arith, v.order, v.reader_fits);
      },
    )
