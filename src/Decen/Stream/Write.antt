-- ===== src/Decen/Stream/Write.antt =====
-- The actions of the producer keep the invariant of a stream.
use lpel.Base.{
  ℕ, ◌<◌, ◌≡◌, ◌≢◌, refl, sym, ◌∙◌, arith, Bool, false, some, List, [], ◌∷◌, ◌++◌, append-nil,
  append_assoc, Ptr, null, ◌==◌, length, lt→ltb, le→ltb_false, ==_of_ne, ◌⊎◌, length-append, dec_lt,
  Bool-cases, inl, inr,
}
use lpel.Base.Sem.{decr, incr}
use lpel.Base.Run.{ok, ◌>>=◌}
use lpel.Decen.Buffer.{Buffer}
use lpel.Decen.Buffer.Refine.{Holds, is_space_lem, put-append}
use lpel.Decen.Stream.{
  Writer, Reader, System, begin_write, try_write, write_acquire, write_block, write_store,
  write_release, wake_reader,
}
use lpel.Decen.Stream.Inv.{Inv, Keeps, ReaderFits, in_flight}

ReaderFits-append :
    (q : List Ptr) (x : Ptr) (r : Reader) → ReaderFits r q → ReaderFits r (q ++ (x ∷ []))
ReaderFits-append [] x (Reader.topped y) h = absurd (h.1 (sym h.0))
ReaderFits-append (z ∷ q) x (Reader.topped y) h = h
ReaderFits-append q x Reader.idle h = tt
ReaderFits-append q x Reader.started h = tt
ReaderFits-append q x Reader.blocked h = tt
ReaderFits-append q x Reader.granted h = tt
ReaderFits-append q x (Reader.popped y) h = tt
ReaderFits-append q x (Reader.waking y) h = tt

-- The sequence of items, with the newest one behind all others.
regroup :
    (a b c : List Ptr) (x : Ptr) → (a ++ (b ++ (c ++ []))) ++ (x ∷ []) ≡ a ++ (b ++ (c ++ (x ∷ [])))
regroup a b c x = simp (append-nil, append_assoc)

module _ {n : ℕ} {s : System} {q : List Ptr} (v : Inv n s q) where
  pub write_acquire-Inv : (x : Ptr) → s.writer ≡ Writer.started x → Inv n (write_acquire x s) q
  unfolding write_acquire decr
  write_acquire-Inv x e = ground arith

  pub write_block-Inv : (x : Ptr) → s.writer ≡ Writer.blocked x → Keeps n (ok (write_block x s))
  unfolding write_block
  write_block-Inv x e = elim (Bool-cases (s.writer_wake == 0)) [
    | inl z ↦ rw z tt
    | inr z ↦ rw z (q, ground arith)
  ]

  pub write_release-Inv : (b : Bool) → s.writer ≡ Writer.stored b → Inv n (write_release b s) q
  unfolding write_release incr
  write_release-Inv b e = ground arith

  pub wake_reader-Inv : s.writer ≡ Writer.waking → Inv n (wake_reader s) q
  unfolding wake_reader
  wake_reader-Inv e = ground arith

  pub stored-Inv :
      (x : Ptr) (buf : Buffer)
      → s.writer ≡ Writer.granted x
      → Holds buf (q ++ (x ∷ []))
      → buf.size ≡ s.stream.buffer.size
      → Inv n
          (record s {
            stream = record (s.stream) { buffer = buf; is_poll = false };
            writer = Writer.stored false;
          })
          (q ++ (x ∷ []))
  stored-Inv x buf e held size = record {
    holds = held;
    size = size ∙ v.size;
    n_count = ground (arith, length-append q (x ∷ []), v.n_count);
    e_count = ground (arith, length-append q (x ∷ []), v.e_count);
    n_wait = ground (arith, v.n_wait);
    e_wait = ground (arith, v.e_wait);
    no_poll = refl;
    prod_mode = v.prod_mode;
    cons_mode = v.cons_mode;
    writer_fits = refl;
    reader_fits = ReaderFits-append q x s.reader v.reader_fits;
    order = rw append-nil (v.order ∙ rw e);
  }

  pub write_store-Inv :
      (x : Ptr) → s.writer ≡ Writer.granted x → Keeps n (write_store x s >>= λ t. ok (some t))
  unfolding write_store
  write_store-Inv x e =
      let room : length q < s.stream.buffer.size = ground arith in
      let (buf, put, held, size) = put-append v.holds x (ground arith) room in
      rw (is_space_lem v.holds, lt→ltb _ _ room, put, v.no_poll)
        (q ++ (x ∷ []), stored-Inv x buf e held size)

  -- A call of `LpelStreamWrite`, from outside or from `LpelStreamTryWrite`.
  pub started-Inv :
      (w : Writer) (x : Ptr)
      → s.writer ≡ w
      → (w ≡ Writer.idle) ⊎ (w ≡ Writer.trying x)
      → x ≢ null
      → Inv n (record s { writer = Writer.started x; sent = s.sent ++ (x ∷ []) }) q
  started-Inv w x e h ne = ground (arith, regroup s.received (in_flight s.reader) q x)

  pub try_write-Inv :
      (x : Ptr) → s.writer ≡ Writer.trying x → Keeps n (try_write x s >>= λ t. ok (some t))
  unfolding try_write begin_write
  try_write-Inv x e = rw (is_space_lem v.holds) (elim (dec_lt (length q) s.stream.buffer.size) [
    | yes p ↦
        rw (lt→ltb _ _ p, v.prod_mode, ==_of_ne x null (ground arith))
          (q, started-Inv (Writer.trying x) x e (inr refl) (ground arith))
    | no p ↦ rw (le→ltb_false (length q) s.stream.buffer.size (omega arith)) (q, ground arith)
  ])
