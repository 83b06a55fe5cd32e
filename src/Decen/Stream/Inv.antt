-- ===== src/Decen/Stream/Inv.antt =====
-- The invariant of a stream and its two tasks.
use lpel.Base.{
  true, ◌==◌, ℕ, ◌+◌, ◌≡◌, ◌≢◌, false, Option, none, some, List, [], ◌∷◌, ◌++◌, Ptr, null, length,
  head_or,
}
use lpel.Base.Int.{pos_part, neg_part}
use lpel.Base.Run.{out_of_fuel, Run, ok, assert_failed, fault}
use lpel.Decen.Buffer.Refine.{Holds}
use lpel.Decen.Stream.{Writer, Reader, System}

-- The item that a producer has handed to `LpelStreamWrite` and not yet stored.
abbrev pub pending : Writer → List Ptr
pending Writer.idle = []
pending (Writer.trying x) = []
pending (Writer.started x) = x ∷ []
pending (Writer.blocked x) = x ∷ []
pending (Writer.granted x) = x ∷ []
pending (Writer.stored b) = []
pending Writer.waking = []
pending Writer.waking_poll = []

-- The item that a consumer has taken out and not yet returned.
abbrev pub in_flight : Reader → List Ptr
in_flight Reader.idle = []
in_flight Reader.started = []
in_flight Reader.blocked = []
in_flight Reader.granted = []
in_flight (Reader.topped x) = []
in_flight (Reader.popped x) = x ∷ []
in_flight (Reader.waking x) = x ∷ []

-- Has the producer passed P(e_sem) and not yet stored its item?
abbrev pub claimed : Writer → ℕ
claimed Writer.idle = 0
claimed (Writer.trying x) = 0
claimed (Writer.started x) = 0
claimed (Writer.blocked x) = 1
claimed (Writer.granted x) = 1
claimed (Writer.stored b) = 0
claimed Writer.waking = 0
claimed Writer.waking_poll = 0

-- Has it stored its item and not yet passed V(n_sem)?
abbrev pub unannounced : Writer → ℕ
unannounced (Writer.stored b) = 1
unannounced _ = 0

-- Has the consumer passed P(n_sem) and not yet taken its item?
abbrev pub taking : Reader → ℕ
taking Reader.idle = 0
taking Reader.started = 0
taking Reader.blocked = 1
taking Reader.granted = 1
taking (Reader.topped x) = 1
taking (Reader.popped x) = 0
taking (Reader.waking x) = 0

-- Has it taken its item and not yet passed V(e_sem)?
abbrev pub freeing : Reader → ℕ
freeing (Reader.popped x) = 1
freeing _ = 0

abbrev pub writer_waits : Writer → ℕ
writer_waits (Writer.blocked x) = 1
writer_waits _ = 0

abbrev pub writer_wakes : Writer → ℕ
writer_wakes Writer.waking = 1
writer_wakes _ = 0

abbrev pub reader_waits : Reader → ℕ
reader_waits Reader.blocked = 1
reader_waits _ = 0

abbrev pub reader_wakes : Reader → ℕ
reader_wakes (Reader.waking x) = 1
reader_wakes _ = 0

-- What a position of the producer promises: its item is not NULL, and no consumer polls.
abbrev pub WriterFits : Writer → Type 0
WriterFits Writer.idle = Unit
WriterFits (Writer.trying x) = x ≢ null
WriterFits (Writer.started x) = x ≢ null
WriterFits (Writer.blocked x) = x ≢ null
WriterFits (Writer.granted x) = x ≢ null
WriterFits (Writer.stored b) = b ≡ false
WriterFits Writer.waking = Unit
WriterFits Writer.waking_poll = ⊥

-- Between `LpelBufferTop` and `LpelBufferPop` the consumer's item is the oldest one, not NULL.
abbrev pub ReaderFits : Reader → List Ptr → Type 0
ReaderFits (Reader.topped x) q = (head_or q null ≡ x) × (x ≢ null)
ReaderFits _ q = Unit

-- The system holds the items `q` in its buffer of `n` slots.
pub record Inv (n : ℕ) (s : System) (q : List Ptr) : Type 0 where
  pub holds : Holds s.stream.buffer q
  pub size : s.stream.buffer.size ≡ n
  -- the semaphores count the items, and the free slots
  pub n_count :
      pos_part s.stream.n_sem + unannounced s.writer + taking s.reader
      ≡ length q + neg_part s.stream.n_sem
  pub e_count :
      pos_part s.stream.e_sem + claimed s.writer + freeing s.reader + length q
      ≡ s.stream.buffer.size + neg_part s.stream.e_sem
  -- a blocked task has a semaphore at -1, or is about to be woken up, or has been: one of them
  pub n_wait :
      neg_part s.stream.n_sem + s.reader_wake + writer_wakes s.writer ≡ reader_waits s.reader
  pub e_wait :
      neg_part s.stream.e_sem + s.writer_wake + reader_wakes s.reader ≡ writer_waits s.writer
  pub no_poll : s.stream.is_poll ≡ false
  pub prod_mode : (s.prod_mode == b'w') ≡ true
  pub cons_mode : (s.cons_mode == b'r') ≡ true
  pub writer_fits : WriterFits s.writer
  pub reader_fits : ReaderFits s.reader q
  pub order : s.sent ≡ s.received ++ (in_flight s.reader ++ (q ++ pending s.writer))

abbrev pub Safe : ℕ → System → Type 0
Safe n s = (q : List Ptr) × Inv n s q

-- An action makes no failed assertion and no fault, and leaves the invariant.
abbrev pub Keeps : ℕ → Run (Option System) → Type 0
Keeps n (ok none) = Unit
Keeps n (ok (some t)) = Safe n t
Keeps n assert_failed = ⊥
Keeps n fault = ⊥
Keeps n out_of_fuel = ⊥
