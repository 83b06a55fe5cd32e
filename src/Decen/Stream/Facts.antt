-- ===== src/Decen/Stream/Facts.antt =====
-- What holds in every state that a producer and a consumer reach on a new stream.
use lpel.Base.{
  ==_of_ne, null, ℕ, ◌+◌, ◌^◌, ◌<◌, ◌≤◌, ◌≡◌, ◌≢◌, refl, subst, arith, Option, none, some, List, [],
  ◌++◌, Ptr, ◌==◌, if◌then◌else◌, length, length-append,
}
use lpel.Base.Int.{pos, pos_part, neg_part}
use lpel.Base.Run.{out_of_fuel, Run, ok, assert_failed, fault}
use lpel.Decen.Buffer.Refine.{init-Holds, size-init}
use lpel.Decen.Stream.{
  begin_read, begin_write, Stream, Writer, Reader, System, system, create, create_of,
  stream_buffer_size, writer_step, reader_step, Reach,
}
use lpel.Decen.Stream.Inv.{Safe, Keeps, pending, in_flight, writer_waits, reader_waits}
use lpel.Decen.Stream.Safe.{writer_step-Keeps, reader_step-Keeps, Reach-Safe}

create_of-Safe : (n : ℕ) → 0 < n → n < 2 ^ 32 → Safe n (system (create_of n))
unfolding system create_of
create_of-Safe n h k = (
  [],
  record {
    holds = init-Holds n h k;
    size = size-init n;
    n_count = refl;
    e_count = rw size-init (omega arith);
    n_wait = refl;
    e_wait = refl;
    no_poll = refl;
    prod_mode = refl;
    cons_mode = refl;
    writer_fits = tt;
    reader_fits = tt;
    order = refl;
  },
)

-- Neither a failed assertion nor an access through NULL or outside the buffer.
abbrev pub NoFailure : {A : Type 0} → Run A → Type 0
NoFailure r = (r ≢ assert_failed) × (r ≢ fault)

Keeps-NoFailure : (n : ℕ) (r : Run (Option System)) → Keeps n r → NoFailure r
Keeps-NoFailure n (ok none) k = (λ e. cc, λ e. cc)
Keeps-NoFailure n (ok (some t)) k = (λ e. cc, λ e. cc)
Keeps-NoFailure n assert_failed k = absurd k
Keeps-NoFailure n fault k = absurd k
Keeps-NoFailure n out_of_fuel k = absurd k

-- The number of slots of a stream that is created for `n` items.
abbrev pub slots_for : ℕ → ℕ
slots_for n = if n == 0 then stream_buffer_size else n

length-pending : (w : Writer) → length (pending w) ≤ 1
length-pending Writer.idle = omega arith
length-pending (Writer.trying x) = omega arith
length-pending (Writer.started x) = omega arith
length-pending (Writer.blocked x) = omega arith
length-pending (Writer.granted x) = omega arith
length-pending (Writer.stored b) = omega arith
length-pending Writer.waking = omega arith
length-pending Writer.waking_poll = omega arith

length-in_flight : (r : Reader) → length (in_flight r) ≤ 1
length-in_flight Reader.idle = omega arith
length-in_flight Reader.started = omega arith
length-in_flight Reader.blocked = omega arith
length-in_flight Reader.granted = omega arith
length-in_flight (Reader.topped x) = omega arith
length-in_flight (Reader.popped x) = omega arith
length-in_flight (Reader.waking x) = omega arith

waits-le-one : (w : Writer) → writer_waits w ≤ 1
waits-le-one w = ground arith

reader_waits-le-one : (r : Reader) → reader_waits r ≤ 1
reader_waits-le-one r = ground arith

reader_of_waits : (r : Reader) → 0 < reader_waits r → r ≡ Reader.blocked
reader_of_waits r h = ground arith

writer_of_waits : (w : Writer) → 0 < writer_waits w → (y : Ptr) × (w ≡ Writer.blocked y)
writer_of_waits (Writer.blocked y) h = (y, refl)
writer_of_waits _ h = absurd (omega arith)

module _ (n : ℕ) {st : Stream} {s : System} (small : n < 2 ^ 31) (new : create (pos n) ≡ ok st)
    (run : Reach (system st) s) where
  create-Safe : Safe (slots_for n) (system st)
  unfolding create
  create-Safe =
      let same : create_of (slots_for n) ≡ st = cc in
      subst (λ x. Safe (slots_for n) (system x)) same
        (create_of-Safe (slots_for n) (ground arith) (ground arith))

  pub safe : Safe (slots_for n) s
  safe = Reach-Safe run create-Safe

  begin_write-NoFailure : (x : Ptr) → x ≢ null → NoFailure (begin_write x s)
  unfolding begin_write
  begin_write-NoFailure x ne =
      let (q, v) = safe in rw (v.prod_mode, ==_of_ne x null ne) (λ e. cc, λ e. cc)

  begin_read-NoFailure : NoFailure (begin_read s)
  unfolding begin_read
  begin_read-NoFailure = let (q, v) = safe in rw v.cons_mode (λ e. cc, λ e. cc)

  -- A stream is created for fewer than 2^31 items and opened in mode 'w' by the producer and in mode
  -- 'r' by the consumer, and the items handed to writes are not NULL. Then no assertion of
  -- LpelStreamWrite, LpelStreamTryWrite or LpelStreamRead fails and no access is out of range, however
  -- the two interleave: those on the mode and on the item at a call hold, there is space when an item
  -- is put, and an item when one is taken.
  pub step-NoFailure :
      ((x : Ptr) → x ≢ null → NoFailure (begin_write x s))
      × NoFailure (begin_read s)
      × NoFailure (writer_step s)
      × NoFailure (reader_step s)
  step-NoFailure = (
    begin_write-NoFailure,
    begin_read-NoFailure,
    Keeps-NoFailure (slots_for n) (writer_step s) (writer_step-Keeps safe),
    Keeps-NoFailure (slots_for n) (reader_step s) (reader_step-Keeps safe),
  )

  -- On a stream created for fewer than 2^31 items the items that reads returned are a prefix of
  -- the items handed to writes, in the same order, and at most two more than the buffer has slots
  -- are on their way.
  pub received_prefix :
      (rest : List Ptr) × (s.sent ≡ s.received ++ rest) × (length rest ≤ slots_for n + 2)
  received_prefix =
      let (q, v) = safe in
      (
        in_flight s.reader ++ (q ++ pending s.writer),
        v.order,
        omega (
          arith,
          length-append (in_flight s.reader) (q ++ pending s.writer),
          length-append q (pending s.writer),
          length-pending s.writer,
          length-in_flight s.reader,
          v.holds.fits,
          v.size,
        ),
      )

  -- On a stream created for fewer than 2^31 items each semaphore stays between -1 and the number
  -- of slots.
  pub semaphore_bounds :
      (pos_part s.stream.n_sem ≤ slots_for n)
      × (neg_part s.stream.n_sem ≤ 1)
      × (pos_part s.stream.e_sem ≤ slots_for n)
      × (neg_part s.stream.e_sem ≤ 1)
  semaphore_bounds =
      let (q, v) = safe in
      (
        ground (arith, v.n_count, v.holds.fits, v.size, v.n_wait),
        omega (arith, v.n_wait, reader_waits-le-one s.reader),
        ground (arith, v.e_count, v.holds.fits, v.size, v.e_wait),
        omega (arith, v.e_wait, waits-le-one s.writer),
      )

  -- On a stream created for fewer than 2^31 items that the consumer only reads from and does not poll,
  -- a task is woken up only while it waits, and once: the producer is about to wake the consumer up
  -- only while that is blocked and no wakeup is on its way to it, and the other way round, and it
  -- never makes the wakeup for a poll.
  pub wakeups_are_awaited :
      (s.writer ≢ Writer.waking_poll)
      × (s.writer ≡ Writer.waking → (s.reader ≡ Reader.blocked) × (s.reader_wake ≡ 0))
      × ((x : Ptr)
          → s.reader ≡ Reader.waking x
          → (y : Ptr) × (s.writer ≡ Writer.blocked y) × (s.writer_wake ≡ 0))
      × (s.reader_wake ≤ 1)
      × (s.writer_wake ≤ 1)
  wakeups_are_awaited =
      let (q, v) = safe in
      (
        λ e. ground (arith, v.writer_fits),
        λ e. (
          reader_of_waits s.reader (ground (arith, v.n_wait)),
          ground (arith, v.n_wait, reader_waits-le-one s.reader),
        ),
        λ x e.
            let (y, w) = writer_of_waits s.writer (ground (arith, v.e_wait)) in
            (y, w, ground (arith, v.e_wait, waits-le-one s.writer)),
        omega (arith, v.n_wait, reader_waits-le-one s.reader),
        omega (arith, v.e_wait, waits-le-one s.writer),
      )
