-- ===== src/Decen/Stream.antt =====
-- src/sched/decentralised/decen_stream.c: a stream between one producer task and one consumer
-- task. Each call is cut into its atomic actions: a step of a semaphore, a section under
-- `prod_lock`, an access of the buffer, a wakeup. Tasks interleave between them, over a memory
-- that is sequentially consistent.
pub mod Inv
pub mod Write
pub mod Read
pub mod Safe
pub mod Facts
pub mod Progress
pub mod Schedule
mod Tests
use lpel.Base.{
  ℕ, suc, ◌+◌, ◌-◌, Bool, true, false, not, Option, none, some, List, [], ◌∷◌, ◌++◌, Ptr, null,
  ◌==◌, if◌then◌else◌, ◌≡◌, ◌≢◌,
}
use lpel.Base.Int.{ℤ, pos, negsuc}
use lpel.Base.Sem.{decr, incr, is_zero, is_neg}
use lpel.Base.Run.{Run, ok, assert_failed, fault, ◌>>=◌, ◌>>◌, assert}
use lpel.Decen.Buffer.{Buffer}
use lpel.Decen.Buffer

-- `STREAM_BUFFER_SIZE`
abbrev pub stream_buffer_size : ℕ
stream_buffer_size = 16

-- `lpel_stream_t`: the fields that reads and writes use.
pub record Stream : Type 0 where
  pub buffer : Buffer
  pub is_poll : Bool
  pub n_sem : ℤ
  pub e_sem : ℤ

-- `LpelStreamCreate`
unfoldable pub create_of : ℕ → Stream
create_of size = record {
  buffer = Buffer.init size;
  is_poll = false;
  n_sem = pos 0;
  e_sem = pos size;
}

pub create : ℤ → Run Stream
unfolding create_of
create (pos size) = ok (create_of (if size == 0 then stream_buffer_size else size))
create (negsuc n) = assert_failed

-- Where the producer stands in `LpelStreamTryWrite` and `LpelStreamWrite`.
pub data Writer : Type 0 where
  -- outside
  idle : Writer
  -- at the test of `LpelStreamTryWrite`
  trying : Ptr → Writer
  -- before P(e_sem)
  started : Ptr → Writer
  -- in `LpelTaskBlockStream`
  blocked : Ptr → Writer
  -- before the section under `prod_lock`
  granted : Ptr → Writer
  -- behind it with its `poll_wakeup`, before V(n_sem)
  stored : Bool → Writer
  -- before the wakeup of a consumer that waits for an item
  waking : Writer
  -- before the wakeup of a consumer that polls
  waking_poll : Writer

-- Where the consumer stands in `LpelStreamRead`.
pub data Reader : Type 0 where
  -- outside
  idle : Reader
  -- before P(n_sem)
  started : Reader
  -- in `LpelTaskBlockStream`
  blocked : Reader
  -- before `LpelBufferTop`
  granted : Reader
  -- with the item of `LpelBufferTop`, before `LpelBufferPop`
  topped : Ptr → Reader
  -- before V(e_sem)
  popped : Ptr → Reader
  -- before the wakeup of the producer
  waking : Ptr → Reader

-- The stream, its two tasks with the modes of their descriptors, and what a client sees: the items handed to `LpelStreamWrite` and
-- those that `LpelStreamRead` returned. `reader_wake` and `writer_wake` count the calls of
-- `LpelTaskUnblock` that a task has not yet acted on; `wakeup_sd` tells whether the consumer's
-- field of that name has been set to this stream's descriptor.
pub record System : Type 0 where
  pub stream : Stream
  pub writer : Writer
  pub reader : Reader
  pub prod_mode : ℕ
  pub cons_mode : ℕ
  pub writer_wake : ℕ
  pub reader_wake : ℕ
  pub poll_token : Bool
  pub wakeup_sd : Bool
  pub sent : List Ptr
  pub received : List Ptr

unfoldable pub system : Stream → System
system s = record {
  stream = s;
  writer = idle;
  reader = idle;
  prod_mode = b'w';
  cons_mode = b'r';
  writer_wake = 0;
  reader_wake = 0;
  poll_token = false;
  wakeup_sd = false;
  sent = [];
  received = [];
}

-- The head of `LpelStreamWrite`.
unfoldable pub begin_write : Ptr → System → Run System
begin_write x s = do
  assert (s.prod_mode == b'w')
  assert (not (x == null))
  ok (record s { writer = started x; sent = s.sent ++ (x ∷ []) })

-- The call of `LpelStreamWrite` in `LpelStreamTryWrite`, or its return of -1.
unfoldable pub try_write : Ptr → System → Run System
unfolding begin_write
try_write x s = do
  space ← Buffer.is_space s.stream.buffer
  if space then begin_write x s else ok (record s { writer = idle })

-- `if ( atomic_fetch_sub( &e_sem, 1) == 0) LpelTaskBlockStream( self)`
unfoldable pub write_acquire : Ptr → System → System
unfolding decr
write_acquire x s = record s {
  stream = record stream { e_sem = decr e_sem };
  writer = if is_zero e_sem then blocked x else granted x;
}
  where
    open s use {stream}
    open stream use {e_sem}

-- `LpelTaskBlockStream` returns when the task has been woken up; `none` while it waits.
unfoldable pub write_block : Ptr → System → Option System
write_block x s =
    if s.writer_wake == 0
    then none
    else some (record s { writer = granted x; writer_wake = s.writer_wake - 1 })

-- The section under `prod_lock`.
unfoldable pub write_store : Ptr → System → Run System
write_store x s = do
  space ← Buffer.is_space s.stream.buffer
  assert space
  buf ← Buffer.put s.stream.buffer x
  ok (
      if s.stream.is_poll
      then record s {
        stream = record (s.stream) { buffer = buf; is_poll = false };
        writer = stored s.poll_token;
        poll_token = false;
      }
      else record s { stream = record (s.stream) { buffer = buf }; writer = stored false })

-- `if ( atomic_fetch_add( &n_sem, 1) < 0) ... else if (poll_wakeup) ...`
unfoldable pub write_release : Bool → System → System
unfolding incr
write_release poll_wakeup s = record s {
  stream = record stream { n_sem = incr n_sem };
  writer = if is_neg n_sem then waking else if poll_wakeup then waking_poll else idle;
}
  where
    open s use {stream}
    open stream use {n_sem}

-- `LpelTaskUnblock( self, cons)`
unfoldable pub wake_reader : System → System
wake_reader s = record s { writer = idle; reader_wake = s.reader_wake + 1 }

-- `cons->wakeup_sd = sd->stream->cons_sd; LpelTaskUnblock( self, cons)`
unfoldable pub wake_poller : System → System
unfolding wake_reader
wake_poller s = wake_reader (record s { wakeup_sd = true })

-- One action of the producer; `none` where it has none to make.
unfoldable pub writer_at : Writer → System → Run (Option System)
unfolding try_write write_acquire write_block write_store write_release wake_reader wake_poller
writer_at idle s = ok none
writer_at (trying x) s = try_write x s >>= λ t. ok (some t)
writer_at (started x) s = ok (some (write_acquire x s))
writer_at (blocked x) s = ok (write_block x s)
writer_at (granted x) s = write_store x s >>= λ t. ok (some t)
writer_at (stored poll_wakeup) s = ok (some (write_release poll_wakeup s))
writer_at waking s = ok (some (wake_reader s))
writer_at waking_poll s = ok (some (wake_poller s))

unfoldable pub writer_step : System → Run (Option System)
unfolding writer_at
writer_step s = writer_at s.writer s

-- The head of `LpelStreamRead`.
unfoldable pub begin_read : System → Run System
begin_read s = do assert (s.cons_mode == b'r'); ok (record s { reader = started })

-- `if ( atomic_fetch_sub( &n_sem, 1) == 0) LpelTaskBlockStream( self)`
pub read_acquire : System → System
unfolding decr
read_acquire s = record s {
  stream = record stream { n_sem = decr n_sem };
  reader = if is_zero n_sem then blocked else granted;
}
  where
    open s use {stream}
    open stream use {n_sem}

pub read_block : System → Option System
read_block s =
    if s.reader_wake == 0
    then none
    else some (record s { reader = granted; reader_wake = s.reader_wake - 1 })

-- `item = LpelBufferTop(...); assert( item != NULL)`
pub read_top : System → Run System
read_top s = do
  item ← Buffer.top s.stream.buffer
  assert (not (item == null))
  ok (record s { reader = topped item })

-- `LpelBufferPop(...)`
pub read_pop : Ptr → System → Run System
read_pop item s = do
  buf ← Buffer.pop s.stream.buffer
  ok (record s { stream = record (s.stream) { buffer = buf }; reader = popped item })

-- `if ( atomic_fetch_add( &e_sem, 1) < 0) ...`, and the return if there is no one to wake up.
pub read_release : Ptr → System → System
unfolding incr
read_release item s =
    if is_neg s.stream.e_sem
    then record s { stream = new; reader = waking item }
    else record s { stream = new; reader = idle; received = s.received ++ (item ∷ []) }
  where
    new : Stream
    new = record (s.stream) { e_sem = incr s.stream.e_sem }

-- `LpelTaskUnblock( self, prod)`, and the return.
pub wake_writer : Ptr → System → System
wake_writer item s = record s {
  reader = idle;
  writer_wake = s.writer_wake + 1;
  received = s.received ++ (item ∷ []);
}

-- One action of the consumer; `none` where it has none to make.
pub reader_at : Reader → System → Run (Option System)
unfolding read_acquire read_block read_top read_pop read_release wake_writer
reader_at idle s = ok none
reader_at started s = ok (some (read_acquire s))
reader_at blocked s = ok (read_block s)
reader_at granted s = read_top s >>= λ t. ok (some t)
reader_at (topped item) s = read_pop item s >>= λ t. ok (some t)
reader_at (popped item) s = ok (some (read_release item s))
reader_at (waking item) s = ok (some (wake_writer item s))

pub reader_step : System → Run (Option System)
unfolding reader_at
reader_step s = reader_at s.reader s

-- The tasks interleave: a call, or the next action of one of them. A client hands in items that are
-- not NULL, which is a precondition of the writes.
pub data Step (s t : System) : Type 0 where
  call_write : (x : Ptr) → s.writer ≡ idle → begin_write x s ≡ ok t → Step s t
  call_try_write :
      (x : Ptr) → x ≢ null → s.writer ≡ idle → t ≡ record s { writer = trying x } → Step s t
  call_read : s.reader ≡ idle → begin_read s ≡ ok t → Step s t
  write_on : writer_step s ≡ ok (some t) → Step s t
  read_on : reader_step s ≡ ok (some t) → Step s t

pub data Reach (s : System) : System → Type 0 where
  here : Reach s s
  next : {t u : System} → Reach s t → Step t u → Reach s u
