-- ===== src/Decen/Stream/Tests.antt =====
-- The theorems on streams at concrete runs.
use lpel.Base.{
  false, null, ◌≢◌, ◌≤◌, ◌≡◌, refl, arith, none, some, List, [], ◌∷◌, ◌++◌, Ptr, length,
}
use lpel.Base.Run.{ok}
use lpel.Base.Int.{negsuc, pos, pos_part, neg_part}
use lpel.Decen.Stream.{
  begin_read, begin_write, Stream, System, Writer, Reader, system, create_of, create, writer_step,
  reader_step, Reach,
}
use lpel.Decen.Buffer
use lpel.Decen.Stream.Schedule.{moves-from, Move, moves, moves-Reach}
use lpel.Decen.Stream.Facts.{
  NoFailure, step-NoFailure, received_prefix, semaphore_bounds, wakeups_are_awaited,
}
use lpel.Decen.Stream.Progress.{Rests, steps_rest, try_write_blocks}

-- A stream of one slot.
stream_of_one : Stream
unfolding create_of Buffer.init
stream_of_one = create_of 1

create_one : create (pos 1) ≡ ok stream_of_one
unfolding create stream_of_one
create_one = refl

-- The buffer has 7, and no call is under way.
abbrev one_written : System
one_written = record {
  stream = record {
    buffer = record { pread = 0; pwrite = 0; size = 1; slots = 7 ∷ [] };
    is_poll = false;
    n_sem = pos 1;
    e_sem = pos 0;
  };
  writer = Writer.idle;
  reader = Reader.idle;
  prod_mode = b'w';
  cons_mode = b'r';
  writer_wake = 0;
  reader_wake = 0;
  poll_token = false;
  wakeup_sd = false;
  sent = 7 ∷ [];
  received = [];
}

-- The buffer has 7, and the write of 8 waits.
abbrev second_blocked : System
second_blocked = record {
  stream = record {
    buffer = record { pread = 0; pwrite = 0; size = 1; slots = 7 ∷ [] };
    is_poll = false;
    n_sem = pos 1;
    e_sem = negsuc 0;
  };
  writer = Writer.blocked 8;
  reader = Reader.idle;
  prod_mode = b'w';
  cons_mode = b'r';
  writer_wake = 0;
  reader_wake = 0;
  poll_token = false;
  wakeup_sd = false;
  sent = 7 ∷ 8 ∷ [];
  received = [];
}

-- The consumer has taken 7, and is about to wake the producer up.
abbrev about_to_wake : System
about_to_wake = record {
  stream = record {
    buffer = record { pread = 0; pwrite = 0; size = 1; slots = 0 ∷ [] };
    is_poll = false;
    n_sem = pos 0;
    e_sem = pos 0;
  };
  writer = Writer.blocked 8;
  reader = Reader.waking 7;
  prod_mode = b'w';
  cons_mode = b'r';
  writer_wake = 0;
  reader_wake = 0;
  poll_token = false;
  wakeup_sd = false;
  sent = 7 ∷ 8 ∷ [];
  received = [];
}

-- The slot of 7 is free again, and not yet counted, when a try-write of 8 comes.
abbrev early : System
early = record {
  stream = record {
    buffer = record { pread = 0; pwrite = 0; size = 1; slots = 0 ∷ [] };
    is_poll = false;
    n_sem = pos 0;
    e_sem = pos 0;
  };
  writer = Writer.trying 8;
  reader = Reader.popped 7;
  prod_mode = b'w';
  cons_mode = b'r';
  writer_wake = 0;
  reader_wake = 0;
  poll_token = false;
  wakeup_sd = false;
  sent = 7 ∷ [];
  received = [];
}

-- A write of 7 that is done, then a write of 8 that waits for a slot.
abbrev two_writes : List Move
two_writes =
    Move.write 7 ∷ Move.writer ∷ Move.writer ∷ Move.writer ∷ Move.write 8 ∷ Move.writer ∷ []

-- A read takes 7, and is about to wake the producer up.
abbrev a_read : List Move
a_read = Move.read ∷ Move.reader ∷ Move.reader ∷ Move.reader ∷ Move.reader ∷ []

two_writes-Reach : Reach (system stream_of_one) second_blocked
unfolding stream_of_one system moves writer_step reader_step Buffer.top Buffer.pop Buffer.is_space
    Buffer.put
two_writes-Reach = moves-Reach two_writes refl

two_writes_and_read : Reach (system stream_of_one) about_to_wake
unfolding stream_of_one system moves writer_step reader_step Buffer.top Buffer.pop Buffer.is_space
    Buffer.put
two_writes_and_read = moves-from a_read second_blocked two_writes-Reach refl

step-NoFailure_example :
    ((x : Ptr) → x ≢ null → NoFailure (begin_write x second_blocked))
    × NoFailure (begin_read second_blocked)
    × NoFailure (writer_step second_blocked)
    × NoFailure (reader_step second_blocked)
step-NoFailure_example = step-NoFailure 1 (omega arith) create_one two_writes-Reach

received_prefix_example :
    let s = about_to_wake in (rest : List Ptr) × (s.sent ≡ s.received ++ rest) × (length rest ≤ 3)
received_prefix_example = received_prefix 1 (omega arith) create_one two_writes_and_read

semaphore_bounds_example :
    let s = second_blocked in
    (pos_part s.stream.n_sem ≤ 1)
    × (neg_part s.stream.n_sem ≤ 1)
    × (pos_part s.stream.e_sem ≤ 1)
    × (neg_part s.stream.e_sem ≤ 1)
semaphore_bounds_example = semaphore_bounds 1 (omega arith) create_one two_writes-Reach

wakeups_are_awaited_example :
    let s = about_to_wake in
    (s.writer ≢ Writer.waking_poll)
    × (s.writer ≡ Writer.waking → (s.reader ≡ Reader.blocked) × (s.reader_wake ≡ 0))
    × ((x : Ptr)
        → s.reader ≡ Reader.waking x
        → (y : Ptr) × (s.writer ≡ Writer.blocked y) × (s.writer_wake ≡ 0))
    × (s.reader_wake ≤ 1)
    × (s.writer_wake ≤ 1)
wakeups_are_awaited_example = wakeups_are_awaited 1 (omega arith) create_one two_writes_and_read

writer_rests : writer_step second_blocked ≡ ok none
unfolding stream_of_one system moves writer_step reader_step Buffer.top Buffer.pop Buffer.is_space
    Buffer.put
writer_rests = refl

reader_rests : reader_step second_blocked ≡ ok none
unfolding stream_of_one system moves writer_step reader_step Buffer.top Buffer.pop Buffer.is_space
    Buffer.put
reader_rests = refl

steps_rest_example : Rests second_blocked
steps_rest_example =
    steps_rest 1 (omega arith) create_one two_writes-Reach writer_rests reader_rests

abbrev one_write : List Move
one_write = Move.write 7 ∷ Move.writer ∷ Move.writer ∷ Move.writer ∷ []

abbrev early_try : List Move
early_try = Move.read ∷ Move.reader ∷ Move.reader ∷ Move.reader ∷ Move.try 8 ∷ []

one_write-Reach : Reach (system stream_of_one) one_written
unfolding stream_of_one system moves writer_step reader_step Buffer.top Buffer.pop Buffer.is_space
    Buffer.put
one_write-Reach = moves-Reach one_write refl

early_try-Reach : Reach (system stream_of_one) early
unfolding stream_of_one system moves writer_step reader_step Buffer.top Buffer.pop Buffer.is_space
    Buffer.put
early_try-Reach = moves-from early_try one_written one_write-Reach refl

early_try_writer : early.writer ≡ Writer.trying 8
unfolding stream_of_one system moves writer_step reader_step Buffer.top Buffer.pop Buffer.is_space
    Buffer.put
early_try_writer = refl

early_try_reader : early.reader ≡ Reader.popped 7
unfolding stream_of_one system moves writer_step reader_step Buffer.top Buffer.pop Buffer.is_space
    Buffer.put
early_try_reader = refl

early_try_e_sem : early.stream.e_sem ≡ pos 0
unfolding stream_of_one system moves writer_step reader_step Buffer.top Buffer.pop Buffer.is_space
    Buffer.put
early_try_e_sem = refl

try_write_blocks_example :
    (t u : System) × (writer_step early ≡ ok (some t))
    × (writer_step t ≡ ok (some u))
    × (u.writer ≡ Writer.blocked 8)
    × (writer_step u ≡ ok none)
try_write_blocks_example =
    try_write_blocks 1 (omega arith) create_one early_try-Reach 8 7 early_try_writer
      early_try_reader early_try_e_sem
