-- ===== src/Decen/Poll.antt =====
-- src/sched/decentralised/decen_stream.c, LpelStreamPoll: one consumer that waits for an item on any
-- stream of a set, and the producers of its streams, which write as in Decen/Stream. The set is the
-- list of its descriptors in the order of the iterator, and a section under `prod_lock` is one action.
pub mod Producer
pub mod Inv
pub mod Kept
pub mod Turns
pub mod Unregister
pub mod Steps
pub mod Answer
mod Tests
use lpel.Base.Sem.{is_zero, incr, decr}
use lpel.Decen.Stream.{writer_step, begin_write, Writer, System}
use lpel.Base.{
  ℕ, zero, suc, ◌+◌, ◌-◌, ◌*◌, ◌/◌, ◌%◌, ◌^◌, ◌<◌, ◌≤◌, ◌≡◌, ◌≢◌, refl, ap, sym, subst, ◌∙◌, arith,
  dec_lt, ℕ_discrete, ◌⊎◌, inl, inr, ◌↔◌, Bool, true, false, not, ◌&&◌, ◌||◌, Option, none, some,
  List, [], ◌∷◌, ◌++◌, append-nil, append_assoc, map, Ptr, null, ◌==◌, if◌then◌else◌, ltb, leb,
  length, set, get_elem?, get_or, head_or, last_or, replicate, assign, assign_self, assign_ne,
  assign_undo, assign-assign, fun_ext, length-append, length-set, lt→ltb, ==_of_ne, ==_self, ==→eq,
  ==_false→ne, le→ltb_false, Bool-cases, Option-cases, tests, load, store, load-ok, store-ok, mem,
  ◌∈◌, ◌∉◌, Distinct, IsChain, mem-append, Distinct-remove, map-assign, map-snoc, apart_sym,
  not_mem_snoc, snoc_apart, mem-last, mem-head, ne_of_mem, ne_null_of_mem, IsChain-frame,
  IsChain-assign, head_or-append, last_or-append, IsChain-append, IsChain-left, IsChain-right,
  IsChain-last, IsChain-assign_last, Distinct-left, Distinct-right, Distinct-append, Distinct-apart,
}
use lpel.Decen.Buffer.{top}
use lpel.Base.Run.{out_of_fuel, Run, ok, assert_failed, fault, ◌>>=◌, ◌>>◌, assert, access, map_run}
use lpel.Base.Int.{ℤ, pos, negsuc, pos_part, neg_part}

-- Where the consumer stands, with the descriptors that an iterator has still to meet and `cnt`.
pub data Poller : Type 0 where
  -- before `LpelBufferTop` in the fast path
  looking : List Ptr → Poller
  -- before `atomic_store( &self->poll_token, 1)`
  placing : Poller
  -- before the section for the next stream
  registering : List Ptr → ℤ → Poller
  -- in `LpelTaskBlockStream`
  blocked : ℤ → Poller
  -- before the assertion on the token
  checking : ℤ → Poller
  -- before `s->is_poll = 0` of the next stream
  unregistering : List Ptr → ℤ → Poller
  -- behind the return of a descriptor, to which the set is rotated
  done : Ptr → Poller

-- The streams, by the descriptor of the consumer, with their producers; the consumer's fields
-- `poll_token` and `wakeup_sd`; `wakes` counts the calls of `LpelTaskUnblock` for it that it has not
-- yet acted on. The consumer's fields of each `System` are set before its producer acts.
pub record World : Type 0 where
  pub streams : Ptr → System
  pub poller : Poller
  pub poll_token : Bool
  pub wakes : ℕ
  pub wakeup_sd : Ptr

-- `s->is_poll = v` of one stream.
pub mark : Ptr → Bool → (Ptr → System) → Ptr → System
mark sd v f = assign f sd (record (f sd) { stream = record ((f sd).stream) { is_poll = v } })

-- A turn of the fast path.
pub look : Ptr → List Ptr → World → Run World
look sd rest w = do
  item ← top (w.streams sd).stream.buffer
  ok (record w { poller = if item == null then looking rest else done sd })

-- A turn of the loop that registers the streams.
pub register : Ptr → List Ptr → ℤ → World → Run World
unfolding mark incr
register sd rest cnt w = do
  item ← top (w.streams sd).stream.buffer
  ok (
      if item == null
      then record w { streams = mark sd true w.streams; poller = registering rest (incr cnt) }
      else if w.poll_token
      then record w { poller = checking cnt; poll_token = false; wakeup_sd = sd }
      else record w { poller = blocked cnt; poll_token = false })

-- `LpelTaskBlockStream` returns when the task has been woken up; `none` while it waits.
pub poll_block : ℤ → World → Option World
poll_block cnt w =
    if w.wakes == 0 then none else some (record w { poller = checking cnt; wakes = w.wakes - 1 })

-- `if (--cnt == 0) break`, and the return.
pub unregister : Ptr → List Ptr → ℤ → World → World
unfolding mark decr
unregister sd rest cnt w = record w {
  streams = mark sd false w.streams;
  poller = if is_zero (decr cnt) then done w.wakeup_sd else unregistering rest (decr cnt);
}

-- The next action of the consumer; `none` where it has none to make.
pub poll_at : List Ptr → Poller → World → Run (Option World)
unfolding look register poll_block unregister
poll_at set (looking []) w = ok (some (record w { poller = placing }))
poll_at set (looking (sd ∷ rest)) w = look sd rest w >>= λ w'. ok (some w')
poll_at set placing w = ok (some (record w { poller = registering set (pos 0); poll_token = true }))
poll_at set (registering [] cnt) w = ok (some (record w { poller = blocked cnt }))
poll_at set (registering (sd ∷ rest) cnt) w = register sd rest cnt w >>= λ w'. ok (some w')
poll_at set (blocked cnt) w = ok (poll_block cnt w)
poll_at set (checking cnt) w =
    assert (not w.poll_token) >> ok (some (record w { poller = unregistering set cnt }))
poll_at set (unregistering [] cnt) w = ok (some (record w { poller = done w.wakeup_sd }))
poll_at set (unregistering (sd ∷ rest) cnt) w = ok (some (unregister sd rest cnt w))
poll_at set (done sd) w = ok none

pub poll_step : List Ptr → World → Run (Option World)
unfolding poll_at
poll_step set w = poll_at set w.poller w

-- The head of `LpelStreamPoll`.
pub begin_poll : List Ptr → World → Run World
begin_poll set w = do
  assert (not (head_or set null == null))
  ok (record w { poller = looking set })

-- A stream as its producer finds it, and the world after an action of the producer.
pub view : Ptr → World → System
view sd w = record (w.streams sd) {
  poll_token = w.poll_token;
  reader_wake = w.wakes;
  wakeup_sd = false;
}

pub update : Ptr → System → World → World
update sd t w = record w {
  streams = assign w.streams sd t;
  poll_token = t.poll_token;
  wakes = t.reader_wake;
  wakeup_sd = if t.wakeup_sd then sd else w.wakeup_sd;
}

-- A call or the next action of a producer.
pub data Produce (s t : System) : Type 0 where
  call_write : (x : Ptr) → s.writer ≡ Writer.idle → begin_write x s ≡ ok t → Produce s t
  call_try_write :
      (x : Ptr)
      → x ≢ null
      → s.writer ≡ Writer.idle
      → t ≡ record s { writer = Writer.trying x }
      → Produce s t
  write_on : writer_step s ≡ ok (some t) → Produce s t

-- The consumer and the producers interleave.
pub data Step (set : List Ptr) (w w' : World) : Type 0 where
  poll_on : poll_step set w ≡ ok (some w') → Step set w w'
  produce : (sd : Ptr) (t : System) → Produce (view sd w) t → w' ≡ update sd t w → Step set w w'

pub data Reach (set : List Ptr) (w : World) : World → Type 0 where
  here : Reach set w w
  next : {u v : World} → Reach set w u → Step set u v → Reach set w v
