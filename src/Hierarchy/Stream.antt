-- ===== src/Hierarchy/Stream.antt =====
-- src/sched/hierarchy/hrc_stream.c: streams over the unbounded buffer. A read or a write that blocks
-- is cut at LpelTaskBlockStream.
pub mod Item
pub mod Close
pub mod Poll
mod Tests
use lpel.Base.{
  ℕ, zero, suc, ◌+◌, ◌-◌, ◌*◌, ◌/◌, ◌%◌, ◌^◌, ◌<◌, ◌≤◌, ◌≡◌, ◌≢◌, refl, ap, sym, subst, ◌∙◌, arith,
  dec_lt, ℕ_discrete, ◌⊎◌, inl, inr, ◌↔◌, Bool, true, false, not, ◌&&◌, ◌||◌, Option, none, some,
  List, [], ◌∷◌, ◌++◌, append-nil, append_assoc, map, Ptr, null, ◌==◌, if◌then◌else◌, ltb, leb,
  length, set, get_elem?, get_or, head_or, last_or, replicate, assign, assign_self, assign_ne,
  assign_undo, assign-assign, fun_ext, length-append, length-set, lt→ltb, ==_of_ne, ==_self, ==→eq,
  ==_false→ne, le→ltb_false, Bool-cases, Option-cases, tests, load, store, load-ok, store-ok, mem,
  ◌∈◌, ◌∉◌, Distinct, IsChain, mem-append, Distinct-remove, map-assign, map-snoc, apart_sym,
  not_mem_snoc, snoc_apart, mem-last, mem-head, ne_of_mem, ne_null_of_mem, IsChain-frame,
  IsChain-assign, head_or-append, last_or-append, IsChain-append, IsChain-left, IsChain-right,
  IsChain-last, IsChain-assign_last, Distinct-left, Distinct-right, Distinct-append, Distinct-apart,
}
use lpel.Base.Run.{out_of_fuel, Run, ok, assert_failed, fault, ◌>>=◌, ◌>>◌, assert, access, map_run}
use lpel.Base.Int.{ℤ, pos, negsuc, pos_part, neg_part}
use lpel.Base.Int.{◌+ℤ◌, ◌-ℤ◌, ltb_ℤ}
use lpel.Hierarchy.Buffer.{Buffer, init, top, pop, is_space, put, is_empty}
use lpel.Hierarchy.Taskqueue.{is_zero}
use lpel.Hierarchy.Task.{
  Tasks, TaskState, running, blocked, StreamType, entry, exit, middle, Direction, input, output,
  add_stream, remove_stream, leave_running, check_yield,
}
use lpel.Hierarchy.Worker.{Contexts, get_stream, put_stream, get_sd, put_sd}

-- The tasks, the contexts of the workers, and the other fields of streams, of descriptors (`mode`)
-- and of tasks (`poll_token`, `wakeup_sd`). The entries of a stream's buffer are its own. `woken`
-- has the tasks that were passed to LpelTaskUnblock, oldest first.
pub record World (D : Type 0) : Type 0 where
  pub tasks : Tasks D
  pub contexts : Contexts
  pub mode : Ptr → Direction
  pub buffers : Ptr → Buffer
  pub uid : Ptr → ℕ
  pub is_poll : Ptr → Bool
  pub n_sem : Ptr → ℤ
  pub e_sem : Ptr → ℤ
  pub usr_data : Ptr → Ptr
  pub poll_token : Ptr → Bool
  pub wakeup_sd : Ptr → Ptr
  pub stream_seq : ℕ
  pub woken : List Ptr

abbrev pub is_input : Direction → Bool
is_input input = true
is_input output = false

abbrev pub is_entry : StreamType → Bool
is_entry entry = true
is_entry _ = false

-- `STREAM_BUFFER_SIZE`
abbrev pub stream_buffer_size : ℤ
stream_buffer_size = pos 16

-- The type that a source or a sink gives to a stream that it opens.
abbrev pub opened_type : Direction → StreamType
opened_type input = exit
opened_type output = entry

module _ {D : Type 0} where
  -- The stream that `LpelStreamCreate` takes from the free list of the caller's context `wc`, or else
  -- the new one `fresh`, whose buffer has the new entry `cell`.
  unfoldable pub obtain_stream : Ptr → Ptr → Ptr → World D → Run (Ptr × World D)
  unfolding get_stream init
  obtain_stream wc fresh cell w =
      get_stream wc w.tasks.prod_sd w.tasks.cons_sd w.contexts >>= λ (s, x).
      let buf = w.buffers fresh in
      let new = init cell buf.data_at buf.next >>= λ b.
      ok (fresh, record w { contexts = x; buffers = assign w.buffers fresh b }) in
      if s == null then new else ok (s, record w { contexts = x })

  -- `LpelStreamCreate`
  unfoldable pub create : Ptr → Ptr → Ptr → ℤ → World D → Run (Ptr × World D)
  unfolding obtain_stream is_empty
  create wc fresh cell given w = do
    assert (not (ltb_ℤ given (pos 0)))
    let size = if is_zero given then stream_buffer_size else given
    (s, w) ← obtain_stream wc fresh cell w
    empty ← is_empty (w.buffers s)
    assert empty
    ok (
      s,
      record w {
        uid = assign w.uid s w.stream_seq;
        stream_seq = (w.stream_seq + 1) % 2 ^ 32;
        n_sem = assign w.n_sem s (pos 0);
        e_sem = assign w.e_sem s size;
        is_poll = assign w.is_poll s false;
        usr_data = assign w.usr_data s null;
        contexts = record w.contexts { next_stream = assign w.contexts.next_stream s null };
        tasks = record w.tasks {
          prod_sd = assign w.tasks.prod_sd s null;
          cons_sd = assign w.tasks.cons_sd s null;
          stream_type = assign w.tasks.stream_type s middle;
          read_cnt = assign w.tasks.read_cnt s 0;
          write_cnt = assign w.tasks.write_cnt s 0;
        };
      },
    )

  -- `LpelStreamSetUsrData`
  abbrev pub set_usr_data : Ptr → Ptr → World D → World D
  set_usr_data s p w = record w { usr_data = assign w.usr_data s p }

  -- `LpelStreamGetUsrData`
  abbrev pub get_usr_data : Ptr → World D → Ptr
  get_usr_data s w = w.usr_data s

  -- `LpelTaskIsSoSi`
  abbrev pub is_sosi : World D → Ptr → Bool
  is_sosi w t = is_zero (w.contexts.wid (w.tasks.worker_context t) -ℤ negsuc 1)

  -- What `LpelStreamOpen` sets for the descriptor `sd` of task `ct`, up to `LpelTaskAddStream`.
  unfoldable pub attach : Ptr → Ptr → Ptr → Direction → World D → World D
  attach ct sd s mode w = record w {
    mode = assign w.mode sd mode;
    contexts = record w.contexts { next_sd = assign w.contexts.next_sd sd null };
    tasks = record w.tasks {
      task_of = assign w.tasks.task_of sd ct;
      stream_of = assign w.tasks.stream_of sd s;
      cons_sd = if is_input mode then assign w.tasks.cons_sd s sd else w.tasks.cons_sd;
      prod_sd = if is_input mode then w.tasks.prod_sd else assign w.tasks.prod_sd s sd;
      stream_type =
          if is_sosi w ct
          then assign w.tasks.stream_type s (opened_type mode)
          else w.tasks.stream_type;
    };
  }

  -- `LpelStreamOpen` by the task `ct`; `fresh` is a new descriptor, and `fuel` is for the search of
  -- the free ones.
  unfoldable pub open_stream : ℕ → Ptr → Ptr → Ptr → Direction → World D → Run (Ptr × World D)
  unfolding get_sd attach add_stream
  open_stream fuel ct fresh s mode w =
      get_sd w.tasks fuel (w.tasks.worker_context ct) w.contexts >>= λ (found, x).
      let sd = if found == null then fresh else found in
      let w1 = attach ct sd s mode (record w { contexts = x }) in
      ok (sd, record w1 { tasks = add_stream ct sd mode w1.tasks })

  -- A stream whose reader gives it up: the producer's descriptor, the stream's descriptors and the
  -- free list, as in `LpelStreamClose` and `LpelStreamReplace`.
  unfoldable pub give_up : Ptr → Ptr → World D → Run (World D)
  unfolding put_stream
  give_up wc s w = do
    stream_of ← store w.tasks.stream_of (w.tasks.prod_sd s) null
    ok (record w {
      contexts = put_stream wc s w.contexts;
      tasks = record w.tasks {
        stream_of = stream_of;
        prod_sd = assign w.tasks.prod_sd s null;
        cons_sd = assign w.tasks.cons_sd s null;
      };
    })

  -- The branch of `LpelStreamClose` that destroys the stream.
  unfoldable pub close_destroy : Ptr → World D → Run (World D)
  unfolding is_empty give_up
  close_destroy sd w = do
    assert (is_input (w.mode sd))
    empty ← is_empty (w.buffers (w.tasks.stream_of sd))
    assert empty
    w ← give_up (w.tasks.worker_context (w.tasks.task_of sd)) (w.tasks.stream_of sd) w
    ok (record w { tasks = record w.tasks { stream_of = assign w.tasks.stream_of sd null } })

  -- `LpelStreamClose`
  unfoldable pub close : Ptr → Bool → World D → Run (World D)
  unfolding close_destroy remove_stream put_sd
  close sd destroy_s w =
      let wc = w.tasks.worker_context (w.tasks.task_of sd) in
      (if destroy_s then close_destroy sd w else ok w) >>= λ w1.
      remove_stream (w1.tasks.task_of sd) sd (w1.mode sd) w1.tasks >>= λ m. ok (record w1 {
        tasks = record m { task_of = assign m.task_of sd null };
        contexts = put_sd wc sd w1.contexts;
      })

  -- `LpelStreamReplace`
  unfoldable pub replace : Ptr → Ptr → World D → Run (World D)
  unfolding give_up is_empty
  replace sd snew w = do
    assert (is_input (w.mode sd))
    let s = w.tasks.stream_of sd
    let typed = record w.tasks {
      stream_type = assign w.tasks.stream_type snew (w.tasks.stream_type s);
    }
    empty ← is_empty (w.buffers s)
    w ← give_up (w.tasks.worker_context (w.tasks.task_of sd)) s (record w { tasks = typed })
    assert empty
    stream_of ← store w.tasks.stream_of (w.tasks.cons_sd snew) null
    ok (record w {
      tasks = record w.tasks {
        cons_sd = assign w.tasks.cons_sd snew sd;
        stream_of = assign stream_of sd snew;
      };
    })

  -- `LpelStreamGet`
  abbrev pub get : Ptr → World D → Ptr
  get sd w = w.tasks.stream_of sd

  -- `LpelStreamPeek`
  abbrev pub peek : Ptr → World D → Run Ptr
  peek sd w = assert (is_input (w.mode sd)) >> top (w.buffers (w.tasks.stream_of sd))

  -- `LpelStreamGetId`; -1 for no descriptor or no stream.
  abbrev pub get_id : Ptr → World D → ℤ
  get_id sd w =
      if sd == null
      then negsuc 0
      else if w.tasks.stream_of sd == null
      then negsuc 0
      else pos (w.uid (w.tasks.stream_of sd))

  -- The task stops in `LpelTaskBlockStream` (`true`) if it had to wait.
  unfoldable pub block_if : Bool → Ptr → World D → Run (Bool × World D)
  unfolding leave_running
  block_if waits t w =
      let left = leave_running blocked t w.tasks >>= λ m. ok (true, record w { tasks = m }) in
      if waits then left else ok (false, w)

  -- `LpelStreamRead` up to its wait for an item.
  unfoldable pub read_enter : Ptr → World D → Run (Bool × World D)
  unfolding block_if
  read_enter sd w = do
    assert (is_input (w.mode sd))
    let s = w.tasks.stream_of sd
    block_if (is_zero (w.n_sem s)) (w.tasks.task_of sd)
        (record w { n_sem = assign w.n_sem s (w.n_sem s -ℤ pos 1) })

  -- The rest of `LpelStreamRead` on the stream `s`: the item.
  unfoldable pub read_rest : Ptr → World D → Run (Ptr × World D)
  unfolding top pop
  read_rest s w = top (w.buffers s) >>= λ item.
      assert (not (item == null))
      >> (pop (w.buffers s) >>= λ (freed, buf).
          let w1 : World D = record w {
            buffers = assign w.buffers s buf;
            tasks = record w.tasks {
              read_cnt = assign w.tasks.read_cnt s ((w.tasks.read_cnt s + 1) % 2 ^ 32);
            };
          } in
          let w2 : World D = record w1 { e_sem = assign w.e_sem s (w.e_sem s +ℤ pos 1) } in
          let wake = load w.tasks.task_of (w.tasks.prod_sd s) >>= λ prod.
          ok (item, record w2 { woken = w.woken ++ (prod ∷ []) }) in
          if is_entry (w.tasks.stream_type s)
          then (if ltb_ℤ (w.e_sem s) (pos 0) then wake else ok (item, w2))
          else ok (item, w1))

  -- `LpelStreamWrite` up to its wait for space, which only an entry stream makes.
  unfoldable pub write_enter : Ptr → Ptr → World D → Run (Bool × World D)
  unfolding block_if
  write_enter sd item w = do
    assert (not (is_input (w.mode sd)))
    assert (not (item == null))
    let s = w.tasks.stream_of sd
    block_if (is_entry (w.tasks.stream_type s) && is_zero (w.e_sem s)) (w.tasks.task_of sd) (
        if is_entry (w.tasks.stream_type s)
        then record w { e_sem = assign w.e_sem s (w.e_sem s -ℤ pos 1) }
        else w)

  -- `LpelStreamTryWrite` up to the same wait; `none` for -1.
  unfoldable pub try_write_enter : Ptr → Ptr → World D → Run (Option (Bool × World D))
  unfolding write_enter
  try_write_enter sd item w =
      let entered = map_run some (write_enter sd item w) in
      if is_space (w.buffers (w.tasks.stream_of sd)) then entered else ok none

  -- The section of `LpelStreamWrite` under the lock: whether it took the consumer's poll token.
  unfoldable pub write_item : Ptr → Ptr → Ptr → World D → Run (Bool × World D)
  unfolding put
  write_item cell s item w =
      assert (is_space (w.buffers s))
      >> (put cell (w.buffers s) item >>= λ buf.
          let w1 : World D = record w {
            buffers = assign w.buffers s buf;
            tasks = record w.tasks {
              write_cnt = assign w.tasks.write_cnt s ((w.tasks.write_cnt s + 1) % 2 ^ 32);
            };
          } in
          let polled = load w.tasks.task_of (w.tasks.cons_sd s) >>= λ cons. ok (
            w.poll_token cons,
            record w1 {
              poll_token = assign w.poll_token cons false;
              is_poll = assign w.is_poll s false;
            },
          ) in
          if w.is_poll s then polled else ok (false, w1))

  -- `LpelStreamWrite` from the lock to the wakeup of the consumer.
  unfoldable pub write_rest : Ptr → Ptr → Ptr → World D → Run (World D)
  unfolding write_item
  write_rest cell s item w = write_item cell s item w >>= λ (poll_wakeup, w1).
      let w2 : World D = record w1 { n_sem = assign w1.n_sem s (w1.n_sem s +ℤ pos 1) } in
      let wake = load w2.tasks.task_of (w2.tasks.cons_sd s) >>= λ cons.
      ok (record w2 { woken = w2.woken ++ (cons ∷ []) }) in
      let wake_polling = load w2.tasks.task_of (w2.tasks.cons_sd s) >>= λ cons. ok (record w2 {
        wakeup_sd = assign w2.wakeup_sd cons (w2.tasks.cons_sd s);
        woken = w2.woken ++ (cons ∷ []);
      }) in
      if ltb_ℤ (w1.n_sem s) (pos 0) then wake else if poll_wakeup then wake_polling else ok w2

  -- The end of `LpelStreamWrite`: `counts` is whether the item is a data record.
  unfoldable pub write_end : Bool → Ptr → World D → Run (Bool × World D)
  unfolding check_yield
  write_end counts t w =
      let checked = check_yield t w.tasks >>= λ (yields, m). ok (yields, record w { tasks = m }) in
      if counts then checked else ok (false, w)
