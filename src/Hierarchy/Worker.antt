-- ===== src/Hierarchy/Worker.antt =====
-- src/sched/hierarchy/hrc_worker_op.c, the workers and the wrappers: they run one task at a time,
-- and keep streams and stream descriptors for later use.
pub mod Start
pub mod Free
pub mod System
pub mod Token
mod Tests
use lpel.Base.{
  ℕ, zero, suc, ◌+◌, ◌-◌, ◌*◌, ◌/◌, ◌%◌, ◌^◌, ◌<◌, ◌≤◌, ◌≡◌, ◌≢◌, refl, ap, sym, subst, ◌∙◌, arith,
  dec_lt, ℕ_discrete, ◌⊎◌, inl, inr, ◌↔◌, Bool, true, false, not, ◌&&◌, ◌||◌, Option, none, some,
  List, [], ◌∷◌, ◌++◌, append-nil, append_assoc, map, Ptr, null, ◌==◌, if◌then◌else◌, ltb, leb,
  length, set, get_elem?, get_or, head_or, last_or, replicate, assign, assign_self, assign_ne,
  assign_undo, assign-assign, fun_ext, length-append, length-set, lt→ltb, ==_of_ne, ==_self, ==→eq,
  ==_false→ne, le→ltb_false, Bool-cases, Option-cases, tests, load, store, load-ok, store-ok, mem,
  ◌∈◌, ◌∉◌, Distinct, IsChain, mem-append, Distinct-remove, map-assign, map-snoc, apart_sym,
  not_mem_snoc, snoc_apart, mem-last, mem-head, ne_of_mem, ne_null_of_mem, IsChain-frame,
  IsChain-assign, head_or-append, last_or-append, IsChain-append, IsChain-left, IsChain-right,
  IsChain-last, IsChain-assign_last, Distinct-left, Distinct-right, Distinct-append, Distinct-apart,
}
use lpel.Base.Run.{out_of_fuel, Run, ok, assert_failed, fault, ◌>>=◌, ◌>>◌, assert, access, map_run}
use lpel.Base.Int.{ℤ, pos, negsuc, pos_part, neg_part}
use lpel.Base.Int.{ltb_ℤ}
use lpel.Hierarchy.Task.{
  Tasks, TaskState, created, running, ready, blocked, zombie, is_state, destroy,
}
use lpel.Hierarchy.Master.{Msg, msg_terminate, msg_wakeup, msg_assign, msg_request, msg_return}

-- The fields of the objects `workerctx_t`, and the `next` fields of streams and of descriptors.
pub record Contexts : Type 0 where
  pub wid : Ptr → ℤ
  pub terminate : Ptr → Bool
  pub current_task : Ptr → Ptr
  pub free_stream : Ptr → Ptr
  pub free_sd : Ptr → Ptr
  pub next_context : Ptr → Ptr
  pub next_stream : Ptr → Ptr
  pub next_sd : Ptr → Ptr

-- Where a message goes: to the master or to the mailbox of a wrapper.
pub data Receiver : Type 0 where
  to_master : Receiver
  to_context : Ptr → Receiver

abbrev pub is_wrapper : Contexts → Ptr → Bool
is_wrapper x wc = ltb_ℤ (x.wid wc) (pos 0)

abbrev pub set_current : Ptr → Ptr → Contexts → Contexts
set_current wc t x = record x { current_task = assign x.current_task wc t }

-- `requestTask`
abbrev pub request_task : Contexts → Ptr → List Msg
request_task x wc = msg_request (pos_part (x.wid wc)) ∷ []

-- `returnTask`
abbrev pub return_task : Ptr → List Msg
return_task t = msg_return t ∷ []

-- `LpelWorkerTaskExit` up to the switch, and the messages to the master.
unfoldable pub task_exit : Ptr → Contexts → Contexts × List Msg
task_exit wc x =
    if is_wrapper x wc
    then (record x { terminate = assign x.terminate wc true }, [])
    else (set_current wc null x, request_task x wc)

-- `LpelWorkerTaskBlock` up to the switch.
unfoldable pub task_block : Ptr → Contexts → Contexts × List Msg
task_block wc x =
    if is_wrapper x wc
    then (set_current wc null x, [])
    else (set_current wc null x, request_task x wc)

-- `LpelWorkerTaskYield` up to the switch.
unfoldable pub task_yield : Ptr → Contexts → Contexts × List Msg
task_yield wc x = if is_wrapper x wc then (x, []) else (set_current wc null x, request_task x wc)

-- `case WORKER_MSG_TERMINATE` of `WorkerLoop`.
abbrev pub worker_terminate : Ptr → Contexts → Contexts
worker_terminate wc x = record x { terminate = assign x.terminate wc true }

module _ {D : Type 0} where
  -- `LpelWorkerRunTask`
  abbrev pub run_task : Ptr → Tasks D → Receiver × Msg
  run_task t m =
      if m.worker_context t == null
      then (to_master, msg_assign t)
      else (to_context (m.worker_context t), msg_assign t)

  -- `LpelWorkerTaskWakeup`
  unfoldable pub task_wakeup : Ptr → Contexts → Tasks D → Receiver × Msg
  task_wakeup t x m =
      if m.worker_context t == null
      then (to_master, msg_wakeup t)
      else if is_wrapper x (m.worker_context t)
      then (to_context (m.worker_context t), msg_wakeup t)
      else (to_master, msg_wakeup t)

  -- `case WORKER_MSG_ASSIGN` of `WorkerLoop`, up to the switch to the task.
  unfoldable pub worker_assign : Ptr → Ptr → Contexts × Tasks D → Run (Contexts × Tasks D)
  worker_assign wc t (x, m) = do
    assert (is_state (m.state t) ready)
    ok (set_current wc t x, record m { worker_context = assign m.worker_context t wc })

  -- The rest of that case, when the task has switched back, and the messages to the master.
  unfoldable pub worker_back :
      Ptr → Ptr → Contexts × Tasks D → Run ((Contexts × Tasks D) × List Msg)
  worker_back wc t (x, m) = do
    assert (not (is_state (m.state t) running))
    ok (
      (set_current wc null x, record m { worker_context = assign m.worker_context t null }),
      return_task t,
    )

  -- A message that `WrapperLoop` receives when it has no current task.
  unfoldable pub wrapper_receive : Ptr → Msg → Contexts × Tasks D → Run (Contexts × Tasks D)
  wrapper_receive wp (msg_assign t) (x, m) = do
    assert (is_state (m.state t) created)
    ok (set_current wp t x, record m { state = assign m.state t ready })
  wrapper_receive wp (msg_wakeup t) (x, m) = do
    assert (is_state (m.state t) blocked)
    ok (set_current wp t x, record m { state = assign m.state t ready })
  wrapper_receive wp _ s = assert_failed

-- `addFreeWrapper`, its section under the lock; the assertion's test of the mailbox is `incoming`.
unfoldable pub add_free_wrapper : Bool → Ptr → Ptr → Contexts → Run (Ptr × Contexts)
add_free_wrapper incoming wp freewrappers x = do
  assert (not incoming && x.terminate wp)
  ok (wp, record x { next_context = assign x.next_context wp freewrappers })

-- `getFreeWrapper`: the wrapper or NULL, and the new list.
unfoldable pub get_free_wrapper : Ptr → Contexts → Ptr × Ptr × Contexts
get_free_wrapper freewrappers x = if freewrappers == null then (null, null, x) else (
  freewrappers,
  x.next_context freewrappers,
  record x { next_context = assign x.next_context freewrappers null },
)

-- `LpelCreateWrapperContext`, up to the start of its thread; `new` is a new context.
unfoldable pub create_wrapper : ℤ → Ptr → Ptr → Contexts → Ptr × Ptr × Contexts
unfolding get_free_wrapper
create_wrapper wid new freewrappers x =
    let (found, rest, x1) = get_free_wrapper freewrappers x in
    let wp = if found == null then new else found in
    let x2 =
      if found == null
      then record x1 {
        free_sd = assign x1.free_sd wp null;
        free_stream = assign x1.free_stream wp null;
        next_context = assign x1.next_context wp null;
      }
      else x1 in
    (
      wp,
      rest,
      record x2 {
        wid = assign x2.wid wp wid;
        terminate = assign x2.terminate wp false;
        current_task = assign x2.current_task wp null;
      },
    )

-- `LpelWorkerPutStream`
unfoldable pub put_stream : Ptr → Ptr → Contexts → Contexts
put_stream wc s x =
    if x.free_stream wc == null
    then record x {
      free_stream = assign x.free_stream wc s;
      next_stream = assign x.next_stream s null;
    }
    else record x {
      next_stream = assign x.next_stream s (x.free_stream wc);
      free_stream = assign x.free_stream wc s;
    }

-- `LpelWorkerGetStream` for the context `wc` of the caller, or NULL; the last two arguments are the
-- `prod_sd` and `cons_sd` fields of the streams.
unfoldable pub get_stream : Ptr → (Ptr → Ptr) → (Ptr → Ptr) → Contexts → Run (Ptr × Contexts)
get_stream wc prod_sd cons_sd x =
    if wc == null
    then ok (null, x)
    else if x.free_stream wc == null
    then ok (null, x)
    else (let tmp = x.free_stream wc in
        assert ((cons_sd tmp == null) && (prod_sd tmp == null))
        >> ok (
          tmp,
          record x {
            free_stream = assign x.free_stream wc (x.next_stream tmp);
            next_stream = assign x.next_stream tmp null;
          },
        ))

-- `LpelWorkerPutSd`
unfoldable pub put_sd : Ptr → Ptr → Contexts → Contexts
put_sd wc sd x =
    if x.free_sd wc == null
    then record x { free_sd = assign x.free_sd wc sd; next_sd = assign x.next_sd sd null }
    else record x { next_sd = assign x.next_sd sd (x.free_sd wc); free_sd = assign x.free_sd wc sd }

module _ {D : Type 0} where
  -- A descriptor that neither a task nor a stream uses.
  abbrev pub is_unused : Tasks D → Ptr → Bool
  is_unused m sd = (m.task_of sd == null) && (m.stream_of sd == null)

  -- The loop of `LpelWorkerGetSd` from the descriptor `tmp` after `prev`.
  unfoldable pub get_sd_from : Tasks D → ℕ → Ptr → Ptr → Contexts → Run (Ptr × Contexts)
  get_sd_from m zero prev tmp x = out_of_fuel
  get_sd_from m (suc fuel) prev tmp x =
      let rest = get_sd_from m fuel tmp (x.next_sd tmp) x in
      if tmp == null
      then ok (null, x)
      else if is_unused m tmp
      then ok (tmp, record x { next_sd = assign (assign x.next_sd prev (x.next_sd tmp)) tmp null })
      else rest

  -- `LpelWorkerGetSd`
  unfoldable pub get_sd : Tasks D → ℕ → Ptr → Contexts → Run (Ptr × Contexts)
  unfolding get_sd_from
  get_sd m fuel wc x =
      let tmp = x.free_sd wc in
      if tmp == null
      then ok (null, x)
      else if is_unused m tmp
      then ok (
        tmp,
        record x {
          free_sd = assign x.free_sd wc (x.next_sd tmp);
          next_sd = assign x.next_sd tmp null;
        },
      )
      else get_sd_from m fuel tmp (x.next_sd tmp) x
