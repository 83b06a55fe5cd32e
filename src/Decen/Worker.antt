-- ===== src/Decen/Worker.antt =====
-- src/sched/decentralised/decen_worker.c: a worker's messages, the tasks that it makes ready, and the
-- counts of its tasks; with the choice of a worker in task_migration.c.
pub mod Place
pub mod Loop
pub mod Choice
mod Tests
use lpel.Base.{
  ℕ, zero, suc, ◌+◌, ◌-◌, ◌*◌, ◌/◌, ◌%◌, ◌^◌, ◌<◌, ◌≤◌, ◌≡◌, ◌≢◌, refl, ap, sym, subst, ◌∙◌, arith,
  dec_lt, ℕ_discrete, ◌⊎◌, inl, inr, ◌↔◌, Bool, true, false, not, ◌&&◌, ◌||◌, Option, none, some,
  List, [], ◌∷◌, ◌++◌, append-nil, append_assoc, map, Ptr, null, ◌==◌, if◌then◌else◌, ltb, leb,
  length, set, get_elem?, get_or, head_or, last_or, replicate, assign, assign_self, assign_ne,
  assign_undo, assign-assign, fun_ext, length-append, length-set, lt→ltb, ==_of_ne, ==_self, ==→eq,
  ==_false→ne, le→ltb_false, Bool-cases, Option-cases, tests, load, store, load-ok, store-ok, mem,
  ◌∈◌, ◌∉◌, Distinct, IsChain, mem-append, Distinct-remove, map-assign, map-snoc, apart_sym,
  not_mem_snoc, snoc_apart, mem-last, mem-head, ne_of_mem, ne_null_of_mem, IsChain-frame,
  IsChain-assign, head_or-append, last_or-append, IsChain-append, IsChain-left, IsChain-right,
  IsChain-last, IsChain-assign_last, Distinct-left, Distinct-right, Distinct-append, Distinct-apart,
}
use lpel.Base.Run.{out_of_fuel, Run, ok, assert_failed, fault, ◌>>=◌, ◌>>◌, assert, access, map_run}
use lpel.Base.Int.{ℤ, pos, negsuc, pos_part, neg_part}
use lpel.Base.Int.{◌-ℤ◌, ltb_ℤ}
use lpel.Decen.Taskqueue.{Links}
use lpel.Decen.Scheduler.{Sched, make_ready, fetch_ready}
use lpel.Hierarchy.Taskqueue.{is_zero}
use lpel.Hierarchy.Task.{TaskState, created, running, ready, blocked, zombie, is_state}

-- `workermsg_t`
pub data WorkerMsg : Type 0 where
  terminate_msg : WorkerMsg
  wakeup_msg : Ptr → WorkerMsg
  assign_msg : Ptr → WorkerMsg
  spmdreq_msg : WorkerMsg

-- `lpel_tm_mechanism`
pub data Mechanism : Type 0 where
  mig_none : Mechanism
  mig_rand : Mechanism
  mig_wait_prop : Mechanism

-- What LpelPickTargetWorker calls: `check_migrate_func` and `pick_worker_func`, `none` for NULL.
pub record Migration : Type 0 where
  pub mechanism : Mechanism
  pub check_migrate : Option (Ptr → Bool)
  pub pick_worker : Option ℤ

-- The fields of the objects `workerctx_t`, those of the tasks that are used here, and the messages
-- that were sent, each with the context whose mailbox gets it, oldest first.
pub record Machine : Type 0 where
  pub wid : Ptr → ℤ
  pub terminate : Ptr → Bool
  pub num_tasks : Ptr → ℕ
  pub current_task : Ptr → Ptr
  pub marked_del : Ptr → Ptr
  pub wraptask : Ptr → Ptr
  pub migrated : Ptr → Ptr
  pub sched : Ptr → Sched
  pub links : Links
  pub state : Ptr → TaskState
  pub worker_context : Ptr → Ptr
  pub prio : Ptr → ℤ
  pub sent : List (Ptr × WorkerMsg)

-- `LpelPickTargetWorker`
unfoldable pub pick_target_worker : Migration → Ptr → ℤ
pick_target_worker g t = elim g.check_migrate [
  | none ↦ negsuc 0
  | some check ↦ elim g.pick_worker [
    | none ↦ negsuc 0
    | some target ↦ if check t then target else negsuc 0
  ]
]

-- `SendAssign`
abbrev pub send_assign : Ptr → Ptr → Machine → Machine
send_assign wc t w = record w { sent = w.sent ++ ((wc, assign_msg t) ∷ []) }

-- `SendWakeup`
abbrev pub send_wakeup : Ptr → Ptr → Machine → Machine
send_wakeup wc t w = record w { sent = w.sent ++ ((wc, wakeup_msg t) ∷ []) }

-- `wc->num_tasks--` and `wc->num_tasks++` on `unsigned int`.
abbrev pub one_less : ℕ → ℕ
one_less n = (n + (2 ^ 32 - 1)) % 2 ^ 32

abbrev pub one_more : ℕ → ℕ
one_more n = (n + 1) % 2 ^ 32

abbrev pub is_wrapper : Machine → Ptr → Bool
is_wrapper w wc = ltb_ℤ (w.wid wc) (pos 0)

-- `LpelSchedMakeReady( wc->sched, t)`
unfoldable pub sched_ready : Ptr → Ptr → Machine → Run Machine
unfolding make_ready
sched_ready wc t w = make_ready (w.prio t) t w.links (w.sched wc) >>= λ (l, sc).
    ok (record w { links = l; sched = assign w.sched wc sc })

-- `contexts` has the contexts of the workers, `WORKER_PTR`.
module _ (contexts : List Ptr) (g : Migration) where
  -- `LpelWorkerGetContext` of a worker; it creates one for a wrapper, whose id is negative.
  abbrev pub get_context : ℤ → Run Ptr
  get_context (pos i) = elim (get_elem? contexts i) [ none ↦ assert_failed | some wc ↦ ok wc ]
  get_context (negsuc i) = assert_failed

  -- The target of a migration by `LPEL_MIG_WAIT_PROP`, tested as in `LpelWorkerMakeTaskReady`.
  abbrev pub migrates : Mechanism → ℤ → ℤ → Bool
  migrates mig_wait_prop target wid = ltb_ℤ (pos 0) target && not (is_zero (target -ℤ wid))
  migrates _ target wid = false

  -- `LpelWorkerMakeTaskReady`
  unfoldable pub make_task_ready : Ptr → Machine → Run Machine
  unfolding sched_ready pick_target_worker
  make_task_ready t w =
      let wc = w.worker_context t in
      let target = pick_target_worker g t in
      let migrate = get_context target >>= λ to. ok (
        send_assign to t (record w {
          worker_context = assign w.worker_context t to;
          num_tasks = assign w.num_tasks wc (one_less (w.num_tasks wc));
        })) in
      let stay = sched_ready wc t w in
      assert (is_state (w.state t) ready)
      >> (if migrates g.mechanism target (w.wid wc) then migrate else stay)

  abbrev pub set_ready : Ptr → Machine → Machine
  set_ready t w = record w { state = assign w.state t ready }

  -- `LpelWorkerTaskWakeup`; `by` is NULL for a caller that is no task.
  unfoldable pub task_wakeup : Ptr → Ptr → Machine → Run Machine
  unfolding make_task_ready
  task_wakeup by whom w =
      let wc = w.worker_context whom in
      let here =
        assert (not (is_state (w.state whom) ready)) >> make_task_ready whom (set_ready whom w) in
      if is_wrapper w wc
      then ok (send_wakeup wc whom w)
      else if (by == null) || not (w.worker_context by == wc)
      then ok (send_wakeup wc whom w)
      else here

  -- `CleanupTaskContext`
  unfoldable pub cleanup : Ptr → Ptr → Machine → Run Machine
  cleanup wc t w =
      let marked = w.marked_del wc in
      let place = λ (v : Machine).
        if t == null then v else record v { marked_del = assign v.marked_del wc t } in
      let deleted =
        assert (is_state (w.state marked) zombie)
        >> ok (place (record w { marked_del = assign w.marked_del wc null })) in
      if marked == null then ok (place w) else deleted

  -- `LpelWorkerSelfTaskExit`
  unfoldable pub self_task_exit : Ptr → Machine → Run Machine
  unfolding cleanup
  self_task_exit t w =
      let wc = w.worker_context t in
      cleanup wc t w >>= λ w.
      let w1 : Machine = record w {
        num_tasks = assign w.num_tasks wc (one_less (w.num_tasks wc));
      } in
      ok (if is_wrapper w wc then record w1 { terminate = assign w.terminate wc true } else w1)

  -- `LpelWorkerSelfTaskYield`
  unfoldable pub self_task_yield : Ptr → Machine → Run Machine
  unfolding sched_ready
  self_task_yield t w =
      let wc = w.worker_context t in
      let back = sched_ready wc t w in
      if is_wrapper w wc then ok (record w { wraptask = assign w.wraptask wc t }) else back

  -- `LpelWorkerSelfTaskMigrate` up to its switch (`true`), or its return without one.
  unfoldable pub self_task_migrate : Ptr → ℤ → Machine → Run (Bool × Machine)
  self_task_migrate t target w =
      let wc = w.worker_context t in
      let leave = get_context target >>= λ to. ok (
        true,
        record w {
          worker_context = assign w.worker_context t to;
          migrated = assign w.migrated wc t;
        },
      ) in
      if is_zero (w.wid wc -ℤ target) then ok (false, w) else leave

  -- `ProcessMessage` of the worker or wrapper `wc`.
  unfoldable pub process_message : Ptr → WorkerMsg → Machine → Run Machine
  unfolding make_task_ready sched_ready
  process_message wc (wakeup_msg t) w =
      let made = make_task_ready t (set_ready t w) in
      assert (not (is_state (w.state t) ready))
      >> (if is_wrapper w wc
          then ok (record (set_ready t w) { wraptask = assign w.wraptask wc t })
          else made)
  process_message wc (assign_msg t) w =
      let w1 : Machine = record (set_ready t w) {
        num_tasks = assign w.num_tasks wc (one_more (w.num_tasks wc));
      } in
      let queued = sched_ready wc t w1 in
      assert (is_state (w.state t) created || is_state (w.state t) ready)
      >> (if is_wrapper w wc then ok (record w1 { wraptask = assign w.wraptask wc t }) else queued)
  process_message wc terminate_msg w = ok (record w { terminate = assign w.terminate wc true })
  process_message wc spmdreq_msg w = assert (not (is_wrapper w wc)) >> ok w

  -- `FetchAllMessages` on the messages in the mailbox.
  unfoldable pub fetch_all_messages : Ptr → List WorkerMsg → Machine → Run Machine
  unfolding process_message
  fetch_all_messages wc [] w = ok w
  fetch_all_messages wc (msg ∷ msgs) w = process_message wc msg w >>= fetch_all_messages wc msgs

  -- `LpelWorkerDispatcher` after the requests: the task that runs next, or NULL when the loop does.
  unfoldable pub dispatch : Ptr → List WorkerMsg → Machine → Run (Ptr × Machine)
  unfolding fetch_all_messages fetch_ready
  dispatch t msgs w =
      let wc = w.worker_context t in
      let worker = fetch_all_messages wc msgs w >>= λ w1.
      fetch_ready w1.links (w1.sched wc) >>= λ (next, l, sc).
      let w2 : Machine = record w1 { links = l; sched = assign w1.sched wc sc } in
      ok (
        next,
        if not (next == null) && (next == t)
            then w2
            else record w2 { current_task = assign w2.current_task wc next },
      ) in
      if is_wrapper w wc
      then ok (null, record w { current_task = assign w.current_task wc null })
      else worker

  -- `WorkerLoop` after a task has switched back: the migration and the deferred deletion.
  unfoldable pub back_on_worker : Ptr → Machine → Run Machine
  unfolding cleanup
  back_on_worker wc w =
      let t = w.migrated wc in
      let w1 =
        if t == null
        then w
        else send_assign (w.worker_context t) t (record w {
          num_tasks = assign w.num_tasks wc (one_less (w.num_tasks wc));
          migrated = assign w.migrated wc null;
        }) in
      cleanup wc null w1

  -- The condition on which `WorkerLoop` ends.
  abbrev pub worker_ends : Ptr → Machine → Bool
  worker_ends wc w = (w.num_tasks wc == 0) && w.terminate wc
