-- ===== src/Decen/Task.antt =====
-- src/sched/decentralised/decen_task.c: the life of a task. A task that leaves its worker is cut at
-- the switch, after which it goes on with TaskStart; `Outcome` has what runs then.
-- The stack, the machine context and the monitoring object of a task are left out.
pub mod Yield
mod Tests
use lpel.Decen.Worker.Loop.{broadcast}
use lpel.Hierarchy.Taskqueue.{is_zero}
use lpel.Decen.Scheduler.{fetch_ready}
use lpel.Base.{
  ℕ, zero, suc, ◌+◌, ◌-◌, ◌*◌, ◌/◌, ◌%◌, ◌^◌, ◌<◌, ◌≤◌, ◌≡◌, ◌≢◌, refl, ap, sym, subst, ◌∙◌, arith,
  dec_lt, ℕ_discrete, ◌⊎◌, inl, inr, ◌↔◌, Bool, true, false, not, ◌&&◌, ◌||◌, Option, none, some,
  List, [], ◌∷◌, ◌++◌, append-nil, append_assoc, map, Ptr, null, ◌==◌, if◌then◌else◌, ltb, leb,
  length, set, get_elem?, get_or, head_or, last_or, replicate, assign, assign_self, assign_ne,
  assign_undo, assign-assign, fun_ext, length-append, length-set, lt→ltb, ==_of_ne, ==_self, ==→eq,
  ==_false→ne, le→ltb_false, Bool-cases, Option-cases, tests, load, store, load-ok, store-ok, mem,
  ◌∈◌, ◌∉◌, Distinct, IsChain, mem-append, Distinct-remove, map-assign, map-snoc, apart_sym,
  not_mem_snoc, snoc_apart, mem-last, mem-head, ne_of_mem, ne_null_of_mem, IsChain-frame,
  IsChain-assign, head_or-append, last_or-append, IsChain-append, IsChain-left, IsChain-right,
  IsChain-last, IsChain-assign_last, Distinct-left, Distinct-right, Distinct-append, Distinct-apart,
}
use lpel.Base.Run.{out_of_fuel, Run, ok, assert_failed, fault, ◌>>=◌, ◌>>◌, assert, access, map_run}
use lpel.Base.Int.{◌-ℤ◌, ltb_ℤ, ℤ, pos, negsuc, pos_part, neg_part}
use lpel.Hierarchy.Task.{TaskState, created, running, ready, blocked, zombie, is_state}
use lpel.Decen.Worker.{
  fetch_all_messages, process_message, make_task_ready, back_on_worker, Machine, Migration,
  Mechanism, mig_none, mig_rand, mig_wait_prop, WorkerMsg, spmdreq_msg, terminate_msg,
  pick_target_worker, send_assign, task_wakeup, self_task_exit, self_task_yield, self_task_migrate,
  dispatch,
}

-- The fields of `lpel_task_t` that the workers do not use, the counter of tasks, the freed tasks, and
-- the calls of destructors, each with the task and the data.
pub record Store : Type 0 where
  pub machine : Machine
  pub size : Ptr → ℕ
  pub uid : Ptr → ℕ
  pub func : Ptr → Ptr
  pub inarg : Ptr → Ptr
  pub outarg : Ptr → Ptr
  pub poll_token : Ptr → ℕ
  pub usrdata : Ptr → Ptr
  pub usrdt_destr : Ptr → Ptr
  pub taskseq : ℕ
  pub freed : List Ptr
  pub destructed : List (Ptr × Ptr)

-- `LPEL_TASK_SIZE_DEFAULT` and `TASK_MINSIZE`
abbrev pub lpel_task_size_default : ℕ
lpel_task_size_default = 8192

abbrev pub task_minsize : ℕ
task_minsize = 4096

-- The size of a task: `if (size <= 0) size = LPEL_TASK_SIZE_DEFAULT`.
abbrev pub size_of : ℤ → ℕ
size_of (negsuc n) = lpel_task_size_default
size_of (pos n) = if n == 0 then lpel_task_size_default else n

-- `LpelWorkerGetContext`; `fresh` is the new context of a wrapper, whose thread and mailbox are
-- left out.
unfoldable pub context_of : List Ptr → Ptr → ℤ → Machine → Run (Ptr × Machine)
context_of contexts fresh (pos i) w = elim (get_elem? contexts i) [
  | none ↦ assert_failed
  | some wc ↦ ok (wc, w)
]
context_of contexts fresh (negsuc i) w = ok (
  fresh,
  record w {
    wid = assign w.wid fresh (negsuc i);
    terminate = assign w.terminate fresh false;
    wraptask = assign w.wraptask fresh null;
  },
)

-- `LpelTaskCreate`: `t` is the new task.
unfoldable pub task_create : List Ptr → Ptr → Ptr → ℤ → Ptr → Ptr → ℤ → Store → Run Store
unfolding context_of
task_create contexts fresh t worker f arg n s =
    assert (leb task_minsize (size_of n))
    >> (context_of contexts fresh worker s.machine >>= λ (wc, w). ok (record s {
      machine = record w {
        worker_context = assign w.worker_context t wc;
        prio = assign w.prio t (pos 0);
        state = assign w.state t created;
        links = record { prev = assign w.links.prev t null; next = assign w.links.next t null };
      };
      size = assign s.size t (size_of n);
      uid = assign s.uid t s.taskseq;
      func = assign s.func t f;
      inarg = assign s.inarg t arg;
      poll_token = assign s.poll_token t 0;
      usrdata = assign s.usrdata t null;
      usrdt_destr = assign s.usrdt_destr t null;
      taskseq = (s.taskseq + 1) % 2 ^ 32;
    }))

-- `LpelTaskDestroy`
unfoldable pub task_destroy : Ptr → Store → Run Store
task_destroy t s =
    assert (is_state (s.machine.state t) zombie) >> ok (record s { freed = s.freed ++ (t ∷ []) })

-- `LpelTaskSetPriority`
abbrev pub set_priority : Ptr → ℤ → Machine → Machine
set_priority t prio w = record w { prio = assign w.prio t prio }

-- `LpelTaskStart` and `LpelWorkerRunTask`
unfoldable pub run_task : Ptr → Machine → Run Machine
run_task t w = assert (is_state (w.state t) created) >> ok (send_assign (w.worker_context t) t w)

-- `TaskStart` and `TaskStop`
unfoldable pub task_start : Ptr → Machine → Run Machine
task_start t w =
    assert (is_state (w.state t) ready) >> ok (record w { state = assign w.state t running })

unfoldable pub task_stop : Ptr → Machine → Run Machine
task_stop t w = assert (not (is_state (w.state t) running)) >> ok w

abbrev pub set_state : Ptr → TaskState → Machine → Machine
set_state t st w = record w { state = assign w.state t st }

-- What runs when a task has left: a task, which is started, or the loop of its worker.
pub data Outcome : Type 0 where
  runs : Ptr → Machine → Outcome
  worker_loop : Machine → Outcome

-- The end of LpelWorkerDispatcher: the task that it chose goes on after its own call, with TaskStart.
unfoldable pub resume : Ptr × Machine → Run Outcome
unfolding task_start
resume (next, w) =
    let started = task_start next w >>= λ w'. ok (runs next w') in
    if next == null then ok (worker_loop w) else started

module _ (contexts : List Ptr) (g : Migration) where
  -- `TaskStop( t); LpelWorkerDispatcher( t); TaskStart( t);` with the messages in the mailbox.
  unfoldable pub leave : Ptr → List WorkerMsg → Machine → Run Outcome
  unfolding task_stop dispatch resume
  leave t msgs w = task_stop t w >>= dispatch contexts g t msgs >>= resume

  -- LpelWorkerSelfTaskMigrate between TaskStop and TaskStart: without a switch the task goes on.
  unfoldable pub migrate : Ptr → ℤ → Machine → Run Outcome
  unfolding task_stop self_task_migrate task_start
  migrate t target w = task_stop t w >>= self_task_migrate contexts g t target >>= λ (switched, w').
      let goes_on = task_start t w' >>= λ w''. ok (runs t w'') in
      if switched then ok (worker_loop w') else goes_on

  abbrev pub migrates_on_yield : Mechanism → ℤ → Bool
  migrates_on_yield mig_wait_prop target = ltb_ℤ (pos 0) target
  migrates_on_yield mig_none target = false
  migrates_on_yield mig_rand target = false

  -- `LpelTaskYield`
  unfoldable pub task_yield : Ptr → List WorkerMsg → Machine → Run Outcome
  unfolding migrate leave self_task_yield
  task_yield t msgs w =
      let w1 = set_state t ready w in
      let target = pick_target_worker g t in
      let moved = migrate t target w1 in
      let stays = self_task_yield contexts g t w1 >>= leave t msgs in
      assert (is_state (w.state t) running)
      >> (if migrates_on_yield g.mechanism target then moved else stays)

  -- `LpelTaskBlockStream`
  unfoldable pub block_stream : Ptr → List WorkerMsg → Machine → Run Outcome
  unfolding leave
  block_stream t msgs w = leave t msgs (set_state t blocked w)

  -- `LpelTaskUnblock`
  unfoldable pub unblock : Ptr → Ptr → Machine → Run Machine
  unfolding task_wakeup
  unblock ct t w =
      let woken = task_wakeup contexts g ct t w in
      assert (not (ct == null)) >> (assert (not (t == null)) >> woken)

  -- `LpelTaskCheckMigrate`
  abbrev pub may_migrate : Mechanism → Bool
  may_migrate mig_rand = true
  may_migrate mig_none = false
  may_migrate mig_wait_prop = false

  unfoldable pub check_migrate : Ptr → Machine → Run Outcome
  unfolding migrate
  check_migrate t w =
      let wid = w.wid (w.worker_context t) in
      let target = pick_target_worker g t in
      let moved = migrate t target (set_state t ready w) in
      let checked =
        assert (is_state (w.state t) running)
        >> (if not (ltb_ℤ target (pos 0)) && not (is_zero (wid -ℤ target))
            then moved
            else ok (runs t w)) in
      if not (may_migrate g.mechanism) || ltb_ℤ wid (pos 0) then ok (runs t w) else checked

  -- The end of a task, in `TaskStartup` and in `FinishOffCurrentTask`: what follows `assert(0)` never
  -- runs, since no queue holds the task.
  unfoldable pub task_end : Ptr → List WorkerMsg → Machine → Run Outcome
  unfolding self_task_exit leave
  task_end t msgs w = self_task_exit contexts g t (set_state t zombie w) >>= leave t msgs

  -- `FinishOffCurrentTask` before the task ends: the destructor of the user data.
  unfoldable pub destruct : Ptr → Store → Store
  destruct t s =
      if not (s.usrdt_destr t == null) && not (s.usrdata t == null)
      then record s { destructed = s.destructed ++ ((t, s.usrdata t) ∷ []) }
      else s

  -- `LpelTaskExit`
  unfoldable pub task_exit : Ptr → List WorkerMsg → Store → Run (Outcome × Store)
  unfolding destruct task_end
  task_exit t msgs s =
      let ended = task_end t msgs s.machine >>= λ o. ok (o, destruct t s) in
      assert (is_state (s.machine.state t) running) >> ended

  -- `LpelTaskEnterSPMD` after the request is made: a message to every worker, and the task blocks.
  unfoldable pub enter_spmd : Ptr → List WorkerMsg → Machine → Run Outcome
  unfolding leave
  enter_spmd t msgs w =
      let told : Machine = record (broadcast contexts spmdreq_msg w) {
        state = assign w.state t blocked;
      } in
      let left = leave t msgs told in assert (is_state (w.state t) running) >> left

-- `LpelTaskGetWorkerId`
unfoldable pub get_worker_id : Ptr → Machine → Run ℤ
get_worker_id t w =
    let wc = w.worker_context t in
    assert (not (t == null)) >> (assert (not (wc == null)) >> ok (w.wid wc))

-- `LpelTaskGetId`
abbrev pub get_id : Ptr → Store → ℕ
get_id t s = s.uid t

-- `LpelSetUserData`, `LpelGetUserData`, `LpelSetUserDataDestructor` and `LpelGetUserDataDestructor`
unfoldable pub set_user_data : Ptr → Ptr → Store → Run Store
set_user_data t d s = assert (not (t == null)) >> ok (record s { usrdata = assign s.usrdata t d })

unfoldable pub get_user_data : Ptr → Store → Run Ptr
get_user_data t s = assert (not (t == null)) >> ok (s.usrdata t)

unfoldable pub set_user_data_destructor : Ptr → Ptr → Store → Run Store
set_user_data_destructor t d s =
    assert (not (t == null)) >> ok (record s { usrdt_destr = assign s.usrdt_destr t d })

unfoldable pub get_user_data_destructor : Ptr → Store → Run Ptr
get_user_data_destructor t s = assert (not (t == null)) >> ok (s.usrdt_destr t)
