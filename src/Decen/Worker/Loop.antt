-- ===== src/Decen/Worker/Loop.antt =====
-- src/sched/decentralised/decen_worker.c: the start of the workers, the turns of their loops and their end.
use lpel.Base.{ℕ, ◌+◌, false, not, List, [], ◌∷◌, ◌++◌, map, Ptr, null, ◌==◌, if◌then◌else◌, assign}
use lpel.Base.Run.{Run, ok, ◌>>=◌, ◌>>◌, assert}
use lpel.Base.Int.{pos}
use lpel.Hierarchy.Task.{ready, is_state}
use lpel.Decen.Scheduler.{create, fetch_ready}
use lpel.Decen.Worker.{
  Machine, Migration, WorkerMsg, terminate_msg, process_message, fetch_all_messages, back_on_worker,
  cleanup, set_ready, make_task_ready,
}

-- `LpelWorkerBroadcast` and `LpelWorkersTerminate`
abbrev pub broadcast : List Ptr → WorkerMsg → Machine → Machine
broadcast contexts msg w = record w { sent = w.sent ++ map (λ wc. (wc, msg)) contexts }

unfoldable pub workers_terminate : List Ptr → Machine → Machine
workers_terminate contexts w = broadcast contexts terminate_msg w

-- `LpelWorkersInit`: worker `i` has the context at place `i`, from `first` on; the mailboxes are
-- empty.
unfoldable pub workers_init_from : ℕ → List Ptr → Machine → Machine
workers_init_from i [] w = w
workers_init_from i (wc ∷ wcs) w = workers_init_from (i + 1) wcs (record w {
  wid = assign w.wid wc (pos i);
  num_tasks = assign w.num_tasks wc 0;
  terminate = assign w.terminate wc false;
  sched = assign w.sched wc create;
  wraptask = assign w.wraptask wc null;
  migrated = assign w.migrated wc null;
})

-- `LpelWorkerTaskWakeupLocal`
unfoldable pub wakeup_local : List Ptr → Migration → Ptr → Ptr → Machine → Run Machine
wakeup_local contexts g wc t w =
    let made = make_task_ready contexts g t (set_ready contexts g t w) in
    assert (not (is_state (w.state t) ready)) >> (assert (w.worker_context t == wc) >> made)

-- A turn of `WorkerLoop` up to its switch or its wait: the task that it starts, or NULL.
unfoldable pub fetch_task : Ptr → Machine → Run (Ptr × Machine)
fetch_task wc w = fetch_ready w.links (w.sched wc) >>= λ (t, l, sc).
    let w1 : Machine = record w { links = l; sched = assign w.sched wc sc } in
    ok (t, if t == null then w1 else record w1 { current_task = assign w.current_task wc t })

-- `WorkerThread` before the loop.
abbrev pub thread_start : Ptr → Machine → Machine
thread_start wc w = record w {
  current_task = assign w.current_task wc null;
  marked_del = assign w.marked_del wc null;
}

module _ (contexts : List Ptr) (g : Migration) where
  -- `WaitForNewMessage`, which receives `msg`.
  abbrev pub wait_for_message : Ptr → WorkerMsg → Machine → Run Machine
  wait_for_message wc msg w = process_message contexts g wc msg w

  -- A turn of `WorkerLoop`: `run` is what the tasks do from the switch on until one of them switches
  -- back to the worker, `msg` the message of the wait and `msgs` those in the mailbox at the end.
  unfoldable pub worker_turn :
      Ptr → (Ptr → Machine → Run Machine) → WorkerMsg → List WorkerMsg → Machine → Run Machine
  unfolding fetch_task process_message back_on_worker fetch_all_messages
  worker_turn wc run msg msgs w = fetch_task wc w >>= λ (t, w1).
      let waited = wait_for_message wc msg w1 in
      let executed = run t w1 >>= back_on_worker contexts g wc in
      (if t == null then waited else executed) >>= fetch_all_messages contexts g wc msgs

  -- A turn of `WrapperLoop`.
  unfoldable pub wrapper_turn :
      Ptr → (Ptr → Machine → Run Machine) → WorkerMsg → List WorkerMsg → Machine → Run Machine
  unfolding process_message fetch_all_messages
  wrapper_turn wc run msg msgs w =
      let t = w.wraptask wc in
      let waited = wait_for_message wc msg w in
      let executed = run t (record w {
        current_task = assign w.current_task wc t;
        wraptask = assign w.wraptask wc null;
      }) in
      (if t == null then waited else executed) >>= fetch_all_messages contexts g wc msgs

  -- The end of `WrapperLoop`.
  abbrev pub wrapper_end : Ptr → Machine → Run Machine
  wrapper_end wc w = cleanup contexts g wc null w
