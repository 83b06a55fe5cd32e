-- ===== src/Hierarchy/Master/Balance.antt =====
-- src/sched/hierarchy/hrc_worker_op.c, the messages of MasterLoop: the requests of a worker and the
-- tasks that it gets.
use lpel.Base.{ℕ, ◌+◌, ◌≤◌, ◌≡◌, refl, arith, false, List, Ptr, get_or, assign}
use lpel.Base.Run.{Run, ok}
use lpel.Base.After.{After, After-bind, After-any, After-if, After-ok}
use lpel.Hierarchy.Priority.{Double, PrioConf}
use lpel.Hierarchy.Task.{
  TaskState, created, running, ready, blocked, mutex, zombie, inqueue, returned, is_state, destroy,
}
use lpel.Hierarchy.Master.{
  Msg, msg_terminate, msg_wakeup, msg_assign, msg_request, msg_return, Desk, Master, on_desk,
  set_state, handle_state, handle_return, handle_wakeup, handle,
}
use lpel.Hierarchy.Master.Requests.{
  sent_to, asks, balance, Kept, update_neighbours-balance, process_task_ready-balance,
  handle_assign-balance, process_task_req-balance,
}

-- The worker of a request does not wait yet.
abbrev pub IsFresh : {D : Type 0} → Msg → Master D → Type 0
IsFresh (msg_request wid) m = get_or m.desk.waitworkers wid false ≡ false
IsFresh _ m = Unit

module _ {D : Type 0} (d : Double D) (c : PrioConf D) (memory : List Ptr) (i low : ℕ) where
  abbrev Held : ℕ → Master D → Type 0
  Held n m = Kept d c memory i low n m.desk

  on_desk-balance :
      (n : ℕ) (m : Master D) (r : Run (Desk D))
      → After (Kept d c memory i low n) r
      → After (Held n) (on_desk d c memory m r)
  on_desk-balance n m r h = After-bind (Held n) (Kept d c memory i low n) r _ h λ k e. e

  handle_state-balance :
      (n : ℕ) (state : TaskState) (t : Ptr) (m : Master D)
      → Kept d c memory i low n m.desk
      → After (Held n) (handle_state d c memory state t m)
  unfolding handle_state
  handle_state-balance n blocked t m h =
      After-if (Held n) (m.wakenup t) _ _
        (on_desk-balance n (record m { wakenup = assign m.wakenup t false }) _
          (process_task_ready-balance d c memory i low n t (set_state d c memory t ready m.desk) h))
        h
  handle_state-balance n ready t m h =
      on_desk-balance n m _ (process_task_ready-balance d c memory i low n t m.desk h)
  handle_state-balance n zombie t m h = After-any (Held n) (destroy t m.desk.tasks) _ λ _. h
  handle_state-balance n created t m h = tt
  handle_state-balance n running t m h = tt
  handle_state-balance n mutex t m h = tt
  handle_state-balance n inqueue t m h = tt
  handle_state-balance n returned t m h = tt

  handle-After :
      (n : ℕ) (msg : Msg) (m : Master D)
      → IsFresh msg m
      → balance i m.desk + asks i msg ≡ n
      → low ≤ sent_to i m.desk.sent
      → After (Held n) (handle d c memory msg m)
  unfolding handle handle_return handle_wakeup
  handle-After n (msg_assign t) m f e l =
      on_desk-balance n m _
        (handle_assign-balance d c memory i low n t m.desk (omega (arith, e), l))
  handle-After n (msg_return t) m f e l =
      After-bind (Held n) (Kept d c memory i low n) _ _
        (update_neighbours-balance d c memory i low n t c.update_neigh_prio m.desk
          (omega (arith, e), l))
        (λ k h. handle_state-balance n (k.tasks.state t) t (record m { desk = k }) h)
  handle-After n (msg_wakeup t) m f e l =
      After-if (Held n) (is_state (m.desk.tasks.state t) returned) _ _
        (on_desk-balance n m _ (
          process_task_ready-balance d c memory i low n t (set_state d c memory t ready m.desk)
            (omega (arith, e), l)))
        (omega (arith, e), l)
  handle-After n (msg_request wid) m f e l =
      on_desk-balance n m _ (process_task_req-balance d c memory i low n wid m.desk f (e, l))
  handle-After n msg_terminate m f e l = (omega (arith, e), l)

-- When the worker of a request does not wait already, the master handles each message so that the
-- tasks sent to worker `i`, and one more if it waits, grow by the requests of worker `i` in the
-- message, and no sent task is taken back: each request is answered by exactly one task or waits,
-- and no worker gets a task that it did not ask for.
pub handle-balance :
    {D : Type 0} (d : Double D) (c : PrioConf D) (memory : List Ptr) (i : ℕ) (msg : Msg)
    (m m' : Master D)
    → IsFresh msg m
    → handle d c memory msg m ≡ ok m'
    → (balance i m'.desk ≡ balance i m.desk + asks i msg)
      × (sent_to i m.desk.sent ≤ sent_to i m'.desk.sent)
handle-balance d c memory i msg m m' f e =
    After-ok (Held d c memory i (sent_to i m.desk.sent) (balance i m.desk + asks i msg))
      (handle d c memory msg m) m'
      (handle-After d c memory i (sent_to i m.desk.sent) (balance i m.desk + asks i msg) msg m f
        refl (omega arith))
      e
