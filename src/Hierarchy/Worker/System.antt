-- ===== src/Hierarchy/Worker/System.antt =====
-- src/sched/hierarchy/hrc_worker_op.c: MasterLoop and WorkerLoop together, and who has the next task
-- of each worker.
use lpel.Base.{
  ◌≤◌, ℕ, suc, ◌+◌, ◌-◌, ◌≡◌, Bool, true, false, Option, none, some, List, [], ◌∷◌, ◌++◌, Ptr, null,
  ◌==◌, if◌then◌else◌, get_or, assign,
}
use lpel.Base.Run.{ok}
use lpel.Base.Int.{pos}
use lpel.Hierarchy.Task.{Tasks}
use lpel.Hierarchy.Priority.{Double, PrioConf}
use lpel.Hierarchy.Master.{Msg, msg_request, msg_return, Master, handle}
use lpel.Hierarchy.Master.Requests.{sent_to, balance, asks}
use lpel.Hierarchy.Worker.{Contexts, request_task, return_task, task_exit, task_block, task_yield}

-- Where a worker is in `WorkerLoop`: before its first request, at the receive, in a task, or back
-- from the task, with the request sent and the task not yet returned.
pub data Phase : Type 0 where
  starting : Phase
  receiving : Phase
  running : Ptr → Phase
  leaving : Ptr → Phase

-- The master, the messages in its mailbox, oldest first, where each worker is, and how many tasks
-- each has received from its own mailbox.
pub record System (D : Type 0) : Type 0 where
  pub master : Master D
  pub inbox : List Msg
  pub phase : ℕ → Phase
  pub received : ℕ → ℕ

-- The task number `n`, from 0, of those sent to worker `i`.
abbrev pub nth_sent : ℕ → ℕ → List (ℕ × Ptr) → Option Ptr
nth_sent i n [] = none
nth_sent i n ((wid, t) ∷ sent) =
    let here = nth_sent i (n - 1) sent in
    let later = nth_sent i n sent in if i == wid then (if n == 0 then some t else here) else later

-- How a task leaves its worker.
pub data Leave : Type 0 where
  by_exit : Leave
  by_block : Leave
  by_yield : Leave

-- The messages that the worker of context `i`, whose number is `i`, sends when its task leaves.
abbrev pub worker_numbers : Contexts
worker_numbers = record {
  wid = λ i. pos i;
  terminate = λ i. false;
  current_task = λ i. null;
  free_stream = λ i. null;
  free_sd = λ i. null;
  next_context = λ i. null;
  next_stream = λ i. null;
  next_sd = λ i. null;
}

unfoldable pub leave_messages : Leave → ℕ → List Msg
unfolding task_exit task_block task_yield
leave_messages by_exit i = (task_exit i worker_numbers).1
leave_messages by_block i = (task_block i worker_numbers).1
leave_messages by_yield i = (task_yield i worker_numbers).1

-- A message to the master that is not a worker's own: a new task, a wakeup, or the order to end.
abbrev pub is_foreign : Msg → Bool
is_foreign (msg_request i) = false
is_foreign (msg_return t) = false
is_foreign _ = true

-- The requests of worker `i` in the mailbox of the master.
abbrev pub requests : ℕ → List Msg → ℕ
requests i [] = 0
requests i (msg ∷ msgs) = asks i msg + requests i msgs

-- 1 if the worker has still to send the request for its next task.
abbrev pub owes : Phase → ℕ
owes starting = 1
owes receiving = 0
owes (running t) = 1
owes (leaving t) = 0

-- Each worker has exactly one of these: a request to be sent, a request in the master's mailbox, a
-- place among the waiting workers, or a task in its own mailbox.
abbrev pub IsOneEach : {D : Type 0} → System D → Type 0
IsOneEach s =
    (i : ℕ)
    → (owes (s.phase i) + requests i s.inbox + balance i s.master.desk ≡ 1 + s.received i)
      × (s.received i ≤ sent_to i s.master.desk.sent)

abbrev pub IsInitial : {D : Type 0} → System D → Type 0
IsInitial s =
    (s.inbox ≡ [])
    × ((i : ℕ) → s.phase i ≡ starting)
    × ((i : ℕ) → s.received i ≡ 0)
    × (s.master.desk.sent ≡ [])
    × ((i : ℕ) → get_or s.master.desk.waitworkers i false ≡ false)

module _ {D : Type 0} (d : Double D) (c : PrioConf D) (memory : List Ptr) where
  -- An action of the master, of a worker or of another thread. The tasks that run change their fields
  -- and those of their streams at will.
  pub data Step : System D → System D → Type 0 where
    step_master :
        {s : System D} {m' : Master D} {msg : Msg} {msgs : List Msg}
        → s.inbox ≡ msg ∷ msgs
        → handle d c memory msg s.master ≡ ok m'
        → Step s (record s { master = m'; inbox = msgs })
    step_start :
        {s : System D} (i : ℕ)
        → s.phase i ≡ starting
        → Step s (record s {
          phase = assign s.phase i receiving;
          inbox = s.inbox ++ request_task worker_numbers i;
        })
    step_receive :
        {s : System D} {t : Ptr} (i : ℕ)
        → s.phase i ≡ receiving
        → nth_sent i (s.received i) s.master.desk.sent ≡ some t
        → Step s (record s {
          phase = assign s.phase i (running t);
          received = assign s.received i (suc (s.received i));
        })
    step_leave :
        {s : System D} {t : Ptr} (i : ℕ) (how : Leave)
        → s.phase i ≡ running t
        → Step s (record s {
          phase = assign s.phase i (leaving t);
          inbox = s.inbox ++ leave_messages how i;
        })
    step_back :
        {s : System D} {t : Ptr} (i : ℕ)
        → s.phase i ≡ leaving t
        → Step s (record s { phase = assign s.phase i receiving; inbox = s.inbox ++ return_task t })
    step_foreign :
        {s : System D} (msg : Msg)
        → is_foreign msg ≡ true
        → Step s (record s { inbox = s.inbox ++ (msg ∷ []) })
    step_tasks :
        {s : System D} (m : Tasks D)
        → Step s
            (record s { master = record s.master { desk = record s.master.desk { tasks = m } } })

  pub data Reach (s0 : System D) : System D → Type 0 where
    reach_start : Reach s0 s0
    reach_step : {s s' : System D} → Reach s0 s → Step s s' → Reach s0 s'
