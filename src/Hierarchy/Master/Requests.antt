-- ===== src/Hierarchy/Master/Requests.antt =====
-- src/sched/hierarchy/hrc_worker_op.c, the master: the requests of a worker and the tasks that are
-- sent to it, in each of the functions that a message leads to.
use lpel.Base.{
  ◌≤◌, ℕ, zero, suc, ◌+◌, ◌≡◌, ap, ◌∙◌, arith, inl, inr, Bool, true, false, not, ◌&&◌, some, List,
  [], ◌∷◌, ◌++◌, Ptr, null, ◌==◌, set, get_elem?, get_or, assign, Option-cases,
}
use lpel.Base.Int.{◌-ℤ◌, pos}
use lpel.Hierarchy.Priority.{Double, PrioConf}
use lpel.Hierarchy.Task.{
  created, ready, inqueue, is_state, Direction, input, output, update_valid, cal_priority,
}
use lpel.Hierarchy.Master.{
  push, search_item, assert, occupy, peek, is_zero, Msg, msg_request, Desk, reorder, find_waiting,
  set_state, send_task, serve_pending_req, enqueue, dequeue, update_priority, neighbour, update_one,
  update_priority_list, serve_top, update_neighbours, process_task_ready, wait_worker,
  process_task_req, handle_assign, prio_of,
}
use lpel.Base.After.{After, After-bind, After-any, After-if, After-option}

abbrev pub bit : Bool → ℕ
bit true = 1
bit false = 0

-- 1 if worker `i` waits for a task.
abbrev pub waiting : ℕ → List Bool → ℕ
waiting i ws = bit (get_or ws i false)

-- The number of tasks that were sent to worker `i`.
abbrev pub sent_to : ℕ → List (ℕ × Ptr) → ℕ
sent_to i [] = 0
sent_to i ((wid, t) ∷ sent) = bit (i == wid) + sent_to i sent

-- The requests of worker `i` in a message.
abbrev pub asks : ℕ → Msg → ℕ
asks i (msg_request wid) = bit (i == wid)
asks i _ = 0

sent_to-snoc :
    (i j t : ℕ) (sent : List (ℕ × Ptr))
    → sent_to i (sent ++ ((j, t) ∷ [])) ≡ sent_to i sent + bit (i == j)
sent_to-snoc i j t [] = omega arith
sent_to-snoc i j t ((k, u) ∷ sent) = omega (arith, sent_to-snoc i j t sent)

-- What the search finds beyond a worker that does not wait.
find_beyond :
    (ws : List Bool) (j : ℕ)
    → find_waiting (false ∷ ws) ≡ some j
    → (n : ℕ) × (find_waiting ws ≡ some n) × (j ≡ suc n)
find_beyond ws j e = elim (Option-cases (find_waiting ws)) [ inl k ↦ cc | inr (n, k) ↦ (n, k, cc) ]

waiting_served :
    (ws : List Bool) (j i : ℕ)
    → find_waiting ws ≡ some j
    → waiting i (set ws j false) + bit (i == j) ≡ waiting i ws
waiting_served [] j i e = cc
waiting_served (true ∷ ws) zero zero e = ground arith
waiting_served (true ∷ ws) zero (suc i) e = ground arith
waiting_served (true ∷ ws) (suc j) i e = cc
waiting_served (false ∷ ws) zero i e =
    let (n, k, z) = find_beyond ws zero e in absurd (omega (arith, z))
waiting_served (false ∷ ws) (suc j) zero e = ground arith
waiting_served (false ∷ ws) (suc j) (suc i) e =
    let (n, k, z) = find_beyond ws (suc j) e in
    ground (arith, waiting_served ws j i (k ∙ ap some (omega (arith, z))))

waiting-set :
    (ws : List Bool) (j i : ℕ) (w : Bool)
    → get_elem? ws j ≡ some w
    → get_or ws j false ≡ false
    → waiting i (set ws j true) ≡ waiting i ws + bit (i == j)
waiting-set [] j i w e h = cc
waiting-set (x ∷ ws) zero zero w e h = ground arith
waiting-set (x ∷ ws) zero (suc i) w e h = ground arith
waiting-set (x ∷ ws) (suc j) zero w e h = ground arith
waiting-set (x ∷ ws) (suc j) (suc i) w e h = ground (arith, waiting-set ws j i w e h)

-- The number of requests of worker `i` that were handled, if each was answered or waits.
abbrev pub balance : {D : Type 0} → ℕ → Desk D → ℕ
balance i m = waiting i m.waitworkers + sent_to i m.sent

module _ {D : Type 0} (d : Double D) (c : PrioConf D) (memory : List Ptr) (i low : ℕ) where
  -- The balance, and a lower bound of the tasks that were sent.
  abbrev pub Kept : ℕ → Desk D → Type 0
  Kept n m = (balance i m ≡ n) × (low ≤ sent_to i m.sent)

  send_task-balance :
      (n wid t : ℕ) (m : Desk D)
      → (balance i m + bit (i == wid) ≡ n) × (low ≤ sent_to i m.sent)
      → After (Kept n) (send_task d c memory wid t m)
  unfolding send_task
  send_task-balance n wid t m h =
      After-any (Kept n) (assert (is_state (m.tasks.state t) ready)) _
        λ _. rw (sent_to-snoc i wid t m.sent) (omega (arith, h.0), omega (arith, h.1))

  serve_pending_req-balance :
      (n t : ℕ) (m : Desk D)
      → Kept n m
      → After (λ (served, m'). Kept n m') (serve_pending_req d c memory t m)
  unfolding serve_pending_req
  serve_pending_req-balance n t m h =
      After-option (λ (served, m'). Kept n m') (find_waiting m.waitworkers) _ _ (λ e. h)
        λ j e.
          let freed : Desk D = record m { waitworkers = set m.waitworkers j false } in
          After-bind (λ (served, m'). Kept n m') (Kept n) (send_task d c memory j t freed) _
            (send_task-balance n j t freed
              (omega (arith, waiting_served m.waitworkers j i e, h.0), h.1))
            (λ m' k. k)

  enqueue-balance : (n t : ℕ) (m : Desk D) → Kept n m → After (Kept n) (enqueue d c memory t m)
  unfolding enqueue
  enqueue-balance n t m h =
      After-any (Kept n) (push (prio_of d c memory m.tasks) memory t m.ready_tasks) _ λ q. h

  dequeue-balance : (n t : ℕ) (m : Desk D) → Kept n m → After (Kept n) (dequeue d c memory t m)
  unfolding dequeue
  dequeue-balance n t m h =
      After-any (Kept n) (occupy (prio_of d c memory m.tasks) t m.ready_tasks) _ λ q. h

  update_priority-balance :
      (n t : ℕ) (np : D) (m : Desk D)
      → Kept n m
      → After (Kept n) (update_priority d c memory t np m)
  unfolding update_priority
  update_priority-balance n t np m h = After-any (Kept n) (search_item m.ready_tasks t) _ λ found.
      After-option (Kept n) found _ _ (λ e. tt)
        λ j e.
          After-any (Kept n)
            (reorder d c memory (record m.tasks { prio = assign m.tasks.prio t np })
              (m.tasks.prio t) np t j m.ready_tasks)
            _ λ q. h

  update_one-balance :
      (n : ℕ) (mode : Direction) (u : Bool) (sd : Ptr) (m : Desk D)
      → Kept n m
      → After (Kept n) (update_one d c memory mode u sd m)
  unfolding update_one
  update_one-balance n mode u sd m h =
      let t = neighbour d c memory m.tasks mode sd in
      let m1 : Desk D = record m { tasks = update_valid c t m.tasks } in
      After-if (Kept n) (not (t == null) && is_state (m.tasks.state t) inqueue) _ _
        (After-if (Kept n) u _ _
          (After-any (Kept n) (cal_priority c m1.tasks t) _
            (λ np. update_priority-balance n t np m1 h))
          h)
        h

  update_priority_list-balance :
      (n : ℕ) (mode : Direction) (u : Bool) (list : List Ptr) (m : Desk D)
      → Kept n m
      → After (Kept n) (update_priority_list d c memory mode u list m)
  unfolding update_priority_list
  update_priority_list-balance n mode u [] m h = h
  update_priority_list-balance n mode u (sd ∷ list) m h =
      After-bind (Kept n) (Kept n) (update_one d c memory mode u sd m) _
        (update_one-balance n mode u sd m h)
        (λ m' k. update_priority_list-balance n mode u list m' k)

  serve_top-balance : (n : ℕ) (m : Desk D) → Kept n m → After (Kept n) (serve_top d c memory m)
  unfolding serve_top
  serve_top-balance n m h = After-any (Kept n) (peek m.ready_tasks) _ λ top.
      After-if (Kept n) (top == null) _ _ h (
        After-if (Kept n) (not (is_zero (m.tasks.valid top -ℤ pos 1))) _ _ h (
          After-bind (Kept n) (λ (served, m'). Kept n m')
            (serve_pending_req d c memory top (set_state d c memory top ready m)) _
            (serve_pending_req-balance n top (set_state d c memory top ready m) h)
            (λ (served, m') k.
              After-option (Kept n) served _ _ (λ e. k) (λ j e. dequeue-balance n top m' k))))

  pub update_neighbours-balance :
      (n t : ℕ) (u : Bool) (m : Desk D)
      → Kept n m
      → After (Kept n) (update_neighbours d c memory t u m)
  unfolding update_neighbours
  update_neighbours-balance n t u m h =
      After-bind (Kept n) (Kept n) _ _
        (update_priority_list-balance n input u (m.tasks.in_streams t) m h)
        (λ m1 h1.
          After-bind (Kept n) (Kept n) _ _
            (After-if (Kept n) u _ _
              (update_priority_list-balance n output u (m1.tasks.out_streams t) m1 h1) h1)
            (λ m2 h2. serve_top-balance n m2 h2))

  pub process_task_ready-balance :
      (n t : ℕ) (m : Desk D) → Kept n m → After (Kept n) (process_task_ready d c memory t m)
  unfolding process_task_ready
  process_task_ready-balance n t m h =
      let m1 : Desk D = record m { tasks = update_valid c t m.tasks } in
      After-if (Kept n) (is_zero (m1.tasks.valid t)) _ _ (enqueue-balance n t m1 h) (
        After-bind (Kept n) (λ (served, m'). Kept n m') (serve_pending_req d c memory t m1) _
          (serve_pending_req-balance n t m1 h)
          (λ (served, m2) k.
            After-option (Kept n) served _ _
              (λ e. After-any (Kept n) (cal_priority c m2.tasks t) _ λ p.
                enqueue-balance n t
                  (record m2 { tasks = record m2.tasks { prio = assign m2.tasks.prio t p } }) k)
              (λ j e. k)))

  pub handle_assign-balance :
      (n t : ℕ) (m : Desk D) → Kept n m → After (Kept n) (handle_assign d c memory t m)
  unfolding handle_assign
  handle_assign-balance n t m h =
      After-any (Kept n) (assert (is_state (m.tasks.state t) created)) _ λ _.
        After-bind (Kept n) (λ (served, m'). Kept n m')
          (serve_pending_req d c memory t (set_state d c memory t ready m)) _
          (serve_pending_req-balance n t (set_state d c memory t ready m) h)
          (λ (served, m') k.
            After-option (Kept n) served _ _ (λ e. enqueue-balance n t m' k) (λ j e. k))

  wait_worker-balance :
      (n wid : ℕ) (m : Desk D)
      → get_or m.waitworkers wid false ≡ false
      → (balance i m + bit (i == wid) ≡ n) × (low ≤ sent_to i m.sent)
      → After (Kept n) (wait_worker d c memory wid m)
  unfolding wait_worker
  wait_worker-balance n wid m idle h = elim (Option-cases (get_elem? m.waitworkers wid)) [
    | inl e ↦ rw e tt
    | inr (w, e) ↦ rw e (omega (arith, waiting-set m.waitworkers wid i w e idle, h.0), h.1)
  ]

  pub process_task_req-balance :
      (n wid : ℕ) (m : Desk D)
      → get_or m.waitworkers wid false ≡ false
      → (balance i m + bit (i == wid) ≡ n) × (low ≤ sent_to i m.sent)
      → After (Kept n) (process_task_req d c memory wid m)
  unfolding process_task_req
  process_task_req-balance n wid m idle h = After-any (Kept n) (peek m.ready_tasks) _ λ t.
      After-if (Kept n) (t == null) _ _ (wait_worker-balance n wid m idle h) (
        After-if (Kept n) (is_zero (m.tasks.valid t)) _ _ (wait_worker-balance n wid m idle h) (
          After-bind (Kept n) (Kept n) (send_task d c memory wid t (set_state d c memory t ready m))
            _ (send_task-balance n wid t (set_state d c memory t ready m) h)
            (λ m' k. dequeue-balance n t m' k)))
