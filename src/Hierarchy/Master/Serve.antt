-- ===== src/Hierarchy/Master/Serve.antt =====
-- src/sched/hierarchy/hrc_worker_op.c, processTaskReady: where a task goes that has become ready.
use lpel.Base.{
  ℕ, ◌+◌, ◌^◌, ◌<◌, ◌≡◌, refl, ap, ◌∙◌, arith, ◌⊎◌, inl, inr, true, false, none, some, List, [],
  ◌∷◌, ◌++◌, Ptr, length, set, assign, assign_self, Bool-cases, Option-cases,
}
use lpel.Base.Run.{ok}
use lpel.Base.Int.{ℤ}
use lpel.Hierarchy.Taskqueue.{is_zero}
use lpel.Hierarchy.Taskqueue.Total.{IsSized}
use lpel.Hierarchy.Taskqueue.Grow.{InHeap, push-one_more}
use lpel.Hierarchy.Priority.{Double, PrioConf, PrioType, static_prio, dynamic_prio}
use lpel.Hierarchy.Task.{
  Tasks, ready, inqueue, count_rec, input, output, update_valid, cal_priority,
}
use lpel.Hierarchy.Master.{
  Desk, find_waiting, set_state, send_task, serve_pending_req, enqueue, process_task_ready, prio_of,
}

prio_type-cases : (p : PrioType) → (p ≡ static_prio) ⊎ (p ≡ dynamic_prio)
prio_type-cases static_prio = inl refl
prio_type-cases dynamic_prio = inr refl

module _ {D : Type 0} (d : Double D) (c : PrioConf D) (memory : List Ptr) where
  -- The first waiting worker gets the task and waits no more.
  pub record IsServed (t i : ℕ) (k k' : Desk D) : Type 0 where
    pub first : find_waiting k.waitworkers ≡ some i
    pub sent : k'.sent ≡ k.sent ++ ((i, t) ∷ [])
    pub waitworkers : k'.waitworkers ≡ set k.waitworkers i false
    pub queue : k'.ready_tasks ≡ k.ready_tasks

  -- The queue has one task more, the given one, which is marked, and no message is sent.
  pub record IsQueued (t : ℕ) (k k' : Desk D) : Type 0 where
    pub state : k'.tasks.state t ≡ inqueue
    pub sent : k'.sent ≡ k.sent
    pub waitworkers : k'.waitworkers ≡ k.waitworkers
    pub one_more : k'.ready_tasks.count ≡ k.ready_tasks.count + 1
    pub sized : IsSized k'.ready_tasks
    pub stored : InHeap t k'.ready_tasks
    pub kept : (u : Ptr) → InHeap u k.ready_tasks → InHeap u k'.ready_tasks

  -- The configuration gives each task a priority, by itself and not by the client's comparison.
  pub record IsPlain : Type 0 where
    pub comparison : c.rts_prio_cmp ≡ none
    pub priority : (c.prio_type ≡ static_prio) ⊎ ((f : ℤ → ℤ → D) × (c.prio_func ≡ some f))
    pub has_memory : 0 < length memory

  abbrev pub HasRoom : Desk D → Type 0
  HasRoom k = IsSized k.ready_tasks × (length k.ready_tasks.slots + length memory < 2 ^ 32)

  enqueue-IsQueued :
      (t : ℕ) (k : Desk D)
      → IsPlain
      → HasRoom k
      → (k' : Desk D) × (enqueue d c memory t k ≡ ok k') × IsQueued t k k'
  unfolding enqueue
  enqueue-IsQueued t k plain (sized, room) =
      let (q, e, n, s, stored, kept) =
        push-one_more (prio_of d c memory k.tasks) memory t k.ready_tasks plain.comparison sized
          plain.has_memory room in
      (
        record (set_state d c memory t inqueue k) { ready_tasks = q },
        rw e refl,
        record {
          state = assign_self k.tasks.state t inqueue;
          sent = refl;
          waitworkers = refl;
          one_more = n;
          sized = s;
          stored = stored;
          kept = kept;
        },
      )

  cal_priority-ok : (m : Tasks D) (t : Ptr) → IsPlain → (p : D) × (cal_priority c m t ≡ ok p)
  unfolding cal_priority
  cal_priority-ok m t plain = elim plain.priority [
    | inl e ↦ (m.prio t, rw e refl)
    | inr (f, e) ↦ elim (prio_type-cases c.prio_type) [
      | inl k ↦ (m.prio t, rw k refl)
      | inr k ↦ (
        f (count_rec m (m.in_streams t) input) (count_rec m (m.out_streams t) output),
        rw (k, e) refl,
      )
    ]
  ]

  update_valid-state : (u : Ptr) (m : Tasks D) → (update_valid c u m).state ≡ m.state
  unfolding update_valid
  update_valid-state u m = ground arith

  serve_pending_req-none :
      (t : ℕ) (k : Desk D)
      → find_waiting k.waitworkers ≡ none
      → serve_pending_req d c memory t k ≡ ok (none, k)
  unfolding serve_pending_req
  serve_pending_req-none t k e = rw (serve_pending_req, e) refl

  serve_pending_req-some :
      (t i : ℕ) (k : Desk D)
      → find_waiting k.waitworkers ≡ some i
      → k.tasks.state t ≡ ready
      → serve_pending_req d c memory t k
        ≡ ok (
          some i,
          record k { waitworkers = set k.waitworkers i false; sent = k.sent ++ ((i, t) ∷ []) },
        )
  unfolding serve_pending_req send_task
  serve_pending_req-some t i k e h = rw (serve_pending_req, e, h) refl

  -- When a task is ready, `processTaskReady` returns, and the task goes to exactly one place: a valid
  -- task to the first worker that waits, and otherwise into the queue, which holds it then with all
  -- the tasks of before, and where it is marked; it goes to the queue only if it is not valid or no worker waits. This holds without a comparison by the
  -- client, with a priority for each task, and with room for the task in the queue's array.
  pub process_task_ready-place :
      (t : ℕ) (k : Desk D)
      → IsPlain
      → HasRoom k
      → k.tasks.state t ≡ ready
      → (k' : Desk D) × (process_task_ready d c memory t k ≡ ok k')
        × (((i : ℕ) × IsServed t i k k' × (is_zero ((update_valid c t k.tasks).valid t) ≡ false))
            ⊎ (IsQueued t k k'
                × ((is_zero ((update_valid c t k.tasks).valid t) ≡ true)
                    ⊎ (find_waiting k.waitworkers ≡ none))))
  unfolding process_task_ready
  process_task_ready-place t k plain room e =
      let k1 : Desk D = record k { tasks = update_valid c t k.tasks } in
      let e1 : k1.tasks.state t ≡ ready = ap (λ f. f t) (update_valid-state t k.tasks) ∙ e in
      elim (Bool-cases (is_zero (k1.tasks.valid t))) [
        | inl v ↦
            let (k', e', q) = enqueue-IsQueued t k1 plain room in
            (k', rw v e', inr (queued k' q, inl v))
        | inr v ↦ elim (Option-cases (find_waiting k.waitworkers)) [
          | inl w ↦
              let (p, ep) = cal_priority-ok k1.tasks t plain in
              let (k', e', q) =
                enqueue-IsQueued t
                  (record k1 { tasks = record k1.tasks { prio = assign k1.tasks.prio t p } }) plain
                  room in
              (k', rw (v, serve_pending_req-none t k1 w, ep) e', inr (queued2 p k' q, inr w))
          | inr (i, w) ↦ (
            record k1 { waitworkers = set k.waitworkers i false; sent = k.sent ++ ((i, t) ∷ []) },
            rw (v, serve_pending_req-some t i k1 w e1) refl,
            inl (i, record { first = w; sent = refl; waitworkers = refl; queue = refl }, v),
          )
        ]
      ]
    where
      queued :
          (k' : Desk D)
          → IsQueued t (record k { tasks = update_valid c t k.tasks }) k'
          → IsQueued t k k'
      queued k' q = record {
        state = q.state;
        sent = q.sent;
        waitworkers = q.waitworkers;
        one_more = q.one_more;
        sized = q.sized;
        stored = q.stored;
        kept = q.kept;
      }

      queued2 :
          (p : D) (k' : Desk D)
          → IsQueued t
              (record k {
                tasks = record (update_valid c t k.tasks) {
                  prio = assign (update_valid c t k.tasks).prio t p;
                };
              })
              k'
          → IsQueued t k k'
      queued2 p k' q = record {
        state = q.state;
        sent = q.sent;
        waitworkers = q.waitworkers;
        one_more = q.one_more;
        sized = q.sized;
        stored = q.stored;
        kept = q.kept;
      }
