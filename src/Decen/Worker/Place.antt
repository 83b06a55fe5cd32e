-- ===== src/Decen/Worker/Place.antt =====
-- src/sched/decentralised/decen_worker.c, ProcessMessage and LpelWorkerMakeTaskReady: where a task
-- goes that a worker makes ready.
use lpel.Base.{
  suc, ◌+◌, ◌^◌, ◌<◌, ◌≡◌, ◌≢◌, refl, sym, subst, ◌⊎◌, inl, inr, true, false, List, [], ◌∷◌, ◌++◌,
  Ptr, null, if◌then◌else◌, length, assign, assign_self, Bool-cases, ◌∉◌,
}
use lpel.Base.Run.{ok}
use lpel.Base.Int.{ℤ}
use lpel.Decen.Taskqueue.Ends.{IsFree}
use lpel.Decen.Scheduler.Ready.{Holds, make_ready-Readied, is_high}
use lpel.Hierarchy.Task.{ready, blocked}
use lpel.Decen.Worker.{
  assign_msg, wakeup_msg, Migration, Machine, pick_target_worker, one_less, is_wrapper, sched_ready,
  get_context, migrates, make_task_ready, set_ready, process_message,
}

-- The lists of ready tasks with one more, behind those of its priority.
abbrev pub low_with : ℤ → Ptr → List Ptr → List Ptr
low_with prio t low = if is_high prio then low else low ++ (t ∷ [])

abbrev pub high_with : ℤ → Ptr → List Ptr → List Ptr
high_with prio t high = if is_high prio then high ++ (t ∷ []) else high

-- The worker `wc` has the ready tasks `low` and `high`; the task `t` is in no queue, and there is
-- room for it in the counts.
pub record IsOutside (wc t : Ptr) (low high : List Ptr) (w : Machine) : Type 0 where
  pub holds : Holds w.links (w.sched wc) low high
  pub task : t ≢ null
  pub free : IsFree w.links t
  pub not_low : t ∉ low
  pub not_high : t ∉ high
  pub room : suc (length low + length high) < 2 ^ 32

-- The task is in its worker's queues, and nothing is sent.
pub record IsKept (wc t : Ptr) (low high : List Ptr) (w w' : Machine) : Type 0 where
  pub holds : Holds w'.links (w'.sched wc) (low_with (w.prio t) t low) (high_with (w.prio t) t high)
  pub state : w'.state t ≡ ready
  pub context : w'.worker_context ≡ w.worker_context
  pub sent : w'.sent ≡ w.sent

-- The task is sent to the worker of context `to`, and is no task of worker `wc`.
pub record IsMigrated (wc t to : Ptr) (w w' : Machine) : Type 0 where
  pub state : w'.state t ≡ ready
  pub context : w'.worker_context t ≡ to
  pub sent : w'.sent ≡ w.sent ++ ((to, assign_msg t) ∷ [])
  pub num_tasks : w'.num_tasks wc ≡ one_less (w.num_tasks wc)
  pub queues : w'.sched ≡ w.sched

sched_ready-IsKept :
    (wc t : Ptr) (low high : List Ptr) (w : Machine)
    → IsOutside wc t low high w
    → w.state t ≡ ready
    → (w' : Machine) × (sched_ready wc t w ≡ ok w')
      × IsKept wc t low high w w'
      × (w'.num_tasks ≡ w.num_tasks)
unfolding sched_ready
sched_ready-IsKept wc t low high w o e =
    let (l, sc, run, kept) =
      make_ready-Readied (w.prio t) t low high o.holds o.task o.free o.not_low o.not_high o.room in
    (
      record w { links = l; sched = assign w.sched wc sc },
      rw run refl,
      record {
        holds =
            subst (λ s. Holds l s (low_with (w.prio t) t low) (high_with (w.prio t) t high))
              (sym (assign_self w.sched wc sc)) kept;
        state = e;
        context = refl;
        sent = refl;
      },
      refl,
    )

module _ (contexts : List Ptr) (g : Migration) where
  -- The worker that the migration chooses for a task exists.
  abbrev pub HasTarget : Ptr → Type 0
  HasTarget t = (to : Ptr) × (get_context contexts g (pick_target_worker g t) ≡ ok to)

  -- The task is kept, or migrated to the chosen worker, as the migration decides.
  abbrev pub IsPlaced : Ptr → Ptr → List Ptr → List Ptr → Machine → Machine → Type 0
  IsPlaced wc t low high w w' =
      ((migrates contexts g g.mechanism (pick_target_worker g t) (w.wid wc) ≡ false)
        × IsKept wc t low high w w'
        × (w'.num_tasks ≡ w.num_tasks))
      ⊎ ((migrates contexts g g.mechanism (pick_target_worker g t) (w.wid wc) ≡ true)
          × ((to : Ptr) × (get_context contexts g (pick_target_worker g t) ≡ ok to)
              × IsMigrated wc t to w w'))

  make_task_ready-place :
      (wc t : Ptr) (low high : List Ptr) (w : Machine)
      → IsOutside wc t low high w
      → w.worker_context t ≡ wc
      → w.state t ≡ ready
      → (migrates contexts g g.mechanism (pick_target_worker g t) (w.wid wc) ≡ true → HasTarget t)
      → (w' : Machine) × (make_task_ready contexts g t w ≡ ok w') × IsPlaced wc t low high w w'
  unfolding make_task_ready
  make_task_ready-place wc t low high w o ec es target =
      elim (Bool-cases (migrates contexts g g.mechanism (pick_target_worker g t) (w.wid wc))) [
        | inl m ↦
            let (to, et) = target m in
            (
              record w {
                worker_context = assign w.worker_context t to;
                num_tasks = assign w.num_tasks wc (one_less (w.num_tasks wc));
                sent = w.sent ++ ((to, assign_msg t) ∷ []);
              },
              rw (es, ec, m, et) refl,
              inr (
                m,
                (
                  to,
                  et,
                  record {
                    state = es;
                    context = assign_self w.worker_context t to;
                    sent = refl;
                    num_tasks = assign_self w.num_tasks wc (one_less (w.num_tasks wc));
                    queues = refl;
                  },
                ),
              ),
            )
        | inr m ↦
            let (w', e, kept, same) = sched_ready-IsKept wc t low high w o es in
            (w', rw (es, ec, m) e, inl (m, kept, same))
      ]

  -- When worker `wc` handles the wakeup of its blocked task, and the worker that the migration would
  -- choose exists, the task is ready and in exactly one place: if the migration by waiting
  -- proportions chooses a worker other than `wc` and worker 0, it is in an assign message to that
  -- worker, and one task less is counted here; otherwise it is behind the others of its priority in
  -- the worker's queues, and nothing is sent.
  pub wakeup_place :
      (wc t : Ptr) (low high : List Ptr) (w : Machine)
      → IsOutside wc t low high w
      → is_wrapper w wc ≡ false
      → w.worker_context t ≡ wc
      → w.state t ≡ blocked
      → (migrates contexts g g.mechanism (pick_target_worker g t) (w.wid wc) ≡ true → HasTarget t)
      → (w' : Machine) × (process_message contexts g wc (wakeup_msg t) w ≡ ok w')
        × IsPlaced wc t low high w w'
  unfolding process_message
  wakeup_place wc t low high w o ew ec es target =
      let v = set_ready contexts g t w in
      let ov : IsOutside wc t low high v = record {
        holds = o.holds;
        task = o.task;
        free = o.free;
        not_low = o.not_low;
        not_high = o.not_high;
        room = o.room;
      } in
      let (w', e, place) =
        make_task_ready-place wc t low high v ov ec (assign_self w.state t ready) target in
      (w', rw (es, ew) e, placed w' place)
    where
      placed :
          (w' : Machine)
          → IsPlaced wc t low high (set_ready contexts g t w) w'
          → IsPlaced wc t low high w w'
      placed w' (inl (m, k, s)) =
          inl
            (m, record { holds = k.holds; state = k.state; context = k.context; sent = k.sent }, s)
      placed w' (inr (m, (to, et, k))) = inr (
        m,
        (
          to,
          et,
          record {
            state = k.state;
            context = k.context;
            sent = k.sent;
            num_tasks = k.num_tasks;
            queues = k.queues;
          },
        ),
      )
