-- ===== src/Decen/Task/Yield.antt =====
-- src/sched/decentralised/decen_task.c, LpelTaskYield and LpelTaskBlockStream over the scheduler of the
-- worker: which task runs next.
use lpel.Base.Int.{◌-ℤ◌}
use lpel.Decen.Scheduler.{fetch_ready, Sched}
use lpel.Decen.Taskqueue.{Links}
use lpel.Base.{
  ◌+◌, lt→ltb, suc, ℕ, ◌≡◌, ◌≢◌, refl, ap, sym, subst, ◌∙◌, arith, inl, inr, Bool, true, false,
  List, [], ◌∷◌, ◌++◌, Ptr, null, ◌==◌, if◌then◌else◌, assign, assign_self, assign_ne, ==_of_ne,
  ==→eq, Bool-cases, ◌∈◌, ◌∉◌, mem-append, mem-head, ne_of_mem,
}
use lpel.Base.Run.{Run, ok}
use lpel.Hierarchy.Task.{TaskState, running, ready, blocked, is_state}
use lpel.Decen.Worker.{
  self_task_migrate, Machine, Migration, dispatch, is_wrapper, sched_ready, self_task_yield,
}
use lpel.Decen.Scheduler.Ready.{make_ready-Readied}
use lpel.Decen.Worker.Place.{IsOutside, low_with, high_with}
use lpel.Decen.Scheduler.Ready.{Holds, fetch_ready-Fetched, Leaves, is_high}
use lpel.Decen.Task.{
  ◌-ℤ◌, is_zero, pos, mig_wait_prop, WorkerMsg, self_task_migrate, migrate, pick_target_worker,
  migrates_on_yield, Outcome, runs, worker_loop, leave, task_yield, block_stream, set_state,
  task_stop, task_start, resume,
}

-- The task that is fetched, and those that stay.
abbrev pub first_of : List Ptr → List Ptr → Ptr
first_of low (h ∷ high) = h
first_of (t ∷ low) [] = t
first_of [] [] = null

abbrev pub low_rest : List Ptr → List Ptr → List Ptr
low_rest low (h ∷ high) = low
low_rest (t ∷ low) [] = low
low_rest [] [] = []

abbrev pub high_rest : List Ptr → List Ptr
high_rest (h ∷ high) = high
high_rest [] = []

fetched-Leaves :
    {l : Links} {sc : Sched} (low high : List Ptr)
    → Holds l sc low high
    → Leaves (first_of low high) (low_rest low high) (high_rest high) (fetch_ready l sc)
fetched-Leaves low (h ∷ high) v = fetch_ready-Fetched low (h ∷ high) v
fetched-Leaves (t ∷ low) [] v = fetch_ready-Fetched (t ∷ low) [] v
fetched-Leaves [] [] v = fetch_ready-Fetched [] [] v

-- The worker `wc` has the ready tasks `low` and `high`, each in the state TASK_READY.
pub record IsReadyList (wc : Ptr) (low high : List Ptr) (w : Machine) : Type 0 where
  pub holds : Holds w.links (w.sched wc) low high
  pub ready_low : (a : Ptr) → a ∈ low → w.state a ≡ ready
  pub ready_high : (a : Ptr) → a ∈ high → w.state a ≡ ready

-- The task `t` runs now, and the ready tasks are `low` and `high`.
pub record IsRunning (wc t : Ptr) (low high : List Ptr) (w : Machine) : Type 0 where
  pub running : w.state t ≡ running
  pub current : w.current_task wc ≡ t
  pub holds : Holds w.links (w.sched wc) low high

-- What follows when the worker fetches the first of its ready tasks `low` and `high`: it runs, with
-- the others ready as before; without one the loop of the worker goes on, with no current task.
abbrev pub Next : Ptr → List Ptr → List Ptr → Run Outcome → Type 0
Next wc low (h ∷ high) r = (w : Machine) × (r ≡ ok (runs h w)) × IsRunning wc h low high w
Next wc (t ∷ low) [] r = (w : Machine) × (r ≡ ok (runs t w)) × IsRunning wc t low [] w
Next wc [] [] r =
    (w : Machine) × (r ≡ ok (worker_loop w))
    × (w.current_task wc ≡ null)
    × Holds w.links (w.sched wc) [] []

module _ (contexts : List Ptr) (g : Migration) (wc t : Ptr) (w : Machine) where
  -- The task `t` of the worker stops, and the scheduler has `next` for it.
  module _ (own : w.worker_context t ≡ wc) (worker : is_wrapper w wc ≡ false)
      (stopped : is_state (w.state t) running ≡ false) where
    leave-runs :
        (next : Ptr) (low high : List Ptr)
        → next ≢ null
        → w.state next ≡ ready
        → w.current_task wc ≡ t
        → Leaves next low high (fetch_ready w.links (w.sched wc))
        → (w' : Machine) × (leave contexts g t [] w ≡ ok (runs next w'))
          × IsRunning wc next low high w'
    unfolding leave task_stop dispatch resume task_start
    leave-runs next low high ne st cur (l, sc, e, v) =
        let holds = subst (λ s. Holds l s low high) (sym (assign_self w.sched wc sc)) v in
        elim (Bool-cases (next == t)) [
          | inl same ↦ (
            record w {
              links = l;
              sched = assign w.sched wc sc;
              state = assign w.state next running;
            },
            rw (stopped, own, worker, e, ==_of_ne next null ne, same, st) refl,
            record {
              running = assign_self w.state next running;
              current = cur ∙ sym (==→eq next t same);
              holds = holds;
            },
          )
          | inr other ↦ (
            record w {
              links = l;
              sched = assign w.sched wc sc;
              current_task = assign w.current_task wc next;
              state = assign w.state next running;
            },
            rw (stopped, own, worker, e, ==_of_ne next null ne, other, st) refl,
            record {
              running = assign_self w.state next running;
              current = assign_self w.current_task wc next;
              holds = holds;
            },
          )
        ]

    leave-Next :
        (low high : List Ptr)
        → w.current_task wc ≡ t
        → IsReadyList wc low high w
        → Next wc low high (leave contexts g t [] w)
    unfolding leave task_stop dispatch resume task_start
    leave-Next low (h ∷ high) cur v =
        leave-runs h low high v.holds.high_queue.distinct.0 (v.ready_high h (mem-head h high)) cur
          (fetch_ready-Fetched low (h ∷ high) v.holds)
    leave-Next (x ∷ low) [] cur v =
        leave-runs x low [] v.holds.low_queue.distinct.0 (v.ready_low x (mem-head x low)) cur
          (fetch_ready-Fetched (x ∷ low) [] v.holds)
    leave-Next [] [] cur v =
        let (l, sc, e, h) = fetch_ready-Fetched [] [] v.holds in
        (
          record w {
            links = l;
            sched = assign w.sched wc sc;
            current_task = assign w.current_task wc null;
          },
          rw (stopped, own, worker, e) refl,
          assign_self w.current_task wc null,
          subst (λ s. Holds l s [] []) (sym (assign_self w.sched wc sc)) h,
        )

-- The state of the tasks in a list with `t` behind it.
ready_with :
    (st : Ptr → TaskState) (t : Ptr) (xs : List Ptr)
    → ((a : Ptr) → a ∈ xs → st a ≡ ready)
    → (a : Ptr) → a ∈ xs ++ (t ∷ [])
    → assign st t ready a ≡ ready
unfolding assign
ready_with st t xs h a k = elim (Bool-cases (a == t)) [
  | inl e ↦ rw e refl
  | inr e ↦ rw e (h a (ground (arith, mem-append a xs (t ∷ []), k, e)))
]

ready_set : (st : Ptr → TaskState) (t a : Ptr) → st a ≡ ready → assign st t ready a ≡ ready
unfolding assign
ready_set st t a h = elim (Bool-cases (a == t)) [ inl e ↦ rw e refl | inr e ↦ rw e h ]

module _ (contexts : List Ptr) (g : Migration) (wc t : Ptr) (low high : List Ptr)
    (w : Machine) where
  -- A task of a worker that has the ready tasks `low` and `high` yields and does not migrate, and no
  -- message waits. It goes behind the ready tasks of its priority, and the first ready task of the
  -- higher priority runs, without one the first of the lower: another task, or the same one at once
  -- when there is no other of its priority or a higher one. The other ready tasks keep their order.
  pub task_yield-Next :
      IsOutside wc t low high w
      → IsReadyList wc low high w
      → w.worker_context t ≡ wc
      → is_wrapper w wc ≡ false
      → w.state t ≡ running
      → w.current_task wc ≡ t
      → migrates_on_yield contexts g g.mechanism (pick_target_worker g t) ≡ false
      → Next wc
          (low_with (w.prio t) t low)
          (high_with (w.prio t) t high)
          (task_yield contexts g t [] w)
  unfolding task_yield self_task_yield sched_ready
  task_yield-Next o v own worker run cur stays =
      let (l, sc, e, h) =
        make_ready-Readied (w.prio t) t low high v.holds o.task o.free o.not_low o.not_high
          o.room in
      let w1 : Machine = record w {
        state = assign w.state t ready;
        links = l;
        sched = assign w.sched wc sc;
      } in
      rw (run, stays, own, worker, e)
        (leave-Next contexts g wc t w1 own worker
          (ap (λ s. is_state s running) (assign_self w.state t ready)) (low_with (w.prio t) t low)
          (high_with (w.prio t) t high) cur
          (record {
            holds =
                subst (λ s. Holds l s (low_with (w.prio t) t low) (high_with (w.prio t) t high))
                  (sym (assign_self w.sched wc sc)) h;
            ready_low = low_ready (is_high (w.prio t));
            ready_high = high_ready (is_high (w.prio t));
          }))
    where
      low_ready :
          (b : Bool) (a : Ptr)
          → a ∈ (if b then low else low ++ (t ∷ []))
          → assign w.state t ready a ≡ ready
      low_ready true a k = ready_set w.state t a (v.ready_low a k)
      low_ready false a k = ready_with w.state t low v.ready_low a k

      high_ready :
          (b : Bool) (a : Ptr)
          → a ∈ (if b then high ++ (t ∷ []) else high)
          → assign w.state t ready a ≡ ready
      high_ready true a k = ready_with w.state t high v.ready_high a k
      high_ready false a k = ready_set w.state t a (v.ready_high a k)

  -- A task that blocks: the first ready task runs, and without one the loop of the worker.
  pub block_stream-Next :
      IsReadyList wc low high w
      → t ∉ low
      → t ∉ high
      → w.worker_context t ≡ wc
      → is_wrapper w wc ≡ false
      → w.current_task wc ≡ t
      → Next wc low high (block_stream contexts g t [] w)
  unfolding block_stream
  block_stream-Next v nl nh own worker cur =
      leave-Next contexts g wc t (set_state t blocked w) own worker
        (ap (λ s. is_state s running) (assign_self w.state t blocked)) low high cur
        (record {
          holds = v.holds;
          ready_low =
              λ a k. assign_ne w.state t a blocked (ne_of_mem a t low k nl) ∙ v.ready_low a k;
          ready_high =
              λ a k. assign_ne w.state t a blocked (ne_of_mem a t high k nh) ∙ v.ready_high a k;
        })

is_zero-sub_self : (k : ℕ) → is_zero (pos (suc k) -ℤ pos (suc k)) ≡ true
unfolding ◌-ℤ◌
is_zero-sub_self k = ground arith

-- When the migration by waiting proportions chooses the worker that the task is on, and the number of
-- that worker is above 0, LpelTaskYield does not yield: the running task runs on, whatever tasks are
-- ready, and the queues stay as they are.
pub task_yield_own :
    (contexts : List Ptr) (g : Migration) (t n : ℕ) (msgs : List WorkerMsg) (w : Machine)
    → g.mechanism ≡ mig_wait_prop
    → pick_target_worker g t ≡ pos (suc n)
    → w.wid (w.worker_context t) ≡ pos (suc n)
    → w.state t ≡ running
    → (w' : Machine) × (task_yield contexts g t msgs w ≡ ok (runs t w'))
      × (w'.sched ≡ w.sched)
      × (w'.links ≡ w.links)
      × (w'.state t ≡ running)
unfolding task_yield migrate task_stop self_task_migrate task_start
task_yield_own contexts g t n msgs w em et ew es = (
  record w { state = assign (assign w.state t ready) t running },
  rw
      (
        es,
        em,
        et,
        lt→ltb 0 (suc n + 0) (omega arith),
        assign_self w.state t ready,
        self_task_migrate,
        ew,
        is_zero-sub_self n,
        task_start,
        assign_self w.state t ready,
      )
      refl,
  refl,
  refl,
  assign_self (assign w.state t ready) t running,
)
