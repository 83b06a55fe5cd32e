-- ===== src/Hierarchy/Master/Wakeup.antt =====
-- src/sched/hierarchy/hrc_worker_op.c, WORKER_MSG_WAKEUP and WORKER_MSG_RETURN: a blocked task that
-- is woken up before or after its worker has returned it.
use lpel.Base.{
  ℕ, ◌<◌, ◌≤◌, ◌≡◌, ◌≢◌, refl, ap, sym, subst, ◌∙◌, arith, ◌⊎◌, inl, inr, Bool, true, false, not,
  ◌&&◌, ◌||◌, some, List, [], ◌∷◌, Ptr, null, ◌==◌, set, get_elem?, assign, assign_self, assign_ne,
  assign_undo, assign-assign, ==_false→ne, Bool-cases,
}
use lpel.Base.Run.{out_of_fuel, Run, ok, assert_failed, fault, ◌>>=◌, assert, access}
use lpel.Base.Int.{pos}
use lpel.Base.Int.{pos}
use lpel.Base.Int.{pos}
use lpel.Base.Int.{◌-ℤ◌}
use lpel.Base.After.{After, After-bind, After-any, After-if, After-option, bind-same, bind_assoc}
use lpel.Hierarchy.Taskqueue.{Heap, is_zero, peek, occupy, search_item}
use lpel.Hierarchy.Taskqueue.Absent.{
  IsAbsent, IsAbsentFrom, access_absent, up_heap-IsAbsent, down_heap-IsAbsent, search_item-range,
}
use lpel.Hierarchy.Priority.{Double, PrioConf}
use lpel.Hierarchy.Task.{
  Tasks, TaskState, ready, blocked, inqueue, returned, is_state, Direction, input, output,
  update_valid, cal_priority,
}
use lpel.Hierarchy.Master.{
  Desk, Master, reorder, find_waiting, set_state, send_task, serve_pending_req, dequeue,
  update_priority, neighbour, update_one, update_priority_list, serve_top, update_neighbours,
  handle_state, handle_return, handle_wakeup, prio_of,
}

module _ {D : Type 0} (d : Double D) (c : PrioConf D) (memory : List Ptr) (t : Ptr) where
  -- The task is not in the queue and has the state.
  abbrev IsAway : TaskState → Desk D → Type 0
  IsAway state k = IsAbsentFrom t k.ready_tasks × (k.tasks.state t ≡ state)

  abbrev HasState : TaskState → Desk D → Type 0
  HasState state k = k.tasks.state t ≡ state

  reorder-IsAbsent :
      (tasks : Tasks D) (old np : D) (u i : ℕ) (q : Heap)
      → 1 ≤ i
      → i < q.count
      → IsAbsentFrom t q
      → After (IsAbsentFrom t) (reorder d c memory tasks old np u i q)
  unfolding reorder
  reorder-IsAbsent tasks old np u i q low up out =
      After-if (IsAbsentFrom t) (d.less np old || is_zero (tasks.valid u)) _ _
        (down_heap-IsAbsent t (prio_of d c memory tasks) q i low up out)
        (After-if (IsAbsentFrom t) (d.less old np) _ _
          (After-bind (IsAbsentFrom t) (IsAbsent t q.count) _ _
            (up_heap-IsAbsent t (prio_of d c memory tasks) q.count q.slots i low up out.1)
            (λ s k. (out.0, k)))
          out)

  update_priority-IsAway :
      (state : TaskState) (u : Ptr) (np : D) (k : Desk D)
      → IsAway state k
      → After (IsAway state) (update_priority d c memory u np k)
  unfolding update_priority
  update_priority-IsAway state u np k (out, e) =
      let tasks : Tasks D = record k.tasks { prio = assign k.tasks.prio u np } in
      After-bind (IsAway state)
        (λ found. (i : ℕ) → found ≡ some i → (1 ≤ i) × (i < k.ready_tasks.count))
        (search_item k.ready_tasks u) _ (search_item-range k.ready_tasks u out.0)
        λ found range.
          After-option (IsAway state) found _ _ (λ z. tt)
            λ i z.
              After-bind (IsAway state) (IsAbsentFrom t)
                (reorder d c memory tasks (k.tasks.prio u) np u i k.ready_tasks) _
                (reorder-IsAbsent tasks (k.tasks.prio u) np u i k.ready_tasks (range i z).0
                  (range i z).1 out)
                (λ q h. (h, e))

  update_valid-state : (u : Ptr) (m : Tasks D) → (update_valid c u m).state ≡ m.state
  unfolding update_valid
  update_valid-state u m = ground arith

  update_one-IsAway :
      (state : TaskState) (mode : Direction) (u : Bool) (sd : Ptr) (k : Desk D)
      → IsAway state k
      → After (IsAway state) (update_one d c memory mode u sd k)
  unfolding update_one
  update_one-IsAway state mode u sd k h =
      let x = neighbour d c memory k.tasks mode sd in
      let k1 : Desk D = record k { tasks = update_valid c x k.tasks } in
      let h1 : IsAway state k1 = (h.0, ap (λ f. f t) (update_valid-state x k.tasks) ∙ h.1) in
      After-if (IsAway state) (not (x == null) && is_state (k.tasks.state x) inqueue) _ _
        (After-if (IsAway state) u _ _
          (After-any (IsAway state) (cal_priority c k1.tasks x) _
            (λ np. update_priority-IsAway state x np k1 h1))
          h1)
        h

  update_priority_list-IsAway :
      (state : TaskState) (mode : Direction) (u : Bool) (list : List Ptr) (k : Desk D)
      → IsAway state k
      → After (IsAway state) (update_priority_list d c memory mode u list k)
  unfolding update_priority_list
  update_priority_list-IsAway state mode u [] k h = h
  update_priority_list-IsAway state mode u (sd ∷ list) k h =
      After-bind (IsAway state) (IsAway state) (update_one d c memory mode u sd k) _
        (update_one-IsAway state mode u sd k h)
        (λ k' h'. update_priority_list-IsAway state mode u list k' h')

  send_task-state :
      (state : TaskState) (wid u : Ptr) (k : Desk D)
      → HasState state k
      → After (HasState state) (send_task d c memory wid u k)
  unfolding send_task
  send_task-state state wid u k h =
      After-any (HasState state) (assert (is_state (k.tasks.state u) ready)) _ λ _. h

  serve_pending_req-state :
      (state : TaskState) (u : Ptr) (k : Desk D)
      → HasState state k
      → After (λ (served, k'). HasState state k') (serve_pending_req d c memory u k)
  unfolding serve_pending_req
  serve_pending_req-state state u k h =
      After-option (λ (served, k'). HasState state k') (find_waiting k.waitworkers) _ _ (λ e. h)
        λ j e.
          let freed : Desk D = record k { waitworkers = set k.waitworkers j false } in
          After-bind (λ (served, k'). HasState state k') (HasState state)
            (send_task d c memory j u freed) _ (send_task-state state j u freed h) (λ k' h'. h')

  peek_absent : (q : Heap) → IsAbsentFrom t q → After (λ x. (x ≡ null) ⊎ (x ≢ t)) (peek q)
  unfolding peek
  peek_absent q (z, out) = elim (Bool-cases (q.count == 1)) [
    | inl e ↦ rw e (inl refl)
    | inr e ↦ rw e (
        weaken (access (get_elem? q.slots 1)) (
          access_absent t q.count q.slots 1 (omega arith) (omega (arith, ==_false→ne _ _ e, z))
            out))
  ]
    where
      weaken : (r : Run Ptr) → After (λ x. x ≢ t) r → After (λ x. (x ≡ null) ⊎ (x ≢ t)) r
      weaken (ok x) h = inr h
      weaken assert_failed h = tt
      weaken fault h = tt
      weaken out_of_fuel h = tt

  serve_top-state :
      (state : TaskState) (k : Desk D)
      → IsAway state k
      → After (HasState state) (serve_top d c memory k)
  unfolding serve_top dequeue
  serve_top-state state k (out, h) =
      After-bind (HasState state) (λ x. (x ≡ null) ⊎ (x ≢ t)) (peek k.ready_tasks) _
        (peek_absent k.ready_tasks out)
        λ top away. elim (Bool-cases (top == null)) [
          | inl e ↦ rw e h
          | inr e ↦
              let ne = apart top away (==_false→ne top null e) in
              rw e (
                After-if (HasState state) (not (is_zero (k.tasks.valid top -ℤ pos 1))) _ _ h (
                  After-bind (HasState state) (λ (served, k'). HasState state k')
                    (serve_pending_req d c memory top (set_state d c memory top ready k)) _
                    (serve_pending_req-state state top (set_state d c memory top ready k)
                      (assign_ne k.tasks.state top t ready ne ∙ h))
                    (λ (served, k') h'.
                      After-option (HasState state) served _ _
                        (λ e. assign_ne k'.tasks.state top t inqueue ne ∙ h')
                        (λ j e.
                          After-any (HasState state)
                            (occupy (prio_of d c memory k'.tasks) top k'.ready_tasks) _ λ q. h'))))
        ]
    where
      apart : (x : Ptr) → (x ≡ null) ⊎ (x ≢ t) → x ≢ null → t ≢ x
      apart x (inl e) n = absurd (n e)
      apart x (inr f) n = λ e. f (sym e)

  update_neighbours-state :
      (state : TaskState) (u : Bool) (k : Desk D)
      → IsAway state k
      → After (HasState state) (update_neighbours d c memory t u k)
  unfolding update_neighbours
  update_neighbours-state state u k h =
      After-bind (HasState state) (IsAway state) _ _
        (update_priority_list-IsAway state input u (k.tasks.in_streams t) k h)
        (λ k1 h1.
          After-bind (HasState state) (IsAway state) _ _
            (After-if (IsAway state) u _ _
              (update_priority_list-IsAway state output u (k1.tasks.out_streams t) k1 h1) h1)
            (λ k2 h2. serve_top-state state k2 h2))

  -- For a blocked task that is not in the queue of ready tasks, whose count is at least 1 as
  -- LpelTaskqueueInit sets it, and that has not been woken up, the master comes to the same state in
  -- both orders of the two messages, its return by the worker and the wakeup by another task: no
  -- wakeup is lost when it overtakes the return.
  pub wakeup-return_swap :
      (m : Master D)
      → m.desk.tasks.state t ≡ blocked
      → m.wakenup t ≡ false
      → IsAbsentFrom t m.desk.ready_tasks
      → (handle_wakeup d c memory t m >>= handle_return d c memory t)
        ≡ (handle_return d c memory t m >>= handle_wakeup d c memory t)
  unfolding handle_wakeup handle_return handle_state
  wakeup-return_swap m es ew out =
      rw es (
        bind-same (HasState blocked) (update_neighbours d c memory t c.update_neigh_prio m.desk) _ _
          (update_neighbours-state blocked c.update_neigh_prio m.desk (out, es)) settled)
      ∙ sym (bind_assoc (update_neighbours d c memory t c.update_neigh_prio m.desk) _ _)
    where
      restored : assign (assign m.wakenup t true) t false ≡ m.wakenup
      restored =
          subst (λ b. assign (assign m.wakenup t true) t b ≡ m.wakenup) ew
            (assign_undo m.wakenup t true)

      settled :
          (k : Desk D)
          → HasState blocked k
          → handle_state d c memory
              (k.tasks.state t)
              t
              (record m { wakenup = assign m.wakenup t true; desk = k })
            ≡ (handle_state d c memory (k.tasks.state t) t (record m { desk = k })
                >>= handle_wakeup d c memory t)
      settled k e =
          rw
            (
              e,
              assign_self m.wakenup t true,
              ew,
              assign_self k.tasks.state t returned,
              assign-assign k.tasks.state t returned ready,
              restored,
            )
            refl
