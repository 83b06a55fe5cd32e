-- ===== src/Hierarchy/Master.antt =====
-- src/sched/hierarchy/hrc_worker_op.c, the master: it keeps the ready tasks and the workers that
-- wait for one, and handles one message at a time.
pub mod Requests
pub mod Balance
pub mod Wakeup
pub mod Serve
mod Tests
use lpel.Base.{
  ℕ, zero, suc, ◌+◌, ◌-◌, ◌*◌, ◌/◌, ◌%◌, ◌^◌, ◌<◌, ◌≤◌, ◌≡◌, ◌≢◌, refl, ap, sym, subst, ◌∙◌, arith,
  dec_lt, ℕ_discrete, ◌⊎◌, inl, inr, ◌↔◌, Bool, true, false, not, ◌&&◌, ◌||◌, Option, none, some,
  List, [], ◌∷◌, ◌++◌, append-nil, append_assoc, map, Ptr, null, ◌==◌, if◌then◌else◌, ltb, leb,
  length, set, get_elem?, get_or, head_or, last_or, replicate, assign, assign_self, assign_ne,
  assign_undo, assign-assign, fun_ext, length-append, length-set, lt→ltb, ==_of_ne, ==_self, ==→eq,
  ==_false→ne, le→ltb_false, Bool-cases, Option-cases, tests, load, store, load-ok, store-ok, mem,
  ◌∈◌, ◌∉◌, Distinct, IsChain, mem-append, Distinct-remove, map-assign, map-snoc, apart_sym,
  not_mem_snoc, snoc_apart, mem-last, mem-head, ne_of_mem, ne_null_of_mem, IsChain-frame,
  IsChain-assign, head_or-append, last_or-append, IsChain-append, IsChain-left, IsChain-right,
  IsChain-last, IsChain-assign_last, Distinct-left, Distinct-right, Distinct-append, Distinct-apart,
}
use lpel.Base.Run.{out_of_fuel, Run, ok, assert_failed, fault, ◌>>=◌, ◌>>◌, assert, access, map_run}
use lpel.Base.Int.{ℤ, pos, negsuc, pos_part, neg_part}
use lpel.Hierarchy.Taskqueue.{
  Prio, Heap, is_zero, push, peek, occupy, search_item, up_heap, down_heap, size,
}
use lpel.Base.Int.{◌-ℤ◌}
use lpel.Hierarchy.Priority.{Double, PrioConf}
use lpel.Hierarchy.Task.{
  Tasks, TaskState, created, running, ready, blocked, mutex, zombie, inqueue, returned, is_state,
  Direction, input, output, producer, consumer, update_valid, cal_priority, destroy,
}

-- `workermsg_t`, the messages to the master.
pub data Msg : Type 0 where
  msg_terminate : Msg
  msg_wakeup : Ptr → Msg
  msg_assign : Ptr → Msg
  msg_request : ℕ → Msg
  msg_return : Ptr → Msg

-- What the master schedules with: of `masterctx_t` the ready tasks and the waiting workers, the
-- fields of the tasks, and the messages that it has sent: a worker and the task assigned to it,
-- oldest first.
pub record Desk (D : Type 0) : Type 0 where
  pub ready_tasks : Heap
  pub waitworkers : List Bool
  pub sent : List (ℕ × Ptr)
  pub tasks : Tasks D

-- `masterctx_t`, with the `wakenup` fields of the tasks, which only the master reads and writes.
pub record Master (D : Type 0) : Type 0 where
  pub terminate : Bool
  pub wakenup : Ptr → Bool
  pub desk : Desk D

-- The search of `servePendingReq`.
abbrev pub find_waiting : List Bool → Option ℕ
find_waiting [] = none
find_waiting (true ∷ ws) = some 0
find_waiting (false ∷ ws) = elim (find_waiting ws) [ none ↦ none | some i ↦ some (suc i) ]

-- `memory` is what the slots of a reallocated heap hold.
module _ {D : Type 0} (d : Double D) (c : PrioConf D) (memory : List Ptr) where
  -- What the heap reads of the tasks.
  abbrev pub prio_of : Tasks D → Prio
  prio_of m = record {
    valid = m.valid;
    prio_difference = λ t u. d.difference (m.prio t) (m.prio u);
    rts_prio_cmp = c.rts_prio_cmp;
    rts_prio = m.rts_prio;
  }

  abbrev pub set_state : Ptr → TaskState → Desk D → Desk D
  set_state t state m = record m { tasks = record m.tasks { state = assign m.tasks.state t state } }

  -- `sendTask`
  unfoldable pub send_task : ℕ → Ptr → Desk D → Run (Desk D)
  send_task wid t m = do
    assert (is_state (m.tasks.state t) ready)
    ok (record m { sent = m.sent ++ ((wid, t) ∷ []) })

  -- `servePendingReq`; `none` for -1.
  unfoldable pub serve_pending_req : Ptr → Desk D → Run (Option ℕ × Desk D)
  unfolding send_task
  serve_pending_req t m = elim (find_waiting m.waitworkers) [
    | none ↦ ok (none, m)
    | some i ↦
        map_run (λ m'. (some i, m'))
          (send_task i t (record m { waitworkers = set m.waitworkers i false }))
  ]

  -- `LpelTaskqueuePush` on the ready tasks, after the state of the task is set.
  unfoldable pub enqueue : Ptr → Desk D → Run (Desk D)
  unfolding push
  enqueue t m = do
    q ← push (prio_of m.tasks) memory t m.ready_tasks
    ok (record (set_state t inqueue m) { ready_tasks = q })

  -- `LpelTaskqueueOccupyTask` on the ready tasks.
  unfoldable pub dequeue : Ptr → Desk D → Run (Desk D)
  unfolding occupy
  dequeue t m = do q ← occupy (prio_of m.tasks) t m.ready_tasks; ok (record m { ready_tasks = q })

  -- The moves of `LpelTaskqueueUpdatePriority`, from index `i`, with the new priority set.
  unfoldable pub reorder : Tasks D → D → D → Ptr → ℕ → Heap → Run Heap
  unfolding up_heap down_heap
  reorder tasks old np t i q =
      if d.less np old || is_zero (tasks.valid t)
      then down_heap (prio_of tasks) q i
      else if d.less old np
      then map_run (λ slots. record q { slots = slots }) (up_heap (prio_of tasks) q.slots i)
      else ok q

  -- `LpelTaskqueueUpdatePriority` on the ready tasks.
  unfoldable pub update_priority : Ptr → D → Desk D → Run (Desk D)
  unfolding search_item reorder
  update_priority t np m =
      let tasks : Tasks D = record m.tasks { prio = assign m.tasks.prio t np } in
      search_item m.ready_tasks t >>= λ found. elim found [
        | none ↦ assert_failed
        | some i ↦ reorder tasks (m.tasks.prio t) np t i m.ready_tasks >>= λ q.
            ok (record m { tasks = tasks; ready_tasks = q })
      ]

  -- The task at the other end of a descriptor's stream: mode 'r' or 'w'.
  abbrev pub neighbour : Tasks D → Direction → Ptr → Ptr
  neighbour m input sd = producer m (m.stream_of sd)
  neighbour m output sd = consumer m (m.stream_of sd)

  -- One turn of the loop of `updatePriorityList`.
  unfoldable pub update_one : Direction → Bool → Ptr → Desk D → Run (Desk D)
  unfolding update_valid cal_priority update_priority
  update_one mode update_prio sd m =
      let t = neighbour m.tasks mode sd in
      if not (t == null) && is_state (m.tasks.state t) inqueue
      then (let m1 : Desk D = record m { tasks = update_valid c t m.tasks } in
          if update_prio
          then (cal_priority c m1.tasks t >>= λ np. update_priority t np m1)
          else ok m1)
      else ok m

  -- `updatePriorityList`
  unfoldable pub update_priority_list : Direction → Bool → List Ptr → Desk D → Run (Desk D)
  unfolding update_one
  update_priority_list mode update_prio [] m = ok m
  update_priority_list mode update_prio (sd ∷ list) m =
      update_one mode update_prio sd m >>= update_priority_list mode update_prio list

  -- The end of `updateNeighours`: a valid head serves a request.
  unfoldable pub serve_top : Desk D → Run (Desk D)
  unfolding peek serve_pending_req dequeue
  serve_top m = peek m.ready_tasks >>= λ top.
      if top == null
      then ok m
      else if not (is_zero (m.tasks.valid top -ℤ pos 1))
      then ok m
      else (serve_pending_req top (set_state top ready m) >>= λ (served, m'). elim served [
        | none ↦ ok (set_state top inqueue m')
        | some i ↦ dequeue top m'
      ])

  -- `updateNeighours`
  unfoldable pub update_neighbours : Ptr → Bool → Desk D → Run (Desk D)
  unfolding update_priority_list serve_top
  update_neighbours t update_prio m = do
    m ← update_priority_list input update_prio (m.tasks.in_streams t) m
    m ←
        (if update_prio
          then update_priority_list output update_prio (m.tasks.out_streams t) m
          else ok m)
    serve_top m

  -- `processTaskReady`
  unfoldable pub process_task_ready : Ptr → Desk D → Run (Desk D)
  unfolding update_valid serve_pending_req enqueue cal_priority
  process_task_ready t m =
      let m1 : Desk D = record m { tasks = update_valid c t m.tasks } in
      if is_zero (m1.tasks.valid t)
      then enqueue t m1
      else (serve_pending_req t m1 >>= λ (served, m2). elim served [
        | none ↦ cal_priority c m2.tasks t >>= λ p.
            enqueue t (record m2 { tasks = record m2.tasks { prio = assign m2.tasks.prio t p } })
        | some i ↦ ok m2
      ])

  -- `master->waitworkers[wid] = 1`
  unfoldable pub wait_worker : ℕ → Desk D → Run (Desk D)
  wait_worker wid m = do
    w ← access (get_elem? m.waitworkers wid)
    ok (record m { waitworkers = set m.waitworkers wid true })

  -- `processTaskReq`
  unfoldable pub process_task_req : ℕ → Desk D → Run (Desk D)
  unfolding peek wait_worker send_task dequeue
  process_task_req wid m = peek m.ready_tasks >>= λ t.
      if t == null
      then wait_worker wid m
      else if is_zero (m.tasks.valid t)
      then wait_worker wid m
      else (send_task wid t (set_state t ready m) >>= dequeue t)

  -- `case WORKER_MSG_ASSIGN`
  unfoldable pub handle_assign : Ptr → Desk D → Run (Desk D)
  unfolding serve_pending_req enqueue
  handle_assign t m =
      assert (is_state (m.tasks.state t) created)
      >> (serve_pending_req t (set_state t ready m) >>= λ (served, m'). elim served [
        | none ↦ enqueue t m'
        | some i ↦ ok m'
      ])

  -- A change of the desk alone.
  abbrev pub on_desk : Master D → Run (Desk D) → Run (Master D)
  on_desk m r = map_run (λ k. record m { desk = k }) r

  -- The `switch` on the state of a returned task.
  unfoldable pub handle_state : TaskState → Ptr → Master D → Run (Master D)
  unfolding process_task_ready destroy
  handle_state blocked t m =
      if m.wakenup t
      then on_desk (record m { wakenup = assign m.wakenup t false })
          (process_task_ready t (set_state t ready m.desk))
      else ok (record m { desk = set_state t returned m.desk })
  handle_state ready t m = on_desk m (process_task_ready t m.desk)
  handle_state zombie t m = destroy t m.desk.tasks >> ok m
  handle_state _ t m = assert_failed

  -- `case WORKER_MSG_RETURN`
  unfoldable pub handle_return : Ptr → Master D → Run (Master D)
  unfolding update_neighbours handle_state
  handle_return t m = update_neighbours t c.update_neigh_prio m.desk >>= λ k.
      handle_state (k.tasks.state t) t (record m { desk = k })

  -- `case WORKER_MSG_WAKEUP`
  unfoldable pub handle_wakeup : Ptr → Master D → Run (Master D)
  unfolding process_task_ready
  handle_wakeup t m =
      if is_state (m.desk.tasks.state t) returned
      then on_desk m (process_task_ready t (set_state t ready m.desk))
      else ok (record m { wakenup = assign m.wakenup t true })

  -- The body of the loop of `MasterLoop`, after the receive.
  unfoldable pub handle : Msg → Master D → Run (Master D)
  unfolding handle_assign handle_return handle_wakeup process_task_req
  handle (msg_assign t) m = on_desk m (handle_assign t m.desk)
  handle (msg_return t) m = handle_return t m
  handle (msg_wakeup t) m = handle_wakeup t m
  handle (msg_request wid) m = on_desk m (process_task_req wid m.desk)
  handle msg_terminate m = ok (record m { terminate = true })

  -- `MasterLoop` on the messages that it receives in turn; it returns those that are left when it
  -- ends (`true`), or waits for another one.
  unfoldable pub master_loop : List Msg → Master D → Run (Bool × List Msg × Master D)
  unfolding handle
  master_loop [] m = ok (false, [], m)
  master_loop (msg ∷ msgs) m = handle msg m >>= λ m'.
      let rest = master_loop msgs m' in
      if m'.terminate && (size m'.desk.ready_tasks == 0) then ok (true, msgs, m') else rest
