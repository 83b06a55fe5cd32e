-- ===== src/Hierarchy/Master/Tests.antt =====
-- The theorems on the master with two workers, of which the second waits, and the blocked task 3.
use lpel.Base.{
  ℕ, ◌≡◌, refl, arith, ◌⊎◌, inr, Bool, true, false, none, some, List, [], ◌∷◌, Ptr, null, ◌==◌,
  if◌then◌else◌, assign,
}
use lpel.Base.Run.{Run, ok, ◌>>=◌}
use lpel.Base.Int.{ℤ, pos, negsuc}
use lpel.Base.Int.{◌+ℤ◌, ◌-ℤ◌}
use lpel.Hierarchy.Taskqueue.{is_zero}
use lpel.Hierarchy.Priority.{Double, PrioConf, dynamic_prio}
use lpel.Hierarchy.Task.{created, ready, blocked, middle, update_valid}
use lpel.Hierarchy.Master.{
  Msg, msg_wakeup, msg_assign, msg_request, msg_return, Desk, Master, handle_wakeup, handle_return,
  master_loop, find_waiting, process_task_ready,
}
use lpel.Hierarchy.Master.Wakeup.{wakeup-return_swap}
use lpel.Hierarchy.Master.Serve.{IsServed, IsQueued, process_task_ready-place}

abbrev whole : Double ℤ
whole = record {
  of_int = λ n. n;
  plus = λ a b. a +ℤ b;
  times = λ a b. a;
  over = λ a b. a;
  dbl_max = pos 1000;
  less = λ a b. false;
  difference = λ a b. a -ℤ b;
}

abbrev conf : PrioConf ℤ
conf = record {
  prio_index = pos 14;
  prio_type = dynamic_prio;
  update_neigh_prio = true;
  neg_demand_lim = pos 0;
  prio_func = some (λ i o. pos 5);
  rts_prio_cmp = none;
}

-- The tasks 4 and 5 are new.
abbrev desk : Desk ℤ
desk = record {
  ready_tasks = record { slots = 0 ∷ 0 ∷ 0 ∷ []; count = 1 };
  waitworkers = false ∷ true ∷ [];
  sent = [];
  tasks = record {
    state = λ t. if t == 3 then blocked else created;
    worker_context = λ t. null;
    rec_cnt = λ t. pos 0;
    rec_limit_factor = λ t. negsuc 0;
    rec_limit = λ t. pos 0;
    rts_prio = λ t. null;
    prio = λ t. pos 1;
    valid = λ t. pos 1;
    in_streams = λ t. [];
    out_streams = λ t. [];
    task_of = λ sd. null;
    stream_of = λ sd. null;
    prod_sd = λ s. null;
    cons_sd = λ s. null;
    stream_type = λ s. middle;
    read_cnt = λ s. 0;
    write_cnt = λ s. 0;
  };
}

abbrev master : Master ℤ
master = record { terminate = false; wakenup = λ t. false; desk = desk }

-- The first new task goes to the worker that waits and the second to the queue; then the task that
-- was woken up before it is returned is queued with a higher priority, and the two requests take both.
abbrev outcome : Run (Bool × List Msg × Master ℤ) → List (ℕ × Ptr)
outcome (ok (stopped, msgs, m)) = m.desk.sent
outcome _ = []

test_master_loop :
    outcome (
      master_loop whole conf
        (0 ∷ [])
        (msg_assign 4
          ∷ msg_assign 5
          ∷ msg_wakeup 3
          ∷ msg_return 3
          ∷ msg_request 0
          ∷ msg_request 1
          ∷ [])
        master)
    ≡ (1, 4) ∷ (0, 3) ∷ (1, 5) ∷ []
unfolding master_loop assign ◌-ℤ◌ ◌+ℤ◌
test_master_loop = refl

abbrev asked : Master ℤ
asked = record master { desk = record desk { waitworkers = true ∷ true ∷ [] } }

wakeup-return_swap_example :
    (handle_wakeup whole conf (0 ∷ []) 3 master >>= handle_return whole conf (0 ∷ []) 3)
    ≡ (handle_return whole conf (0 ∷ []) 3 master >>= handle_wakeup whole conf (0 ∷ []) 3)
wakeup-return_swap_example =
    wakeup-return_swap whole conf (0 ∷ []) 3 master refl refl
      (omega arith, λ j low up. absurd (omega (arith, low, up)))

abbrev ready_desk : Desk ℤ
ready_desk = record desk { tasks = record desk.tasks { state = λ t. ready } }

process_task_ready-place_example :
    (k' : Desk ℤ) × (process_task_ready whole conf (0 ∷ []) 3 ready_desk ≡ ok k')
    × (((i : ℕ) × IsServed whole conf (0 ∷ []) 3 i ready_desk k'
          × (is_zero ((update_valid conf 3 ready_desk.tasks).valid 3) ≡ false))
        ⊎ (IsQueued whole conf (0 ∷ []) 3 ready_desk k'
            × ((is_zero ((update_valid conf 3 ready_desk.tasks).valid 3) ≡ true)
                ⊎ (find_waiting ready_desk.waitworkers ≡ none))))
process_task_ready-place_example =
    process_task_ready-place whole conf (0 ∷ []) 3 ready_desk
      (record { comparison = refl; priority = inr (λ i o. pos 5, refl); has_memory = omega arith })
      ((omega arith, omega arith, omega arith), omega arith) refl
