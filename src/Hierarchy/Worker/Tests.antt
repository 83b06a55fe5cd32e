-- ===== src/Hierarchy/Worker/Tests.antt =====
-- The theorems on the workers at small lists and at a system of two workers.
use lpel.Base.{
  ℕ, zero, suc, ◌≡◌, refl, arith, true, false, none, some, [], ◌∷◌, null, ◌==◌, if◌then◌else◌,
  get_or, assign,
}
use lpel.Base.Run.{ok}
use lpel.Base.Int.{ℤ, pos, negsuc}
use lpel.Base.Int.{◌+ℤ◌, ◌-ℤ◌}
use lpel.Hierarchy.Priority.{Double, PrioConf, dynamic_prio}
use lpel.Hierarchy.Task.{Tasks, zombie, created, middle}
use lpel.Hierarchy.Master.{msg_request, msg_assign, msg_return}
use lpel.Hierarchy.Worker.{Contexts}
use lpel.Hierarchy.Worker.Start.{IsContext, workers_cleanup, workers_cleanup-all}
use lpel.Hierarchy.Worker.System.{
  starting, receiving, System, reach_start, reach_step, step_start, step_foreign, IsOneEach,
}
use lpel.Hierarchy.Worker.Token.{Reach-IsOneEach}

abbrev whole : Double ℤ
whole = record {
  of_int = λ n. n;
  plus = λ a b. a +ℤ b;
  times = λ a b. a;
  over = λ a b. a;
  dbl_max = pos 1000;
  less = λ a b. false;
  difference = λ a b. a -ℤ b;
}

abbrev conf : PrioConf ℤ
conf = record {
  prio_index = pos 14;
  prio_type = dynamic_prio;
  update_neigh_prio = true;
  neg_demand_lim = pos 0;
  prio_func = some (λ i o. pos 5);
  rts_prio_cmp = none;
}

-- Descriptor 20 still has a stream.
abbrev tasks : Tasks ℤ
tasks = record {
  state = λ t. created;
  worker_context = λ t. null;
  rec_cnt = λ t. pos 0;
  rec_limit_factor = λ t. negsuc 0;
  rec_limit = λ t. pos 0;
  rts_prio = λ t. null;
  prio = λ t. pos 1;
  valid = λ t. pos 1;
  in_streams = λ t. [];
  out_streams = λ t. [];
  task_of = λ sd. null;
  stream_of = λ sd. if sd == 20 then 40 else null;
  prod_sd = λ s. null;
  cons_sd = λ s. null;
  stream_type = λ s. middle;
  read_cnt = λ s. 0;
  write_cnt = λ s. 0;
}

-- The worker of context 7 has the free descriptors 20, 21 and 22.
abbrev contexts : Contexts
contexts = record {
  wid = λ i. pos i;
  terminate = λ i. false;
  current_task = λ i. null;
  free_stream = λ i. null;
  free_sd = λ i. if i == 7 then 20 else null;
  next_context = λ i. null;
  next_stream = λ i. null;
  next_sd = λ sd. if sd == 20 then 21 else if sd == 21 then 22 else null;
}

abbrev initial : System ℤ
initial = record {
  master = record {
    terminate = false;
    wakenup = λ t. false;
    desk = record {
      ready_tasks = record { slots = 0 ∷ 0 ∷ 0 ∷ []; count = 1 };
      waitworkers = false ∷ false ∷ [];
      sent = [];
      tasks = tasks;
    };
  };
  inbox = [];
  phase = λ i. starting;
  received = λ i. 0;
}

two_idle : (i : ℕ) → get_or (false ∷ false ∷ []) i false ≡ false
two_idle zero = refl
two_idle (suc zero) = refl
two_idle (suc (suc i)) = refl

abbrev started : System ℤ
started = record initial { phase = assign initial.phase 1 receiving; inbox = msg_request 1 ∷ [] }

abbrev fed : System ℤ
fed = record started { inbox = msg_request 1 ∷ msg_assign 4 ∷ [] }

Reach-IsOneEach_example : IsOneEach fed
Reach-IsOneEach_example =
    Reach-IsOneEach whole conf (0 ∷ []) initial fed (refl, (λ i. refl), (λ i. refl), refl, two_idle)
      (reach_step (reach_step reach_start (step_start 1 refl)) (step_foreign (msg_assign 4) refl))

-- The tasks of the test have ended.
abbrev ended : Tasks ℤ
ended = record tasks { state = λ t. zombie }

contexts_seven : IsContext (λ wc. []) contexts 7 [] (20 ∷ 21 ∷ 22 ∷ [])
contexts_seven = record {
  inbox_empty = refl;
  stream_head = refl;
  stream_chain = tt;
  stream_distinct = tt;
  sd_head = refl;
  sd_chain = (refl, (refl, (refl, tt)));
  sd_distinct = ground arith;
}

contexts_nine : IsContext (λ wc. []) contexts 9 [] []
contexts_nine = record {
  inbox_empty = refl;
  stream_head = refl;
  stream_chain = tt;
  stream_distinct = tt;
  sd_head = refl;
  sd_chain = tt;
  sd_distinct = tt;
}

workers_cleanup-all_example :
    workers_cleanup 1 3 (msg_request 0 ∷ msg_return 4 ∷ []) (λ wc. []) ended contexts (7 ∷ []) 9
    ≡ ok (4 ∷ 20 ∷ 21 ∷ 22 ∷ 7 ∷ 9 ∷ [])
workers_cleanup-all_example =
    workers_cleanup-all ended 1 3 (msg_request 0 ∷ msg_return 4 ∷ []) (λ wc. []) contexts
      ((7, [], 20 ∷ 21 ∷ 22 ∷ []) ∷ []) ((9, [], []) ∷ []) ((refl, refl, refl), tt)
      (omega arith, omega arith, contexts_seven, tt) (omega arith, omega arith, contexts_nine, tt)
      (omega arith) (refl, tt) (omega arith, refl, tt)
