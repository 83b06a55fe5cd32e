-- ===== src/Decen/Task/Tests.antt =====
-- Worker 1, of context 101, runs task 4, and the tasks 6 and 8 are ready, 8 with the higher priority.
use lpel.Base.{◌≡◌, refl, arith, true, false, none, some, [], ◌∷◌, null, ◌==◌, if◌then◌else◌}
use lpel.Base.Run.{ok}
use lpel.Base.Int.{pos}
use lpel.Hierarchy.Task.{running, ready}
use lpel.Decen.Taskqueue.{Links, Queue}
use lpel.Decen.Scheduler.Ready.{Holds}
use lpel.Decen.Worker.{Machine, Migration, mig_none, mig_wait_prop, pick_target_worker}
use lpel.Decen.Worker.Place.{IsOutside}
use lpel.Decen.Task.{runs, task_yield}
use lpel.Decen.Task.Yield.{IsReadyList, IsRunning, task_yield-Next, task_yield_own}

abbrev stay : Migration
stay = record { mechanism = mig_none; check_migrate = none; pick_worker = none }

abbrev to_own : Migration
to_own = record {
  mechanism = mig_wait_prop;
  check_migrate = some (λ t. true);
  pick_worker = some (pos 1);
}

abbrev no_links : Links
no_links = record { prev = λ a. null; next = λ a. null }

abbrev queue_six : Queue
queue_six = record { head = 6; tail = 6; count = 1 }

abbrev queue_eight : Queue
queue_eight = record { head = 8; tail = 8; count = 1 }

abbrev machine : Machine
machine = record {
  wid = λ c. pos 1;
  terminate = λ c. false;
  num_tasks = λ c. 3;
  current_task = λ c. 4;
  marked_del = λ c. null;
  wraptask = λ c. null;
  migrated = λ c. null;
  sched = λ c. record { queues = queue_six ∷ queue_eight ∷ [] };
  links = no_links;
  state = λ t. if t == 4 then running else ready;
  worker_context = λ t. 101;
  prio = λ t. pos 0;
  sent = [];
}

ready-Holds : Holds no_links (record { queues = queue_six ∷ queue_eight ∷ [] }) (6 ∷ []) (8 ∷ [])
ready-Holds = record {
  first = queue_six;
  second = queue_eight;
  queues = refl;
  low_queue = record {
    head = refl;
    tail = refl;
    count = refl;
    distinct = ground arith;
    links = (refl, refl, tt);
  };
  high_queue = record {
    head = refl;
    tail = refl;
    count = refl;
    distinct = ground arith;
    links = (refl, refl, tt);
  };
  apart = λ a h. ground arith;
  few = omega arith;
}

four-IsOutside : IsOutside 101 4 (6 ∷ []) (8 ∷ []) machine
four-IsOutside = record {
  holds = ready-Holds;
  task = omega arith;
  free = (refl, refl);
  not_low = refl;
  not_high = refl;
  room = omega arith;
}

machine-IsReadyList : IsReadyList 101 (6 ∷ []) (8 ∷ []) machine
machine-IsReadyList = record {
  holds = ready-Holds;
  ready_low = λ a h. ground (arith, h);
  ready_high = λ a h. ground (arith, h);
}

task_yield-Next_example :
    (w : Machine) × (task_yield (101 ∷ []) stay 4 [] machine ≡ ok (runs 8 w))
    × IsRunning 101 8 (6 ∷ 4 ∷ []) [] w
task_yield-Next_example =
    task_yield-Next (101 ∷ []) stay 101 4 (6 ∷ []) (8 ∷ []) machine four-IsOutside
      machine-IsReadyList refl refl refl refl refl

task_yield_own_example :
    (w' : Machine) × (task_yield (101 ∷ []) to_own 4 [] machine ≡ ok (runs 4 w'))
    × (w'.sched ≡ machine.sched)
    × (w'.links ≡ machine.links)
    × (w'.state 4 ≡ running)
unfolding pick_target_worker
task_yield_own_example = task_yield_own (101 ∷ []) to_own 4 0 [] machine refl refl refl refl
