-- ===== src/Decen/Worker/Tests.antt =====
-- The wakeup of task 9 by worker 0, of context 100, beside worker 1, of context 101.
use lpel.Base.{◌≡◌, refl, arith, true, false, some, [], ◌∷◌, null, ◌==◌, if◌then◌else◌}
use lpel.Base.Run.{ok}
use lpel.Base.Int.{pos}
use lpel.Decen.Scheduler.{create}
use lpel.Decen.Scheduler.Ready.{create-Holds}
use lpel.Decen.Worker.{
  wakeup_msg, Migration, mig_wait_prop, Machine, pick_target_worker, process_message,
}
use lpel.Decen.Worker.Place.{IsOutside, IsPlaced, wakeup_place}
use lpel.Hierarchy.Task.{blocked}

abbrev to_one : Migration
to_one = record {
  mechanism = mig_wait_prop;
  check_migrate = some (λ t. true);
  pick_worker = some (pos 1);
}

abbrev machine : Machine
machine = record {
  wid = λ c. if c == 101 then pos 1 else pos 0;
  terminate = λ c. false;
  num_tasks = λ c. 3;
  current_task = λ c. null;
  marked_del = λ c. null;
  wraptask = λ c. null;
  migrated = λ c. null;
  sched = λ c. create;
  links = record { prev = λ a. null; next = λ a. null };
  state = λ t. blocked;
  worker_context = λ t. 100;
  prio = λ t. pos 0;
  sent = [];
}

nine-IsOutside : IsOutside 100 9 [] [] machine
nine-IsOutside = record {
  holds = create-Holds machine.links;
  task = omega arith;
  free = (refl, refl);
  not_low = refl;
  not_high = refl;
  room = omega arith;
}

wakeup_place_example :
    (w' : Machine) × (process_message (100 ∷ 101 ∷ []) to_one 100 (wakeup_msg 9) machine ≡ ok w')
    × IsPlaced (100 ∷ 101 ∷ []) to_one 100 9 [] [] machine w'
unfolding pick_target_worker
wakeup_place_example =
    wakeup_place (100 ∷ 101 ∷ []) to_one 100 9 [] [] machine nine-IsOutside refl refl refl
      (λ m. (101, refl))
