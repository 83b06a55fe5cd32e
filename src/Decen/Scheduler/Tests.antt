-- ===== src/Decen/Scheduler/Tests.antt =====
-- The theorems on the scheduler with task 4 ready at the lower priority and 6 at the higher.
use lpel.Base.{refl, arith, [], ◌∷◌, null}
use lpel.Base.Int.{negsuc}
use lpel.Decen.Taskqueue.{Links, Queue}
use lpel.Decen.Scheduler.{Sched, make_ready, fetch_ready}
use lpel.Decen.Scheduler.Ready.{Holds, Fetched, Readied, fetch_ready-Fetched, make_ready-Readied}

abbrev no_links : Links
no_links = record { prev = λ a. null; next = λ a. null }

abbrev low : Queue
low = record { head = 4; tail = 4; count = 1 }

abbrev high : Queue
high = record { head = 6; tail = 6; count = 1 }

abbrev ready : Sched
ready = record { queues = low ∷ high ∷ [] }

ready-Holds : Holds no_links ready (4 ∷ []) (6 ∷ [])
ready-Holds = record {
  first = low;
  second = high;
  queues = refl;
  low_queue = record {
    head = refl;
    tail = refl;
    count = refl;
    distinct = ground arith;
    links = (refl, refl, tt);
  };
  high_queue = record {
    head = refl;
    tail = refl;
    count = refl;
    distinct = ground arith;
    links = (refl, refl, tt);
  };
  apart = λ a h. ground arith;
  few = omega arith;
}

fetch_ready-Fetched_example : Fetched (4 ∷ []) (6 ∷ []) (fetch_ready no_links ready)
fetch_ready-Fetched_example = fetch_ready-Fetched (4 ∷ []) (6 ∷ []) ready-Holds

make_ready-Readied_example : Readied (4 ∷ 8 ∷ []) (6 ∷ []) (make_ready (negsuc 0) 8 no_links ready)
make_ready-Readied_example =
    make_ready-Readied (negsuc 0) 8 (4 ∷ []) (6 ∷ []) ready-Holds (ground arith) (refl, refl)
      (ground arith) (ground arith) (omega arith)
