-- ===== src/Startup/Tests.antt =====
-- A machine with two sockets and four processing units, and a configuration for it.
use lpel.Base.{ℕ, ◌<◌, ◌≡◌, refl, arith, true, false, some, length}
use lpel.Base.Run.{ok, assert_failed}
use lpel.Base.Int.{pos}
use lpel.Startup.{Config, hrc_lpel, init_fallback}
use lpel.Startup.Topology.{
  obj_socket, obj_core, obj_pu, obj_other, Obj, obj, nil, cons, Place, Walk, walk_start, pus,
  hwloc_init, place_to_worker, worker_to_place,
}
use lpel.Startup.Places.{HasPus, place_to_worker-worker_to_place, hwloc_init_again}

abbrev unit : Obj
unit = obj obj_pu nil

abbrev machine : Obj
machine = obj obj_other (
    cons
      (obj obj_socket
        (cons (obj obj_core (cons unit (cons unit nil))) (cons (obj obj_core (cons unit nil)) nil)))
      (cons (obj obj_socket (cons (obj obj_core (cons unit nil)) nil)) nil))

machine-HasPus : HasPus machine
unfolding HasPus pus
machine-HasPus = omega arith

place_to_worker-worker_to_place_example :
    (w : Walk) × (hwloc_init machine walk_start ≡ ok w)
    × (length w.hw_places ≡ pus machine)
    × ((i : ℕ)
        → i < pus machine
        → (p : Place) × (worker_to_place w.hw_places i ≡ ok p)
          × (place_to_worker w.hw_places p ≡ pos i))
place_to_worker-worker_to_place_example = place_to_worker-worker_to_place machine machine-HasPus

hwloc_init_again_example :
    (w : Walk) × (hwloc_init machine walk_start ≡ ok w) × (hwloc_init machine w ≡ assert_failed)
hwloc_init_again_example = hwloc_init_again machine machine-HasPus

abbrev config : Config
config = record {
  backend = hrc_lpel;
  num_workers = pos 3;
  proc_workers = pos 2;
  proc_others = pos 2;
  pinned = true;
  exclusive = false;
}

-- A count from the environment is lost without sysconf.
test_init_fallback : init_fallback (some (pos 8)) (pos 0) ≡ pos 0
unfolding init_fallback
test_init_fallback = refl
