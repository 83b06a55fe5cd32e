-- ===== src/Monitoring/Tests.antt =====
-- A task with two streams, 10 for reading and 12 for writing.
use lpel.Base.{
  ◌+◌, ◌%◌, ◌^◌, ◌≡◌, refl, arith, true, false, List, [], ◌∷◌, ◌++◌, Ptr, ◌==◌, if◌then◌else◌, ◌∈◌,
}
use lpel.Base.Run.{ok}
use lpel.Base.Int.{pos}
use lpel.Monitoring.{Monitor, MonFlags, in_use, dirty_end, no_events, print_dirty_list}
use lpel.Monitoring.Dirty.{IsTracked, entries}
use lpel.Monitoring.Events.{Event, finish, block, close, IsLive}
use lpel.Monitoring.Report.{run_events, all_marked, all_moves, report_events}
use lpel.Timing.{zero_time}

abbrev quiet_flags : MonFlags
quiet_flags = record {
  mon_time = false;
  mon_task = false;
  mon_message = false;
  mon_worker = false;
  mon_stream = true;
  mon_load = false;
}

abbrev monitor : Monitor
monitor = record {
  montask = λ a. 5;
  dirty = λ a. 0;
  mode = λ a. if a == 10 then b'r' else b'w';
  state = λ a. in_use;
  sid = λ a. a + 100;
  counter = λ a. 0;
  strevt_flags = λ a. no_events;
  mw = λ a. 7;
  tid = λ a. 1;
  flags = λ a. quiet_flags;
  creat = λ a. zero_time;
  start = λ a. zero_time;
  stop = λ a. zero_time;
  dirty_list = λ a. dirty_end;
  last_in_cnt = λ a. 0;
  last_out_cnt = λ a. 0;
  blockon = λ a. 0;
  wid = λ a. pos 0;
  outfile = λ a. 3;
  wait_current = λ a. zero_time;
  wait_cnt = λ a. 0;
  wait_time = λ a. zero_time;
  worker_flags = λ a. quiet_flags;
  log = λ a. [];
  freed = [];
  mon_flags = quiet_flags;
  monitoring_begin = zero_time;
}

abbrev events : List Event
events = finish 10 ∷ block 12 ∷ finish 10 ∷ close 12 ∷ []

clean_monitor : IsTracked 5 [] monitor
clean_monitor = record {
  head = refl;
  chain = tt;
  distinct = tt;
  no_end = refl;
  owned = λ a h. refl;
  clean = λ a o f h. refl;
}

ten-IsLive : IsLive 5 10 monitor
ten-IsLive = record {
  not_null = omega arith;
  not_end = omega arith;
  owner = refl;
  not_freed = refl;
  mode = refl;
}

twelve-IsLive : IsLive 5 12 monitor
twelve-IsLive = record {
  not_null = omega arith;
  not_end = omega arith;
  owner = refl;
  not_freed = refl;
  mode = refl;
}

test_all_marked : all_marked events [] ≡ 12 ∷ 10 ∷ []
test_all_marked = refl

report_events_example :
    (m1 m2 : Monitor) × (run_events events monitor ≡ ok m1)
    × (print_dirty_list 4 5 m1 ≡ ok m2)
    × (m2.log 3 ≡ [] ++ entries (all_marked events []) m1)
    × ((a : Ptr) → m1.counter a % 2 ^ 64 ≡ (0 + all_moves events a) % 2 ^ 64)
    × ((a : Ptr) → a ∈ all_marked events [] → m2.counter a ≡ 0)
    × IsTracked 5 [] m2
report_events_example =
    report_events 4 5 events monitor (omega arith) clean_monitor
      (ten-IsLive, (twelve-IsLive, (ten-IsLive, (twelve-IsLive, tt))))
