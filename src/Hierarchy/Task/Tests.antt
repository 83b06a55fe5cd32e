-- ===== src/Hierarchy/Task/Tests.antt =====
-- The theorems on tasks at the task 3, which has the output streams 40 and 41 open by 30 and 31.
use lpel.Base.{◌≡◌, refl, arith, true, false, [], ◌∷◌, null, ◌==◌, if◌then◌else◌}
use lpel.Base.Run.{ok, ◌>>=◌}
use lpel.Base.Int.{int32, ℤ, pos}
use lpel.Base.Int.{◌+ℤ◌, ◌-ℤ◌}
use lpel.Hierarchy.Task.{
  Tasks, ready, running, output, exit, middle, fill_level, count_rec, add_stream, remove_stream,
  check_yield, after_yield,
}
use lpel.Hierarchy.Task.Level.{fill_level_counts}
use lpel.Hierarchy.Task.Open.{remove_stream-add_stream}
use lpel.Hierarchy.Task.Limit.{Running, check_yields-limit, check_yields, remove_stream_no_yield}

-- The counters of stream 40 have wrapped around; 41 is an exit.
abbrev tasks : Tasks ℤ
tasks = record {
  state = λ t. running;
  worker_context = λ t. null;
  rec_cnt = λ t. pos 7;
  rec_limit_factor = λ t. pos 5;
  rec_limit = λ t. pos 10;
  rts_prio = λ t. null;
  prio = λ t. pos 0;
  valid = λ t. pos 1;
  in_streams = λ t. [];
  out_streams = λ t. if t == 3 then 30 ∷ 31 ∷ [] else [];
  task_of = λ sd. 3;
  stream_of = λ sd. if sd == 30 then 40 else 41;
  prod_sd = λ s. if s == 40 then 30 else 31;
  cons_sd = λ s. null;
  stream_type = λ s. if s == 40 then middle else exit;
  read_cnt = λ s. if s == 40 then 4294967294 else 0;
  write_cnt = λ s. if s == 40 then 3 else 0;
}

test_count_rec : count_rec tasks (30 ∷ 31 ∷ []) output ≡ pos 5
unfolding count_rec fill_level ◌+ℤ◌ int32
test_count_rec = refl

fill_level_counts_example : fill_level tasks 40 ≡ pos 5
fill_level_counts_example =
    fill_level_counts tasks 40 4294967299 4294967294 (omega arith) refl refl (omega arith)
      (omega arith)

remove_stream-add_stream_example :
    remove_stream 3 32 output (add_stream 3 32 output tasks) ≡ ok tasks
remove_stream-add_stream_example = remove_stream-add_stream 3 32 output tasks

seven-Running : Running 3 7 10 tasks
seven-Running = record { state = refl; rec_cnt = refl; rec_limit = refl }

check_yields-limit_example :
    (m1 m2 m3 : Tasks ℤ) × (check_yields 3 3 tasks ≡ ok (false, m1))
    × Running 3 10 10 m1
    × (check_yield 3 m1 ≡ ok (true, m2))
    × (m2.state 3 ≡ ready)
    × (after_yield 3 m2 ≡ ok m3)
    × Running 3 1 10 m3
check_yields-limit_example =
    check_yields-limit 3 7 10 tasks seven-Running (omega arith) (omega arith)

remove_stream_no_yield_example :
    (m' : Tasks ℤ) × (remove_stream 3 30 output tasks >>= (λ closed. check_yields 100 3 closed)
      ≡ ok (false, m'))
    × (m'.rec_cnt 3 ≡ pos 107)
unfolding ◌-ℤ◌
remove_stream_no_yield_example =
    remove_stream_no_yield 100 3 30 7 5 [] (31 ∷ []) tasks refl refl refl refl refl (omega arith)
      (omega arith)
