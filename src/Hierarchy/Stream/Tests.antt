-- ===== src/Hierarchy/Stream/Tests.antt =====
-- The theorems on streams at the stream 40 between the descriptors 30, of task 3, and 31, of task 4.
use lpel.Base.{◌≡◌, refl, arith, true, false, [], ◌∷◌, Ptr, null, ◌==◌, if◌then◌else◌, load}
use lpel.Base.Run.{ok, fault}
use lpel.Base.Int.{ℤ, pos, negsuc}
use lpel.Hierarchy.Buffer.{is_empty, top}
use lpel.Hierarchy.Task.{Tasks, running, blocked, entry, input, output}
use lpel.Hierarchy.Worker.{Contexts}
use lpel.Hierarchy.Stream.{World, read_rest, write_rest, replace}
use lpel.Hierarchy.Stream.Item.{
  Contains, read_rest-Contains, after_read, write_rest-Contains, after_write,
}
use lpel.Hierarchy.Stream.Poll.{poll_enter, polled_switch, poll_wakeup}
use lpel.Hierarchy.Stream.Close.{replace_unopened}

abbrev tasks : Tasks ℤ
tasks = record {
  state = λ t. running;
  worker_context = λ t. 7;
  rec_cnt = λ t. pos 0;
  rec_limit_factor = λ t. negsuc 0;
  rec_limit = λ t. pos 0;
  rts_prio = λ t. null;
  prio = λ t. pos 1;
  valid = λ t. pos 1;
  in_streams = λ t. if t == 4 then 31 ∷ [] else [];
  out_streams = λ t. if t == 3 then 30 ∷ [] else [];
  task_of = λ sd. if sd == 30 then 3 else 4;
  stream_of = λ sd. 40;
  prod_sd = λ s. if s == 40 then 30 else null;
  cons_sd = λ s. if s == 40 then 31 else null;
  stream_type = λ s. entry;
  read_cnt = λ s. 0;
  write_cnt = λ s. 1;
}

abbrev contexts : Contexts
contexts = record {
  wid = λ i. pos 0;
  terminate = λ i. false;
  current_task = λ i. null;
  free_stream = λ i. null;
  free_sd = λ i. null;
  next_context = λ i. null;
  next_stream = λ i. null;
  next_sd = λ sd. null;
}

-- The item 9 is in the entry 51, behind the dummy entry 50; the producer waits for space.
abbrev world : World ℤ
world = record {
  tasks = tasks;
  contexts = contexts;
  mode = λ sd. if sd == 30 then output else input;
  buffers = λ s. record {
    next = λ a. if a == 50 then 51 else null;
    data_at = λ a. if a == 51 then 9 else null;
    head = 50;
    tail = 51;
  };
  uid = λ s. s;
  is_poll = λ s. false;
  n_sem = λ s. pos 1;
  e_sem = λ s. negsuc 0;
  usr_data = λ s. null;
  poll_token = λ t. false;
  wakeup_sd = λ t. null;
  stream_seq = 0;
  woken = [];
}

abbrev drained : World ℤ
drained = record world {
  buffers = λ s. record { next = λ a. null; data_at = λ a. null; head = 50; tail = 50 };
}

one-Contains : Contains world 40 50 (51 ∷ []) (9 ∷ []) 0
one-Contains = record {
  holds = record {
    head = refl;
    tail = refl;
    distinct = ground arith;
    chain = (refl, (refl, tt));
    content = refl;
    items = (ground arith, tt);
  };
  read_cnt = refl;
  write_cnt = refl;
}

test_after_read : after_read world 40 ≡ 3 ∷ []
test_after_read = refl

read_rest-Contains_example :
    (w' : World ℤ) × (read_rest 40 world ≡ ok (9, w'))
    × Contains w' 40 51 [] [] 1
    × (w'.woken ≡ after_read world 40)
read_rest-Contains_example =
    read_rest-Contains world 40 50 51 [] 9 [] 0 one-Contains (omega arith) (omega arith)

write_rest-Contains_example :
    (w' : World ℤ) × (write_rest 52 40 8 world ≡ ok w')
    × Contains w' 40 50 (51 ∷ 52 ∷ []) (9 ∷ 8 ∷ []) 0
    × (w'.woken ≡ after_write world 40)
write_rest-Contains_example =
    write_rest-Contains world 52 40 50 (51 ∷ []) 8 (9 ∷ []) 0 one-Contains (omega arith) refl
      (omega arith) (omega arith)

drained_is_empty : (s : Ptr) → is_empty (drained.buffers s) ≡ ok true
unfolding is_empty load
drained_is_empty s = refl

replace_unopened_example : replace 31 41 drained ≡ fault
replace_unopened_example =
    replace_unopened drained 31 41 refl (drained_is_empty 40) (omega arith) refl

-- Stream 40 is drained, its counters say so, and its consumer polls it.
abbrev awaited : World ℤ
awaited = record drained { tasks = record tasks { write_cnt = λ s. 0 }; n_sem = λ s. pos 0 }

none-Contains : Contains awaited 40 50 [] [] 0
none-Contains = record {
  holds = record {
    head = refl;
    tail = refl;
    distinct = ground arith;
    chain = (refl, tt);
    content = refl;
    items = tt;
  };
  read_cnt = refl;
  write_cnt = refl;
}

drained_top : (s : Ptr) → top (drained.buffers s) ≡ ok null
unfolding top load
drained_top s = refl

poll_wakeup_example :
    (w1 : World ℤ) × (w2 : World ℤ) × (poll_enter 4 (31 ∷ []) awaited
      ≡ ok (polled_switch (pos 1), w1))
    × (w1.tasks.state 4 ≡ blocked)
    × (write_rest 52 40 8 w1 ≡ ok w2)
    × Contains w2 40 50 (52 ∷ []) (8 ∷ []) 0
    × (w2.woken ≡ 4 ∷ [])
poll_wakeup_example =
    poll_wakeup awaited 4 (31 ∷ []) 31 52 50 [] 8 0 (drained_top 40, tt) refl refl (omega arith)
      refl refl refl none-Contains (omega arith) refl (omega arith)
