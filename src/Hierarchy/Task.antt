-- ===== src/Hierarchy/Task.antt =====
-- src/sched/hierarchy/hrc_task.c: the tasks, the streams that each has open, the limit on records
-- between two yields, and the two values that the master schedules by, validity and priority.
pub mod Level
pub mod Open
pub mod Limit
mod Tests
use lpel.Base.{
  ℕ, zero, suc, ◌+◌, ◌-◌, ◌*◌, ◌/◌, ◌%◌, ◌^◌, ◌<◌, ◌≤◌, ◌≡◌, ◌≢◌, refl, ap, sym, subst, ◌∙◌, arith,
  dec_lt, ℕ_discrete, ◌⊎◌, inl, inr, ◌↔◌, Bool, true, false, not, ◌&&◌, ◌||◌, Option, none, some,
  List, [], ◌∷◌, ◌++◌, append-nil, append_assoc, map, Ptr, null, ◌==◌, if◌then◌else◌, ltb, leb,
  length, set, get_elem?, get_or, head_or, last_or, replicate, assign, assign_self, assign_ne,
  length-append, length-set, lt→ltb, ==_of_ne, ==_self, ==→eq, ==_false→ne, le→ltb_false,
  Bool-cases, Option-cases, tests, load, store, load-ok, store-ok, mem, ◌∈◌, ◌∉◌, Distinct, IsChain,
  mem-append, Distinct-remove, map-assign, map-snoc, apart_sym, not_mem_snoc, snoc_apart, mem-last,
  mem-head, ne_of_mem, ne_null_of_mem, IsChain-frame, IsChain-assign, head_or-append,
  last_or-append, IsChain-append, IsChain-left, IsChain-right, IsChain-last, IsChain-assign_last,
  Distinct-left, Distinct-right, Distinct-append, Distinct-apart,
}
use lpel.Base.Run.{out_of_fuel, Run, ok, assert_failed, fault, ◌>>=◌, ◌>>◌, assert, access, map_run}
use lpel.Base.Int.{int32, ℤ, pos, negsuc, pos_part, neg_part}
use lpel.Base.Int.{◌+ℤ◌, ◌-ℤ◌, ltb_ℤ}
use lpel.Hierarchy.Taskqueue.{is_zero}
use lpel.Hierarchy.Priority.{PrioConf, PrioType, static_prio, dynamic_prio, is_minus_one, Double}

-- `lpel_taskstate_t`
pub data TaskState : Type 0 where
  created : TaskState
  running : TaskState
  ready : TaskState
  blocked : TaskState
  mutex : TaskState
  zombie : TaskState
  inqueue : TaskState
  returned : TaskState

abbrev pub state_code : TaskState → ℕ
state_code created = 0
state_code running = 1
state_code ready = 2
state_code blocked = 3
state_code mutex = 4
state_code zombie = 5
state_code inqueue = 6
state_code returned = 7

abbrev pub is_state : TaskState → TaskState → Bool
is_state a b = state_code a == state_code b

-- `lpel_stream_type`
pub data StreamType : Type 0 where
  entry : StreamType
  exit : StreamType
  middle : StreamType

-- `'i'` and `'o'`, and the modes `'r'` and `'w'`.
pub data Direction : Type 0 where
  input : Direction
  output : Direction

-- The fields of `lpel_task_t` and `sched_task_t`, of the stream descriptors and of the streams that
-- are read or written here. A list of `stream_elem_t`, which only its task reaches, is the list of
-- its descriptors. The counters of a stream are `int` and wrap around.
pub record Tasks (D : Type 0) : Type 0 where
  pub state : Ptr → TaskState
  pub worker_context : Ptr → Ptr
  pub rec_cnt : Ptr → ℤ
  pub rec_limit_factor : Ptr → ℤ
  pub rec_limit : Ptr → ℤ
  pub rts_prio : Ptr → Ptr
  pub prio : Ptr → D
  pub valid : Ptr → ℤ
  pub in_streams : Ptr → List Ptr
  pub out_streams : Ptr → List Ptr
  pub task_of : Ptr → Ptr
  pub stream_of : Ptr → Ptr
  pub prod_sd : Ptr → Ptr
  pub cons_sd : Ptr → Ptr
  pub stream_type : Ptr → StreamType
  pub read_cnt : Ptr → ℕ
  pub write_cnt : Ptr → ℕ

-- The `int` that 32 bits stand for.
abbrev pub to_int : ℕ → ℤ
to_int w = if ltb w (2 ^ 31) then pos w else negsuc (2 ^ 32 - 1 - w)

-- An input stream that is an entry, or an output stream that is an exit.
abbrev pub is_boundary : Direction → StreamType → Bool
is_boundary input entry = true
is_boundary output exit = true
is_boundary _ _ = false

abbrev pub is_empty : List Ptr → Bool
is_empty [] = true
is_empty (x ∷ xs) = false

-- The search and the unlinking in `LpelTaskRemoveStream`; the assertion fails at the end of the
-- list.
unfoldable pub remove_elem : Ptr → List Ptr → Run (List Ptr)
remove_elem des [] = assert_failed
remove_elem des (head ∷ list) =
    let rest = remove_elem des list in if head == des then ok list else map_run (λ l. head ∷ l) rest

module _ {D : Type 0} where
  -- `LpelStreamFillLevel`
  unfoldable pub fill_level : Tasks D → Ptr → ℤ
  fill_level m s =
      if s == null then pos 0 else to_int ((m.write_cnt s + (2 ^ 32 - m.read_cnt s)) % 2 ^ 32)

  -- `LpelStreamConsumer`
  abbrev pub consumer : Tasks D → Ptr → Ptr
  consumer m s =
      if s == null then null else if m.cons_sd s == null then null else m.task_of (m.cons_sd s)

  -- `LpelStreamProducer`
  abbrev pub producer : Tasks D → Ptr → Ptr
  producer m s =
      if s == null then null else if m.prod_sd s == null then null else m.task_of (m.prod_sd s)

  -- One turn of the loop of `countRec`, on `flag` and `cnt`.
  unfoldable pub count_one : Tasks D → Direction → Ptr → Bool × ℤ → Bool × ℤ
  count_one m dir sd (flag, cnt) =
      let s = m.stream_of sd in
      if s == null
      then (flag, cnt)
      else if is_boundary dir (m.stream_type s)
      then (true, cnt)
      else (flag, int32 (cnt +ℤ fill_level m s))

  unfoldable pub count_from : Tasks D → Direction → List Ptr → Bool × ℤ → Bool × ℤ
  unfolding count_one
  count_from m dir [] acc = acc
  count_from m dir (sd ∷ list) acc = count_from m dir list (count_one m dir sd acc)

  -- `countRec`
  unfoldable pub count_rec : Tasks D → List Ptr → Direction → ℤ
  unfolding count_from
  count_rec m [] dir = negsuc 0
  count_rec m (sd ∷ list) dir =
      let (flag, cnt) = count_from m dir (sd ∷ list) (false, pos 0) in
      if flag && is_zero cnt then negsuc 0 else cnt

  -- `LpelTaskInitPriority`
  unfoldable pub init_priority : Double D → PrioConf D → D
  init_priority d c = elim c.prio_type [
    | static_prio ↦ elim c.prio_func [ none ↦ d.of_int (pos 1) | some f ↦ f (pos 0) (pos 0) ]
    | dynamic_prio ↦ d.dbl_max
  ]

  -- `LpelTaskUpdateValid`; it returns the `valid` field that it leaves.
  unfoldable pub update_valid : PrioConf D → Ptr → Tasks D → Tasks D
  unfolding count_rec
  update_valid c t m =
      let i = count_rec m (m.in_streams t) input in
      let o = count_rec m (m.out_streams t) output in
      if is_minus_one i && ltb_ℤ (pos 0) c.neg_demand_lim
      then if ltb_ℤ c.neg_demand_lim o
        then record m { valid = assign m.valid t (pos 0) }
        else record m { valid = assign m.valid t (pos 1) }
      else m

  -- `LpelTaskCalPriority`; a call of a `prio_func` that is NULL is a fault.
  unfoldable pub cal_priority : PrioConf D → Tasks D → Ptr → Run D
  unfolding count_rec
  cal_priority c m t = elim c.prio_type [
    | static_prio ↦ ok (m.prio t)
    | dynamic_prio ↦ access c.prio_func >>= λ f.
        ok (f (count_rec m (m.in_streams t) input) (count_rec m (m.out_streams t) output))
  ]

  -- `LpelTaskCreate`, what it sets of these fields for the new task `t`; `context` is the wrapper's
  -- context or NULL, and `rts` the copy of the client's priority or NULL.
  unfoldable pub create : Double D → PrioConf D → Ptr → Ptr → Ptr → Tasks D → Tasks D
  unfolding init_priority
  create d c t context rts m = record m {
    worker_context = assign m.worker_context t context;
    state = assign m.state t created;
    rts_prio = assign m.rts_prio t rts;
    prio = assign m.prio t (init_priority d c);
    rec_cnt = assign m.rec_cnt t (pos 0);
    rec_limit = assign m.rec_limit t (pos 0);
    rec_limit_factor = assign m.rec_limit_factor t (negsuc 0);
    in_streams = assign m.in_streams t [];
    out_streams = assign m.out_streams t [];
    valid = assign m.valid t (pos 1);
  }

  -- `LpelTaskDestroy`, its assertions on these fields.
  unfoldable pub destroy : Ptr → Tasks D → Run (Unit {0})
  destroy t m = do
    assert (is_state (m.state t) zombie)
    assert (is_empty (m.in_streams t))
    assert (is_empty (m.out_streams t))

  -- `LpelTaskSetRecLimit`
  abbrev pub set_rec_limit : Ptr → ℤ → Tasks D → Tasks D
  set_rec_limit t lim m = record m { rec_limit_factor = assign m.rec_limit_factor t lim }

  -- `LpelTaskSetPrior`
  abbrev pub set_prior : Ptr → D → Tasks D → Tasks D
  set_prior t p m = record m { prio = assign m.prio t p }

  -- `TaskStart`
  unfoldable pub task_start : Ptr → Tasks D → Run (Tasks D)
  task_start t m = do
    assert (is_state (m.state t) ready)
    ok (record m { rec_cnt = assign m.rec_cnt t (pos 0); state = assign m.state t running })

  -- What `LpelTaskYield`, `LpelTaskBlockStream` and `LpelTaskExit` do before they leave the task: the
  -- new state is `ready`, `blocked` or `zombie`.
  unfoldable pub leave_running : TaskState → Ptr → Tasks D → Run (Tasks D)
  leave_running state t m = do
    assert (is_state (m.state t) running)
    ok (record m { state = assign m.state t state })

  -- `rec_cnt++` on `int`
  abbrev pub count_record : Ptr → Tasks D → Tasks D
  count_record t m = record m { rec_cnt = assign m.rec_cnt t (int32 (m.rec_cnt t +ℤ pos 1)) }

  -- `LpelTaskCheckYield` up to its call of `LpelWorkerTaskYield`, if it is made (`true`), or else to
  -- its end.
  unfoldable pub check_yield : Ptr → Tasks D → Run (Bool × Tasks D)
  check_yield t m =
      assert (is_state (m.state t) running)
      >> (if ltb_ℤ (m.rec_limit t) (pos 0)
          then ok (false, m)
          else if is_zero (m.rec_cnt t -ℤ m.rec_limit t)
          then ok (true, record m { state = assign m.state t ready })
          else ok (false, count_record t m))

  -- The rest of `LpelTaskCheckYield`, when the task runs again.
  unfoldable pub after_yield : Ptr → Tasks D → Run (Tasks D)
  unfolding task_start
  after_yield t m = map_run (count_record t) (task_start t m)

  -- `LpelTaskAddStream`
  unfoldable pub add_stream : Ptr → Ptr → Direction → Tasks D → Tasks D
  add_stream t des input m = record m { in_streams = assign m.in_streams t (des ∷ m.in_streams t) }
  add_stream t des output m = record m {
    rec_limit = assign m.rec_limit t (m.rec_limit t +ℤ m.rec_limit_factor t);
    out_streams = assign m.out_streams t (des ∷ m.out_streams t);
  }

  -- `LpelTaskRemoveStream`
  unfoldable pub remove_stream : Ptr → Ptr → Direction → Tasks D → Run (Tasks D)
  unfolding remove_elem
  remove_stream t des input m = do
    list ← remove_elem des (m.in_streams t)
    ok (record m { in_streams = assign m.in_streams t list })
  remove_stream t des output m = do
    list ← remove_elem des (m.out_streams t)
    ok (record m {
      rec_limit = assign m.rec_limit t (m.rec_limit t -ℤ m.rec_limit_factor t);
      out_streams = assign m.out_streams t list;
    })
