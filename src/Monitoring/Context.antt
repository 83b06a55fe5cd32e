-- ===== src/Monitoring/Context.antt =====
-- modimpl/monitoring.c: the callbacks of workers and tasks.
use lpel.Base.{
  ◌+◌, ◌%◌, ◌^◌, ℕ, Bool, not, ◌&&◌, ◌||◌, List, [], ◌∷◌, ◌++◌, Ptr, null, ◌==◌, if◌then◌else◌,
  assign,
}
use lpel.Base.Run.{Run, ok, ◌>>=◌, ◌>>◌, assert}
use lpel.Base.Int.{ℤ, pos, negsuc}
use lpel.Timing.{Time, diff, add, end, zero_time}
use lpel.Hierarchy.Task.{
  TaskState, created, running, ready, blocked, mutex, zombie, inqueue, returned, is_state,
}
use lpel.Monitoring.{
  Piece, letter, number, Monitor, MonFlags, dirty_end, print, free, print_timing, print_norm_ts,
  print_dirty_list,
}

-- `END_LOG_ENTRY`, `WORKER_START_EVENT`, `WORKER_END_EVENT` and `WORKER_WAIT_EVENT`
abbrev pub end_entry : Piece
end_entry = letter b'#'

abbrev pub worker_start : Piece
worker_start = letter b'S'

abbrev pub worker_end : Piece
worker_end = letter b'E'

abbrev pub worker_wait : Piece
worker_wait = letter b'W'

-- A statement under `if`, and `m` as it is without it.
abbrev pub when : Bool → Run Monitor → Monitor → Run Monitor
when b r m = if b then r else ok m

-- `MonCbWorkerCreate`: `mon` is the new object, `file` what fopen returned, and `version` the line
-- LOG_FORMAT_VERSION.
unfoldable pub worker_create : List Piece → Time → Ptr → Ptr → ℤ → Monitor → Run Monitor
unfolding print_norm_ts
worker_create version now mon file wid m =
    let f = m.mon_flags in
    let made : Monitor = print file (version ++ (end_entry ∷ [])) (record m {
      worker_flags = assign m.worker_flags mon f;
      wid = assign m.wid mon wid;
      outfile = assign m.outfile mon file;
      wait_current = assign m.wait_current mon zero_time;
      wait_cnt = assign m.wait_cnt mon 0;
      wait_time = assign m.wait_time mon zero_time;
    }) in
    let started =
      when ((f.mon_worker && f.mon_time) || f.mon_load) (print_norm_ts now file made) made >>= λ m'.
      ok (
        if f.mon_worker || f.mon_load then print file (worker_start ∷ end_entry ∷ []) m' else m') in
    assert (not (file == null)) >> started

-- `MonCbWrapperCreate`: `wait_cnt` and `wait_time` are left as malloc returned them.
unfoldable pub wrapper_create : Time → Ptr → Ptr → Monitor → Run Monitor
unfolding print_norm_ts
wrapper_create now mon file m =
    let f = m.mon_flags in
    let made : Monitor = record m {
      worker_flags = assign m.worker_flags mon f;
      wid = assign m.wid mon (negsuc 0);
      outfile = assign m.outfile mon file;
      wait_current = assign m.wait_current mon zero_time;
    } in
    let started = when f.mon_time (print_norm_ts now file made) made >>= λ m'.
    ok (print file (worker_start ∷ end_entry ∷ []) m') in
    assert (not (file == null)) >> when f.mon_worker started made

-- `printStatistic`
unfoldable pub print_statistic : Ptr → Monitor → Run Monitor
unfolding print_timing
print_statistic mon m =
    let file = m.outfile mon in
    print_timing (m.wait_time mon) file (
      print file
        (letter b'W' ∷ letter b'C' ∷ number (pos (m.wait_cnt mon)) ∷ letter b'W' ∷ letter b'T' ∷ [])
        m)

-- `MonCbWorkerDestroy`; the file is closed.
unfoldable pub worker_destroy : Time → Ptr → Monitor → Run Monitor
unfolding print_norm_ts print_statistic
worker_destroy now mon m =
    let f = m.worker_flags mon in
    let file = m.outfile mon in
    when ((f.mon_worker && f.mon_time) || f.mon_load) (print_norm_ts now file m) m >>= λ m1.
    let ended = print file (worker_end ∷ end_entry ∷ []) m1 in
    when (f.mon_worker || f.mon_load) (when f.mon_load (print_statistic mon ended) ended) m1
    >>= λ m2. ok (free mon m2)

-- `MonCbWorkerWaitStart`
unfoldable pub wait_start : Time → Ptr → Monitor → Monitor
wait_start now mon m =
    let m1 : Monitor = record m { wait_current = assign m.wait_current mon now } in
    if (m.worker_flags mon).mon_load
    then record m1 { wait_cnt = assign m.wait_cnt mon ((m.wait_cnt mon + 1) % 2 ^ 32) }
    else m1

-- `MonCbWorkerWaitStop`; `ended` is the time that LpelTimingEnd reads, and `now` the next one.
unfoldable pub wait_stop : Time → Time → Ptr → Monitor → Run Monitor
unfolding print_norm_ts print_timing
wait_stop ended now mon m =
    let f = m.worker_flags mon in
    let file = m.outfile mon in
    let m1 : Monitor =
      if f.mon_worker || f.mon_load
      then record m { wait_current = assign m.wait_current mon (end ended (m.wait_current mon)) }
      else m in
    let logged = when f.mon_time (print_norm_ts now file m1) m1 >>= λ m2.
    print_timing (m2.wait_current mon) file (print file (worker_wait ∷ []) m2) >>= λ m3.
    ok (print file (end_entry ∷ []) m3) in
    when f.mon_worker logged m1 >>= λ m4. ok (
      if f.mon_load
      then record m4 {
        wait_time = assign m4.wait_time mon (add (m4.wait_time mon) (m4.wait_current mon));
      }
      else m4)

-- `MonCbTaskDestroy`
unfoldable pub task_destroy : Ptr → Monitor → Run Monitor
task_destroy mt m = assert (not (mt == null)) >> ok (free mt m)

-- `MonCbTaskAssign`
unfoldable pub task_assign : Ptr → Ptr → Monitor → Run Monitor
task_assign mt worker m = assert (not (mt == null)) >> ok (record m { mw = assign m.mw mt worker })

-- `LpelMonTaskCreate`: `mt` is the new object, its name apart.
unfoldable pub mon_task_create : Time → Ptr → ℕ → Monitor → Monitor
mon_task_create now mt new_tid m = record m {
  mw = assign m.mw mt null;
  tid = assign m.tid mt new_tid;
  flags = assign m.flags mt m.mon_flags;
  dirty_list = assign m.dirty_list mt dirty_end;
  last_in_cnt = assign m.last_in_cnt mt 0;
  last_out_cnt = assign m.last_out_cnt mt 0;
  blockon = assign m.blockon mt 0;
  start = assign m.start mt zero_time;
  stop = assign m.stop mt zero_time;
  creat =
      assign m.creat mt (if m.mon_flags.mon_time then diff m.monitoring_begin now else zero_time);
}

-- `MonCbTaskStart`
unfoldable pub task_start : Time → Ptr → Monitor → Run Monitor
task_start now mt m =
    assert (not (mt == null))
    >> ok (record m {
      start = if (m.flags mt).mon_time then assign m.start mt now else m.start;
      blockon = assign m.blockon mt b'A';
    })

-- The character of a task's state, `TASK_CREATED` and so on.
abbrev pub state_letter : TaskState → ℕ
state_letter created = b'C'
state_letter running = b'U'
state_letter ready = b'R'
state_letter blocked = b'B'
state_letter mutex = b'X'
state_letter zombie = b'Z'
state_letter inqueue = b'Q'
state_letter returned = b'T'

-- The time that `MonCbTaskStop` takes and prints first.
unfoldable pub stop_time : Time → Ptr → Monitor → Run Monitor
unfolding print_norm_ts
stop_time now mt m =
    when (m.flags mt).mon_time
      (print_norm_ts now (m.outfile (m.mw mt)) (record m { stop = assign m.stop mt now })) m

-- The times in the entry of `MonCbTaskStop`.
unfoldable pub task_times : TaskState → Ptr → Monitor → Run Monitor
unfolding print_timing
task_times state mt m =
    let file = m.outfile (m.mw mt) in
    print_timing (diff (m.start mt) (m.stop mt)) file m >>= λ m1.
    let m2 = print file (letter b' ' ∷ []) m1 in
    when (is_state state zombie)
      (print_timing (m2.creat mt) file m2 >>= λ m3. ok (print file (letter b' ' ∷ []) m3)) m2

-- `MonCbTaskStop`
unfoldable pub task_stop : ℕ → Time → Ptr → TaskState → Monitor → Run Monitor
unfolding stop_time task_times print_dirty_list
task_stop fuel now mt state m =
    let file = m.outfile (m.mw mt) in
    let f = m.flags mt in
    let logged = stop_time now mt m >>= λ m1.
    let m2 =
      print file
        (letter (if is_state state blocked then m1.blockon mt else state_letter state)
          ∷ number (pos (m1.tid mt))
          ∷ letter b' '
          ∷ [])
        m1 in
    when f.mon_time (task_times state mt m2) m2 >>= λ m3.
    when f.mon_stream (print_dirty_list fuel mt m3) m3 >>= λ m4.
    ok (print file (end_entry ∷ []) m4) in
    if m.mw mt == null then ok m else logged

-- `LpelMonInit`; the callbacks are the operations of this model.
unfoldable pub mon_init : Time → MonFlags → Monitor → Monitor
mon_init now f m = record m { mon_flags = f; monitoring_begin = now }
