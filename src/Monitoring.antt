-- ===== src/Monitoring.antt =====
-- modimpl/monitoring.c: the monitoring objects of workers, tasks and streams, and the log that the
-- callbacks write. A log file is the list of what was printed, a conversion of a format at a time.
-- The buffers of user events have no operation and are left out.
pub mod Dirty
pub mod Events
pub mod Report
pub mod Context
mod Tests
use lpel.Base.{
  ℕ, zero, suc, ◌+◌, ◌-◌, ◌%◌, ◌^◌, ◌≡◌, Bool, true, false, not, ◌&&◌, ◌||◌, List, [], ◌∷◌, ◌++◌,
  Ptr, null, ◌==◌, if◌then◌else◌, assign, arith,
}
use lpel.Base.Run.{Run, ok, out_of_fuel, assert_failed, ◌>>=◌, ◌>>◌, assert}
use lpel.Base.Int.{ℤ, pos, ltb_ℤ}
use lpel.Timing.{Time, timing_billion, diff, eqb_ℤ}

-- The state of a stream descriptor, `ST_INUSE` and so on.
pub data StreamState : Type 0 where
  in_use : StreamState
  opened : StreamState
  closed : StreamState
  replaced : StreamState

-- What one conversion of a format prints; `padded` is `%09lu`.
pub data Piece : Type 0 where
  letter : ℕ → Piece
  number : ℤ → Piece
  padded : ℤ → Piece
  status : StreamState → Piece

-- `LPEL_MON_TIME` and so on, the bits of `mon_flags`.
pub record MonFlags : Type 0 where
  pub mon_time : Bool
  pub mon_task : Bool
  pub mon_message : Bool
  pub mon_worker : Bool
  pub mon_stream : Bool
  pub mon_load : Bool

-- `strevt_flags`: `ST_MOVED`, `ST_WAKEUP` and `ST_BLOCKON`.
pub record StrevtFlags : Type 0 where
  pub st_moved : Bool
  pub st_wakeup : Bool
  pub st_blockon : Bool

abbrev pub no_events : StrevtFlags
no_events = record { st_moved = false; st_wakeup = false; st_blockon = false }

-- The fields of the objects `mon_stream_t`, `mon_task_t` and `mon_worker_t`, the log files, the freed
-- objects, and the variables of the module.
pub record Monitor : Type 0 where
  pub montask : Ptr → Ptr
  pub dirty : Ptr → Ptr
  pub mode : Ptr → ℕ
  pub state : Ptr → StreamState
  pub sid : Ptr → ℕ
  pub counter : Ptr → ℕ
  pub strevt_flags : Ptr → StrevtFlags
  pub mw : Ptr → Ptr
  pub tid : Ptr → ℕ
  pub flags : Ptr → MonFlags
  pub creat : Ptr → Time
  pub start : Ptr → Time
  pub stop : Ptr → Time
  pub dirty_list : Ptr → Ptr
  pub last_in_cnt : Ptr → ℕ
  pub last_out_cnt : Ptr → ℕ
  pub blockon : Ptr → ℕ
  pub wid : Ptr → ℤ
  pub outfile : Ptr → Ptr
  pub wait_current : Ptr → Time
  pub wait_cnt : Ptr → ℕ
  pub wait_time : Ptr → Time
  pub worker_flags : Ptr → MonFlags
  pub log : Ptr → List Piece
  pub freed : List Ptr
  pub mon_flags : MonFlags
  pub monitoring_begin : Time

-- `ST_DIRTY_END`
abbrev pub dirty_end : Ptr
dirty_end = 18446744073709551615

-- `fprintf( file, ...)`
abbrev pub print : Ptr → List Piece → Monitor → Monitor
print file ps m = record m { log = assign m.log file (m.log file ++ ps) }

-- `free( p)`
abbrev pub free : Ptr → Monitor → Monitor
free p m = record m { freed = m.freed ++ (p ∷ []) }

-- The nanoseconds of a normal time: `0 <= tv_nsec && tv_nsec < 1000000000`.
abbrev pub nanos_in_range : Time → Bool
nanos_in_range t = not (ltb_ℤ t.tv_nsec (pos 0)) && ltb_ℤ t.tv_nsec timing_billion

-- `PrintTimingNs`
unfoldable pub print_timing : Time → Ptr → Monitor → Run Monitor
print_timing t file m =
    let long =
      assert (nanos_in_range t)
      >> ok (print file (number t.tv_sec ∷ padded t.tv_nsec ∷ letter b' ' ∷ []) m) in
    if eqb_ℤ t.tv_sec (pos 0) then ok (print file (number t.tv_nsec ∷ letter b' ' ∷ []) m) else long

-- `PrintNormTSns`: the time since the start of monitoring.
unfoldable pub print_norm_ts : Time → Ptr → Monitor → Run Monitor
print_norm_ts t file m =
    let norm_ts = diff m.monitoring_begin t in
    assert (nanos_in_range norm_ts)
    >> ok (
        print file (number norm_ts.tv_sec ∷ letter b'.' ∷ padded norm_ts.tv_nsec ∷ letter b' ' ∷ [])
          m)

-- The link of `MarkDirty`: the object goes to the front of its task's list, if it is not dirty.
unfoldable pub link_dirty : Ptr → Monitor → Monitor
link_dirty ms m =
    let mt = m.montask ms in
    if m.dirty ms == null
    then record m {
      dirty = assign m.dirty ms (m.dirty_list mt);
      dirty_list = assign m.dirty_list mt ms;
    }
    else m

-- `MarkDirty`
unfoldable pub mark_dirty : Ptr → Monitor → Run Monitor
unfolding link_dirty
mark_dirty ms m0 =
    let m = link_dirty ms m0 in
    let mt = m.montask ms in
    if m.mode ms == b'r'
    then ok (record m { last_in_cnt = assign m.last_in_cnt mt (m.counter ms) })
    else if m.mode ms == b'w'
    then ok (record m { last_out_cnt = assign m.last_out_cnt mt (m.counter ms) })
    else assert_failed

abbrev pub sign : Bool → ℕ → Piece
sign b c = letter (if b then c else b'-')

-- What `PrintDirtyList` prints of one stream.
unfoldable pub entry : Ptr → Monitor → List Piece
entry ms m =
    number (pos (m.sid ms))
    ∷ letter (m.mode ms)
    ∷ status (m.state ms)
    ∷ number (pos (m.counter ms))
    ∷ sign (m.strevt_flags ms).st_blockon b'?'
    ∷ sign (m.strevt_flags ms).st_wakeup b'!'
    ∷ sign (m.strevt_flags ms).st_moved b'*'
    ∷ []

-- The end of a turn of `PrintDirtyList`: the states of an object that stays, or its release.
unfoldable pub keep_stream : Ptr → Monitor → Monitor
keep_stream ms m = record m {
  state = assign m.state ms in_use;
  dirty = assign m.dirty ms null;
  strevt_flags = assign m.strevt_flags ms no_events;
}

unfoldable pub renew : StreamState → Ptr → Monitor → Monitor
unfolding keep_stream
renew opened ms m = keep_stream ms m
renew replaced ms m = keep_stream ms m
renew in_use ms m = keep_stream ms m
renew closed ms m = free ms m

-- The loop of `PrintDirtyList`, from `ms` on.
unfoldable pub print_dirty_from : ℕ → Ptr → Ptr → Ptr → Monitor → Run Monitor
unfolding entry renew
print_dirty_from zero file mt ms m = if ms == dirty_end then ok m else out_of_fuel
print_dirty_from (suc fuel) file mt ms m =
    let printed = print file (entry ms m) m in
    let cleared = record printed { counter = assign m.counter ms 0 } in
    let rest = print_dirty_from fuel file mt (m.dirty ms) (renew (m.state ms) ms cleared) in
    let turn = assert (m.montask ms == mt) >> rest in if ms == dirty_end then ok m else turn

-- `PrintDirtyList`
unfoldable pub print_dirty_list : ℕ → Ptr → Monitor → Run Monitor
unfolding print_dirty_from
print_dirty_list fuel mt m =
    print_dirty_from fuel (m.outfile (m.mw mt)) mt (m.dirty_list mt) m >>= λ m'.
    ok (record m' { dirty_list = assign m'.dirty_list mt dirty_end })

-- `MonCbStreamOpen`: `ms` is the new object, and the result is it or NULL.
unfoldable pub stream_open : Ptr → Ptr → ℕ → ℕ → Monitor → Run (Ptr × Monitor)
unfolding mark_dirty
stream_open ms mt new_sid new_mode m =
    let made : Monitor = record m {
      sid = assign m.sid ms new_sid;
      montask = assign m.montask ms mt;
      mode = assign m.mode ms new_mode;
      state = assign m.state ms opened;
      counter = assign m.counter ms 0;
      strevt_flags = assign m.strevt_flags ms no_events;
      dirty = assign m.dirty ms null;
    } in
    let monitored = mark_dirty ms made >>= λ m'. ok (ms, m') in
    if (mt == null) || not ((m.flags mt).mon_stream || (m.flags mt).mon_task)
    then ok (null, m)
    else monitored

-- `MonCbStreamClose`
unfoldable pub stream_close : Ptr → Monitor → Run Monitor
unfolding mark_dirty
stream_close ms m =
    let closing = mark_dirty ms (record m { state = assign m.state ms closed }) in
    assert (not (ms == null)) >> closing

-- `MonCbStreamReplace`
unfoldable pub stream_replace : Ptr → ℕ → Monitor → Run Monitor
unfolding mark_dirty
stream_replace ms new_sid m =
    let replacing =
      mark_dirty ms
        (record m { state = assign m.state ms replaced; sid = assign m.sid ms new_sid }) in
    assert (not (ms == null)) >> replacing

-- `strevt_flags |= ST_MOVED`, `|= ST_BLOCKON` and `|= ST_WAKEUP`
abbrev pub set_moved : StrevtFlags → StrevtFlags
set_moved f = record f { st_moved = true }

abbrev pub set_blockon : StrevtFlags → StrevtFlags
set_blockon f = record f { st_blockon = true }

abbrev pub set_wakeup : StrevtFlags → StrevtFlags
set_wakeup f = record f { st_wakeup = true }

-- `MonCbStreamReadFinish`, and `MonCbStreamWriteFinish`, which has the same body.
unfoldable pub read_finish : Ptr → Monitor → Run Monitor
unfolding mark_dirty
read_finish ms m =
    let moving = mark_dirty ms (record m {
      counter = assign m.counter ms ((m.counter ms + 1) % 2 ^ 64);
      strevt_flags = assign m.strevt_flags ms (set_moved (m.strevt_flags ms));
    }) in
    assert (not (ms == null)) >> moving

unfoldable pub write_finish : Ptr → Monitor → Run Monitor
unfolding read_finish
write_finish ms m = read_finish ms m

-- `MonCbStreamBlockon`
unfoldable pub stream_blockon : Ptr → Monitor → Run Monitor
unfolding mark_dirty
stream_blockon ms m =
    let marked =
      mark_dirty ms
        (record m { strevt_flags = assign m.strevt_flags ms (set_blockon (m.strevt_flags ms)) }) in
    let tracked = marked >>= λ m'.
    let mt = m'.montask ms in
    if m'.mode ms == b'r'
    then ok (record m' { blockon = assign m'.blockon mt b'I' })
    else if m'.mode ms == b'w'
    then ok (record m' { blockon = assign m'.blockon mt b'O' })
    else assert_failed in
    assert (not (ms == null)) >> tracked

-- `MonCbStreamWakeup`
unfoldable pub stream_wakeup : Ptr → Monitor → Run Monitor
stream_wakeup ms m =
    assert (not (ms == null))
    >> ok (record m { strevt_flags = assign m.strevt_flags ms (set_wakeup (m.strevt_flags ms)) })
