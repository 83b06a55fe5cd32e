-- ===== src/Hierarchy/Task/Limit.antt =====
-- LpelTaskCheckYield of hrc_task.c: when a task yields.
use lpel.Base.{
  ap, ==_self, ◌-◌, ◌≢◌, ◌^◌, ℕ, zero, suc, ◌+◌, ◌<◌, ◌≤◌, ◌≡◌, refl, subst, ◌∙◌, arith, Bool, true,
  false, List, ◌∷◌, ◌++◌, Ptr, ◌==◌, if◌then◌else◌, assign, assign_self, ==_of_ne, ◌∉◌,
}
use lpel.Base.Run.{Run, ok, ◌>>=◌}
use lpel.Base.Int.{int32-pos, int32, pos}
use lpel.Base.Int.{◌+ℤ◌, ◌-ℤ◌, ltb_ℤ}
use lpel.Hierarchy.Taskqueue.{is_zero}
use lpel.Hierarchy.Task.{
  Tasks, running, ready, output, check_yield, after_yield, task_start, count_record, remove_stream,
}
use lpel.Hierarchy.Task.Open.{remove_elem-found}

same_is_zero : (n l : ℕ) → is_zero (pos n -ℤ pos l) ≡ (n == l)
unfolding ◌-ℤ◌
same_is_zero n l = ground arith

not_negative : (l : ℕ) → ltb_ℤ (pos l) (pos 0) ≡ false
not_negative l = ground arith

next_pos : (n : ℕ) → n + 1 < 2 ^ 31 → int32 (pos n +ℤ pos 1) ≡ pos (n + 1)
unfolding ◌+ℤ◌
next_pos n h =
    let sum : pos n +ℤ pos 1 ≡ pos (n + 1) = ground arith in ap int32 sum ∙ int32-pos (n + 1) h

module _ {D : Type 0} where
  -- The task `t` runs, has written `n` records since it was dispatched, and its limit is `l`.
  pub record Running (t n l : ℕ) (m : Tasks D) : Type 0 where
    pub state : m.state t ≡ running
    pub rec_cnt : m.rec_cnt t ≡ pos n
    pub rec_limit : m.rec_limit t ≡ pos l

  check_yield-run :
      (t n l : ℕ) (m : Tasks D)
      → Running t n l m
      → check_yield t m ≡ (
          if n == l
          then ok (true, record m { state = assign m.state t ready })
          else ok (false, count_record t m))
  unfolding check_yield
  check_yield-run t n l m r =
      rw (r.state, r.rec_limit, r.rec_cnt, not_negative l, same_is_zero n l) refl

  count_record-Running :
      (t n l : ℕ) (m : Tasks D)
      → n + 1 < 2 ^ 31
      → Running t n l m
      → Running t (n + 1) l (count_record t m)
  count_record-Running t n l m h r = record {
    state = r.state;
    rec_cnt = assign_self m.rec_cnt t (int32 (m.rec_cnt t +ℤ pos 1)) ∙ rw r.rec_cnt (next_pos n h);
    rec_limit = r.rec_limit;
  }

  after_yield-Running :
      (t n l : ℕ) (m : Tasks D)
      → Running t n l m
      → (m' : Tasks D) × (after_yield t (record m { state = assign m.state t ready }) ≡ ok m')
        × Running t 1 l m'
  unfolding after_yield task_start
  after_yield-Running t n l m r =
      let stopped : Tasks D = record m { state = assign m.state t ready } in
      let started : Tasks D = record stopped {
        rec_cnt = assign m.rec_cnt t (pos 0);
        state = assign stopped.state t running;
      } in
      let fresh : Running t 0 l started = record {
        state = assign_self stopped.state t running;
        rec_cnt = assign_self m.rec_cnt t (pos 0);
        rec_limit = r.rec_limit;
      } in
      (
        count_record t started,
        rw (assign_self m.state t ready) refl,
        count_record-Running t 0 l started (omega arith) fresh,
      )

  -- Calls of `LpelTaskCheckYield` after so many records, up to the first that yields (`true`).
  abbrev pub check_yields : ℕ → Ptr → Tasks D → Run (Bool × Tasks D)
  check_yields zero t m = ok (false, m)
  check_yields (suc k) t m = check_yield t m >>= λ (yields, m').
      let rest = check_yields k t m' in if yields then ok (true, m') else rest

  -- Calls that do not meet the limit count their records.
  check_yields-count :
      (k t n l : ℕ) (m : Tasks D)
      → Running t n l m
      → n + k < 2 ^ 31
      → ((i : ℕ) → i < k → n + i ≢ l)
      → (m' : Tasks D) × (check_yields k t m ≡ ok (false, m')) × Running t (n + k) l m'
  check_yields-count zero t n l m r h ne = (m, refl, subst (λ j. Running t j l m) (omega arith) r)
  check_yields-count (suc k) t n l m r h ne =
      let (m', e, r') =
        check_yields-count k t (n + 1) l (count_record t m)
          (count_record-Running t n l m (omega arith) r) (omega arith)
          (λ i f e. ne (suc i) (omega arith) (omega (arith, e))) in
      (
        m',
        rw (check_yield-run t n l m r, ==_of_ne n l (λ e. ne 0 (omega arith) (omega (arith, e))), e)
            refl,
        subst (λ j. Running t j l m') (omega arith) r',
      )

  -- A running task has counted `n` records since its dispatch, no more than its limit, which is below
  -- 2 ^ 31. The next `l - n` calls of LpelTaskCheckYield, for the rest up to the limit, go on and
  -- count; the call after them, with the count at the limit, yields; and when the task is dispatched
  -- again the count is 1. So a task yields at the record after its limit, not at the one that brings
  -- the count to it.
  pub check_yields-limit :
      (t n l : ℕ) (m : Tasks D)
      → Running t n l m
      → n ≤ l
      → l < 2 ^ 31
      → (m1 m2 m3 : Tasks D) × (check_yields (l - n) t m ≡ ok (false, m1))
        × Running t l l m1
        × (check_yield t m1 ≡ ok (true, m2))
        × (m2.state t ≡ ready)
        × (after_yield t m2 ≡ ok m3)
        × Running t 1 l m3
  check_yields-limit t n l m r h k =
      let (m1, e, c) =
        check_yields-count (l - n) t n l m r (omega arith) (λ i f. omega (arith, f)) in
      let r1 : Running t l l m1 = subst (λ j. Running t j l m1) (omega arith) c in
      let (m3, e3, r3) = after_yield-Running t l l m1 r1 in
      (
        m1,
        record m1 { state = assign m1.state t ready },
        m3,
        e,
        r1,
        check_yield-run t l l m1 r1 ∙ rw (==_self l) refl,
        assign_self m1.state t ready,
        e3,
        r3,
      )

  -- A running task that has written `n` records and closes an output stream, after which its limit
  -- is `l`, less than `n`, does not yield after any number of further records, as long as the count
  -- stays below 2 ^ 31.
  pub remove_stream_no_yield :
      (k t des n l : ℕ) (pre post : List Ptr) (m : Tasks D)
      → m.state t ≡ running
      → m.rec_cnt t ≡ pos n
      → m.rec_limit t -ℤ m.rec_limit_factor t ≡ pos l
      → m.out_streams t ≡ pre ++ (des ∷ post)
      → des ∉ pre
      → l < n
      → n + k < 2 ^ 31
      → (m' : Tasks D) × (remove_stream t des output m >>= (λ closed. check_yields k t closed)
          ≡ ok (false, m'))
        × (m'.rec_cnt t ≡ pos (n + k))
  unfolding remove_stream
  remove_stream_no_yield k t des n l pre post m es ec el eo out h small =
      let closed : Tasks D = record m {
        rec_limit = assign m.rec_limit t (m.rec_limit t -ℤ m.rec_limit_factor t);
        out_streams = assign m.out_streams t (pre ++ post);
      } in
      let r : Running t n l closed = record {
        state = es;
        rec_cnt = ec;
        rec_limit = assign_self m.rec_limit t (m.rec_limit t -ℤ m.rec_limit_factor t) ∙ el;
      } in
      let (m', e, r') = check_yields-count k t n l closed r small (λ i f. omega (arith, h)) in
      (m', rw (eo, remove_elem-found des pre post out) e, r'.rec_cnt)
