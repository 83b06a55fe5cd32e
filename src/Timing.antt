-- ===== src/Timing.antt =====
-- src/timing.c: arithmetic on seconds and nanoseconds. `time_t` and `long` are integers here: the
-- code has no check for overflow, and its values stay far from the bounds. The clock is the
-- argument `now`.
pub mod Laws
mod Tests
use lpel.Base.{
  ℕ, zero, suc, ◌+◌, ◌-◌, ◌*◌, ◌/◌, ◌%◌, ◌^◌, ◌<◌, ◌≤◌, ◌≡◌, ◌≢◌, refl, ap, sym, subst, ◌∙◌, arith,
  dec_lt, ℕ_discrete, ◌⊎◌, inl, inr, ◌↔◌, Bool, true, false, not, ◌&&◌, ◌||◌, Option, none, some,
  List, [], ◌∷◌, ◌++◌, append-nil, append_assoc, map, Ptr, null, ◌==◌, if◌then◌else◌, ltb, leb,
  length, set, get_elem?, get_or, head_or, last_or, replicate, assign, assign_self, assign_ne,
  length-append, length-set, lt→ltb, ==_of_ne, ==_self, ==→eq, ==_false→ne, le→ltb_false,
  Bool-cases, Option-cases, tests, load, store, load-ok, store-ok, mem, ◌∈◌, ◌∉◌, Distinct, IsChain,
  mem-append, apart_sym, not_mem_snoc, snoc_apart, mem-last, mem-head, ne_of_mem, ne_null_of_mem,
  IsChain-frame, IsChain-assign, head_or-append, last_or-append, IsChain-append, IsChain-left,
  IsChain-right, IsChain-last, IsChain-assign_last, Distinct-left, Distinct-right, Distinct-append,
  Distinct-apart,
}
use lpel.Base.Run.{out_of_fuel, Run, ok, assert_failed, fault, ◌>>=◌, ◌>>◌, assert, access, map_run}
use lpel.Base.Int.{ℤ, pos, negsuc, pos_part, neg_part}
use lpel.Base.Int.{◌+ℤ◌, ◌-ℤ◌, ltb_ℤ}

-- `lpel_timing_t`
pub record Time : Type 0 where
  pub tv_sec : ℤ
  pub tv_nsec : ℤ

-- `TIMING_BILLION`
abbrev pub timing_billion : ℤ
timing_billion = pos 1000000000

-- `LpelTimingNow`, `LpelTimingStart`
abbrev pub start : Time → Time
start now = now

-- `LpelTimingEnd`: the time since `t`.
unfoldable pub end : Time → Time → Time
end now t =
    let borrow = ltb_ℤ now.tv_nsec t.tv_nsec in
    let start_nsec = if borrow then (t.tv_nsec -ℤ timing_billion) else t.tv_nsec in
    let start_sec = if borrow then (t.tv_sec +ℤ pos 1) else t.tv_sec in
    record { tv_sec = now.tv_sec -ℤ start_sec; tv_nsec = now.tv_nsec -ℤ start_nsec }

-- `LpelTimingAdd`
unfoldable pub add : Time → Time → Time
add t val =
    let sec = t.tv_sec +ℤ val.tv_sec in
    let nsec = t.tv_nsec +ℤ val.tv_nsec in
    if ltb_ℤ timing_billion nsec
    then record { tv_sec = sec +ℤ pos 1; tv_nsec = nsec -ℤ timing_billion }
    else record { tv_sec = sec; tv_nsec = nsec }

-- `LpelTimingDiff`
unfoldable pub diff : Time → Time → Time
diff start end =
    let res =
      if ltb_ℤ end.tv_nsec start.tv_nsec
      then record { tv_sec = start.tv_sec +ℤ pos 1; tv_nsec = start.tv_nsec -ℤ timing_billion }
      else start in
    record { tv_sec = end.tv_sec -ℤ res.tv_sec; tv_nsec = end.tv_nsec -ℤ res.tv_nsec }

-- `LpelTimingZero`
abbrev pub zero_time : Time
zero_time = record { tv_sec = pos 0; tv_nsec = pos 0 }

abbrev pub eqb_ℤ : ℤ → ℤ → Bool
eqb_ℤ (pos m) (pos n) = m == n
eqb_ℤ (negsuc m) (negsuc n) = m == n
eqb_ℤ (pos m) (negsuc n) = false
eqb_ℤ (negsuc m) (pos n) = false

-- `LpelTimingEquals`
unfoldable pub equals : Time → Time → Bool
equals t1 t2 = eqb_ℤ t1.tv_sec t2.tv_sec && eqb_ℤ t1.tv_nsec t2.tv_nsec
