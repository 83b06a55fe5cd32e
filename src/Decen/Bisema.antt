-- ===== src/Decen/Bisema.antt =====
-- src/sched/decentralised/sema.c: binary semaphores on which a task spins, and yields now and then.
pub mod Exclusion
mod Tests
use lpel.Base.{
  ℕ, zero, suc, ◌+◌, ◌-◌, ◌*◌, ◌/◌, ◌%◌, ◌^◌, ◌<◌, ◌≤◌, ◌≡◌, ◌≢◌, refl, ap, sym, subst, ◌∙◌, arith,
  dec_lt, ℕ_discrete, ◌⊎◌, inl, inr, ◌↔◌, Bool, true, false, not, ◌&&◌, ◌||◌, Option, none, some,
  List, [], ◌∷◌, ◌++◌, append-nil, append_assoc, map, Ptr, null, ◌==◌, if◌then◌else◌, ltb, leb,
  length, set, get_elem?, get_or, head_or, last_or, replicate, assign, assign_self, assign_ne,
  length-append, length-set, lt→ltb, ==_of_ne, ==_self, ==→eq, ==_false→ne, le→ltb_false,
  Bool-cases, Option-cases, tests, load, store, load-ok, store-ok, mem, ◌∈◌, ◌∉◌, Distinct, IsChain,
  mem-append, Distinct-remove, map-assign, map-snoc, apart_sym, not_mem_snoc, snoc_apart, mem-last,
  mem-head, ne_of_mem, ne_null_of_mem, IsChain-frame, IsChain-assign, head_or-append,
  last_or-append, IsChain-append, IsChain-left, IsChain-right, IsChain-last, IsChain-assign_last,
  Distinct-left, Distinct-right, Distinct-append, Distinct-apart,
}
use lpel.Base.Run.{out_of_fuel, Run, ok, assert_failed, fault, ◌>>=◌, ◌>>◌, assert, access, map_run}
use lpel.Base.Int.{ℤ, pos, negsuc, pos_part, neg_part}
use lpel.Base.Int.{◌-ℤ◌, ltb_ℤ}

-- `lpel_bisema_t`
pub record Bisema : Type 0 where
  pub counter : ℕ

-- `LpelBiSemaInit`: `__sync_lock_release` writes 0.
unfoldable pub init : Bisema
init = record { counter = 0 }

-- The test of the loop in `LpelBiSemaWait`: `__sync_lock_test_and_set( &counter, 1)` writes 1, and
-- the loop goes on if there was 1.
unfoldable pub test_and_set : Bisema → Bool × Bisema
test_and_set sem = (sem.counter == 1, record { counter = 1 })

-- `LpelBiSemaSignal`
unfoldable pub signal : Bisema → Bisema
signal sem = record { counter = 0 }

-- `struct timeval`
pub record Timeval : Type 0 where
  pub tv_sec : ℤ
  pub tv_usec : ℤ

-- The local variables of `LpelBiSemaWait`.
pub record Waiter : Type 0 where
  pub looping : Bool
  pub start_tv : Timeval

abbrev is_nonzero : ℤ → Bool
is_nonzero (pos n) = not (n == 0)
is_nonzero (negsuc n) = true

-- `yeah`: more than roughly a millisecond has gone.
unfoldable pub elapsed : Timeval → Timeval → Bool
elapsed now start =
    if is_nonzero (now.tv_sec -ℤ start.tv_sec)
    then true
    else ltb_ℤ (pos 1000) (now.tv_usec -ℤ start.tv_usec)

-- The body of the loop at the time `now`; true if the task yields to the dispatcher.
unfoldable pub spin : Timeval → Waiter → Bool × Waiter
unfolding elapsed
spin now w =
    if not w.looping
    then (false, record { looping = true; start_tv = now })
    else if elapsed now w.start_tv
    then (true, record w { start_tv = now })
    else (false, w)

-- The tasks that are behind their `LpelBiSemaWait` and have not yet called `LpelBiSemaSignal`.
pub record Holding : Type 0 where
  pub sem : Bisema
  pub holders : List Ptr

-- One turn of a task's wait.
unfoldable pub wait_turn : Ptr → Holding → Holding
unfolding test_and_set
wait_turn t h =
    let (busy, sem) = test_and_set h.sem in
    record { sem = sem; holders = if busy then h.holders else t ∷ h.holders }

abbrev pub without : Ptr → List Ptr → List Ptr
without t [] = []
without t (x ∷ xs) = if x == t then xs else x ∷ without t xs

-- A holder's signal.
unfoldable pub leave : Ptr → Holding → Holding
unfolding signal
leave t h = record { sem = signal h.sem; holders = without t h.holders }

-- Tasks take turns; only a task that holds the semaphore signals it.
pub data Step (h k : Holding) : Type 0 where
  turn : (t : Ptr) → k ≡ wait_turn t h → Step h k
  release : (t : Ptr) → t ∈ h.holders → k ≡ leave t h → Step h k

pub data Reach (h : Holding) : Holding → Type 0 where
  here : Reach h h
  next : {k m : Holding} → Reach h k → Step k m → Reach h m
