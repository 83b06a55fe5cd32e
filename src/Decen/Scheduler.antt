-- ===== src/Decen/Scheduler.antt =====
-- src/sched/decentralised/decen_scheduler.c: the ready tasks of a worker, a queue for each priority.
pub mod Ready
mod Tests
use lpel.Base.{
  ℕ, zero, suc, ◌+◌, ◌-◌, ◌*◌, ◌/◌, ◌%◌, ◌^◌, ◌<◌, ◌≤◌, ◌≡◌, ◌≢◌, refl, ap, sym, subst, ◌∙◌, arith,
  dec_lt, ℕ_discrete, ◌⊎◌, inl, inr, ◌↔◌, Bool, true, false, not, ◌&&◌, ◌||◌, Option, none, some,
  List, [], ◌∷◌, ◌++◌, append-nil, append_assoc, Ptr, null, ◌==◌, if◌then◌else◌, ltb, leb, length,
  set, get_elem?, get_or, head_or, last_or, replicate, assign, assign_self, assign_ne,
  length-append, length-set, lt→ltb, ==_of_ne, ==_self, ==→eq, ==_false→ne, le→ltb_false,
  Bool-cases, Option-cases, tests, load, store, load-ok, store-ok, mem, ◌∈◌, ◌∉◌, Distinct, IsChain,
  mem-append, mem-last, mem-head, ne_of_mem, ne_null_of_mem, IsChain-frame, IsChain-assign,
  head_or-append, last_or-append, IsChain-append, IsChain-left, IsChain-right, IsChain-last,
  IsChain-assign_last, Distinct-left, Distinct-right, Distinct-append, Distinct-apart,
}
use lpel.Base.Run.{out_of_fuel, Run, ok, assert_failed, fault, ◌>>=◌, ◌>>◌, assert, access, map_run}
use lpel.Base.Int.{ℤ, pos, negsuc, pos_part, neg_part}
use lpel.Decen.Taskqueue.{Links, Queue, init, push, pop, destroy}

-- `SCHED_NUM_PRIO`
abbrev pub sched_num_prio : ℕ
sched_num_prio = 2

-- `schedctx_t`
pub record Sched : Type 0 where
  pub queues : List Queue

-- `LpelSchedCreate`
unfoldable pub create : Sched
create = record { queues = replicate sched_num_prio init }

-- `LpelSchedDestroy`
destroy_from : List Queue → Run (Unit {0})
destroy_from [] = ok tt
destroy_from (q ∷ qs) = do assert (q.count == 0); destroy q; destroy_from qs

unfoldable pub destroy_all : Sched → Run (Unit {0})
unfolding destroy_from
destroy_all sc = destroy_from sc.queues

-- The queue of a priority: `if (prio < 0) prio = 0; if (prio >= SCHED_NUM_PRIO) ...`.
unfoldable pub queue_of : ℤ → ℕ
queue_of (negsuc n) = 0
queue_of (pos n) = if leb sched_num_prio n then sched_num_prio - 1 else n

-- `LpelSchedMakeReady`
unfoldable pub make_ready : ℤ → Ptr → Links → Sched → Run (Links × Sched)
unfolding queue_of
make_ready prio t l sc = do
  q ← access (get_elem? sc.queues (queue_of prio))
  (l', q') ← push t l q
  ok (l', record { queues = set sc.queues (queue_of prio) q' })

-- The loop of `LpelSchedFetchReady` over the queues below index `i`, from the last one down.
unfoldable pub fetch_from : ℕ → Links → Sched → Run (Ptr × Links × Sched)
fetch_from zero l sc = ok (null, l, sc)
fetch_from (suc i) l sc =
    let below = fetch_from i l sc in
    access (get_elem? sc.queues i) >>= λ q.
    if ltb 0 q.count
    then (pop l q >>= λ (t, l', q'). ok (t, l', record { queues = set sc.queues i q' }))
    else below

-- `LpelSchedFetchReady`
unfoldable pub fetch_ready : Links → Sched → Run (Ptr × Links × Sched)
unfolding fetch_from
fetch_ready l sc = fetch_from sched_num_prio l sc
