-- ===== src/Hierarchy/Static.antt =====
-- src/sched/hierarchy/static_taskqueue.c, for tasks whose priority never changes: a list of tasks,
-- doubly linked through the tasks, with the highest priority first. `at_least t u` is
-- `comparePrior(t, u) >= 0`, over priorities of type `double`, and `valid` is LpelTaskUpdateValid.
pub mod Insert
pub mod Pop
mod Tests
use lpel.Base.{
  ℕ, zero, suc, ◌+◌, ◌-◌, ◌*◌, ◌/◌, ◌%◌, ◌^◌, ◌<◌, ◌≤◌, ◌≡◌, ◌≢◌, refl, ap, sym, subst, ◌∙◌, arith,
  dec_lt, ℕ_discrete, ◌⊎◌, inl, inr, ◌↔◌, Bool, true, false, not, ◌&&◌, ◌||◌, Option, none, some,
  List, [], ◌∷◌, ◌++◌, append-nil, append_assoc, map, Ptr, null, ◌==◌, if◌then◌else◌, ltb, leb,
  length, set, get_elem?, get_or, head_or, last_or, replicate, assign, assign_self, assign_ne,
  assign_undo, assign-assign, fun_ext, length-append, length-set, lt→ltb, ==_of_ne, ==_self, ==→eq,
  ==_false→ne, le→ltb_false, Bool-cases, Option-cases, tests, load, store, load-ok, store-ok, mem,
  ◌∈◌, ◌∉◌, Distinct, IsChain, mem-append, Distinct-remove, map-assign, map-snoc, apart_sym,
  not_mem_snoc, snoc_apart, mem-last, mem-head, ne_of_mem, ne_null_of_mem, IsChain-frame,
  IsChain-assign, head_or-append, last_or-append, IsChain-append, IsChain-left, IsChain-right,
  IsChain-last, IsChain-assign_last, Distinct-left, Distinct-right, Distinct-append, Distinct-apart,
}
use lpel.Base.Run.{out_of_fuel, Run, ok, assert_failed, fault, ◌>>=◌, ◌>>◌, assert, access, map_run}
use lpel.Base.Int.{ℤ, pos, negsuc, pos_part, neg_part}
use lpel.Decen.Taskqueue.{Links, set_prev, set_next, assert_free}

-- `taskqueue_t`
pub record Queue : Type 0 where
  pub head : Ptr
  pub count : ℕ

-- `LpelTaskqueueInit`
unfoldable pub init : Queue
init = record { head = null; count = 0 }

-- `tq->count++` and `tq->count--` on `unsigned int`.
abbrev pub inc : ℕ → ℕ
inc n = (n + 1) % 2 ^ 32

abbrev pub dec : ℕ → ℕ
dec n = (n + (2 ^ 32 - 1)) % 2 ^ 32

module _ (at_least : Ptr → Ptr → Bool) where
  -- The loop of `LpelTaskqueuePush`, and the insertion at the end.
  unfoldable pub push_from : ℕ → Ptr → Ptr → Links → Run Links
  push_from zero t cur l = out_of_fuel
  push_from (suc fuel) t cur l = load l.next cur >>= λ n.
      let further = push_from fuel t n l in
      let between = set_prev n t l >>= λ l.
      set_next t n l >>= λ l. set_next cur t l >>= λ l. set_prev t cur l in
      let last = set_next cur t l >>= λ l. set_prev t cur l in
      if n == null then last else if at_least t n then between else further

  -- `LpelTaskqueuePush`
  unfoldable pub push : ℕ → Ptr → Links → Queue → Run (Links × Queue)
  unfolding push_from
  push fuel t l q =
      let c = inc q.count in
      let front = set_prev q.head t l >>= λ l.
      set_next t q.head l >>= λ l. ok (l, record { head = t; count = c }) in
      let behind = push_from fuel t q.head l >>= λ l. ok (l, record { head = q.head; count = c }) in
      assert_free t l
      >> (if q.head == null
          then ok (l, record { head = t; count = c })
          else if at_least t q.head
          then front
          else behind)

-- `LpelTaskqueuePop`
unfoldable pub pop : Links → Queue → Run (Ptr × Links × Queue)
pop l q =
    let c = dec q.count in
    let taken = load l.next q.head >>= λ n.
    let first = if n == null then ok l else set_prev n null l in
    first >>= λ l. set_next q.head null l >>= λ l. ok (q.head, l, record { head = n; count = c }) in
    if q.head == null then ok (null, l, record { head = null; count = c }) else taken

-- `LpelTaskqueueOccupyTask`
unfoldable pub occupy : Ptr → Links → Queue → Run (Links × Queue)
occupy t l q =
    let c = dec q.count in
    load l.prev t >>= λ prev. load l.next t >>= λ next.
    let first = if next == null then ok l else set_prev next null l in
    let from_head =
      first >>= λ l. set_next t null l >>= λ l. ok (l, record { head = next; count = c }) in
    let joined =
      set_next prev next l >>= λ l. (if next == null then ok l else set_prev next prev l) in
    let from_inside = joined >>= λ l. set_next t null l >>= λ l.
    set_prev t null l >>= λ l. ok (l, record { head = q.head; count = c }) in
    assert (not (next == null) || (not (prev == null) || not (q.head == null)))
    >> (if prev == null then from_head else from_inside)

-- `LpelTaskqueuePeek`, from `t` on: the first valid task, or NULL.
unfoldable pub peek_from : (Ptr → Bool) → ℕ → Ptr → Links → Run Ptr
peek_from valid zero t l = if t == null then ok null else out_of_fuel
peek_from valid (suc fuel) t l =
    let further = load l.next t >>= λ n. peek_from valid fuel n l in
    if t == null then ok null else if valid t then ok t else further

unfoldable pub peek : (Ptr → Bool) → ℕ → Links → Queue → Run Ptr
unfolding peek_from
peek valid fuel l q = peek_from valid fuel q.head l

-- `LpelTaskqueueDestroy`
unfoldable pub destroy : Queue → Run (Unit {0})
destroy q = assert ((q.head == null) && (q.count == 0))

-- `LpelTaskqueueSize`
abbrev pub size : Queue → ℕ
size q = q.count

-- `LpelTaskqueueUpdatePriority` is `assert(0)`.
abbrev pub update_priority : Run (Unit {0})
update_priority = assert_failed
