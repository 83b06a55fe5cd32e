-- ===== src/Hierarchy/Taskqueue.antt =====
-- src/sched/hierarchy/hrc_taskqueue.c: the ready tasks in a binary heap, the one of the highest
-- priority at index 1. Index 0 is not used, and `count` is one more than the number of tasks.
pub mod Total
pub mod Absent
pub mod Moved
pub mod Grow
mod Tests
use lpel.Base.{
  ℕ, zero, suc, ◌+◌, ◌-◌, ◌*◌, ◌/◌, ◌%◌, ◌^◌, ◌<◌, ◌≤◌, ◌≡◌, ◌≢◌, refl, ap, sym, subst, ◌∙◌, arith,
  dec_lt, ℕ_discrete, ◌⊎◌, inl, inr, ◌↔◌, Bool, true, false, not, ◌&&◌, ◌||◌, Option, none, some,
  List, [], ◌∷◌, ◌++◌, append-nil, append_assoc, map, Ptr, null, ◌==◌, if◌then◌else◌, ltb, leb,
  length, set, get_elem?, get_or, head_or, last_or, replicate, assign, assign_self, assign_ne,
  length-append, length-set, lt→ltb, ==_of_ne, ==_self, ==→eq, ==_false→ne, le→ltb_false,
  Bool-cases, Option-cases, tests, load, store, load-ok, store-ok, mem, ◌∈◌, ◌∉◌, Distinct, IsChain,
  mem-append, Distinct-remove, map-assign, map-snoc, apart_sym, not_mem_snoc, snoc_apart, mem-last,
  mem-head, ne_of_mem, ne_null_of_mem, IsChain-frame, IsChain-assign, head_or-append,
  last_or-append, IsChain-append, IsChain-left, IsChain-right, IsChain-last, IsChain-assign_last,
  Distinct-left, Distinct-right, Distinct-append, Distinct-apart,
}
use lpel.Base.Run.{out_of_fuel, Run, ok, assert_failed, fault, ◌>>=◌, ◌>>◌, assert, access, map_run}
use lpel.Base.Int.{ℤ, pos, negsuc, pos_part, neg_part}
use lpel.Base.Int.{◌-ℤ◌, ltb_ℤ}
use lpel.Base.Int.{◌-ℤ◌, ltb_ℤ}
use lpel.Decen.Buffer.{write_slot}

-- What the comparison reads of the tasks and of the configuration: the `valid` fields, the
-- difference of two `prio` fields cut to `int` (they are `double`), and the client's comparison with
-- the `rts_prio` fields.
pub record Prio : Type 0 where
  pub valid : Ptr → ℤ
  pub prio_difference : Ptr → Ptr → ℤ
  pub rts_prio_cmp : Option (Ptr → Ptr → ℤ)
  pub rts_prio : Ptr → Ptr

-- `taskqueue_t`; the slots are those that are allocated.
pub record Heap : Type 0 where
  pub slots : List Ptr
  pub count : ℕ

-- `BLOCKSIZE`
abbrev pub blocksize : ℕ
blocksize = 50

abbrev pub is_zero : ℤ → Bool
is_zero (pos n) = n == 0
is_zero (negsuc n) = false

-- `comparePrior`
unfoldable pub compare_prior : Prio → Ptr → Ptr → Run ℤ
compare_prior p t1 t2 =
    let valid = p.valid t1 -ℤ p.valid t2 in
    if not (is_zero valid)
    then ok valid
    else if is_zero (p.valid t1)
    then ok (pos 0)
    else elim p.rts_prio_cmp [
      | none ↦ ok (p.prio_difference t1 t2)
      | some cmp ↦ do
        assert (not (p.rts_prio t1 == null) && not (p.rts_prio t2 == null))
        ok (cmp (p.rts_prio t1) (p.rts_prio t2))
    ]

-- The loop of `upHeap` and its last assignment; `pos` halves at each turn.
unfoldable pub up_heap_from : Prio → Ptr → ℕ → List Ptr → ℕ → Run (List Ptr)
unfolding compare_prior
up_heap_from p t zero slots i = out_of_fuel
up_heap_from p t (suc fuel) slots i =
    let parent = i / 2 in
    if parent == 0
    then write_slot slots i t
    else (access (get_elem? slots parent) >>= λ x. compare_prior p t x >>= λ c.
        let up = write_slot slots i x >>= λ slots'. up_heap_from p t fuel slots' parent in
        if ltb_ℤ (pos 0) c then up else write_slot slots i t)

-- `upHeap`
unfoldable pub up_heap : Prio → List Ptr → ℕ → Run (List Ptr)
unfolding up_heap_from
up_heap p slots i = do t ← access (get_elem? slots i); up_heap_from p t (i + 1) slots i

-- `child++` if the right child is the greater.
unfoldable pub greater_child : Prio → List Ptr → ℕ → ℕ → Run ℕ
unfolding compare_prior
greater_child p slots count child =
    if ltb (child + 1) count
    then (do
      left ← access (get_elem? slots child)
      right ← access (get_elem? slots (child + 1))
      c ← compare_prior p left right
      ok (if ltb_ℤ c (pos 0) then child + 1 else child))
    else ok child

-- The loop of `downHeap` and its last assignment; `pos` at least doubles at each turn.
unfoldable pub down_heap_from : Prio → Ptr → ℕ → List Ptr → ℕ → ℕ → Run (List Ptr)
unfolding greater_child compare_prior
down_heap_from p t zero slots count i = out_of_fuel
down_heap_from p t (suc fuel) slots count i =
    if ltb (i * 2) count
    then (greater_child p slots count (i * 2) >>= λ child. access (get_elem? slots child) >>= λ x.
        compare_prior p t x >>= λ c.
        let down = write_slot slots i x >>= λ slots'. down_heap_from p t fuel slots' count child in
        if ltb_ℤ c (pos 0) then down else write_slot slots i t)
    else write_slot slots i t

-- `downHeap`
unfoldable pub down_heap : Prio → Heap → ℕ → Run Heap
unfolding down_heap_from
down_heap p q i = do
  t ← access (get_elem? q.slots i)
  slots ← down_heap_from p t (q.count + 1) q.slots q.count i
  ok (record q { slots = slots })

-- `LpelTaskqueueInit`; `memory` is what the `blocksize` new slots hold.
unfoldable pub init : List Ptr → Heap
init memory = record { slots = memory; count = 1 }

-- `LpelTaskqueuePush`; `memory` is what the `blocksize` slots of a reallocation hold.
unfoldable pub push : Prio → List Ptr → Ptr → Heap → Run Heap
unfolding up_heap
push p memory t q = do
  let grown = if leb (length q.slots) q.count then q.slots ++ memory else q.slots
  slots ← write_slot grown q.count t
  slots ← if is_zero (p.valid t -ℤ pos 1) then up_heap p slots q.count else ok slots
  ok (record { slots = slots; count = (q.count + 1) % 2 ^ 32 })

-- `LpelTaskqueuePeek`
unfoldable pub peek : Heap → Run Ptr
peek q = if q.count == 1 then ok null else access (get_elem? q.slots 1)

-- `removeHead`
unfoldable pub remove_head : Prio → Heap → Run Heap
unfolding down_heap
remove_head p q = do
  let count = (q.count + (2 ^ 32 - 1)) % 2 ^ 32
  last ← access (get_elem? q.slots count)
  slots ← write_slot q.slots 1 last
  down_heap p (record { slots = slots; count = count }) 1

-- `LpelTaskqueuePop`
unfoldable pub pop : Prio → Heap → Run (Ptr × Heap)
unfolding remove_head
pop p q =
    if q.count == 1
    then ok (null, q)
    else do t ← access (get_elem? q.slots 1); q' ← remove_head p q; ok (t, q')

-- `LpelTaskqueueSize`
abbrev pub size : Heap → ℕ
size q = q.count - 1

-- The loop of `searchItem` over the `n` slots from `i` on; `none` for -1.
unfoldable pub search_from : Ptr → List Ptr → ℕ → ℕ → Run (Option ℕ)
search_from t slots i zero = ok none
search_from t slots i (suc n) =
    let rest = search_from t slots (i + 1) n in
    access (get_elem? slots i) >>= λ x. if x == t then ok (some i) else rest

-- `searchItem`
unfoldable pub search_item : Heap → Ptr → Run (Option ℕ)
unfolding search_from
search_item q t = search_from t q.slots 1 (q.count - 1)

-- `LpelTaskqueueOccupyTask`
unfoldable pub occupy : Prio → Ptr → Heap → Run Heap
unfolding search_item down_heap
occupy p t q = search_item q t >>= λ found. elim found [
  | none ↦ assert_failed
  | some i ↦ do
    let count = (q.count + (2 ^ 32 - 1)) % 2 ^ 32
    last ← access (get_elem? q.slots count)
    slots ← write_slot q.slots i last
    down_heap p (record { slots = slots; count = count }) 1
]
