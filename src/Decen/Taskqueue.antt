-- ===== src/Decen/Taskqueue.antt =====
-- src/sched/decentralised/decen_taskqueue.c: queues of tasks, doubly linked through the tasks.
pub mod Seg
pub mod Ends
pub mod Push
pub mod Pop
pub mod Unlink
pub mod Iterate
mod Tests
use lpel.Base.{
  ℕ, zero, suc, ◌+◌, ◌-◌, ◌*◌, ◌/◌, ◌%◌, ◌^◌, ◌<◌, ◌≤◌, ◌≡◌, ◌≢◌, refl, ap, sym, subst, ◌∙◌, arith,
  dec_lt, ℕ_discrete, ◌⊎◌, inl, inr, ◌↔◌, Bool, true, false, not, ◌&&◌, ◌||◌, Option, none, some,
  List, [], ◌∷◌, ◌++◌, append-nil, append_assoc, Ptr, null, ◌==◌, if◌then◌else◌, ltb, leb, length,
  set, get_elem?, get_or, head_or, last_or, replicate, assign, assign_self, assign_ne,
  length-append, length-set, lt→ltb, ==_of_ne, ==_self, ==→eq, ==_false→ne, le→ltb_false,
  Bool-cases, Option-cases, tests, load, store, load-ok, store-ok, mem, ◌∈◌, ◌∉◌, Distinct, IsChain,
  mem-append, mem-last, mem-head, ne_of_mem, ne_null_of_mem, IsChain-frame, IsChain-assign,
  head_or-append, last_or-append, IsChain-append, IsChain-left, IsChain-right, IsChain-last,
  IsChain-assign_last, Distinct-left, Distinct-right, Distinct-append, Distinct-apart,
}
use lpel.Base.Run.{out_of_fuel, Run, ok, assert_failed, fault, ◌>>=◌, ◌>>◌, assert, access, map_run}
use lpel.Base.Int.{ℤ, pos, negsuc, pos_part, neg_part}

-- The `prev` and `next` fields of all tasks.
pub record Links : Type 0 where
  pub prev : Ptr → Ptr
  pub next : Ptr → Ptr

-- `taskqueue_t`
pub record Queue : Type 0 where
  pub head : Ptr
  pub tail : Ptr
  pub count : ℕ

-- `p->prev = v` and `p->next = v`
abbrev pub set_prev : Ptr → Ptr → Links → Run Links
set_prev p v l = map_run (λ f. record l { prev = f }) (store l.prev p v)

abbrev pub set_next : Ptr → Ptr → Links → Run Links
set_next p v l = map_run (λ f. record l { next = f }) (store l.next p v)

-- `unsigned int` steps of the count.
abbrev pub inc : ℕ → ℕ
inc n = (n + 1) % 2 ^ 32

abbrev pub dec : ℕ → ℕ
dec n = (n + (2 ^ 32 - 1)) % 2 ^ 32

-- `LpelTaskqueueInit`
unfoldable pub init : Queue
init = record { head = null; tail = null; count = 0 }

-- `assert( t->prev==NULL && t->next==NULL )`
abbrev pub assert_free : Ptr → Links → Run (Unit {0})
assert_free t l = do p ← load l.prev t; n ← load l.next t; assert ((p == null) && (n == null))

-- `LpelTaskqueuePush`
unfoldable pub push : Ptr → Links → Queue → Run (Links × Queue)
push t l q = do
  assert_free t l
  if q.head == null then ok (l, record { head = t; tail = t; count = inc q.count }) else do
    l ← set_next q.tail t l
    l ← set_prev t q.tail l
    ok (l, record q { tail = t; count = inc q.count })

-- `LpelTaskqueuePushFront`
unfoldable pub push_front : Ptr → Links → Queue → Run (Links × Queue)
push_front t l q = do
  assert_free t l
  if q.tail == null then ok (l, record { head = t; tail = t; count = inc q.count }) else do
    l ← set_prev q.head t l
    l ← set_next t q.head l
    ok (l, record q { head = t; count = inc q.count })

-- `LpelTaskqueuePop`; NULL for an empty queue.
unfoldable pub pop : Links → Queue → Run (Ptr × Links × Queue)
pop l q = if q.head == null then ok (null, l, q) else do
  n ← load l.next q.head
  (l', q') ←
      if n == null then ok (l, record { head = null; tail = null; count = dec q.count }) else do
        l ← set_prev n null l
        l ← set_next q.head null l
        ok (l, record q { head = n; count = dec q.count })
  assert_free q.head l'
  ok (q.head, l', q')

-- `LpelTaskqueuePopBack`
unfoldable pub pop_back : Links → Queue → Run (Ptr × Links × Queue)
pop_back l q = if q.tail == null then ok (null, l, q) else do
  p ← load l.prev q.tail
  (l', q') ←
      if p == null then ok (l, record { head = null; tail = null; count = dec q.count }) else do
        l ← set_next p null l
        l ← set_prev q.tail null l
        ok (l, record q { tail = p; count = dec q.count })
  assert_free q.tail l'
  ok (q.tail, l', q')

-- The relinking in `LpelTaskqueueIterateRemove`: `cur` is taken out.
unfoldable pub unlink : Ptr → Links → Queue → Run (Links × Queue)
unlink cur l q = do
  p ← load l.prev cur
  n ← load l.next cur
  (l, q) ←
      if not (p == null) then (do l ← set_next p n l; ok (l, q)) else ok (l, record q { head = n })
  (l, q) ←
      if not (n == null) then (do l ← set_prev n p l; ok (l, q)) else ok (l, record q { tail = p })
  l ← set_prev cur null l
  l ← set_next cur null l
  ok (l, record q { count = dec q.count })

-- `LpelTaskqueueIterateRemove`, from `cur` on. `action` acts on a world of its own and leaves the
-- links of the tasks alone; the number of removed tasks is an `int`.
module _ {ℓ} {W : Type ℓ} (cond : Ptr → Bool) (action : Ptr → W → W) where
  unfoldable pub iterate_from : ℕ → Ptr → Links → Queue → W → ℕ → Run (ℕ × W × Links × Queue)
  iterate_from zero cur l q w removed = if cur == null then ok (removed, w, l, q) else out_of_fuel
  iterate_from (suc fuel) cur l q w removed =
      if cur == null
      then ok (removed, w, l, q)
      else (load l.next cur >>= λ n.
          let kept = iterate_from fuel n l q w removed in
          let gone =
            unlink cur l q >>= λ (l', q'). iterate_from fuel n l' q' (action cur w) (removed + 1) in
          if cond cur then gone else kept)

  unfoldable pub iterate_remove : ℕ → Links → Queue → W → Run (ℕ × W × Links × Queue)
  unfolding iterate_from
  iterate_remove fuel l q w = iterate_from fuel q.head l q w 0

-- `LpelTaskqueueDestroy`
unfoldable pub destroy : Queue → Run (Unit {0})
destroy q = assert ((q.head == null) && (q.tail == null))
