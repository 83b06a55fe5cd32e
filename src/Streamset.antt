-- ===== src/Streamset.antt =====
-- src/streamset.c: sets of stream descriptors as circular singly linked lists, and iterators.
pub mod Ring
pub mod Put
pub mod Unlink
pub mod Remove
pub mod Iterate
pub mod Edit
mod Tests
use lpel.Base.{
  ℕ, zero, suc, ◌+◌, ◌-◌, ◌*◌, ◌/◌, ◌%◌, ◌^◌, ◌<◌, ◌≤◌, ◌≡◌, ◌≢◌, refl, ap, sym, subst, ◌∙◌, arith,
  dec_lt, ℕ_discrete, ◌⊎◌, inl, inr, ◌↔◌, Bool, true, false, not, ◌&&◌, ◌||◌, Option, none, some,
  List, [], ◌∷◌, ◌++◌, append-nil, append_assoc, Ptr, null, ◌==◌, if◌then◌else◌, ltb, leb, length,
  set, get_elem?, get_or, head_or, last_or, replicate, assign, assign_self, assign_ne,
  length-append, length-set, lt→ltb, ==_of_ne, ==_self, ==→eq, ==_false→ne, le→ltb_false,
  Bool-cases, Option-cases, tests, load, store, load-ok, store-ok, mem, ◌∈◌, ◌∉◌, Distinct, IsChain,
  mem-append, mem-last, mem-head, ne_of_mem, ne_null_of_mem, IsChain-frame, IsChain-assign,
  head_or-append, last_or-append, IsChain-append, IsChain-left, IsChain-right, IsChain-last,
  IsChain-assign_last, Distinct-left, Distinct-right, Distinct-append, Distinct-apart,
}
use lpel.Base.Run.{out_of_fuel, Run, ok, assert_failed, fault, ◌>>=◌, ◌>>◌, assert, access, map_run}
use lpel.Base.Int.{ℤ, pos, negsuc, pos_part, neg_part}

-- A set in memory: the `next` fields of the descriptors, and the set's handle (`*set`), which
-- points to the last descriptor.
pub record Set : Type 0 where
  pub next : Ptr → Ptr
  pub handle : Ptr

-- `LpelStreamsetPut`
unfoldable pub put : Ptr → Set → Run Set
put node s =
    if s.handle == null
    then (do next ← store s.next node node; ok (record { next = next; handle = node }))
    else do
      first ← load s.next s.handle
      next ← store s.next node first
      next ← store next s.handle node
      ok (record { next = next; handle = node })

-- `do { prev = cur; cur = NODE_NEXT(cur); } while (cur != node && cur != *set)`, which returns
-- `(prev, cur)`.
unfoldable pub find : ℕ → Ptr → Ptr → (Ptr → Ptr) → Ptr → Run (Ptr × Ptr)
find zero node handle next cur = out_of_fuel
find (suc fuel) node handle next cur = do
  found ← load next cur
  let rest = find fuel node handle next found
  if not (found == node) && not (found == handle) then rest else ok (cur, found)

-- The end of `LpelStreamsetRemove`: `cur` behind `prev` is taken out.
unfoldable pub unlink : Ptr → Ptr → Set → Run Set
unlink prev cur s = if prev == cur then ok (record s { handle = null }) else do
  behind ← load s.next cur
  next ← store s.next prev behind
  next ← store next cur null
  ok (record { next = next; handle = if s.handle == cur then prev else s.handle })

-- `LpelStreamsetRemove`: true for 0, false for -1.
unfoldable pub remove : ℕ → Ptr → Set → Run (Bool × Set)
remove fuel node s = do
  assert (not (s.handle == null))
  (prev, cur) ← find fuel node s.handle s.next s.handle
  if not (cur == node) then ok (false, s) else do t ← unlink prev cur s; ok (true, t)

-- `LpelStreamsetIsEmpty`
unfoldable pub is_empty : Set → Bool
is_empty s = s.handle == null

-- `lpel_stream_iter_t`, less its pointer to the set that it goes through.
pub record Iter : Type 0 where
  pub cur : Ptr
  pub prev : Ptr

-- `LpelStreamIterReset`, and `LpelStreamIterCreate` for a set.
unfoldable pub reset : Set → Iter
reset s = record { cur = null; prev = s.handle }

-- `LpelStreamIterHasNext`
unfoldable pub has_next : Set → Iter → Bool
has_next s it = not (s.handle == null) && (not (it.cur == s.handle) || it.cur == null)

-- `LpelStreamIterNext`
unfoldable pub step : Set → Iter → Run (Ptr × Iter)
unfolding has_next
step s it = do
  assert (has_next s it)
  if not (it.cur == null)
      then (do found ← load s.next it.cur; ok (found, record { cur = found; prev = it.cur }))
      else do found ← load s.next it.prev; ok (found, record it { cur = found })

-- `LpelStreamIterAppend`
unfoldable pub append : Ptr → Set → Iter → Run (Set × Iter)
append node s it = do
  first ← load s.next s.handle
  next ← store s.next node first
  next ← store next s.handle node
  let prev = if it.prev == s.handle then node else it.prev
  ok (
    record { next = next; handle = node },
    record it { prev = if prev == it.cur then node else prev },
  )

-- `LpelStreamIterRemove`
unfoldable pub remove_current : Set → Iter → Run (Set × Iter)
remove_current s it =
    if it.prev == it.cur
    then (do
      assert (it.prev == s.handle)
      next ← store s.next it.cur null
      ok (record { next = next; handle = null }, it))
    else do
      behind ← load s.next it.cur
      next ← store s.next it.prev behind
      next ← store next it.cur null
      ok (
          if s.handle == it.prev then (record s { next = next }, record it { cur = null }) else (
            record { next = next; handle = if s.handle == it.cur then it.prev else s.handle },
            record it { cur = it.prev },
          ))

-- `while (LpelStreamIterHasNext(it)) { ... LpelStreamIterNext(it) ... }`: what a client's loop
-- over a set meets.
unfoldable pub visit : ℕ → Set → Iter → Run (List Ptr)
visit zero s it = if has_next s it then out_of_fuel else ok []
visit (suc fuel) s it =
    if has_next s it
    then (step s it >>= λ (node, it'). map_run (λ nodes. node ∷ nodes) (visit fuel s it'))
    else ok []
