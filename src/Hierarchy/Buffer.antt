-- ===== src/Hierarchy/Buffer.antt =====
-- src/sched/hierarchy/hrc_buffer.c: the unbounded single-writer single-reader buffer, a linked list
-- behind a dummy entry. `malloc` is the parameter `fresh`, the address that it returns.
pub mod Refine
mod Tests
use lpel.Base.{
  ℕ, zero, suc, ◌+◌, ◌-◌, ◌*◌, ◌/◌, ◌%◌, ◌^◌, ◌<◌, ◌≤◌, ◌≡◌, ◌≢◌, refl, ap, sym, subst, ◌∙◌, arith,
  dec_lt, ℕ_discrete, ◌⊎◌, inl, inr, ◌↔◌, Bool, true, false, not, ◌&&◌, ◌||◌, Option, none, some,
  List, [], ◌∷◌, ◌++◌, append-nil, append_assoc, map, Ptr, null, ◌==◌, if◌then◌else◌, ltb, leb,
  length, set, get_elem?, get_or, head_or, last_or, replicate, assign, assign_self, assign_ne,
  length-append, length-set, lt→ltb, ==_of_ne, ==_self, ==→eq, ==_false→ne, le→ltb_false,
  Bool-cases, Option-cases, tests, load, store, load-ok, store-ok, mem, ◌∈◌, ◌∉◌, Distinct, IsChain,
  mem-append, apart_sym, not_mem_snoc, snoc_apart, mem-last, mem-head, ne_of_mem, ne_null_of_mem,
  IsChain-frame, IsChain-assign, head_or-append, last_or-append, IsChain-append, IsChain-left,
  IsChain-right, IsChain-last, IsChain-assign_last, Distinct-left, Distinct-right, Distinct-append,
  Distinct-apart,
}
use lpel.Base.Run.{out_of_fuel, Run, ok, assert_failed, fault, ◌>>=◌, ◌>>◌, assert, access, map_run}
use lpel.Base.Int.{ℤ, pos, negsuc, pos_part, neg_part}

-- `buffer_t`, and the fields of the entries in memory.
pub record Buffer : Type 0 where
  pub next : Ptr → Ptr
  pub data_at : Ptr → Ptr
  pub head : Ptr
  pub tail : Ptr

-- `createEntry`: the `data` and `next` fields with the new entry.
unfoldable pub create_entry :
    Ptr → Ptr → (Ptr → Ptr) → (Ptr → Ptr) → Run ((Ptr → Ptr) × (Ptr → Ptr))
create_entry fresh item data_at next = do
  data_at ← store data_at fresh item
  next ← store next fresh null
  ok (data_at, next)

-- `LpelBufferInit`
unfoldable pub init : Ptr → (Ptr → Ptr) → (Ptr → Ptr) → Run Buffer
unfolding create_entry
init fresh data_at next = do
  (data_at, next) ← create_entry fresh null data_at next
  ok (record { next = next; data_at = data_at; head = fresh; tail = fresh })

-- `LpelBufferTop`
unfoldable pub top : Buffer → Run Ptr
top buf = do
  first ← load buf.next buf.head
  if first == null then ok null else load buf.data_at first

-- `LpelBufferPop`, with the entry that it frees.
unfoldable pub pop : Buffer → Run (Option Ptr × Buffer)
pop buf = do
  first ← load buf.next buf.head
  ok (if first == null then (none, buf) else (some (buf.head), record buf { head = first }))

-- `LpelBufferIsSpace`
abbrev pub is_space : Buffer → Bool
is_space buf = true

-- `LpelBufferPut`
unfoldable pub put : Ptr → Buffer → Ptr → Run Buffer
unfolding create_entry
put fresh buf item = do
  assert (not (item == null))
  (data_at, next) ← create_entry fresh item buf.data_at buf.next
  next ← store next buf.tail fresh
  last ← load next buf.tail
  ok (record buf { next = next; data_at = data_at; tail = last })

-- `LpelBufferIsEmpty`
unfoldable pub is_empty : Buffer → Run Bool
is_empty buf = do first ← load buf.next buf.head; ok (first == null)
