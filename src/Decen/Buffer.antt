-- ===== src/Decen/Buffer.antt =====
-- src/sched/decentralised/decen_buffer.c: the bounded single-writer single-reader buffer. An item
-- is a pointer, and NULL marks an empty slot. `unsigned long` has 64 bits.
pub mod Index
pub mod Refine
mod Tests
use lpel.Base.{
  ℕ, ◌+◌, ◌-◌, ◌%◌, ◌^◌, Bool, not, List, Ptr, null, ◌==◌, leb, ltb, if◌then◌else◌, length, set,
  get_elem?, replicate,
}
use lpel.Base.Run.{Run, ok, fault, ◌>>=◌, ◌>>◌, assert, access}

-- `buffer_t`, less its padding.
pub record Buffer : Type 0 where
  pub pread : ℕ
  pub pwrite : ℕ
  pub size : ℕ
  pub slots : List Ptr

-- `LpelBufferInit`: all slots are cleared.
unfoldable pub init : ℕ → Buffer
init size = record { pread = 0; pwrite = 0; size = size; slots = replicate size null }

-- `LpelBufferTop`
unfoldable pub top : Buffer → Run Ptr
top buf = access (get_elem? buf.slots buf.pread)

-- `data[i] = v`, a fault outside the array.
abbrev pub write_slot : List Ptr → ℕ → Ptr → Run (List Ptr)
write_slot slots i v = if ltb i (length slots) then ok (set slots i v) else fault

-- `i += (i+1 >= size) ? (1-size) : 1` on `unsigned long`.
unfoldable pub advance : ℕ → ℕ → ℕ
advance size i =
    (i + (if leb size ((i + 1) % 2 ^ 64) then (2 ^ 64 + 1 - size) % 2 ^ 64 else 1)) % 2 ^ 64

-- `LpelBufferPop`
unfoldable pub pop : Buffer → Run Buffer
unfolding advance
pop buf = do
  slots ← write_slot buf.slots buf.pread null
  ok (record buf { slots = slots; pread = advance buf.size buf.pread })

-- `LpelBufferIsSpace`
unfoldable pub is_space : Buffer → Run Bool
is_space buf = do item ← access (get_elem? buf.slots buf.pwrite); ok (item == null)

-- `LpelBufferPut`
unfoldable pub put : Buffer → Ptr → Run Buffer
unfolding is_space advance
put buf item = do
  assert (not (item == null))
  space ← is_space buf
  assert space
  slots ← write_slot buf.slots buf.pwrite item
  ok (record buf { slots = slots; pwrite = advance buf.size buf.pwrite })

-- `LpelBufferIsEmpty`
unfoldable pub is_empty : Buffer → Run Bool
is_empty buf = do item ← access (get_elem? buf.slots buf.pread); ok (item == null)
