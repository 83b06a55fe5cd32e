-- ===== src/Decen/Buffer/Refine.antt =====
-- The buffer of decen_buffer.c as a bounded queue of items.
use lpel.Base.{
  ℕ, suc, ◌+◌, ◌%◌, ◌^◌, ◌<◌, ◌≤◌, ◌≡◌, ◌≢◌, refl, ap, sym, ◌∙◌, arith, dec_lt, ℕ_discrete, some,
  List, [], ◌∷◌, ◌++◌, Ptr, null, ◌==◌, ltb, length, set, get_elem?, get_or, head_or, length-append,
  length-set, length-replicate, get_elem?-eq-get_or, get_or-set_self, get_or-set_ne,
  get_or-replicate, get_or_beyond, get_or-append_left, get_or-append_last, lt→ltb, ==_of_ne,
}
use lpel.Base.Run.{ok, assert_failed}
use lpel.Decen.Buffer.{Buffer, init, top, advance, pop, is_space, put, is_empty}
use lpel.Decen.Buffer.Index.{advance-mod, mod-lt_pos, add-mod-ne_symm, mod-add-step}
use native.Mathlib.Nat.{mod-eq_of_lt, mod-eq-sub-mod, mod-add-mod, add-zero}

-- No item of the queue is NULL.
abbrev pub AllItems : List Ptr → Type 0
AllItems [] = Unit
AllItems (x ∷ q) = (x ≢ null) × AllItems q

pub AllItems-append : (q : List Ptr) (x : Ptr) → AllItems q → x ≢ null → AllItems (q ++ (x ∷ []))
AllItems-append [] x all h = (h, tt)
AllItems-append (y ∷ q) x all h = (all.0, AllItems-append q x all.1 h)

-- The buffer holds the items `q`, oldest first: they stand from `pread` on, going round at `size`,
-- every other slot is NULL, and `pwrite` is the slot behind the last item.
pub record Holds (buf : Buffer) (q : List Ptr) : Type 0 where
  pub small : buf.size < 2 ^ 32
  pub storage : length buf.slots ≡ buf.size
  pub read_in : buf.pread < buf.size
  pub write_at : buf.pwrite ≡ (buf.pread + length q) % buf.size
  pub fits : length q ≤ buf.size
  pub items : AllItems q
  pub cells :
      (i : ℕ) → i < buf.size → get_or buf.slots ((buf.pread + i) % buf.size) null ≡ get_or q i null

pub size-init : (size : ℕ) → (init size).size ≡ size
unfolding init
size-init size = refl

-- `LpelBufferInit` with a size from 1 to 2^32 - 1 makes a buffer that holds no item.
pub init-Holds : (size : ℕ) → 0 < size → size < 2 ^ 32 → Holds (init size) []
unfolding init
init-Holds size h k = record {
  small = k;
  storage = length-replicate size null;
  read_in = h;
  write_at = sym (mod-eq_of_lt h);
  fits = omega arith;
  items = tt;
  cells = λ i hi. get_or-replicate size ((0 + i) % size) null;
}

head_item : (q : List Ptr) → AllItems q → 0 < length q → get_or q 0 null ≢ null
head_item [] all h = absurd (omega arith)
head_item (x ∷ q) all h = all.0

get_or-zero : (q : List Ptr) (d : Ptr) → get_or q 0 d ≡ head_or q d
get_or-zero [] d = refl
get_or-zero (x ∷ q) d = refl

null_test : (q : List Ptr) → AllItems q → (get_or q 0 null == null) ≡ (length q == 0)
null_test [] all = refl
null_test (x ∷ q) all = ground (arith, all.0)

get_or-append_other :
    (q : List Ptr) (x : Ptr) (i : ℕ) (d : Ptr)
    → i ≢ length q
    → get_or q i d ≡ get_or (q ++ (x ∷ [])) i d
get_or-append_other q x i d ne = elim (dec_lt i (length q)) [
  | yes p ↦ sym (get_or-append_left q (x ∷ []) i d p)
  | no p ↦
      get_or_beyond q i d (omega arith)
      ∙ sym (get_or_beyond (q ++ (x ∷ [])) i d (omega (arith, length-append q (x ∷ []))))
]

mod-add_self : (r m : ℕ) → r < m → (r + m) % m ≡ r
mod-add_self r m h =
    mod-eq-sub-mod {n = r + m} {m = m} (omega arith)
    ∙ ap (λ k. k % m) (omega arith)
    ∙ mod-eq_of_lt h

module _ {buf : Buffer} {q : List Ptr} (v : Holds buf q) where
  write_in : buf.pwrite < buf.size
  write_in = omega (
    arith,
    v.write_at,
    mod-lt_pos (buf.pread + length q) buf.size (omega (arith, v.read_in)),
    v.read_in,
  )

  cell_read : get_or buf.slots buf.pread null ≡ get_or q 0 null
  cell_read =
      ap (λ k. get_or buf.slots k null)
        (sym (ap (λ k. k % buf.size) (add-zero buf.pread) ∙ mod-eq_of_lt v.read_in))
      ∙ v.cells 0 (omega (arith, v.read_in))

  read_slot : get_elem? buf.slots buf.pread ≡ some (get_or q 0 null)
  read_slot =
      get_elem?-eq-get_or buf.slots buf.pread null (omega (arith, v.storage, v.read_in))
      ∙ ap some cell_read

  write_slot_lem : get_elem? buf.slots buf.pwrite ≡ some (get_or buf.slots buf.pwrite null)
  write_slot_lem =
      get_elem?-eq-get_or buf.slots buf.pwrite null (omega (arith, v.storage, write_in))

  cell_write_free : length q < buf.size → get_or buf.slots buf.pwrite null ≡ null
  cell_write_free h =
      rw v.write_at (v.cells (length q) h ∙ get_or_beyond q (length q) null (omega arith))

  cell_write_full : length q ≡ buf.size → get_or buf.slots buf.pwrite null ≢ null
  cell_write_full h = rw at_read (rw cell_read (head_item q v.items (omega (arith, h, v.read_in))))
    where
      at_read : buf.pwrite ≡ buf.pread
      at_read =
          v.write_at
          ∙ ap (λ k. (buf.pread + k) % buf.size) h
          ∙ mod-add_self buf.pread buf.size v.read_in

  -- On a buffer that holds the items `q`, `LpelBufferTop` returns the oldest, NULL without one.
  pub top-head_or : top buf ≡ ok (head_or q null)
  unfolding top
  top-head_or = rw read_slot (ap ok (get_or-zero q null))

  -- On a buffer that holds the items `q`, `LpelBufferIsEmpty` tells whether there are none.
  pub is_empty_lem : is_empty buf ≡ ok (length q == 0)
  unfolding is_empty
  is_empty_lem = rw read_slot (ap ok (null_test q v.items))

  -- On a buffer that holds the items `q`, `LpelBufferIsSpace` tells whether they are fewer than
  -- `size`.
  pub is_space_lem : is_space buf ≡ ok (ltb (length q) buf.size)
  unfolding is_space
  is_space_lem = rw write_slot_lem (elim (dec_lt (length q) buf.size) [
    | yes p ↦ rw (cell_write_free p, lt→ltb _ _ p)
    | no p ↦ ground (arith, cell_write_full (omega (arith, v.fits)))
  ])

  put_cells :
      (x : Ptr)
      → length q < buf.size
      → (i : ℕ) → i < buf.size
      → get_or (set buf.slots buf.pwrite x) ((buf.pread + i) % buf.size) null
        ≡ get_or (q ++ (x ∷ [])) i null
  put_cells x h i hi = elim (ℕ_discrete i (length q)) [
    | yes e ↦
        rw (e, ← v.write_at)
          (get_or-set_self buf.slots buf.pwrite x null (omega (arith, v.storage, write_in))
            ∙ sym (get_or-append_last q x null))
    | no ne ↦
        get_or-set_ne buf.slots buf.pwrite ((buf.pread + i) % buf.size) x null (
          rw v.write_at
            (add-mod-ne_symm buf.size buf.pread (length q) i v.read_in h hi (λ e. ne (sym e))))
        ∙ v.cells i hi
        ∙ get_or-append_other q x i null ne
  ]

  -- On a buffer that holds fewer than `size` items, `LpelBufferPut` of an item that is not NULL
  -- returns with the item behind the others, and the size is as before.
  pub put-append :
      (x : Ptr)
      → x ≢ null
      → length q < buf.size
      → (buf' : Buffer) × (put buf x ≡ ok buf')
        × Holds buf' (q ++ (x ∷ []))
        × (buf'.size ≡ buf.size)
  unfolding put is_space
  put-append x hx h = (
    record buf { slots = set buf.slots buf.pwrite x; pwrite = advance buf.size buf.pwrite },
    rw (
      ==_of_ne x null hx,
      write_slot_lem,
      cell_write_free h,
      lt→ltb buf.pwrite (length buf.slots) (omega (arith, v.storage, write_in)),
    ),
    record {
      small = v.small;
      storage = length-set buf.slots buf.pwrite x ∙ v.storage;
      read_in = v.read_in;
      write_at =
          advance-mod buf.size buf.pwrite v.small write_in
          ∙ ap (λ k. (k + 1) % buf.size) v.write_at
          ∙ mod-add-mod (buf.pread + length q) buf.size 1
          ∙ ap (λ k. k % buf.size) (omega (arith, length-append q (x ∷ [])));
      fits = omega (arith, length-append q (x ∷ []));
      items = AllItems-append q x v.items hx;
      cells = put_cells x h;
    },
    refl,
  )

  -- On a buffer that holds `size` items an assertion of `LpelBufferPut` fails.
  pub put_full : (x : Ptr) → length q ≡ buf.size → put buf x ≡ assert_failed
  unfolding put is_space
  put_full x h = rw write_slot_lem (ground (arith, cell_write_full h))

module _ {buf : Buffer} {x : Ptr} {q : List Ptr} (v : Holds buf (x ∷ q)) where
  pop_cells :
      (i : ℕ)
      → i < buf.size
      → get_or (set buf.slots buf.pread null) (((buf.pread + 1) % buf.size + i) % buf.size) null
        ≡ get_or q i null
  pop_cells i hi = rw (mod-add-step buf.size buf.pread i) (elim (ℕ_discrete (suc i) buf.size) [
    | yes e ↦
        rw (e, mod-add_self buf.pread buf.size v.read_in)
          (get_or-set_self buf.slots buf.pread null null (omega (arith, v.storage, v.read_in))
            ∙ sym (get_or_beyond q i null (omega (arith, v.fits))))
    | no ne ↦
        get_or-set_ne buf.slots buf.pread ((buf.pread + suc i) % buf.size) null null (away ne)
        ∙ v.cells (suc i) (omega arith)
  ])
    where
      away : suc i ≢ buf.size → buf.pread ≢ (buf.pread + suc i) % buf.size
      away ne e =
          add-mod-ne_symm buf.size buf.pread 0 (suc i) v.read_in (omega (arith, v.read_in))
            (omega arith) (omega arith)
            (ap (λ k. k % buf.size) (add-zero buf.pread) ∙ mod-eq_of_lt v.read_in ∙ e)

  -- On a buffer that holds an item, `LpelBufferPop` drops the oldest and keeps the others in order,
  -- and the size is as before.
  pub pop-tail : (buf' : Buffer) × (pop buf ≡ ok buf') × Holds buf' q × (buf'.size ≡ buf.size)
  unfolding pop
  pop-tail = (
    record buf { slots = set buf.slots buf.pread null; pread = advance buf.size buf.pread },
    rw (lt→ltb buf.pread (length buf.slots) (omega (arith, v.storage, v.read_in))),
    record {
      small = v.small;
      storage = length-set buf.slots buf.pread null ∙ v.storage;
      read_in = rw step (mod-lt_pos (buf.pread + 1) buf.size (omega (arith, v.read_in)));
      write_at = v.write_at ∙ rw step (sym (mod-add-step buf.size buf.pread (length q)));
      fits = omega (arith, v.fits);
      items = v.items.1;
      cells = rw step pop_cells;
    },
    refl,
  )
    where
      step : advance buf.size buf.pread ≡ (buf.pread + 1) % buf.size
      step = advance-mod buf.size buf.pread v.small v.read_in
