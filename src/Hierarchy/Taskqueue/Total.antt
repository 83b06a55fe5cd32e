-- ===== src/Hierarchy/Taskqueue/Total.antt =====
-- The loops of the heap end within their fuel and stay in range.
use lpel.Base.{
  ltb→lt, ℕ, zero, suc, ◌+◌, ◌-◌, ◌*◌, ◌%◌, ◌^◌, ◌<◌, ◌≤◌, ◌≡◌, ◌∙◌, arith, inl, inr, none, List,
  Ptr, null, ltb, length, set, get_elem?, get_or, length-set, lt→ltb, ==_of_ne, Bool-cases,
}
use lpel.Base.Run.{Run, ok, ◌>>=◌, access}
use lpel.Base.Int.{ℤ, pos}
use lpel.Base.Int.{◌-ℤ◌, ltb_ℤ}
use lpel.Base.{get_elem?-eq-get_or}
use lpel.Decen.Buffer.{write_slot}
use lpel.Hierarchy.Taskqueue.{
  Prio, Heap, compare_prior, is_zero, greater_child, down_heap_from, down_heap, pop, remove_head,
}

-- A run that returns slots, as many as before.
abbrev pub Keeps : List Ptr → Run (List Ptr) → Type 0
Keeps slots r = (slots' : List Ptr) × (r ≡ ok slots') × (length slots' ≡ length slots)

pub write_slot-Keeps :
    (slots : List Ptr) (i v : ℕ) → i < length slots → Keeps slots (write_slot slots i v)
write_slot-Keeps slots i v h = (set slots i v, rw (lt→ltb i (length slots) h), length-set slots i v)

module _ (p : Prio) (plain : p.rts_prio_cmp ≡ none) where
  pub compare_prior-ok : (t u : Ptr) → (c : ℤ) × (compare_prior p t u ≡ ok c)
  unfolding compare_prior
  compare_prior-ok t u = elim (Bool-cases (is_zero (p.valid t -ℤ p.valid u))) [
    | inl e ↦ elim (Bool-cases (is_zero (p.valid t))) [
      | inl k ↦ (pos 0, rw (e, k))
      | inr k ↦ (p.prio_difference t u, rw (e, k, plain))
    ]
    | inr e ↦ (p.valid t -ℤ p.valid u, rw e)
  ]

  greater_child-range :
      (slots : List Ptr) (count child : ℕ)
      → child < count
      → count ≤ length slots
      → (k : ℕ) × (greater_child p slots count child ≡ ok k) × (child ≤ k) × (k < count)
  unfolding greater_child
  greater_child-range slots count child h f = elim (Bool-cases (ltb (child + 1) count)) [
    | inl e ↦
        let left = get_elem?-eq-get_or slots child null (omega arith) in
        let more = ltb→lt (child + 1) count e in
        let right = get_elem?-eq-get_or slots (child + 1) null (omega (arith, more)) in
        let (c, ec) = compare_prior-ok (get_or slots child null) (get_or slots (child + 1) null) in
        elim (Bool-cases (ltb_ℤ c (pos 0))) [
          | inl k ↦ (child + 1, rw (e, left, right, ec, k), omega arith, more)
          | inr k ↦ (child, rw (e, left, right, ec, k), omega arith, h)
        ]
    | inr e ↦ (child, rw e, omega arith, h)
  ]

  down_heap_from-Keeps :
      (t fuel : ℕ) (slots : List Ptr) (count i : ℕ)
      → 0 < i
      → i < length slots
      → count ≤ length slots
      → 0 < fuel
      → count < i + fuel
      → Keeps slots (down_heap_from p t fuel slots count i)
  unfolding down_heap_from
  down_heap_from-Keeps t zero slots count i z h l g f = absurd (omega arith)
  down_heap_from-Keeps t (suc fuel) slots count i z h l g f =
      elim (Bool-cases (ltb (i * 2) count)) [
        | inl e ↦
            let (child, ek, low, up) = greater_child-range slots count (i * 2) (ltb→lt _ _ e) l in
            let x = get_or slots child null in
            let in_range = get_elem?-eq-get_or slots child null (omega (arith, up, l)) in
            let (c, ec) = compare_prior-ok t x in
            elim (Bool-cases (ltb_ℤ c (pos 0))) [
              | inl k ↦
                  let (s, es, ls) = write_slot-Keeps slots i x h in
                  let (s', e', l') =
                    down_heap_from-Keeps t fuel s count child (omega (arith, low, z))
                      (omega (arith, up, l, ls)) (omega (arith, l, ls))
                      (omega (arith, low, up, z, f)) (omega (arith, low, up, z, f)) in
                  rw (e, ek, in_range, ec, k, es) (s', e', l' ∙ ls)
              | inr k ↦ rw (e, ek, in_range, ec, k) (write_slot-Keeps slots i t h)
            ]
        | inr e ↦ rw e (write_slot-Keeps slots i t h)
      ]

-- The array has room for the tasks, and the count is in range.
abbrev pub IsSized : Heap → Type 0
IsSized q = (0 < q.count) × (q.count ≤ length q.slots) × (length q.slots < 2 ^ 32)

-- The end of `removeHead`, for `n` tasks and the unused slot.
pull_last :
    (p : Prio) (slots : List Ptr) (n : ℕ)
    → p.rts_prio_cmp ≡ none
    → 0 < n
    → n < length slots
    → (s' : List Ptr) × ((access (get_elem? slots n) >>= λ last.
          write_slot slots 1 last >>= λ s. down_heap p (record { slots = s; count = n }) 1)
        ≡ ok (record { slots = s'; count = n }))
      × (length s' ≡ length slots)
unfolding down_heap
pull_last p slots n plain z h =
    let last = get_or slots n null in
    let (s, es, ls) = write_slot-Keeps slots 1 last (omega arith) in
    let t = get_or s 1 null in
    let (s', e', l') =
      down_heap_from-Keeps p plain t (n + 1) s n 1 (omega arith) (omega (arith, ls))
        (omega (arith, ls)) (omega arith) (omega arith) in
    (
      s',
      rw (
        get_elem?-eq-get_or slots n null h,
        es,
        get_elem?-eq-get_or s 1 null (omega (arith, ls)),
        e',
      ),
      l' ∙ ls,
    )

remove_head-run :
    (p : Prio) (q : Heap) (n : ℕ)
    → p.rts_prio_cmp ≡ none
    → (q.count + (2 ^ 32 - 1)) % 2 ^ 32 ≡ n
    → 0 < n
    → n < length q.slots
    → (s' : List Ptr) × (remove_head p q ≡ ok (record { slots = s'; count = n }))
      × (length s' ≡ length q.slots)
unfolding remove_head
remove_head-run p q n plain less z h =
    let (s', e', l') = pull_last p q.slots n plain z h in (s', rw less e', l')

-- Without a client's comparison, `LpelTaskqueuePop` of a heap that holds a task returns the one at
-- index 1: its loop ends, it stays in range, and the heap has one task less in an array of the same
-- size.
pub pop-slot_one :
    (p : Prio) (q : Heap)
    → p.rts_prio_cmp ≡ none
    → IsSized q
    → 1 < q.count
    → (q' : Heap) × (pop p q ≡ ok (get_or q.slots 1 null, q'))
      × (q'.count + 1 ≡ q.count)
      × (length q'.slots ≡ length q.slots)
unfolding pop
pop-slot_one p q plain (z, l, w) h =
    let less : (q.count + (2 ^ 32 - 1)) % 2 ^ 32 ≡ q.count - 1 = omega (arith, h, l, w) in
    let (s', e', l') =
      remove_head-run p q (q.count - 1) plain less (omega (arith, h)) (omega (arith, h, l)) in
    (
      record { slots = s'; count = q.count - 1 },
      rw (
        ==_of_ne q.count 1 (omega (arith, h)),
        get_elem?-eq-get_or q.slots 1 null (omega (arith, h, l)),
        e',
      ),
      omega (arith, h),
      l',
    )
