-- ===== src/Hierarchy/Taskqueue/Grow.antt =====
-- LpelTaskqueuePush of hrc_taskqueue.c, with an array that grows.
use lpel.Base.{
  get_or-set_ne, get_or-set_self, ap, length-set, some, get_or-append_left, get_elem?, ◌∙◌, sym,
  lt→ltb, set, ℕ, ◌+◌, ◌%◌, ◌^◌, ◌<◌, ◌≤◌, ◌≡◌, refl, arith, inl, inr, none, List, ◌++◌, Ptr, null,
  if◌then◌else◌, leb, length, get_or, length-append, Bool-cases,
}
use lpel.Base.Run.{ok}
use lpel.Base.Int.{pos}
use lpel.Base.{get_elem?-eq-get_or}
use lpel.Base.Int.{◌-ℤ◌}
use lpel.Hierarchy.Taskqueue.{Prio, Heap, is_zero, push, up_heap}
use lpel.Hierarchy.Taskqueue.Total.{IsSized}
use lpel.Hierarchy.Taskqueue.Moved.{InSlots, Moves, set-IsMoved, up_heap_from-Moves}

abbrev grown_slots : List Ptr → Heap → List Ptr
grown_slots memory q = if leb (length q.slots) q.count then q.slots ++ memory else q.slots

grown_slots-room :
    (memory : List Ptr) (q : Heap)
    → 0 < length memory
    → q.count ≤ length q.slots
    → (q.count < length (grown_slots memory q))
      × (length (grown_slots memory q) ≤ length q.slots + length memory)
grown_slots-room memory q z h = elim (Bool-cases (leb (length q.slots) q.count)) [
  | inl e ↦ rw e (
    omega (arith, h, z, length-append q.slots memory),
    omega (arith, length-append q.slots memory),
  )
  | inr e ↦ rw e (ground arith, omega arith)
]

-- A task is in the heap.
abbrev pub InHeap : Ptr → Heap → Type 0
InHeap x q = InSlots q.count q.slots x

raised :
    (p : Prio) (t : Ptr) (slots : List Ptr) (n : ℕ)
    → p.rts_prio_cmp ≡ none
    → 0 < n
    → n < length slots
    → Moves t
        (n + 1)
        n
        slots
        (if is_zero (p.valid t -ℤ pos 1) then up_heap p (set slots n t) n else ok (set slots n t))
unfolding up_heap
raised p t slots n plain z h = elim (Bool-cases (is_zero (p.valid t -ℤ pos 1))) [
  | inl e ↦
      let at : get_elem? (set slots n t) n ≡ some t =
        get_elem?-eq-get_or (set slots n t) n null (omega (arith, length-set slots n t, h))
        ∙ ap some (get_or-set_self slots n t null h) in
      let (s', e', v) =
        up_heap_from-Moves p plain t (n + 1) (n + 1) (set slots n t) n z (omega arith)
          (omega (arith, length-set slots n t, h)) (omega arith) in
      (
        s',
        rw (e, at) e',
        record {
          size = v.size ∙ length-set slots n t;
          holds = v.holds;
          others = λ j zj hj ne.
              let (k, zk, hk, w) = v.others j zj hj ne in
              (k, zk, hk, w ∙ get_or-set_ne slots n j t null (λ q. ne (sym q)));
        },
      )
  | inr e ↦
      (set slots n t, rw e refl, set-IsMoved t (n + 1) n slots z (omega arith) (omega (arith, h)))
]

grown_slots-kept :
    (memory : List Ptr) (q : Heap) (j : ℕ)
    → j < q.count
    → q.count ≤ length q.slots
    → get_or (grown_slots memory q) j null ≡ get_or q.slots j null
grown_slots-kept memory q j h l = elim (Bool-cases (leb (length q.slots) q.count)) [
  | inl e ↦ rw e (get_or-append_left q.slots memory j null (omega arith))
  | inr e ↦ rw e refl
]

-- Without a client's comparison, `LpelTaskqueuePush` on a heap with its count in range returns a
-- heap with one task more and its count in range, the array grown if it was full; the new task is in
-- it, and every other that was.
pub push-one_more :
    (p : Prio) (memory : List Ptr) (t : Ptr) (q : Heap)
    → p.rts_prio_cmp ≡ none
    → IsSized q
    → 0 < length memory
    → length q.slots + length memory < 2 ^ 32
    → (q' : Heap) × (push p memory t q ≡ ok q')
      × (q'.count ≡ q.count + 1)
      × IsSized q'
      × InHeap t q'
      × ((x : Ptr) → InHeap x q → InHeap x q')
unfolding push
push-one_more p memory t q plain (z, l, w) more top =
    let slots = grown_slots memory q in
    let (room, bound) = grown_slots-room memory q more l in
    let (s', e', v) = raised p t slots q.count plain z room in
    let next : (q.count + 1) % 2 ^ 32 ≡ q.count + 1 = omega (arith, l, more, top) in
    (
      record { slots = s'; count = q.count + 1 },
      rw (lt→ltb q.count (length slots) room, e', next) refl,
      refl,
      (omega arith, omega (arith, v.size, room), omega (arith, v.size, bound, top)),
      v.holds,
      λ x (j, zj, hj, at).
          let (k, zk, hk, same) = v.others j zj (omega (arith, hj)) (λ e. omega (arith, hj, e)) in
          (k, zk, hk, same ∙ grown_slots-kept memory q j hj l ∙ at),
    )
