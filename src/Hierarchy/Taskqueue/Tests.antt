-- ===== src/Hierarchy/Taskqueue/Tests.antt =====
-- A run of the heap on tasks whose priority is their number.
use lpel.Hierarchy.Taskqueue.{occupy}
use lpel.Base.{◌+◌, ◌≡◌, refl, arith, none, [], ◌∷◌, Ptr, null, length}
use lpel.Base.Run.{ok}
use lpel.Base.Int.{pos}
use lpel.Base.Int.{◌-ℤ◌}
use lpel.Hierarchy.Taskqueue.Total.{IsSized, pop-slot_one}
use lpel.Hierarchy.Taskqueue.Grow.{InHeap, push-one_more}
use lpel.Hierarchy.Taskqueue.{Prio, Heap, push, pop}

abbrev by_number : Prio
by_number = record {
  valid = λ t. pos 1;
  prio_difference = λ t u. pos t -ℤ pos u;
  rts_prio_cmp = none;
  rts_prio = λ t. null;
}

abbrev four : Heap
four = record { slots = 0 ∷ 7 ∷ 5 ∷ 3 ∷ 0 ∷ []; count = 4 }

test_push : push by_number [] 9 four ≡ ok (record { slots = 0 ∷ 9 ∷ 7 ∷ 3 ∷ 5 ∷ []; count = 5 })
unfolding push ◌-ℤ◌
test_push = refl

test_pop : pop by_number four ≡ ok (7, record { slots = 0 ∷ 5 ∷ 3 ∷ 3 ∷ 0 ∷ []; count = 3 })
unfolding pop ◌-ℤ◌
test_pop = refl

-- The last task moves to the place of the one that is taken out.
test_occupy :
    occupy by_number 4 (record { slots = 0 ∷ 9 ∷ 3 ∷ 7 ∷ 2 ∷ 1 ∷ 6 ∷ 4 ∷ 5 ∷ []; count = 9 })
    ≡ ok (record { slots = 0 ∷ 9 ∷ 3 ∷ 7 ∷ 2 ∷ 1 ∷ 6 ∷ 5 ∷ 5 ∷ []; count = 8 })
unfolding occupy ◌-ℤ◌
test_occupy = refl

pop-slot_one_example :
    (q' : Heap) × (pop by_number four ≡ ok (7, q')) × (q'.count + 1 ≡ 4) × (length q'.slots ≡ 5)
pop-slot_one_example =
    pop-slot_one by_number four refl (omega arith, omega arith, omega arith) (omega arith)

push-one_more_example :
    (q' : Heap) × (push by_number (0 ∷ []) 9 four ≡ ok q')
    × (q'.count ≡ 5)
    × IsSized q'
    × InHeap 9 q'
    × ((x : Ptr) → InHeap x four → InHeap x q')
push-one_more_example =
    push-one_more by_number (0 ∷ []) 9 four refl (omega arith, omega arith, omega arith)
      (omega arith) (omega arith)
