-- ===== src/Decen/Taskqueue/Tests.antt =====
-- The theorems on the task queue at the queue of the tasks 4 and 6.
use lpel.Base.{ℕ, ◌+◌, refl, arith, Bool, [], ◌∷◌, Ptr, null, ◌==◌, if◌then◌else◌}
use lpel.Decen.Taskqueue.{iterate_remove}
use lpel.Decen.Taskqueue.Iterate.{Swept, iterate_remove-Swept}
use lpel.Decen.Taskqueue.{Links, Queue}
use lpel.Decen.Taskqueue.Ends.{IsQueue}

abbrev two_links : Links
two_links = record {
  prev = λ a. if a == 6 then 4 else null;
  next = λ a. if a == 4 then 6 else null;
}

abbrev two : Queue
two = record { head = 4; tail = 6; count = 2 }

two-IsQueue : IsQueue two_links two (4 ∷ 6 ∷ [])
two-IsQueue = record {
  head = refl;
  tail = refl;
  count = refl;
  distinct = ground arith;
  links = (refl, refl, (refl, refl, tt));
}

-- The condition of a round, and its action, which adds the tasks up.
abbrev is_four : Ptr → Bool
is_four t = t == 4

abbrev add_up : Ptr → ℕ → ℕ
add_up t n = t + n

iterate_remove-Swept_example :
    Swept is_four add_up [] (4 ∷ 6 ∷ []) 1 0 (iterate_remove is_four add_up 2 two_links two 1)
iterate_remove-Swept_example =
    iterate_remove-Swept is_four add_up 2 (4 ∷ 6 ∷ []) 1 two-IsQueue (omega arith)
