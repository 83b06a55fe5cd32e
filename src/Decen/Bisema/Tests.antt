-- ===== src/Decen/Bisema/Tests.antt =====
-- The theorems on binary semaphores at a run of two tasks.
use lpel.Base.{◌≤◌, ◌≡◌, refl, [], ◌∷◌, Ptr, length}
use lpel.Decen.Bisema.{Holding, Step, Reach, init, wait_turn}
use lpel.Decen.Bisema.Exclusion.{unheld, holders_exclude}

-- Task 4 gets in, and task 6 waits.
abbrev two_turns : Holding
two_turns = wait_turn 6 (wait_turn 4 unheld)

two_turns-Reach : Reach unheld two_turns
two_turns-Reach = Reach.next (Reach.next Reach.here (Step.turn 4 refl)) (Step.turn 6 refl)

test_holder : two_turns.holders ≡ 4 ∷ []
unfolding wait_turn init
test_holder = refl

holders_exclude_example :
    (length two_turns.holders ≤ 1)
    × ((t : Ptr) → two_turns.holders ≡ [] → (wait_turn t two_turns).holders ≡ t ∷ [])
holders_exclude_example = holders_exclude two_turns-Reach
