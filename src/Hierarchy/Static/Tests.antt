-- ===== src/Hierarchy/Static/Tests.antt =====
-- The tasks 3, 5 and 8 with their numbers as priorities.
use lpel.Base.{◌≡◌, refl, arith, Bool, true, false, [], ◌∷◌, Ptr, null, leb}
use lpel.Decen.Taskqueue.{Links}
use lpel.Hierarchy.Static.{Queue, push}
use lpel.Hierarchy.Static.Insert.{IsQueue, IsSorted, insert, Pushed, push-IsSorted}

abbrev by_number : Ptr → Ptr → Bool
by_number a b = leb b a

abbrev no_links : Links
no_links = record { prev = λ a. null; next = λ a. null }

abbrev one : Queue
one = record { head = 5; count = 1 }

one-IsQueue : IsQueue no_links one (5 ∷ [])
one-IsQueue = record {
  head = refl;
  count = refl;
  distinct = (omega arith, refl, tt);
  links = (refl, refl, tt);
}

by_number_total : (a b : Ptr) → by_number a b ≡ false → by_number b a ≡ true
by_number_total a b h = ground (arith, h)

push-IsSorted_example :
    Pushed by_number (insert by_number 3 (5 ∷ [])) (push by_number 2 3 no_links one)
    × IsSorted by_number (insert by_number 3 (5 ∷ []))
push-IsSorted_example =
    push-IsSorted by_number 2 3 (5 ∷ []) no_links one by_number_total (omega arith) one-IsQueue tt
      (omega arith) (refl, refl) refl
