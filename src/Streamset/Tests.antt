-- ===== src/Streamset/Tests.antt =====
-- The theorems on stream sets at the set of the descriptors 3, 5 and 9.
use lpel.Base.{◌≡◌, refl, arith, [], ◌∷◌, Ptr, null, ◌==◌, if◌then◌else◌}
use lpel.Base.Run.{ok}
use lpel.Streamset.{Set, Iter, remove, reset, remove_current, visit}
use lpel.Streamset.Ring.{IsRing}
use lpel.Streamset.Remove.{Removed, remove-Removed}
use lpel.Streamset.Iterate.{Cursor, visit-reset}
use lpel.Streamset.Edit.{remove_current-Cursor}

-- The links 3 → 5 → 9 → 3.
abbrev links : Ptr → Ptr
links a = if a == 3 then 5 else if a == 5 then 9 else if a == 9 then 3 else null

abbrev three : Set
three = record { next = links; handle = 9 }

abbrev empty : Set
empty = record { next = λ a. null; handle = null }

three-IsRing : IsRing three (3 ∷ 5 ∷ 9 ∷ [])
three-IsRing = record { handle = refl; distinct = ground arith; chain = (refl, (refl, (refl, tt))) }

remove-Removed_example : Removed 5 three (3 ∷ 5 ∷ 9 ∷ []) (remove 3 5 three)
remove-Removed_example = remove-Removed 3 5 3 (5 ∷ 9 ∷ []) three-IsRing (omega arith)

visit-reset_example : visit 3 three (reset three) ≡ ok (3 ∷ 5 ∷ 9 ∷ [])
visit-reset_example = visit-reset 3 (3 ∷ 5 ∷ 9 ∷ []) three-IsRing (omega arith)

-- The iterator that has met 3.
abbrev at_three : Iter
at_three = record { cur = 3; prev = 9 }

at_three-Cursor : Cursor three at_three (3 ∷ []) (5 ∷ 9 ∷ [])
at_three-Cursor = record { ring = three-IsRing; at = λ h. refl; before = λ h e. cc }

remove_current-Cursor_example :
    (t : Set) × (it' : Iter) × (remove_current three at_three ≡ ok (t, it'))
    × Cursor t it' [] (5 ∷ 9 ∷ [])
    × (t.next 3 ≡ null)
remove_current-Cursor_example = remove_current-Cursor [] 3 (5 ∷ 9 ∷ []) at_three-Cursor refl
