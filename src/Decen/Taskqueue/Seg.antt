-- ===== src/Decen/Taskqueue/Seg.antt =====
-- Segments of doubly linked tasks.
use lpel.Base.{
  ◌≡◌, refl, sym, ◌∙◌, arith, List, [], ◌∷◌, ◌++◌, Ptr, head_or, last_or, assign, assign_self,
  assign_ne, ◌∈◌, ◌∉◌, Distinct, mem-last, mem-head, ne_of_mem, head_or-append,
}
use lpel.Decen.Taskqueue.{Links}

-- The tasks are linked to one another, the first one's `prev` is `before`, and the last one's
-- `next` is `after`.
abbrev pub IsSeg : Links → Ptr → List Ptr → Ptr → Type 0
IsSeg l before [] after = Unit
IsSeg l before (x ∷ xs) after =
    (l.prev x ≡ before) × (l.next x ≡ head_or xs after) × IsSeg l x xs after

pub IsSeg_frame :
    (l l' : Links) (before : Ptr) (xs : List Ptr) (after : Ptr)
    → ((a : Ptr) → a ∈ xs → (l'.prev a ≡ l.prev a) × (l'.next a ≡ l.next a))
    → IsSeg l before xs after
    → IsSeg l' before xs after
IsSeg_frame l l' before [] after same s = tt
IsSeg_frame l l' before (x ∷ xs) after same s =
    let (p, n) = same x (mem-head x xs) in
    (p ∙ s.0, n ∙ s.1, IsSeg_frame l l' x xs after (λ a h. same a (ground (arith, h))) s.2)

-- Assignments to the links of a task outside the segment.
pub IsSeg_assign_next :
    (l : Links) (p v before : Ptr) (xs : List Ptr) (after : Ptr)
    → p ∉ xs
    → IsSeg l before xs after
    → IsSeg (record l { next = assign l.next p v }) before xs after
IsSeg_assign_next l p v before xs after h =
    IsSeg_frame l (record l { next = assign l.next p v }) before xs after
      λ a k. (refl, assign_ne l.next p a v (ne_of_mem a p xs k h))

pub IsSeg_assign_prev :
    (l : Links) (p v before : Ptr) (xs : List Ptr) (after : Ptr)
    → p ∉ xs
    → IsSeg l before xs after
    → IsSeg (record l { prev = assign l.prev p v }) before xs after
IsSeg_assign_prev l p v before xs after h =
    IsSeg_frame l (record l { prev = assign l.prev p v }) before xs after
      λ a k. (assign_ne l.prev p a v (ne_of_mem a p xs k h), refl)

pub IsSeg-append :
    (l : Links) (before : Ptr) (xs ys : List Ptr) (after : Ptr)
    → IsSeg l before xs (head_or ys after)
    → IsSeg l (last_or xs before) ys after
    → IsSeg l before (xs ++ ys) after
IsSeg-append l before [] ys after s t = t
IsSeg-append l before (x ∷ xs) ys after s t =
    (s.0, s.1 ∙ sym (head_or-append xs ys after), IsSeg-append l x xs ys after s.2 t)

pub IsSeg-left :
    (l : Links) (before : Ptr) (xs ys : List Ptr) (after : Ptr)
    → IsSeg l before (xs ++ ys) after
    → IsSeg l before xs (head_or ys after)
IsSeg-left l before [] ys after s = tt
IsSeg-left l before (x ∷ xs) ys after s =
    (s.0, s.1 ∙ head_or-append xs ys after, IsSeg-left l x xs ys after s.2)

pub IsSeg-right :
    (l : Links) (before : Ptr) (xs ys : List Ptr) (after : Ptr)
    → IsSeg l before (xs ++ ys) after
    → IsSeg l (last_or xs before) ys after
IsSeg-right l before [] ys after s = s
IsSeg-right l before (x ∷ xs) ys after s = IsSeg-right l x xs ys after s.2

-- The last task's `next` is moved.
pub IsSeg-assign_last :
    (l : Links) (v before x : Ptr) (xs : List Ptr) (after : Ptr)
    → Distinct (x ∷ xs)
    → IsSeg l before (x ∷ xs) after
    → IsSeg (record l { next = assign l.next (last_or xs x) v }) before (x ∷ xs) v
IsSeg-assign_last l v before x [] after d s = (s.0, assign_self l.next x v, tt)
IsSeg-assign_last l v before x (y ∷ xs) after d s = (
  s.0,
  assign_ne l.next (last_or xs y) x v
        (λ e. ne_of_mem (last_or xs y) x (y ∷ xs) (mem-last y xs) d.1 (sym e))
      ∙ s.1,
  IsSeg-assign_last l v x y xs after d.2 s.2,
)

-- The first task's `prev` is moved.
pub IsSeg-assign_first :
    (l : Links) (v before x : Ptr) (xs : List Ptr) (after : Ptr)
    → Distinct (x ∷ xs)
    → IsSeg l before (x ∷ xs) after
    → IsSeg (record l { prev = assign l.prev x v }) v (x ∷ xs) after
IsSeg-assign_first l v before x xs after d s =
    (assign_self l.prev x v, s.1, IsSeg_assign_prev l x v x xs after d.1 s.2)

-- The last task's links.
pub IsSeg-last_next :
    (l : Links) (before x : Ptr) (xs : List Ptr) (after : Ptr)
    → IsSeg l before (x ∷ xs) after
    → l.next (last_or xs x) ≡ after
IsSeg-last_next l before x [] after s = s.1
IsSeg-last_next l before x (y ∷ xs) after s = IsSeg-last_next l x y xs after s.2
