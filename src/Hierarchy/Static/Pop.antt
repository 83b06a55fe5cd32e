-- ===== src/Hierarchy/Static/Pop.antt =====
-- src/sched/hierarchy/static_taskqueue.c, LpelTaskqueuePop, LpelTaskqueuePeek and LpelTaskqueueDestroy.
use lpel.Base.{
  ℕ, zero, suc, ◌-◌, ◌^◌, ◌≤◌, ◌≡◌, ◌≢◌, refl, ap, sym, ◌∙◌, arith, inl, inr, Bool, List, [], ◌∷◌,
  Ptr, null, if◌then◌else◌, length, head_or, assign, assign_self, assign_ne, ==_of_ne, Bool-cases,
  load-ok, store-ok, ◌∉◌, Distinct, ne_of_mem,
}
use lpel.Base.Run.{Run, ok, assert_failed, ◌>>=◌}
use lpel.Decen.Taskqueue.{Links}
use lpel.Decen.Taskqueue.Seg.{IsSeg, IsSeg_frame}
use lpel.Decen.Taskqueue.Ends.{IsFree, dec-mod}
use lpel.Hierarchy.Static.Insert.{IsQueue}
use lpel.Hierarchy.Static.{Queue, dec, pop, destroy, peek_from, peek}

-- What LpelTaskqueuePop leaves: of a queue with tasks the first one is returned, in no queue any more,
-- and the others stay in order; of an empty queue NULL, and the count is one less modulo 2^32.
abbrev pub Popped : List Ptr → Run (Ptr × Links × Queue) → Type 0
Popped [] r = (l' : Links) × (q' : Queue) × (r ≡ ok (null, l', q')) × (q'.count ≡ 2 ^ 32 - 1)
Popped (x ∷ xs) r =
    (l' : Links) × (q' : Queue) × (r ≡ ok (x, l', q')) × IsQueue l' q' xs × IsFree l' x

pub pop-Popped : (l : Links) (q : Queue) (xs : List Ptr) → IsQueue l q xs → Popped xs (pop l q)
unfolding pop
pop-Popped l q [] v =
    (l, record { head = null; count = dec q.count }, rw v.head refl, ap dec v.count)
pop-Popped l q (x ∷ []) v = (
  record l { next = assign l.next x null },
  record { head = null; count = dec q.count },
  rw
      (
        v.head,
        ==_of_ne x null v.distinct.0,
        load-ok l.next x v.distinct.0,
        v.links.1,
        store-ok l.next x null v.distinct.0,
      )
      refl,
  record { head = refl; count = ap dec v.count; distinct = tt; links = tt },
  (v.links.0, assign_self l.next x null),
)
pop-Popped l q (x ∷ y ∷ xs) v =
    let d = v.distinct in
    let xy : x ≢ y = ground (arith, d.1) in
    let x_out : x ∉ xs = ground (arith, d.1) in
    let l1 : Links = record l { prev = assign l.prev y null } in
    let l2 : Links = record l1 { next = assign l.next x null } in
    (
      l2,
      record { head = y; count = dec q.count },
      rw
          (
            v.head,
            ==_of_ne x null d.0,
            load-ok l.next x d.0,
            v.links.1,
            ==_of_ne y null d.2.0,
            store-ok l.prev y null d.2.0,
            store-ok l.next x null d.0,
          )
          refl,
      record {
        head = refl;
        count = ap dec v.count ∙ dec-mod (suc (length xs));
        distinct = d.2;
        links = (
          assign_self l.prev y null,
          assign_ne l.next x y null (λ e. xy (sym e)) ∙ v.links.2.1,
          IsSeg_frame l l2 y xs null
              (λ a i. (
                assign_ne l.prev y a null (ne_of_mem a y xs i d.2.1),
                assign_ne l.next x a null (ne_of_mem a x xs i x_out),
              ))
              v.links.2.2,
        );
      },
      (assign_ne l.prev y x null xy ∙ v.links.0, assign_self l.next x null),
    )

-- The first valid task of a list, or NULL.
abbrev pub first_valid : (Ptr → Bool) → List Ptr → Ptr
first_valid valid [] = null
first_valid valid (x ∷ xs) = if valid x then x else first_valid valid xs

peek_from-first_valid :
    (valid : Ptr → Bool) (fuel : ℕ) (before : Ptr) (xs : List Ptr) (l : Links)
    → length xs ≤ fuel
    → Distinct xs
    → IsSeg l before xs null
    → peek_from valid fuel (head_or xs null) l ≡ ok (first_valid valid xs)
unfolding peek_from
peek_from-first_valid valid zero before [] l k d s = refl
peek_from-first_valid valid (suc fuel) before [] l k d s = refl
peek_from-first_valid valid zero before (x ∷ xs) l k d s = absurd (omega arith)
peek_from-first_valid valid (suc fuel) before (x ∷ xs) l k d s = elim (Bool-cases (valid x)) [
  | inl e ↦ rw (==_of_ne x null d.0, e) refl
  | inr e ↦
      rw (==_of_ne x null d.0, e, load-ok l.next x d.0, s.1)
        (peek_from-first_valid valid fuel x xs l (omega arith) d.2 s.2)
]

-- LpelTaskqueuePeek with a turn for each task returns the first valid one, or NULL.
pub peek-first_valid :
    (valid : Ptr → Bool) (fuel : ℕ) (l : Links) (q : Queue) (xs : List Ptr)
    → length xs ≤ fuel
    → IsQueue l q xs
    → peek valid fuel l q ≡ ok (first_valid valid xs)
unfolding peek
peek-first_valid valid fuel l q xs k v =
    rw v.head (peek_from-first_valid valid fuel null xs l k v.distinct v.links)

-- After a pop of the empty queue LpelTaskqueueDestroy fails its assertion, though no task is in it.
pub destroy-pop :
    (l : Links) (q : Queue)
    → IsQueue l q []
    → (pop l q >>= λ (t, l', q'). destroy q') ≡ assert_failed
unfolding pop destroy
destroy-pop l q v = rw (v.head, v.count) refl
