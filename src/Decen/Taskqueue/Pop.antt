-- ===== src/Decen/Taskqueue/Pop.antt =====
-- `LpelTaskqueuePop` and `LpelTaskqueuePopBack`.
use lpel.Base.{
  ◌%◌, ◌^◌, ◌≡◌, ◌≢◌, refl, ap, sym, ◌∙◌, arith, inl, inr, List, [], ◌∷◌, ◌++◌, Ptr, null, length,
  last_or, assign, assign_self, assign_ne, length-append, ==_of_ne, Bool-cases, load-ok, store-ok,
  mem, ◌∈◌, ◌∉◌, mem-last, ne_of_mem, ne_null_of_mem, last_or-append, Distinct-left, Distinct-right,
  Distinct-apart,
}
use lpel.Base.Run.{Run, ok}
use lpel.Decen.Taskqueue.{Links, Queue, dec, pop, pop_back}
use lpel.Decen.Taskqueue.Seg.{
  IsSeg_assign_next, IsSeg_assign_prev, IsSeg-left, IsSeg-right, IsSeg-assign_last,
  IsSeg-assign_first,
}
use lpel.Decen.Taskqueue.Ends.{IsQueue, IsFree, SameOutside, dec-mod}

-- What a pop of `t` leaves: the tasks `ys`, with `t` in no queue and no other task's links written
-- but those of `ys`.
abbrev pub Popped : Links → Ptr → List Ptr → Run (Ptr × Links × Queue) → Type 0
Popped l t ys r =
    (l' : Links) × (q' : Queue) × (r ≡ ok (t, l', q'))
    × IsQueue l' q' ys
    × IsFree l' t
    × SameOutside (t ∷ ys) l l'

-- `LpelTaskqueuePop` of an empty queue returns NULL.
pub pop-nil : {l : Links} {q : Queue} → IsQueue l q [] → pop l q ≡ ok (null, l, q)
unfolding pop
pop-nil v = rw v.head

-- `LpelTaskqueuePop` returns the first task of a queue that is not empty, with its links cleared, and
-- keeps the others in order.
pub pop-Popped :
    {l : Links} {q : Queue} (t : Ptr) (xs : List Ptr)
    → IsQueue l q (t ∷ xs)
    → Popped l t xs (pop l q)
unfolding pop
pop-Popped {l} {q} t [] v = (
  l,
  record { head = null; tail = null; count = dec q.count },
  rw (
    v.head,
    ==_of_ne t null v.distinct.0,
    load-ok l.next t v.distinct.0,
    v.links.1,
    load-ok l.prev t v.distinct.0,
    v.links.0,
    load-ok l.next t v.distinct.0,
    v.links.1,
  ),
  record {
    head = refl;
    tail = refl;
    count = ap dec v.count ∙ dec-mod 0;
    distinct = tt;
    links = tt;
  },
  (v.links.0, v.links.1),
  λ a h. (refl, refl),
)
pop-Popped {l} {q} t (x ∷ xs) v =
    let l₁ : Links = record l { prev = assign l.prev x null } in
    let l₂ : Links = record l₁ { next = assign l.next t null } in
    let ne : t ≢ x = ground (arith, v.distinct.1) in
    let prev_t : assign l.prev x null t ≡ null = assign_ne l.prev x t null ne ∙ v.links.0 in
    let next_t = assign_self l.next t null in
    (
      l₂,
      record q { head = x; count = dec q.count },
      rw (
        v.head,
        ==_of_ne t null v.distinct.0,
        load-ok l.next t v.distinct.0,
        v.links.1,
        ==_of_ne x null v.distinct.2.0,
        store-ok l.prev x null v.distinct.2.0,
        store-ok l.next t null v.distinct.0,
        load-ok (assign l.prev x null) t v.distinct.0,
        load-ok (assign l.next t null) t v.distinct.0,
        prev_t,
        next_t,
      ),
      record {
        head = refl;
        tail = v.tail;
        count = ap dec v.count ∙ dec-mod (length (x ∷ xs));
        distinct = v.distinct.2;
        links =
            IsSeg_assign_next l₁ t null null (x ∷ xs) null v.distinct.1
              (IsSeg-assign_first l null t x xs null v.distinct.2 v.links.2);
      },
      (prev_t, next_t),
      λ a h. (
        assign_ne l.prev x a null (ground (arith, h)),
        assign_ne l.next t a null (ground (arith, h)),
      ),
    )

last-not_mem : (t : Ptr) (xs : List Ptr) → ((a : Ptr) → a ∈ xs → a ∉ t ∷ []) → t ∉ xs
last-not_mem t xs apart = elim (Bool-cases (mem t xs)) [
  | inl k ↦ absurd (ground (arith, apart t k))
  | inr k ↦ k
]

-- `LpelTaskqueuePopBack` of an empty queue returns NULL.
pub pop_back-nil : {l : Links} {q : Queue} → IsQueue l q [] → pop_back l q ≡ ok (null, l, q)
unfolding pop_back
pop_back-nil v = rw v.tail

-- `LpelTaskqueuePopBack` returns the last task of a queue that is not empty, with its links cleared,
-- and keeps the others in order.
pub pop_back-Popped :
    {l : Links} {q : Queue} (xs : List Ptr) (t : Ptr)
    → IsQueue l q (xs ++ (t ∷ []))
    → Popped l t xs (pop_back l q)
unfolding pop_back
pop_back-Popped {l} {q} [] t v = (
  l,
  record { head = null; tail = null; count = dec q.count },
  rw (
    v.tail,
    ==_of_ne t null v.distinct.0,
    load-ok l.prev t v.distinct.0,
    v.links.0,
    load-ok l.prev t v.distinct.0,
    v.links.0,
    load-ok l.next t v.distinct.0,
    v.links.1,
  ),
  record {
    head = refl;
    tail = refl;
    count = ap dec v.count ∙ dec-mod 0;
    distinct = tt;
    links = tt;
  },
  (v.links.0, v.links.1),
  λ a h. (refl, refl),
)
pop_back-Popped {l} {q} (x ∷ xs) t v =
    let p = last_or xs x in
    let l₁ : Links = record l { next = assign l.next p null } in
    let l₂ : Links = record l₁ { prev = assign l.prev t null } in
    let right = IsSeg-right l null (x ∷ xs) (t ∷ []) null v.links in
    let d_right = Distinct-right (x ∷ xs) (t ∷ []) v.distinct in
    let d_left = Distinct-left (x ∷ xs) (t ∷ []) v.distinct in
    let apart = Distinct-apart (x ∷ xs) (t ∷ []) v.distinct in
    let p_ok : p ≢ null = ne_null_of_mem p (x ∷ xs) d_left (mem-last x xs) in
    let ne : t ≢ p = ground (arith, apart p (mem-last x xs)) in
    let out = last-not_mem t (x ∷ xs) apart in
    let tail : q.tail ≡ t = v.tail ∙ last_or-append xs (t ∷ []) x in
    let next_t : assign l.next p null t ≡ null = assign_ne l.next p t null ne ∙ right.1 in
    let prev_t = assign_self l.prev t null in
    (
      l₂,
      record q { tail = p; count = dec q.count },
      rw (
        tail,
        ==_of_ne t null d_right.0,
        load-ok l.prev t d_right.0,
        right.0,
        ==_of_ne p null p_ok,
        store-ok l.next p null p_ok,
        store-ok l.prev t null d_right.0,
        load-ok (assign l.prev t null) t d_right.0,
        load-ok (assign l.next p null) t d_right.0,
        prev_t,
        next_t,
      ),
      record {
        head = v.head;
        tail = refl;
        count =
            ap dec v.count
            ∙ ap (λ n. dec (n % 2 ^ 32)) (omega (arith, length-append (x ∷ xs) (t ∷ [])))
            ∙ dec-mod (length (x ∷ xs));
        distinct = d_left;
        links = IsSeg_assign_prev l₁ t null null (x ∷ xs) null out (
            IsSeg-assign_last l null null x xs t d_left
              (IsSeg-left l null (x ∷ xs) (t ∷ []) null v.links));
      },
      (prev_t, next_t),
      λ a h. (
        assign_ne l.prev t a null (ground (arith, h)),
        assign_ne l.next p a null
            (λ e. ne_of_mem p a (x ∷ xs) (mem-last x xs) (ground (arith, h)) (sym e)),
      ),
    )
