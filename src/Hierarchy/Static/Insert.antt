-- ===== src/Hierarchy/Static/Insert.antt =====
-- src/sched/hierarchy/static_taskqueue.c, LpelTaskqueuePush: the insertion by priority.
use lpel.Decen.Taskqueue.Seg.{IsSeg_assign_next, IsSeg-assign_first}
use lpel.Decen.Taskqueue.Ends.{inc-mod, SameOutside, IsFree}
use lpel.Base.{
  zero, ne_of_mem, ==_of_ne, sym, assign_self, ◌∙◌, assign_ne, store-ok, load-ok, assign, refl, ◌<◌,
  arith, ◌||◌, ap, ◌∉◌, ℕ, ◌==◌, ◌≢◌, false, mem, suc, ◌%◌, ◌^◌, ◌≡◌, inl, inr, Bool, true, List,
  [], ◌∷◌, Ptr, null, if◌then◌else◌, length, head_or, Bool-cases, Distinct,
}
use lpel.Decen.Taskqueue.{Links}
use lpel.Decen.Taskqueue.Seg.{IsSeg_frame, IsSeg}
use lpel.Hierarchy.Static.{ok, Run, Queue, inc, push_from, push}

out_head : (a x : Ptr) (xs : List Ptr) → a ∉ x ∷ xs → a ≢ x
out_head a x xs h = ground (arith, h)

out_tail : (a x : Ptr) (xs : List Ptr) → a ∉ x ∷ xs → a ∉ xs
out_tail a x xs h = ground (arith, h)

in_cons : (a x : Ptr) (xs : List Ptr) → a ≢ x → a ∉ xs → a ∉ x ∷ xs
in_cons a x xs h k = rw (==_of_ne a x h) k

-- A queue and the tasks that it holds, first one first.
pub record IsQueue (l : Links) (q : Queue) (xs : List Ptr) : Type 0 where
  pub head : q.head ≡ head_or xs null
  pub count : q.count ≡ length xs % 2 ^ 32
  pub distinct : Distinct xs
  pub links : IsSeg l null xs null

module _ (at_least : Ptr → Ptr → Bool) where
  -- Where a task goes: before the first one that it is not below.
  pub insert : Ptr → List Ptr → List Ptr
  insert t [] = t ∷ []
  insert t (x ∷ xs) = if at_least t x then t ∷ x ∷ xs else x ∷ insert t xs

  -- Each task is at least the next one.
  abbrev pub IsSorted : List Ptr → Type 0
  IsSorted [] = Unit
  IsSorted (x ∷ []) = Unit
  IsSorted (x ∷ y ∷ xs) = (at_least x y ≡ true) × IsSorted (y ∷ xs)

  head-insert :
      (t : Ptr) (x : Ptr) (xs : List Ptr)
      → (at_least x t ≡ true)
      → IsSorted (x ∷ xs)
      → IsSorted (insert t xs)
      → IsSorted (x ∷ insert t xs)
  unfolding insert
  head-insert t x [] h s k = (h, k)
  head-insert t x (y ∷ xs) h s k = elim (Bool-cases (at_least t y)) [
    | inl e ↦ rw e (h, (e, s.1))
    | inr e ↦ rw e (s.0, rw e at k)
  ]

  -- A task that is below another is not at least as high, so the other is.
  insert-IsSorted :
      ((a b : Ptr) → at_least a b ≡ false → at_least b a ≡ true)
      → (t : Ptr) (xs : List Ptr) → IsSorted xs
      → IsSorted (insert t xs)
  unfolding insert
  insert-IsSorted total t [] s = tt
  insert-IsSorted total t (x ∷ []) s = elim (Bool-cases (at_least t x)) [
    | inl e ↦ rw e (e, tt)
    | inr e ↦ rw e (total t x e, tt)
  ]
  insert-IsSorted total t (x ∷ y ∷ xs) s = elim (Bool-cases (at_least t x)) [
    | inl e ↦ rw e (e, s)
    | inr e ↦ rw e (head-insert t x (y ∷ xs) (total t x e) s (insert-IsSorted total t (y ∷ xs) s.1))
  ]

  insert-mem : (a t : Ptr) (xs : List Ptr) → mem a (insert t xs) ≡ (a == t || mem a xs)
  unfolding insert
  insert-mem a t [] = refl
  insert-mem a t (x ∷ xs) = elim (Bool-cases (at_least t x)) [
    | inl e ↦ rw e refl
    | inr e ↦ rw e (ground (arith, insert-mem a t xs))
  ]

  insert-Distinct :
      (t : Ptr) (xs : List Ptr) → t ≢ null → t ∉ xs → Distinct xs → Distinct (insert t xs)
  unfolding insert
  insert-Distinct t [] n h d = (n, refl, tt)
  insert-Distinct t (x ∷ xs) n h d = elim (Bool-cases (at_least t x)) [
    | inl e ↦ rw e (n, h, d)
    | inr e ↦ rw e (
      d.0,
      ground (arith, insert-mem x t xs, h, d.1),
      insert-Distinct t xs n (ground (arith, h)) d.2,
    )
  ]

  insert-length : (t : Ptr) (xs : List Ptr) → length (insert t xs) ≡ suc (length xs)
  unfolding insert
  insert-length t [] = refl
  insert-length t (x ∷ xs) = elim (Bool-cases (at_least t x)) [
    | inl e ↦ rw e refl
    | inr e ↦ rw e (ap suc (insert-length t xs))
  ]

  -- The loop behind `cur`: the task is linked in where it goes, and no other task is written.
  push_from-IsSeg :
      (fuel : ℕ) (t before cur : Ptr) (xs : List Ptr) (l : Links)
      → length xs < fuel
      → t ≢ null
      → t ∉ cur ∷ xs
      → IsFree l t
      → Distinct (cur ∷ xs)
      → IsSeg l before (cur ∷ xs) null
      → (l' : Links) × (push_from at_least fuel t cur l ≡ ok l')
        × IsSeg l' before (cur ∷ insert t xs) null
        × SameOutside (t ∷ cur ∷ xs) l l'
        × (l'.prev cur ≡ l.prev cur)
  unfolding push_from insert
  push_from-IsSeg zero t before cur xs l k n h f d s = absurd (omega arith)
  push_from-IsSeg (suc fuel) t before cur [] l k n h f d s =
      let te = out_head t cur [] h in
      let ne : cur ≢ t = λ e. te (sym e) in
      let l1 : Links = record l { next = assign l.next cur t } in
      (
        record l1 { prev = assign l.prev t cur },
        rw (load-ok l.next cur d.0, s.1, store-ok l.next cur t d.0, store-ok l.prev t cur n) refl,
        (
          assign_ne l.prev t cur cur ne ∙ s.0,
          assign_self l.next cur t,
          (assign_self l.prev t cur, assign_ne l.next cur t t te ∙ f.1, tt),
        ),
        λ a o.
            let oc = out_head a cur [] (out_tail a t (cur ∷ []) o) in
            (assign_ne l.prev t a cur (out_head a t (cur ∷ []) o), assign_ne l.next cur a t oc),
        assign_ne l.prev t cur cur ne,
      )
  push_from-IsSeg (suc fuel) t before cur (x ∷ xs) l k n h f d s =
      let te = out_head t cur (x ∷ xs) h in
      let hx = out_tail t cur (x ∷ xs) h in
      let ne : cur ≢ t = λ e. te (sym e) in
      let tx = out_head t x xs hx in
      let nx : x ≢ t = λ e. tx (sym e) in
      let cx = out_head cur x xs d.1 in
      let hxs = out_tail t x xs hx in
      let cxs = out_tail cur x xs d.1 in
      elim (Bool-cases (at_least t x)) [
        | inl e ↦
            let l1 : Links = record l { prev = assign l.prev x t } in
            let l2 : Links = record l1 { next = assign l.next t x } in
            let l3 : Links = record l2 { next = assign l2.next cur t } in
            let l4 : Links = record l3 { prev = assign l1.prev t cur } in
            (
              l4,
              rw
                  (
                    load-ok l.next cur d.0,
                    s.1,
                    ==_of_ne x null d.2.0,
                    e,
                    store-ok l.prev x t d.2.0,
                    store-ok l.next t x n,
                    store-ok l2.next cur t d.0,
                    store-ok l1.prev t cur n,
                  )
                  refl,
              rw e (
                assign_ne l1.prev t cur cur ne ∙ assign_ne l.prev x cur t cx ∙ s.0,
                assign_self l2.next cur t,
                (
                  assign_self l1.prev t cur,
                  assign_ne l2.next cur t t te ∙ assign_self l.next t x,
                  (
                    assign_ne l1.prev t x cur nx ∙ assign_self l.prev x t,
                    assign_ne l2.next cur x t (λ q. cx (sym q)) ∙ assign_ne l.next t x x nx ∙ s.2.1,
                    IsSeg_frame l l4 x xs null
                        (λ a i. (
                          assign_ne l1.prev t a cur (ne_of_mem a t xs i hxs)
                              ∙ assign_ne l.prev x a t (ne_of_mem a x xs i d.2.1),
                          assign_ne l2.next cur a t (ne_of_mem a cur xs i cxs)
                              ∙ assign_ne l.next t a x (ne_of_mem a t xs i hxs),
                        ))
                        s.2.2,
                  ),
                ),
              ),
              λ a o.
                  let ot = out_head a t (cur ∷ x ∷ xs) o in
                  let oc = out_tail a t (cur ∷ x ∷ xs) o in
                  let ox = out_tail a cur (x ∷ xs) oc in
                  (
                    assign_ne l1.prev t a cur ot ∙ assign_ne l.prev x a t (out_head a x xs ox),
                    assign_ne l2.next cur a t (out_head a cur (x ∷ xs) oc)
                        ∙ assign_ne l.next t a x ot,
                  ),
              assign_ne l1.prev t cur cur ne ∙ assign_ne l.prev x cur t cx,
            )
        | inr e ↦
            let (l', run, seg, same, first) =
              push_from-IsSeg fuel t cur x xs l (omega arith) n hx f d.2 s.2 in
            let at_cur = same cur (in_cons cur t (x ∷ xs) ne d.1) in
            (
              l',
              rw (load-ok l.next cur d.0, s.1, ==_of_ne x null d.2.0, e) run,
              rw e (at_cur.0 ∙ s.0, at_cur.1 ∙ s.1, seg),
              λ a o.
                  let oc = out_tail a t (cur ∷ x ∷ xs) o in
                  same a (
                    in_cons a t (x ∷ xs) (out_head a t (cur ∷ x ∷ xs) o)
                      (out_tail a cur (x ∷ xs) oc)),
              at_cur.0,
            )
      ]

  -- The queue after LpelTaskqueuePush.
  abbrev pub Pushed : List Ptr → Run (Links × Queue) → Type 0
  Pushed ys r = (l' : Links) × (q' : Queue) × (r ≡ ok (l', q')) × IsQueue l' q' ys

  push-Pushed :
      (fuel : ℕ) (t : Ptr) (xs : List Ptr) (l : Links) (q : Queue)
      → length xs < fuel
      → IsQueue l q xs
      → t ≢ null
      → IsFree l t
      → t ∉ xs
      → Pushed (insert t xs) (push at_least fuel t l q)
  unfolding push insert
  push-Pushed fuel t [] l q k v n f h = (
    l,
    record { head = t; count = inc q.count },
    rw (load-ok l.prev t n, load-ok l.next t n, f.0, f.1, v.head) refl,
    record {
      head = refl;
      count = ap inc v.count;
      distinct = (n, refl, tt);
      links = (f.0, f.1, tt);
    },
  )
  push-Pushed fuel t (x ∷ xs) l q k v n f h =
      let x_ne = v.distinct.0 in
      let count : inc q.count ≡ length (insert t (x ∷ xs)) % 2 ^ 32 =
        ap inc v.count
        ∙ inc-mod (suc (length xs))
        ∙ ap (λ m. m % 2 ^ 32) (sym (insert-length t (x ∷ xs))) in
      let distinct = insert-Distinct t (x ∷ xs) n h v.distinct in
      elim (Bool-cases (at_least t x)) [
        | inl e ↦
            let l1 : Links = record l { prev = assign l.prev x t } in
            (
              record l1 { next = assign l.next t x },
              record { head = t; count = inc q.count },
              rw
                  (
                    load-ok l.prev t n,
                    load-ok l.next t n,
                    f.0,
                    f.1,
                    v.head,
                    ==_of_ne x null x_ne,
                    e,
                    store-ok l.prev x t x_ne,
                    store-ok l.next t x n,
                  )
                  refl,
              record {
                head = rw e refl;
                count = count;
                distinct = distinct;
                links = rw e (
                  assign_ne l.prev x t t (out_head t x xs h) ∙ f.0,
                  assign_self l.next t x,
                  IsSeg_assign_next l1 t x t (x ∷ xs) null h
                      (IsSeg-assign_first l t null x xs null v.distinct v.links),
                );
              },
            )
        | inr e ↦
            let (l', run, seg, same, first) =
              push_from-IsSeg fuel t null x xs l (omega arith) n h f v.distinct v.links in
            (
              l',
              record { head = q.head; count = inc q.count },
              rw
                  (
                    load-ok l.prev t n,
                    load-ok l.next t n,
                    f.0,
                    f.1,
                    v.head,
                    ==_of_ne x null x_ne,
                    e,
                    run,
                  )
                  refl,
              record { head = rw e v.head; count = count; distinct = distinct; links = rw e seg },
            )
      ]

  -- The comparison is total. LpelTaskqueuePush of a task that is in no queue, on a queue in
  -- descending order, with more fuel than there are tasks, returns: the task is before the first one
  -- that it is not below, the others keep their order, the queue is in descending order, and the
  -- count, modulo 2^32, is that of its tasks.
  pub push-IsSorted :
      (fuel : ℕ) (t : Ptr) (xs : List Ptr) (l : Links) (q : Queue)
      → ((a b : Ptr) → at_least a b ≡ false → at_least b a ≡ true)
      → length xs < fuel
      → IsQueue l q xs
      → IsSorted xs
      → t ≢ null
      → IsFree l t
      → t ∉ xs
      → Pushed (insert t xs) (push at_least fuel t l q) × IsSorted (insert t xs)
  push-IsSorted fuel t xs l q total k v s n f h =
      (push-Pushed fuel t xs l q k v n f h, insert-IsSorted total t xs s)
