-- ===== src/Decen/Taskqueue/Push.antt =====
-- `LpelTaskqueuePush` and `LpelTaskqueuePushFront`.
use lpel.Base.{
  ◌%◌, ◌^◌, ◌≡◌, ◌≢◌, refl, ap, sym, subst, ◌∙◌, arith, List, [], ◌∷◌, ◌++◌, Ptr, null, length,
  last_or, assign, assign_self, assign_ne, length-append, ==_of_ne, load-ok, store-ok, ◌∉◌,
  mem-append, mem-last, mem-head, ne_of_mem, last_or-append, Distinct-append,
}
use lpel.Base.Run.{Run, ok}
use lpel.Decen.Taskqueue.{Links, Queue, inc, push, push_front}
use lpel.Decen.Taskqueue.Seg.{
  IsSeg, IsSeg_assign_next, IsSeg_assign_prev, IsSeg-append, IsSeg-assign_last, IsSeg-assign_first,
}
use lpel.Decen.Taskqueue.Ends.{IsQueue, IsFree, SameOutside, inc-mod, head-ne_null, tail-ne_null}

not-mem-parts : (a t : Ptr) (xs : List Ptr) → a ∉ xs ++ (t ∷ []) → (a ∉ xs) × (a ≢ t)
not-mem-parts a t xs h = ground (arith, mem-append a xs (t ∷ []))

push_count :
    {l : Links} {q : Queue} (t : Ptr) (xs : List Ptr)
    → IsQueue l q xs
    → inc q.count ≡ length (xs ++ (t ∷ [])) % 2 ^ 32
push_count t xs v =
    ap inc v.count
    ∙ inc-mod (length xs)
    ∙ ap (λ n. n % 2 ^ 32) (omega (arith, length-append xs (t ∷ [])))

-- What a push leaves: the tasks `ys`, with no other task's links written.
abbrev pub Pushed : Links → List Ptr → Run (Links × Queue) → Type 0
Pushed l ys r =
    (l' : Links) × (q' : Queue) × (r ≡ ok (l', q')) × IsQueue l' q' ys × SameOutside ys l l'

-- `LpelTaskqueuePush` puts a task that is not NULL and in no queue behind the others, and writes no
-- other task; the count is modulo 2^32.
pub push-Pushed :
    {l : Links} {q : Queue} (t : Ptr) (xs : List Ptr)
    → IsQueue l q xs
    → t ≢ null
    → IsFree l t
    → t ∉ xs
    → Pushed l (xs ++ (t ∷ [])) (push t l q)
unfolding push
push-Pushed {l} {q} t [] v ne free out = (
  l,
  record { head = t; tail = t; count = inc q.count },
  rw (load-ok l.prev t ne, load-ok l.next t ne, free.0, free.1, v.head),
  record {
    head = refl;
    tail = refl;
    count = rw v.count;
    distinct = (ne, refl, tt);
    links = (free.0, free.1, tt);
  },
  λ a h. (refl, refl),
)
push-Pushed {l} {q} t (x ∷ xs) v ne free out =
    let l₁ : Links = record l { next = assign l.next q.tail t } in
    let l₂ : Links = record l₁ { prev = assign l.prev t q.tail } in
    (
      l₂,
      record q { tail = t; count = inc q.count },
      rw (
        load-ok l.prev t ne,
        load-ok l.next t ne,
        free.0,
        free.1,
        ==_of_ne q.head null (head-ne_null x xs v),
        store-ok l.next q.tail t (tail-ne_null x xs v),
        store-ok l.prev t q.tail ne,
      ),
      record {
        head = v.head;
        tail = sym (last_or-append xs (t ∷ []) x);
        count = push_count t (x ∷ xs) v;
        distinct =
            Distinct-append (x ∷ xs) (t ∷ []) v.distinct (ne, refl, tt)
              (λ a h. ground (arith, ne_of_mem a t (x ∷ xs) h out));
        links =
            IsSeg-append l₂ null (x ∷ xs) (t ∷ []) null
              (IsSeg_assign_prev l₁ t q.tail null (x ∷ xs) t out (
                subst (λ p. IsSeg (record l { next = assign l.next p t }) null (x ∷ xs) t)
                  (sym v.tail) (IsSeg-assign_last l t null x xs null v.distinct v.links)))
              (assign_self l.prev t q.tail ∙ v.tail, assign_ne l.next q.tail t t away ∙ free.1, tt);
      },
      λ a h.
          let (h', ne') = not-mem-parts a t (x ∷ xs) h in
          (
            assign_ne l.prev t a q.tail ne',
            assign_ne l.next q.tail a t
                (λ e. ne_of_mem (last_or xs x) a (x ∷ xs) (mem-last x xs) h' (sym (e ∙ v.tail))),
          ),
    )
  where
    away : t ≢ q.tail
    away e = ne_of_mem (last_or xs x) t (x ∷ xs) (mem-last x xs) out (sym (e ∙ v.tail))

-- `LpelTaskqueuePushFront` puts a task that is not NULL and in no queue before the others, and writes
-- no other task; the count is modulo 2^32.
pub push_front-Pushed :
    {l : Links} {q : Queue} (t : Ptr) (xs : List Ptr)
    → IsQueue l q xs
    → t ≢ null
    → IsFree l t
    → t ∉ xs
    → Pushed l (t ∷ xs) (push_front t l q)
unfolding push_front
push_front-Pushed {l} {q} t [] v ne free out = (
  l,
  record { head = t; tail = t; count = inc q.count },
  rw (load-ok l.prev t ne, load-ok l.next t ne, free.0, free.1, v.tail),
  record {
    head = refl;
    tail = refl;
    count = rw v.count;
    distinct = (ne, refl, tt);
    links = (free.0, free.1, tt);
  },
  λ a h. (refl, refl),
)
push_front-Pushed {l} {q} t (x ∷ xs) v ne free out =
    let l₁ : Links = record l { prev = assign l.prev q.head t } in
    let l₂ : Links = record l₁ { next = assign l.next t q.head } in
    (
      l₂,
      record q { head = t; count = inc q.count },
      rw (
        load-ok l.prev t ne,
        load-ok l.next t ne,
        free.0,
        free.1,
        ==_of_ne q.tail null (tail-ne_null x xs v),
        store-ok l.prev q.head t (head-ne_null x xs v),
        store-ok l.next t q.head ne,
      ),
      record {
        head = refl;
        tail = v.tail;
        count = ap inc v.count ∙ inc-mod (length (x ∷ xs));
        distinct = (ne, out, v.distinct);
        links = (
          assign_ne l.prev q.head t t away ∙ free.0,
          assign_self l.next t q.head ∙ v.head,
          IsSeg_assign_next l₁ t q.head t (x ∷ xs) null out (
              subst (λ p. IsSeg (record l { prev = assign l.prev p t }) t (x ∷ xs) null)
                (sym v.head) (IsSeg-assign_first l t null x xs null v.distinct v.links)),
        );
      },
      λ a h. (
        assign_ne l.prev q.head a t
            (λ e. ne_of_mem x a (x ∷ xs) (mem-head x xs) (ground (arith, h)) (sym (e ∙ v.head))),
        assign_ne l.next t a q.head (ground (arith, h)),
      ),
    )
  where
    away : t ≢ q.head
    away e = ne_of_mem x t (x ∷ xs) (mem-head x xs) out (sym (e ∙ v.head))
