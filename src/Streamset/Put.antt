-- ===== src/Streamset/Put.antt =====
-- `LpelStreamsetPut` appends.
use lpel.Base.{
  ◌≡◌, ◌≢◌, refl, sym, subst, ◌∙◌, arith, List, [], ◌∷◌, ◌++◌, Ptr, null, last_or, assign,
  assign_self, assign_ne, ==_of_ne, load-ok, store-ok, ◌∉◌, IsChain, mem-append, mem-last,
  ne_of_mem, IsChain-assign, last_or-append, IsChain-append, IsChain-assign_last, Distinct-append,
}
use lpel.Base.Run.{ok}
use lpel.Streamset.{Set, put}
use lpel.Streamset.Ring.{IsRing, SameOutside, handle-ne_null, next-handle}

-- The two assignments that put `node` behind the last descriptor.
pub insert_last-IsRing :
    {s : Set} (node x : Ptr) (xs : List Ptr)
    → IsRing s (x ∷ xs)
    → node ≢ null
    → node ∉ x ∷ xs
    → IsRing
        (record { next = assign (assign s.next node x) s.handle node; handle = node })
        ((x ∷ xs) ++ (node ∷ []))
insert_last-IsRing {s} node x xs r ne out = record {
  handle = sym (last_or-append xs (node ∷ []) x);
  distinct =
      Distinct-append (x ∷ xs) (node ∷ []) r.distinct (ne, refl, tt)
        (λ a h. ground (arith, ne_of_mem a node (x ∷ xs) h out));
  chain =
      IsChain-append (assign (assign s.next node x) s.handle node) (x ∷ xs) (node ∷ []) x
        (subst (λ h. IsChain (assign (assign s.next node x) h node) (x ∷ xs) node) (sym r.handle)
          (IsChain-assign_last (assign s.next node x) node x xs x r.distinct
            (IsChain-assign s.next node x (x ∷ xs) x out r.chain)))
        (assign_ne (assign s.next node x) s.handle node node away ∙ assign_self s.next node x, tt);
}
  where
    away : node ≢ s.handle
    away e = ne_of_mem (last_or xs x) node (x ∷ xs) (mem-last x xs) out (sym (e ∙ r.handle))

not-mem_parts : (a node : Ptr) (xs : List Ptr) → a ∉ xs ++ (node ∷ []) → (a ∉ xs) × (a ≢ node)
not-mem_parts a node xs h = ground (arith, mem-append a xs (node ∷ []))

-- `LpelStreamsetPut` makes a descriptor that is not NULL and not in the set its last one, keeps the order of the
-- others, and writes no other descriptor.
pub put-IsRing :
    {s : Set} (node : Ptr) (xs : List Ptr)
    → IsRing s xs
    → node ≢ null
    → node ∉ xs
    → (t : Set) × (put node s ≡ ok t)
      × IsRing t (xs ++ (node ∷ []))
      × SameOutside (xs ++ (node ∷ [])) s t
unfolding put
put-IsRing {s} node [] r ne out = (
  record { next = assign s.next node node; handle = node },
  rw (r.handle, store-ok s.next node node ne),
  record { handle = refl; distinct = (ne, refl, tt); chain = (assign_self s.next node node, tt) },
  λ a h. assign_ne s.next node a node (ground (arith, h)),
)
put-IsRing {s} node (x ∷ xs) r ne out = (
  record { next = assign (assign s.next node x) s.handle node; handle = node },
  rw (
    ==_of_ne s.handle null (handle-ne_null r),
    load-ok s.next s.handle (handle-ne_null r),
    next-handle r,
    store-ok s.next node x ne,
    store-ok (assign s.next node x) s.handle node (handle-ne_null r),
  ),
  insert_last-IsRing node x xs r ne out,
  λ a h.
      let (h', ne') = not-mem_parts a node (x ∷ xs) h in
      assign_ne (assign s.next node x) s.handle a node
        (λ e. ne_of_mem (last_or xs x) a (x ∷ xs) (mem-last x xs) h' (sym (e ∙ r.handle)))
      ∙ assign_ne s.next node a x ne',
)
