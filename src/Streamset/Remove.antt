-- ===== src/Streamset/Remove.antt =====
-- `LpelStreamsetRemove` takes out one descriptor, or reports that it is not there.
use lpel.Streamset.Unlink.{
  inner_out-IsRing, prev-ne_null, next-node, node-ne_null, prev-ne, inner_out, first_out-IsRing,
  handle-ne_first,
}
use lpel.Streamset.Ring.{next-handle, handle-ne_null, IsRing}
use lpel.Base.{
  zero, suc, ◌<◌, ◌≤◌, ◌≡◌, ◌≢◌, refl, ap, sym, subst, ◌∙◌, arith, ◌⊎◌, inl, inr, Bool, true, false,
  List, [], ◌∷◌, ◌++◌, Ptr, null, ◌==◌, if◌then◌else◌, length, head_or, last_or, assign, ==_of_ne,
  ==_self, ==→eq, Bool-cases, load-ok, store-ok, mem, ◌∈◌, ◌∉◌, Distinct, IsChain, mem-last,
  ne_of_mem,
}
use lpel.Base.Run.{Run, ok}
use lpel.Streamset.{Set, unlink, remove, find}

-- What `find` meets on the descriptors that follow `cur`: the first that is `node` or the last.
abbrev scan : Ptr → Ptr → List Ptr → Ptr × Ptr
scan node cur [] = (cur, cur)
scan node cur (y ∷ []) = (cur, y)
scan node cur (y ∷ z ∷ r) = if y == node then (cur, y) else scan node y (z ∷ r)

find-scan :
    (fuel node cur y : Ptr) (r : List Ptr) (next : Ptr → Ptr) (stop : Ptr)
    → length r < fuel
    → cur ≢ null
    → next cur ≡ y
    → Distinct (y ∷ r)
    → IsChain next (y ∷ r) stop
    → find fuel node (last_or r y) next cur ≡ ok (scan node cur (y ∷ r))
unfolding find
find-scan zero node cur y r next stop f ne e d c = absurd (omega arith)
find-scan (suc fuel) node cur y [] next stop f ne e d c =
    rw (load-ok next cur ne, e, ==_self y) (ground arith)
find-scan (suc fuel) node cur y (z ∷ r) next stop f ne e d c =
    rw (load-ok next cur ne, e, ==_of_ne y (last_or r z) away)
      (elim (Bool-cases (y == node)) [
        | inl h ↦ rw h
        | inr h ↦ rw h (find-scan fuel node y z r next stop (omega arith) d.0 c.0 d.2 c.1)
      ])
  where
    away : y ≢ last_or r z
    away h = ne_of_mem (last_or r z) y (z ∷ r) (mem-last z r) d.1 (sym h)

-- The set without one descriptor.
pub erase : Ptr → List Ptr → List Ptr
erase node [] = []
erase node (x ∷ xs) = if x == node then xs else x ∷ erase node xs

-- A descriptor of a list cuts it in two.
pub Cut : Ptr → List Ptr → Type 0
Cut node xs =
    (pre : List Ptr) × (post : List Ptr) × (xs ≡ pre ++ (node ∷ post))
    × (node ∉ pre)
    × (erase node xs ≡ pre ++ post)

cut : (node : Ptr) (xs : List Ptr) → node ∈ xs → Cut node xs
unfolding Cut erase
cut node [] h = cc
cut node (x ∷ xs) h = elim (Bool-cases (x == node)) [
  | inl e ↦ ([], xs, ap (λ z. z ∷ xs) (==→eq _ _ e), refl, rw e)
  | inr e ↦
      let (pre, post, eq, out, er) = cut node xs (ground (arith, h, e)) in
      (x ∷ pre, post, ap (λ z. x ∷ z) eq, ground (arith, out, e), rw (e, er))
]

scan_cut :
    (node cur : Ptr) (pre post : List Ptr)
    → node ∉ pre
    → scan node cur (pre ++ (node ∷ post)) ≡ (last_or pre cur, node)
scan_cut node cur [] [] h = refl
scan_cut node cur [] (z ∷ r) h = rw (==_self node)
scan_cut node cur (x ∷ []) post h =
    rw (==_of_ne x node (ground (arith, h))) (scan_cut node x [] post refl)
scan_cut node cur (x ∷ y ∷ pre) post h =
    rw (==_of_ne x node (ground (arith, h))) (scan_cut node x (y ∷ pre) post (ground (arith, h)))

scan_miss :
    (node cur x : Ptr) (xs : List Ptr) → node ∉ x ∷ xs → (scan node cur (x ∷ xs)).1 ≡ last_or xs x
scan_miss node cur x [] h = refl
scan_miss node cur x (y ∷ xs) h =
    rw (==_of_ne x node (ground (arith, h))) (scan_miss node x y xs (ground (arith, h)))

-- What taking `node` out leaves.
Unlinked : List Ptr → Run Set → Type 0
Unlinked xs r = (t : Set) × (r ≡ ok t) × IsRing t xs

unlink-IsRing :
    {s : Set} (node : Ptr) (pre post : List Ptr)
    → IsRing s (pre ++ (node ∷ post))
    → Unlinked (pre ++ post) (unlink (last_or pre s.handle) node s)
unfolding unlink Unlinked
unlink-IsRing {s} node [] [] r = (
  record s { handle = null },
  rw (r.handle, ==_self node),
  record { handle = refl; distinct = tt; chain = tt },
)
unlink-IsRing {s} node [] (p ∷ post) r = (
  record { next = assign (assign s.next s.handle p) node null; handle = s.handle },
  rw (
    ==_of_ne s.handle node (handle-ne_first r),
    load-ok s.next node r.distinct.0,
    r.chain.0,
    store-ok s.next s.handle p (handle-ne_null r),
    store-ok (assign s.next s.handle p) node null r.distinct.0,
  ),
  first_out-IsRing r,
)
unlink-IsRing {s} node (a ∷ pre) post r = (
  inner_out s node a pre post,
  rw (
    ==_of_ne (last_or pre a) node (prev-ne node a pre post r),
    load-ok s.next node (node-ne_null node a pre post r),
    next-node node a pre post r,
    store-ok s.next (last_or pre a) (head_or post a) (prev-ne_null node a pre post r),
    store-ok (assign s.next (last_or pre a) (head_or post a)) node null
        (node-ne_null node a pre post r),
  ),
  inner_out-IsRing node a pre post r,
)

-- What a removal leaves: the set without the descriptor and true, or the same set and false.
pub Removed : Ptr → Set → List Ptr → Run (Bool × Set) → Type 0
Removed node s xs r =
    ((node ∈ xs) × ((t : Set) × (r ≡ ok (true, t)) × IsRing t (erase node xs)))
    ⊎ ((node ∉ xs) × (r ≡ ok (false, s)))

-- `LpelStreamsetRemove` on a set that is not empty, with fuel for one round, returns: a descriptor
-- of the set is taken out, the others stay in order, and the result is 0; for any other the result
-- is -1 and nothing changes.
pub remove-Removed :
    {s : Set} (fuel node x : Ptr) (xs : List Ptr)
    → IsRing s (x ∷ xs)
    → length (x ∷ xs) ≤ fuel
    → Removed node s (x ∷ xs) (remove fuel node s)
unfolding remove Removed Cut Unlinked
remove-Removed {s} fuel node x xs r f = elim (Bool-cases (mem node (x ∷ xs))) [
  | inl h ↦
      let (pre, post, eq, out, er) = cut node (x ∷ xs) h in
      let (t, done, ring) = unlink-IsRing node pre post (subst (IsRing s) eq r) in
      inl (
        h,
        (
          t,
          rw (
            ==_of_ne s.handle null (handle-ne_null r),
            found ∙ ap ok (ap (scan node s.handle) eq ∙ scan_cut node s.handle pre post out),
            ==_self node,
            done,
          ),
          rw er ring,
        ),
      )
  | inr h ↦
      let last = scan_miss node s.handle x xs h in
      inr (
        h,
        rw (
          ==_of_ne s.handle null (handle-ne_null r),
          found,
          last,
          ==_of_ne (last_or xs x) node (ne_of_mem (last_or xs x) node (x ∷ xs) (mem-last x xs) h),
        ),
      )
]
  where
    found : find fuel node s.handle s.next s.handle ≡ ok (scan node s.handle (x ∷ xs))
    found =
        subst (λ h. find fuel node h s.next s.handle ≡ ok (scan node s.handle (x ∷ xs)))
          (sym r.handle)
          (find-scan fuel node s.handle x xs s.next x (omega arith) (handle-ne_null r)
            (next-handle r) r.distinct r.chain)
