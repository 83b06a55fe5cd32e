-- ===== src/Streamset/Iterate.antt =====
-- Iterators: what a loop over a set meets, also while it appends and removes.
use lpel.Base.{
  ℕ, zero, suc, ◌≤◌, ◌≡◌, ◌≢◌, refl, sym, arith, Bool, true, false, List, [], ◌∷◌, ◌++◌, append-nil,
  append_assoc, Ptr, null, length, last_or, ==_of_ne, load-ok, mem-last, ne_null_of_mem,
  last_or-append, IsChain-left, IsChain-last,
}
use lpel.Base.Run.{ok}
use lpel.Streamset.{Set, Iter, reset, has_next, step, visit}
use lpel.Streamset.Ring.{IsRing, handle-ne_null, next-handle}
use lpel.Streamset.Unlink.{prev-ne_null, handle-ne_prev}

-- The iterator has met the descriptors `met`, and `ahead` are still to come.
pub record Cursor (s : Set) (it : Iter) (met ahead : List Ptr) : Type 0 where
  pub ring : IsRing s (met ++ ahead)
  pub at : s.handle ≢ null → it.cur ≡ last_or met null
  pub before : s.handle ≢ null → met ≡ [] → it.prev ≡ s.handle

-- Its last descriptor has just been returned, and may be taken out.
abbrev pub Fresh : Set → Iter → List Ptr → Type 0
Fresh s it met = it.prev ≡ last_or met s.handle

abbrev pub is_cons : List Ptr → Bool
is_cons [] = false
is_cons (x ∷ xs) = true

pub reset-Cursor : {s : Set} {xs : List Ptr} → IsRing s xs → Cursor s (reset s) [] xs
unfolding reset
reset-Cursor r = record { ring = r; at = λ h. refl; before = λ h e. refl }

next_of_cur :
    {s : Set} (x : Ptr) (met : List Ptr) (y : Ptr) (ahead : List Ptr)
    → IsRing s ((x ∷ met) ++ (y ∷ ahead))
    → s.next (last_or met x) ≡ y
next_of_cur {s} x met y ahead r =
    IsChain-last s.next x met y (IsChain-left s.next (x ∷ met) (y ∷ ahead) x r.chain)

module _ {s : Set} {it : Iter} where
  -- In a loop over a set, `LpelStreamIterHasNext` tells whether descriptors are still to come.
  pub has_next-is_cons :
      (met ahead : List Ptr) → Cursor s it met ahead → has_next s it ≡ is_cons ahead
  unfolding has_next
  has_next-is_cons [] [] v = rw v.ring.handle
  has_next-is_cons [] (y ∷ ahead) v =
      let ne = handle-ne_null v.ring in rw (==_of_ne s.handle null ne) (ground (arith, v.at ne))
  has_next-is_cons (x ∷ met) [] v =
      let r : IsRing s (x ∷ met) = rw append-nil at v.ring in
      let ne = handle-ne_null r in
      let last = ne_null_of_mem (last_or met x) (x ∷ met) r.distinct (mem-last x met) in
      rw (==_of_ne s.handle null ne) (ground (arith, v.at ne, r.handle, last))
  has_next-is_cons (x ∷ met) (y ∷ ahead) v =
      let ne = handle-ne_null v.ring in
      rw (==_of_ne s.handle null ne) (ground (arith, v.at ne, handle-ne_prev y x met ahead v.ring))

  -- In a loop over a set with descriptors still to come, `LpelStreamIterNext` returns the first of
  -- them, and it counts as met.
  pub step-Cursor :
      (met : List Ptr) (y : Ptr) (ahead : List Ptr)
      → Cursor s it met (y ∷ ahead)
      → (it' : Iter) × (step s it ≡ ok (y, it'))
        × Cursor s it' (met ++ (y ∷ [])) ahead
        × Fresh s it' met
  unfolding step
  step-Cursor [] y ahead v =
      let ne = handle-ne_null v.ring in
      let prev = v.before ne refl in
      (
        record it { cur = y },
        rw (
          has_next-is_cons [] (y ∷ ahead) v,
          v.at ne,
          prev,
          load-ok s.next s.handle ne,
          next-handle v.ring,
        ),
        record { ring = v.ring; at = λ h. refl; before = λ h e. cc },
        prev,
      )
  step-Cursor (x ∷ met) y ahead v =
      let ne = handle-ne_null v.ring in
      let cur = v.at ne in
      let cur_ne = prev-ne_null y x met ahead v.ring in
      (
        record { cur = y; prev = it.cur },
        rw (
          has_next-is_cons (x ∷ met) (y ∷ ahead) v,
          cur,
          ==_of_ne (last_or met x) null cur_ne,
          load-ok s.next (last_or met x) cur_ne,
          next_of_cur x met y ahead v.ring,
        ),
        record {
          ring = rw append_assoc v.ring;
          at = λ h. sym (last_or-append met (y ∷ []) x);
          before = λ h e. cc;
        },
        cur,
      )

-- A loop with `LpelStreamIterHasNext` and `LpelStreamIterNext`, with fuel for what is still to
-- come, meets that, in order, and ends.
pub visit-ahead :
    {s : Set} (fuel : ℕ) {it : Iter} (met ahead : List Ptr)
    → Cursor s it met ahead
    → length ahead ≤ fuel
    → visit fuel s it ≡ ok ahead
unfolding visit
visit-ahead zero met [] v f = rw (has_next-is_cons met [] v)
visit-ahead zero met (y ∷ ahead) v f = absurd (omega arith)
visit-ahead (suc fuel) met [] v f = rw (has_next-is_cons met [] v)
visit-ahead (suc fuel) met (y ∷ ahead) v f =
    let (it', e, v', fresh) = step-Cursor met y ahead v in
    rw (
      has_next-is_cons met (y ∷ ahead) v,
      e,
      visit-ahead fuel (met ++ (y ∷ [])) ahead v' (omega arith),
    )

-- A loop from `LpelStreamIterReset` on, with fuel for the set, meets every descriptor of the set
-- once, in order, and ends.
pub visit-reset :
    {s : Set} (fuel : ℕ) (xs : List Ptr)
    → IsRing s xs
    → length xs ≤ fuel
    → visit fuel s (reset s) ≡ ok xs
visit-reset fuel xs r f = visit-ahead fuel [] xs (reset-Cursor r) f
