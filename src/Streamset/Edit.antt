-- ===== src/Streamset/Edit.antt =====
-- Appending to a set and removing from it in the middle of a loop over it.
use lpel.Base.{
  ◌≡◌, ◌≢◌, refl, ◌∙◌, arith, List, [], ◌∷◌, ◌++◌, append_assoc, Ptr, null, ◌==◌, if◌then◌else◌,
  head_or, last_or, assign, assign_self, ==_of_ne, ==_self, load-ok, store-ok, ◌∉◌, last_or-append,
}
use lpel.Base.Run.{ok}
use lpel.Streamset.{Set, Iter, append, remove_current}
use lpel.Streamset.Ring.{IsRing, handle-ne_null, next-handle}
use lpel.Streamset.Put.{insert_last-IsRing}
use lpel.Streamset.Iterate.{Cursor, Fresh}
use lpel.Streamset.Unlink.{
  handle-ne_first, first_out-IsRing, inner_out, prev-ne, node-ne_null, next-node, prev-ne_null,
  handle-ne_prev, inner_out-IsRing,
}

append_run :
    {s : Set} (it : Iter) (node x : Ptr) (xs : List Ptr)
    → IsRing s (x ∷ xs)
    → node ≢ null
    → let prev = if it.prev == s.handle then node else it.prev in
      append node s it
      ≡ ok (
        record { next = assign (assign s.next node x) s.handle node; handle = node },
        record it { prev = if prev == it.cur then node else prev },
      )
unfolding append
append_run {s} it node x xs r ne = rw (
  load-ok s.next s.handle (handle-ne_null r),
  next-handle r,
  store-ok s.next node x ne,
  store-ok (assign s.next node x) s.handle node (handle-ne_null r),
)

-- In a loop over a set that is not empty, `LpelStreamIterAppend` puts a descriptor that is not NULL
-- and not in the set behind those that are still to come; what the loop has met stays.
pub append-Cursor :
    {s : Set} {it : Iter} (node : Ptr) (met ahead : List Ptr)
    → Cursor s it met ahead
    → met ++ ahead ≢ []
    → node ≢ null
    → node ∉ met ++ ahead
    → (t : Set) × (it' : Iter) × (append node s it ≡ ok (t, it'))
      × Cursor t it' met (ahead ++ (node ∷ []))
append-Cursor {s} {it} node [] [] v nonempty ne out = absurd (nonempty refl)
append-Cursor {s} {it} node [] (y ∷ ahead) v nonempty ne out = (
  record { next = assign (assign s.next node y) s.handle node; handle = node },
  record it { prev = node },
  append_run it node y ahead v.ring ne
      ∙ rw (v.before (handle-ne_null v.ring) refl, ==_self s.handle) (ground arith),
  record {
    ring = insert_last-IsRing node y ahead v.ring ne out;
    at = λ h. v.at (handle-ne_null v.ring);
    before = λ h e. refl;
  },
)
append-Cursor {s} {it} node (x ∷ met) ahead v nonempty ne out =
    let p = if it.prev == s.handle then node else it.prev in
    (
      record { next = assign (assign s.next node x) s.handle node; handle = node },
      record it { prev = if p == it.cur then node else p },
      append_run it node x (met ++ ahead) v.ring ne,
      record {
        ring = rw (← append_assoc) (insert_last-IsRing node x (met ++ ahead) v.ring ne out);
        at = λ h. v.at (handle-ne_null v.ring);
        before = λ h e. cc;
      },
    )

-- `LpelStreamIterRemove`, right after `LpelStreamIterNext`, takes the descriptor that it returned
-- out of the set and clears its link; what is still to come stays.
pub remove_current-Cursor :
    {s : Set} {it : Iter} (met : List Ptr) (node : Ptr) (ahead : List Ptr)
    → Cursor s it (met ++ (node ∷ [])) ahead
    → Fresh s it met
    → (t : Set) × (it' : Iter) × (remove_current s it ≡ ok (t, it'))
      × Cursor t it' met ahead
      × (t.next node ≡ null)
unfolding remove_current
remove_current-Cursor {s} {it} [] node [] v fresh =
    let ne = handle-ne_null v.ring in
    (
      record { next = assign s.next node null; handle = null },
      it,
      rw (v.at ne, fresh, v.ring.handle, ==_self node, store-ok s.next node null v.ring.distinct.0),
      record {
        ring = record { handle = refl; distinct = tt; chain = tt };
        at = λ h. absurd (h refl);
        before = λ h e. absurd (h refl);
      },
      assign_self s.next node null,
    )
remove_current-Cursor {s} {it} [] node (p ∷ ahead) v fresh =
    let ne = handle-ne_null v.ring in
    let away = handle-ne_first v.ring in
    (
      record { next = assign (assign s.next s.handle p) node null; handle = s.handle },
      record it { cur = null },
      rw (
        v.at ne,
        fresh,
        ==_of_ne s.handle node away,
        load-ok s.next node v.ring.distinct.0,
        v.ring.chain.0,
        store-ok s.next s.handle p ne,
        store-ok (assign s.next s.handle p) node null v.ring.distinct.0,
        ==_self s.handle,
      ),
      record { ring = first_out-IsRing v.ring; at = λ h. refl; before = λ h e. fresh },
      assign_self (assign s.next s.handle p) node null,
    )
remove_current-Cursor {s} {it} (a ∷ met) node ahead v fresh =
    let r : IsRing s ((a ∷ met) ++ (node ∷ ahead)) = rw append_assoc at v.ring in
    let cur : it.cur ≡ node = v.at (handle-ne_null r) ∙ last_or-append met (node ∷ []) a in
    let prev : it.prev ≡ last_or met a = fresh in
    let node_ok = node-ne_null node a met ahead r in
    let next' = assign s.next (last_or met a) (head_or ahead a) in
    (
      inner_out s node a met ahead,
      record it { cur = it.prev },
      rw (
        cur,
        prev,
        ==_of_ne (last_or met a) node (prev-ne node a met ahead r),
        load-ok s.next node node_ok,
        next-node node a met ahead r,
        store-ok s.next (last_or met a) (head_or ahead a) (prev-ne_null node a met ahead r),
        store-ok next' node null node_ok,
        ==_of_ne s.handle (last_or met a) (handle-ne_prev node a met ahead r),
      ),
      record { ring = inner_out-IsRing node a met ahead r; at = λ h. prev; before = λ h e. cc },
      assign_self next' node null,
    )
