-- ===== src/Hierarchy/Task/Open.antt =====
-- LpelTaskAddStream and LpelTaskRemoveStream of hrc_task.c: the lists of open streams.
use lpel.Base.{
  ◌≡◌, refl, arith, inl, inr, List, [], ◌∷◌, ◌++◌, Ptr, ◌==◌, assign_self, assign_undo, ==_self,
  ==→eq, Bool-cases, ◌∉◌,
}
use lpel.Base.Run.{ok}
use lpel.Base.Int.{ℤ}
use lpel.Base.Int.{◌+ℤ◌, ◌-ℤ◌, int_laws}
use lpel.Hierarchy.Task.{Tasks, Direction, input, output, add_stream, remove_stream, remove_elem}

plus_minus : (a b : ℤ) → a +ℤ b -ℤ b ≡ a
plus_minus a b = omega int_laws

pub remove_elem-found :
    (des : Ptr) (pre post : List Ptr)
    → des ∉ pre
    → remove_elem des (pre ++ (des ∷ post)) ≡ ok (pre ++ post)
unfolding remove_elem
remove_elem-found des [] post out = rw (==_self des) refl
remove_elem-found des (x ∷ pre) post out = elim (Bool-cases (x == des)) [
  | inl e ↦ absurd (ground (arith, ==→eq x des e, out))
  | inr e ↦ rw (e, remove_elem-found des pre post (ground arith)) refl
]

module _ {D : Type 0} where
  -- `LpelTaskRemoveStream` of the descriptor that `LpelTaskAddStream` added last, in the same mode,
  -- restores the task: its lists of streams and its limit on records.
  pub remove_stream-add_stream :
      (t des : Ptr) (mode : Direction) (m : Tasks D)
      → remove_stream t des mode (add_stream t des mode m) ≡ ok m
  unfolding remove_stream add_stream remove_elem
  remove_stream-add_stream t des input m =
      rw
        (
          assign_self m.in_streams t (des ∷ m.in_streams t),
          ==_self des,
          assign_undo m.in_streams t (des ∷ m.in_streams t),
        )
        refl
  remove_stream-add_stream t des output m =
      rw
        (
          assign_self m.out_streams t (des ∷ m.out_streams t),
          ==_self des,
          assign_undo m.out_streams t (des ∷ m.out_streams t),
          assign_self m.rec_limit t (m.rec_limit t +ℤ m.rec_limit_factor t),
          plus_minus (m.rec_limit t) (m.rec_limit_factor t),
          assign_undo m.rec_limit t (m.rec_limit t +ℤ m.rec_limit_factor t),
        )
        refl
