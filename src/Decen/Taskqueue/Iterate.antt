-- ===== src/Decen/Taskqueue/Iterate.antt =====
-- `LpelTaskqueueIterateRemove`.
use lpel.Base.{
  sym, subst, ℕ, zero, suc, ◌+◌, ◌≤◌, ◌≡◌, ap, ◌∙◌, arith, inl, inr, Bool, List, [], ◌∷◌, ◌++◌,
  append_assoc, Ptr, null, if◌then◌else◌, length, head_or, ==_of_ne, Bool-cases, load-ok,
  Distinct-right,
}
use lpel.Base.Run.{Run, ok}
use lpel.Decen.Taskqueue.{Links, Queue, iterate_from, iterate_remove}
use lpel.Decen.Taskqueue.Seg.{IsSeg-right}
use lpel.Decen.Taskqueue.Ends.{IsQueue}
use lpel.Decen.Taskqueue.Unlink.{unlink-IsQueue}

-- The tasks of a list for which `cond` holds, and the others.
abbrev pub picked : (Ptr → Bool) → List Ptr → List Ptr
picked cond [] = []
picked cond (x ∷ xs) = if cond x then x ∷ picked cond xs else picked cond xs

abbrev pub passed : (Ptr → Bool) → List Ptr → List Ptr
passed cond [] = []
passed cond (x ∷ xs) = if cond x then passed cond xs else x ∷ passed cond xs

plus_zero : (n : ℕ) → n ≡ n + 0
plus_zero n = omega arith

plus_suc : (m n : ℕ) → m + 1 + n ≡ m + suc n
plus_suc m n = omega arith

module _ {ℓ} {W : Type ℓ} (cond : Ptr → Bool) (action : Ptr → W → W) where
  -- The actions on a list of tasks, first one first.
  abbrev pub act : List Ptr → W → W
  act [] w = w
  act (x ∷ xs) w = act xs (action x w)

  -- What a round over the tasks `xs` leaves, behind the tasks `kept`.
  abbrev pub Swept : List Ptr → List Ptr → W → ℕ → Run (ℕ × W × Links × Queue) → Type ℓ
  Swept kept xs w removed r =
      (l' : Links) × (q' : Queue) × (r
        ≡ ok (removed + length (picked cond xs), act (picked cond xs) w, l', q'))
      × IsQueue l' q' (kept ++ passed cond xs)

  iterate_from-Swept :
      (fuel : ℕ) {l : Links} {q : Queue} (kept xs : List Ptr) (w : W) (removed : ℕ)
      → IsQueue l q (kept ++ xs)
      → length xs ≤ fuel
      → Swept kept xs w removed (iterate_from cond action fuel (head_or xs null) l q w removed)
  unfolding iterate_from
  iterate_from-Swept zero {l} {q} kept [] w removed v f =
      (l, q, ap (λ n. ok (n, w, l, q)) (plus_zero removed), v)
  iterate_from-Swept zero kept (x ∷ xs) w removed v f = absurd (omega arith)
  iterate_from-Swept (suc fuel) {l} {q} kept [] w removed v f =
      (l, q, ap (λ n. ok (n, w, l, q)) (plus_zero removed), v)
  iterate_from-Swept (suc fuel) {l} {q} kept (x ∷ xs) w removed v f =
      let right = IsSeg-right l null kept (x ∷ xs) null v.links in
      let ne = (Distinct-right kept (x ∷ xs) v.distinct).0 in
      elim (Bool-cases (cond x)) [
        | inl k ↦
            let (l₁, q₁, e₁, v₁) = unlink-IsQueue x kept xs v in
            let (l₂, q₂, e₂, v₂) =
              iterate_from-Swept fuel kept xs (action x w) (removed + 1) v₁ (omega arith) in
            rw k (
              l₂,
              q₂,
              rw (==_of_ne x null ne, load-ok l.next x ne, right.1, e₁)
                  (e₂
                    ∙ ap (λ n. ok (n, act (picked cond xs) (action x w), l₂, q₂))
                        (plus_suc removed (length (picked cond xs)))),
              v₂,
            )
        | inr k ↦
            let v₁ : IsQueue l q ((kept ++ (x ∷ [])) ++ xs) = rw append_assoc v in
            let (l₂, q₂, e₂, v₂) =
              iterate_from-Swept fuel (kept ++ (x ∷ [])) xs w removed v₁ (omega arith) in
            rw k (
              l₂,
              q₂,
              rw (==_of_ne x null ne, load-ok l.next x ne, right.1, e₂),
              rw append_assoc at v₂,
            )
      ]

-- `LpelTaskqueueIterateRemove` over a queue, with fuel for its tasks, ends: the tasks for which the
-- condition holds are taken out, with the action on each of them in order, and are counted; the
-- others stay in order.
pub iterate_remove-Swept {ℓ} :
    {W : Type ℓ} (cond : Ptr → Bool) (action : Ptr → W → W) {l : Links} {q : Queue} (fuel : ℕ)
    (xs : List Ptr) (w : W)
    → IsQueue l q xs
    → length xs ≤ fuel
    → Swept cond action [] xs w 0 (iterate_remove cond action fuel l q w)
unfolding iterate_remove
iterate_remove-Swept cond action {l} {q} fuel xs w v f =
    subst (λ h. Swept cond action [] xs w 0 (iterate_from cond action fuel h l q w 0)) (sym v.head)
      (iterate_from-Swept cond action fuel [] xs w 0 v f)
