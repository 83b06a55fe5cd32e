-- ===== src/Decen/Bisema/Exclusion.antt =====
-- Binary semaphores exclude one another's holders.
use lpel.Base.{
  ◌≤◌, ◌≡◌, refl, sym, subst, arith, inl, inr, List, [], ◌∷◌, Ptr, ◌==◌, length, ==→eq, ==_false→ne,
  Bool-cases, ◌∈◌,
}
use lpel.Decen.Bisema.{Holding, Step, Reach, init, wait_turn, leave, without}

-- The counter is the number of holders, and at most 1.
abbrev Counted : Holding → Type 0
Counted h = (h.sem.counter ≡ length h.holders) × (h.sem.counter ≤ 1)

-- A semaphore that no task holds.
abbrev pub unheld : Holding
unheld = record { sem = init; holders = [] }

wait_turn-Counted : (t : Ptr) (h : Holding) → Counted h → Counted (wait_turn t h)
unfolding wait_turn
wait_turn-Counted t h c = elim (Bool-cases (h.sem.counter == 1)) [
  | inl e ↦ rw e (omega (arith, c, ==→eq _ _ e), omega arith)
  | inr e ↦ rw e (omega (arith, c, ==_false→ne _ _ e), omega arith)
]

leave-Counted : (t : Ptr) (h : Holding) → t ∈ h.holders → Counted h → Counted (leave t h)
unfolding leave
leave-Counted t h k c = (one h.holders k (omega (arith, c)), omega arith)
  where
    one : (xs : List Ptr) → t ∈ xs → length xs ≤ 1 → 0 ≡ length (without t xs)
    one [] k l = refl
    one (x ∷ []) k l = ground arith
    one (x ∷ y ∷ xs) k l = absurd (omega arith)

Step-Counted : {h k : Holding} → Step h k → Counted h → Counted k
Step-Counted (Step.turn t e) c = subst Counted (sym e) (wait_turn-Counted t _ c)
Step-Counted (Step.release t m e) c = subst Counted (sym e) (leave-Counted t _ m c)

Reach-Counted : {h k : Holding} → Reach h k → Counted h → Counted k
Reach-Counted Reach.here c = c
Reach-Counted (Reach.next r s) c = Step-Counted s (Reach-Counted r c)

-- From a new semaphore on, as long as only a task that holds it signals it, at most one task is
-- between its `LpelBiSemaWait` and its `LpelBiSemaSignal`; and when there is none, the next turn of
-- any waiting task ends its wait.
pub holders_exclude :
    {h : Holding}
    → Reach unheld h
    → (length h.holders ≤ 1) × ((t : Ptr) → h.holders ≡ [] → (wait_turn t h).holders ≡ t ∷ [])
unfolding wait_turn init
holders_exclude {h} r =
    let c = Reach-Counted r (refl, omega arith) in (omega (arith, c), λ t e. rw (c.0, e))
