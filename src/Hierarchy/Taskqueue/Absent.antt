-- ===== src/Hierarchy/Taskqueue/Absent.antt =====
-- A task that is not in the heap does not get into it by the moves of the others.
use lpel.Base.{
  ltb→lt, ℕ, zero, suc, ◌+◌, ◌-◌, ◌*◌, ◌/◌, ◌<◌, ◌≤◌, ◌≡◌, ◌≢◌, refl, sym, subst, ◌∙◌, arith, ◌⊎◌,
  inl, inr, Option, some, List, [], ◌∷◌, Ptr, null, ◌==◌, if◌then◌else◌, ltb, length, set,
  get_elem?, get_or, ==_false→ne, Bool-cases,
}
use lpel.Base.Run.{out_of_fuel, Run, ok, assert_failed, fault, access}
use lpel.Base.Int.{ℤ, pos}
use lpel.Base.Int.{ltb_ℤ}
use lpel.Decen.Buffer.{write_slot}
use lpel.Hierarchy.Taskqueue.{
  Prio, Heap, compare_prior, up_heap_from, up_heap, greater_child, down_heap_from, down_heap,
  search_from, search_item,
}
use lpel.Base.After.{After, After-bind, After-any, After-if}

get_or-set :
    (xs : List Ptr) (i j v d : ℕ)
    → (get_or (set xs i v) j d ≡ v) ⊎ (get_or (set xs i v) j d ≡ get_or xs j d)
get_or-set [] i j v d = inr refl
get_or-set (x ∷ xs) zero zero v d = inl refl
get_or-set (x ∷ xs) zero (suc j) v d = inr refl
get_or-set (x ∷ xs) (suc i) zero v d = inr refl
get_or-set (x ∷ xs) (suc i) (suc j) v d = get_or-set xs i j v d

get_or-of_elem :
    (xs : List Ptr) (i d : ℕ) → After (λ x. x ≡ get_or xs i d) (access (get_elem? xs i))
get_or-of_elem [] i d = tt
get_or-of_elem (x ∷ xs) zero d = refl
get_or-of_elem (x ∷ xs) (suc i) d = get_or-of_elem xs i d

module _ (t : Ptr) where
  -- The task is not at the indices from 1 to `n`, exclusive.
  abbrev pub IsAbsent : ℕ → List Ptr → Type 0
  IsAbsent n slots = (j : ℕ) → 1 ≤ j → j < n → get_or slots j null ≢ t

  abbrev pub IsAbsentFrom : Heap → Type 0
  IsAbsentFrom q = (1 ≤ q.count) × IsAbsent q.count q.slots

  write_slot-IsAbsent :
      (n : ℕ) (slots : List Ptr) (i v : ℕ)
      → v ≢ t
      → IsAbsent n slots
      → After (IsAbsent n) (write_slot slots i v)
  write_slot-IsAbsent n slots i v h out =
      After-if (IsAbsent n) (ltb i (length slots)) _ _
        (λ j low up. elim (get_or-set slots i j v null) [
          | inl e ↦ λ k. h (sym e ∙ k)
          | inr e ↦ λ k. out j low up (sym e ∙ k)
        ])
        tt

  pub access_absent :
      (n : ℕ) (slots : List Ptr) (i : ℕ)
      → 1 ≤ i
      → i < n
      → IsAbsent n slots
      → After (λ x. x ≢ t) (access (get_elem? slots i))
  access_absent n slots i low up out = go (access (get_elem? slots i)) (get_or-of_elem slots i null)
    where
      go : (r : Run Ptr) → After (λ x. x ≡ get_or slots i null) r → After (λ x. x ≢ t) r
      go (ok x) e = λ k. out i low up (sym e ∙ k)
      go assert_failed e = tt
      go fault e = tt
      go out_of_fuel e = tt

  up_heap_from-IsAbsent :
      (p : Prio) (n x fuel : ℕ) (slots : List Ptr) (i : ℕ)
      → x ≢ t
      → i < n
      → IsAbsent n slots
      → After (IsAbsent n) (up_heap_from p x fuel slots i)
  unfolding up_heap_from
  up_heap_from-IsAbsent p n x zero slots i h up out = tt
  up_heap_from-IsAbsent p n x (suc fuel) slots i h up out = elim (Bool-cases (i / 2 == 0)) [
    | inl e ↦ rw e (write_slot-IsAbsent n slots i x h out)
    | inr e ↦ rw e (
        After-bind (IsAbsent n) (λ y. y ≢ t) (access (get_elem? slots (i / 2))) _
          (access_absent n slots (i / 2) (omega (arith, ==_false→ne _ _ e)) (omega (arith, up)) out)
          (λ y hy. After-any (IsAbsent n) (compare_prior p x y) _ λ c.
            After-if (IsAbsent n) (ltb_ℤ (pos 0) c) _ _
              (After-bind (IsAbsent n) (IsAbsent n) (write_slot slots i y) _
                (write_slot-IsAbsent n slots i y hy out)
                (λ s k. up_heap_from-IsAbsent p n x fuel s (i / 2) h (omega (arith, up)) k))
              (write_slot-IsAbsent n slots i x h out)))
  ]

  greater_child-range :
      (p : Prio) (slots : List Ptr) (count child : ℕ)
      → child < count
      → After (λ k. (child ≤ k) × (k < count)) (greater_child p slots count child)
  unfolding greater_child
  greater_child-range p slots count child h = elim (Bool-cases (ltb (child + 1) count)) [
    | inl e ↦ rw e (
        After-any _ (access (get_elem? slots child)) _ λ left.
          After-any _ (access (get_elem? slots (child + 1))) _
            λ right. After-any _ (compare_prior p left right) _ λ c. within c (ltb→lt _ _ e))
    | inr e ↦ rw e (omega arith, h)
  ]
    where
      within :
          (c : ℤ)
          → child + 1 < count
          → (child ≤ (if ltb_ℤ c (pos 0) then child + 1 else child))
            × ((if ltb_ℤ c (pos 0) then child + 1 else child) < count)
      within c k = elim (Bool-cases (ltb_ℤ c (pos 0))) [
        | inl e ↦ rw e (omega arith, k)
        | inr e ↦ rw e (omega arith, h)
      ]

  down_heap_from-IsAbsent :
      (p : Prio) (x fuel : ℕ) (slots : List Ptr) (count i : ℕ)
      → x ≢ t
      → 1 ≤ i
      → IsAbsent count slots
      → After (IsAbsent count) (down_heap_from p x fuel slots count i)
  unfolding down_heap_from
  down_heap_from-IsAbsent p x zero slots count i h z out = tt
  down_heap_from-IsAbsent p x (suc fuel) slots count i h z out =
      elim (Bool-cases (ltb (i * 2) count)) [
        | inl e ↦ rw e (
            After-bind (IsAbsent count) (λ k. (i * 2 ≤ k) × (k < count)) _ _
              (greater_child-range p slots count (i * 2) (ltb→lt _ _ e))
              (λ child (low, up).
                After-bind (IsAbsent count) (λ y. y ≢ t) (access (get_elem? slots child)) _
                  (access_absent count slots child (omega (arith, low, z)) up out)
                  (λ y hy. After-any (IsAbsent count) (compare_prior p x y) _ λ c.
                    After-if (IsAbsent count) (ltb_ℤ c (pos 0)) _ _
                      (After-bind (IsAbsent count) (IsAbsent count) (write_slot slots i y) _
                        (write_slot-IsAbsent count slots i y hy out)
                        (λ s k.
                          down_heap_from-IsAbsent p x fuel s count child h (omega (arith, low, z))
                            k))
                      (write_slot-IsAbsent count slots i x h out))))
        | inr e ↦ rw e (write_slot-IsAbsent count slots i x h out)
      ]

  pub up_heap-IsAbsent :
      (p : Prio) (n : ℕ) (slots : List Ptr) (i : ℕ)
      → 1 ≤ i
      → i < n
      → IsAbsent n slots
      → After (IsAbsent n) (up_heap p slots i)
  unfolding up_heap
  up_heap-IsAbsent p n slots i low up out =
      After-bind (IsAbsent n) (λ y. y ≢ t) (access (get_elem? slots i)) _
        (access_absent n slots i low up out)
        (λ y hy. up_heap_from-IsAbsent p n y (i + 1) slots i hy up out)

  pub down_heap-IsAbsent :
      (p : Prio) (q : Heap) (i : ℕ)
      → 1 ≤ i
      → i < q.count
      → IsAbsentFrom q
      → After IsAbsentFrom (down_heap p q i)
  unfolding down_heap
  down_heap-IsAbsent p q i low up (z, out) =
      After-bind IsAbsentFrom (λ y. y ≢ t) (access (get_elem? q.slots i)) _
        (access_absent q.count q.slots i low up out)
        (λ y hy.
          After-bind IsAbsentFrom (IsAbsent q.count) _ _
            (down_heap_from-IsAbsent p y (q.count + 1) q.slots q.count i hy low out)
            (λ s k. (z, k)))

-- Where the search can find a task.
search_from-range :
    (t : Ptr) (slots : List Ptr) (i n : ℕ)
    → After (λ found. (k : ℕ) → found ≡ some k → (i ≤ k) × (k < i + n)) (search_from t slots i n)
unfolding search_from
search_from-range t slots i zero = λ k e. cc
search_from-range t slots i (suc n) = After-any _ (access (get_elem? slots i)) _ λ x.
    After-if _ (x == t) _ _ (λ k e. at k e)
      (wider (search_from t slots (i + 1) n) (search_from-range t slots (i + 1) n))
  where
    at : (k : ℕ) → some i ≡ some k → (i ≤ k) × (k < i + suc n)
    at k e = let same : i ≡ k = cc in (omega (arith, same), omega (arith, same))

    wider :
        (r : Run (Option ℕ))
        → After (λ found. (k : ℕ) → found ≡ some k → (i + 1 ≤ k) × (k < i + 1 + n)) r
        → After (λ found. (k : ℕ) → found ≡ some k → (i ≤ k) × (k < i + suc n)) r
    wider (ok found) h = λ k e. let (low, up) = h k e in (omega (arith, low), omega (arith, up))
    wider assert_failed h = tt
    wider fault h = tt
    wider out_of_fuel h = tt

pub search_item-range :
    (q : Heap) (t : Ptr)
    → 1 ≤ q.count
    → After (λ found. (k : ℕ) → found ≡ some k → (1 ≤ k) × (k < q.count)) (search_item q t)
unfolding search_item
search_item-range q t z =
    subst
      (λ n.
        After (λ found. (k : ℕ) → found ≡ some k → (1 ≤ k) × (k < n))
          (search_from t q.slots 1 (q.count - 1)))
      (omega (arith, z)) (search_from-range t q.slots 1 (q.count - 1))
