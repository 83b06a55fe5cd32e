-- ===== src/Hierarchy/Taskqueue/Moved.antt =====
-- The tasks that upHeap moves are all still in the heap.
use lpel.Base.{
  ap, ℕ, zero, suc, ◌/◌, ◌<◌, ◌≤◌, ◌≡◌, ◌≢◌, refl, sym, ◌∙◌, arith, ℕ_discrete, inl, inr, none,
  List, Ptr, null, ◌==◌, length, set, get_or, length-set, lt→ltb, ==_false→ne, Bool-cases,
  get_or-set_self, get_or-set_ne, get_elem?-eq-get_or,
}
use lpel.Base.Run.{Run, ok}
use lpel.Base.Int.{pos, ltb_ℤ}
use lpel.Hierarchy.Taskqueue.{Prio, up_heap_from}
use lpel.Hierarchy.Taskqueue.Total.{compare_prior-ok}

-- A task is in a slot below `b`; slot 0 is not used.
abbrev pub InSlots : ℕ → List Ptr → Ptr → Type 0
InSlots b slots x = (k : ℕ) × (0 < k) × (k < b) × (get_or slots k null ≡ x)

-- The slots hold `t`, and what the old ones held but for slot `i`.
pub record IsMoved (t b i : ℕ) (slots slots' : List Ptr) : Type 0 where
  pub size : length slots' ≡ length slots
  pub holds : InSlots b slots' t
  pub others : (j : ℕ) → 0 < j → j < b → j ≢ i → InSlots b slots' (get_or slots j null)

abbrev pub Moves : ℕ → ℕ → ℕ → List Ptr → Run (List Ptr) → Type 0
Moves t b i slots r = (slots' : List Ptr) × (r ≡ ok slots') × IsMoved t b i slots slots'

-- Nothing else moves.
pub set-IsMoved :
    (t b i : ℕ) (slots : List Ptr)
    → 0 < i
    → i < b
    → b ≤ length slots
    → IsMoved t b i slots (set slots i t)
set-IsMoved t b i slots z h l = record {
  size = length-set slots i t;
  holds = (i, z, h, get_or-set_self slots i t null (omega arith));
  others = λ j zj hj ne. (j, zj, hj, get_or-set_ne slots i j t null (λ e. ne (sym e)));
}

-- What slot `m` held stands in slot `i`, and the rest moves on from slot `m`.
IsMoved-step :
    (t b i m : ℕ) (slots s : List Ptr)
    → 0 < i
    → i < b
    → b ≤ length slots
    → m ≢ i
    → IsMoved t b m (set slots i (get_or slots m null)) s
    → IsMoved t b i slots s
IsMoved-step t b i m slots s z h l ne v = record {
  size = v.size ∙ length-set slots i (get_or slots m null);
  holds = v.holds;
  others = λ j zj hj nj. elim (ℕ_discrete j m) [
    | yes e ↦
        let (k, zk, hk, at) = v.others i z h (λ q. ne (sym q)) in
        (
          k,
          zk,
          hk,
          at
              ∙ get_or-set_self slots i (get_or slots m null) null (omega arith)
              ∙ ap (λ q. get_or slots q null) (sym e),
        )
    | no nm ↦
        let (k, zk, hk, at) = v.others j zj hj nm in
        (k, zk, hk, at ∙ get_or-set_ne slots i j (get_or slots m null) null (λ e. nj (sym e)))
  ];
}

module _ (p : Prio) (plain : p.rts_prio_cmp ≡ none) (t b : ℕ) where
  pub up_heap_from-Moves :
      (fuel : ℕ) (slots : List Ptr) (i : ℕ)
      → 0 < i
      → i < b
      → b ≤ length slots
      → i < fuel
      → Moves t b i slots (up_heap_from p t fuel slots i)
  unfolding up_heap_from
  up_heap_from-Moves zero slots i z h l f = absurd (omega arith)
  up_heap_from-Moves (suc fuel) slots i z h l f = elim (Bool-cases (i / 2 == 0)) [
    | inl e ↦ (
      set slots i t,
      rw (e, lt→ltb i (length slots) (omega arith)) refl,
      set-IsMoved t b i slots z h l,
    )
    | inr e ↦
        let up = ==_false→ne (i / 2) 0 e in
        let x = get_or slots (i / 2) null in
        let (c, ec) = compare_prior-ok p plain t x in
        let in_range = get_elem?-eq-get_or slots (i / 2) null (omega arith) in
        let writes = lt→ltb i (length slots) (omega arith) in
        elim (Bool-cases (ltb_ℤ (pos 0) c)) [
          | inl k ↦
              let s = set slots i x in
              let (s', e', v) =
                up_heap_from-Moves fuel s (i / 2) (omega (arith, up)) (omega arith)
                  (omega (arith, length-set slots i x)) (omega (arith, up)) in
              (
                s',
                rw (e, in_range, ec, k, writes, e') refl,
                IsMoved-step t b i (i / 2) slots s' z h l (omega arith) v,
              )
          | inr k ↦
              (set slots i t, rw (e, in_range, ec, k, writes) refl, set-IsMoved t b i slots z h l)
        ]
  ]
