-- ===== src/Startup/Pinning.antt =====
-- src/lpel_hwloc.c: the processors of the threads under a configuration that the check accepts.
use lpel.Base.{
  ◌∙◌, ◌^◌, sym, ap, subst, false, refl, inr, inl, true, Bool-cases, some, ℕ, zero, suc, ◌+◌, ◌<◌,
  ◌≤◌, ◌≡◌, arith, List, [], ◌∷◌, if◌then◌else◌,
}
use lpel.Base.Int.{int32-pos, int32, negsuc, ltb_ℤ, ℤ, pos, pos_part, neg_part}
use lpel.Base.Int.{◌+ℤ◌}
use lpel.Timing.{eqb_ℤ}
use lpel.Startup.{
  map_run, ◌>>=◌, Run, hwloc_start, ok, Cpus, thread_cpus, start, Config, check_config, cpu_range,
}

-- Every member of a set of processors is at least `lo` and below `hi`.
abbrev pub Within : ℕ → ℕ → List ℕ → Type 0
Within lo hi [] = Unit
Within lo hi (x ∷ xs) = (lo ≤ x) × (x < hi) × Within lo hi xs

Within-range : (lo hi from n : ℕ) → lo ≤ from → from + n ≤ hi → Within lo hi (cpu_range from n)
Within-range lo hi from zero h k = tt
Within-range lo hi from (suc n) h k =
    (h, omega arith, Within-range lo hi (from + 1) n (omega arith) (omega arith))

-- The first processor of the threads that are no workers.
abbrev pub first_other : Config → ℕ
first_other c = if eqb_ℤ c.proc_others (pos 0) then 0 else pos_part c.proc_workers

-- What the check of a configuration on `pu_count` processors leaves.
pub record IsChecked (pu_count : ℕ) (c : Config) : Type 0 where
  pub workers : 0 < pos_part c.proc_workers
  pub others : neg_part c.proc_others ≡ 0
  pub enough : pos_part c.proc_workers + pos_part c.proc_others ≤ pu_count

-- The sum of the two numbers of processors is an `int` without an overflow.
abbrev pub Fits : Config → Type 0
Fits c = pos_part c.proc_workers + pos_part c.proc_others < 2 ^ 31

int32_sum :
    (a b : ℤ)
    → neg_part a ≡ 0
    → neg_part b ≡ 0
    → pos_part a + pos_part b < 2 ^ 31
    → int32 (a +ℤ b) ≡ pos (pos_part a + pos_part b)
unfolding ◌+ℤ◌
int32_sum a b h k f =
    let sum : a +ℤ b ≡ pos (pos_part a + pos_part b) = ground (arith, h, k) in
    ap int32 sum ∙ int32-pos (pos_part a + pos_part b) f

check_config-IsChecked :
    (pu_count : ℕ) (c : Config)
    → Fits c
    → check_config (pos pu_count) c ≡ pos 0
    → IsChecked pu_count c
unfolding check_config
check_config-IsChecked pu_count c f h =
    let w : neg_part c.proc_workers ≡ 0 = ground (arith, h) in
    let o : neg_part c.proc_others ≡ 0 = ground (arith, h) in
    let sum = int32_sum c.proc_workers c.proc_others w o f in
    record { workers = ground (arith, h); others = o; enough = ground (arith, h, sum) }

is_zero_code : (r : ℤ) → eqb_ℤ r (pos 0) ≡ true → r ≡ pos 0
is_zero_code (pos n) q = ground (arith, q)
is_zero_code (negsuc n) q = cc

some_others : (n : ℤ) → eqb_ℤ n (pos 0) ≡ false → neg_part n ≡ 0 → 0 < pos_part n
some_others (pos n) z o = ground (arith, z)
some_others (negsuc n) z o = absurd (omega arith)

-- The state of the module after the start, with the others' turn at any of their processors.
pub record IsReady (pu_count : ℕ) (c : Config) (k : Cpus) : Type 0 where
  pub workers_set : Within 0 (pos_part c.proc_workers) k.cpuset_workers
  pub others_set : Within (first_other c) pu_count k.cpuset_others
  pub workers : k.proc_workers ≡ pos_part c.proc_workers
  pub offset : k.offset_others ≡ first_other c
  pub last : k.offset_others + k.proc_others ≤ pu_count
  pub turn : k.rot_others < k.proc_others

pub start-IsReady :
    (pu_count : ℕ) (c : Config) (k : Cpus)
    → Fits c
    → start (pos pu_count) c ≡ (pos 0, some k)
    → IsChecked pu_count c × IsReady pu_count c k
unfolding start hwloc_start
start-IsReady pu_count c k f h = elim (Bool-cases (eqb_ℤ (check_config (pos pu_count) c) (pos 0))) [
  | inl e ↦
      let v =
        check_config-IsChecked pu_count c f (is_zero_code (check_config (pos pu_count) c) e) in
      (v, subst (IsReady pu_count c) (started e) (ready v))
  | inr e ↦ absurd (ground (arith, e, h))
]
  where
    started : eqb_ℤ (check_config (pos pu_count) c) (pos 0) ≡ true → hwloc_start c ≡ k
    started e = ground (arith, e, h)

    ready : IsChecked pu_count c → IsReady pu_count c (hwloc_start c)
    ready v = elim (Bool-cases (eqb_ℤ c.proc_others (pos 0))) [
      | inl z ↦
          let first : first_other c ≡ 0 = ap (λ b. if b then 0 else pos_part c.proc_workers) z in
          rw z (record {
            workers_set =
                Within-range 0 (pos_part c.proc_workers) 0 (pos_part c.proc_workers) (omega arith)
                  (omega arith);
            others_set =
                subst (λ n. Within n pu_count (cpu_range 0 (pos_part c.proc_workers))) (sym first)
                  (Within-range 0 pu_count 0 (pos_part c.proc_workers) (omega arith)
                    (omega (arith, v.enough)));
            workers = refl;
            offset = sym first;
            last = omega (arith, v.enough);
            turn = v.workers;
          })
      | inr z ↦
          let first : first_other c ≡ pos_part c.proc_workers =
            ap (λ b. if b then 0 else pos_part c.proc_workers) z in
          rw z (record {
            workers_set =
                Within-range 0 (pos_part c.proc_workers) 0 (pos_part c.proc_workers) (omega arith)
                  (omega arith);
            others_set =
                subst
                  (λ n.
                    Within n pu_count
                      (cpu_range (pos_part c.proc_workers) (pos_part c.proc_others)))
                  (sym first)
                  (Within-range (pos_part c.proc_workers) pu_count (pos_part c.proc_workers)
                    (pos_part c.proc_others) (omega arith) v.enough);
            workers = refl;
            offset = sym first;
            last = v.enough;
            turn = some_others c.proc_others z v.others;
          })
    ]

-- A thread that exists: a wrapper, a source or sink, or a worker below the number of workers.
abbrev pub IsThread : Config → ℤ → Type 0
IsThread c (pos i) = ltb_ℤ (pos i) c.num_workers ≡ true
IsThread c (negsuc i) = i < 2

-- Workers have the first processors, the others those from `first_other` on.
abbrev pub IsPlaced : ℕ → Config → ℤ → List ℕ → Type 0
IsPlaced pu_count c (pos i) cpus = Within 0 (pos_part c.proc_workers) cpus
IsPlaced pu_count c (negsuc i) cpus = Within (first_other c) pu_count cpus

-- The processors of threads that are assigned one after the other.
abbrev pub assign_all : Config → List ℤ → Cpus → Run (List (List ℕ))
assign_all c [] k = ok []
assign_all c (core ∷ cores) k =
    thread_cpus c core k >>= λ (cpus, k'). map_run (λ rest. cpus ∷ rest) (assign_all c cores k')

abbrev pub AllThreads : Config → List ℤ → Type 0
AllThreads c [] = Unit
AllThreads c (core ∷ cores) = IsThread c core × AllThreads c cores

abbrev pub AllPlaced : ℕ → Config → List ℤ → List (List ℕ) → Type 0
AllPlaced pu_count c [] [] = Unit
AllPlaced pu_count c (core ∷ cores) (cpus ∷ rest) =
    IsPlaced pu_count c core cpus × AllPlaced pu_count c cores rest
AllPlaced pu_count c [] (cpus ∷ rest) = ⊥
AllPlaced pu_count c (core ∷ cores) [] = ⊥
