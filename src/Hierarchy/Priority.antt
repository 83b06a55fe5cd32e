-- ===== src/Hierarchy/Priority.antt =====
-- src/sched/hierarchy/taskpriority.c and the configuration that it fills: the priority of a task
-- from the numbers of records in its input and output streams.
mod Tests
use lpel.Base.{
  ℕ, zero, suc, ◌+◌, ◌-◌, ◌*◌, ◌/◌, ◌%◌, ◌^◌, ◌<◌, ◌≤◌, ◌≡◌, ◌≢◌, refl, ap, sym, subst, ◌∙◌, arith,
  dec_lt, ℕ_discrete, ◌⊎◌, inl, inr, ◌↔◌, Bool, true, false, not, ◌&&◌, ◌||◌, Option, none, some,
  List, [], ◌∷◌, ◌++◌, append-nil, append_assoc, map, Ptr, null, ◌==◌, if◌then◌else◌, ltb, leb,
  length, set, get_elem?, get_or, head_or, last_or, replicate, assign, assign_self, assign_ne,
  length-append, length-set, lt→ltb, ==_of_ne, ==_self, ==→eq, ==_false→ne, le→ltb_false,
  Bool-cases, Option-cases, tests, load, store, load-ok, store-ok, mem, ◌∈◌, ◌∉◌, Distinct, IsChain,
  mem-append, Distinct-remove, map-assign, map-snoc, apart_sym, not_mem_snoc, snoc_apart, mem-last,
  mem-head, ne_of_mem, ne_null_of_mem, IsChain-frame, IsChain-assign, head_or-append,
  last_or-append, IsChain-append, IsChain-left, IsChain-right, IsChain-last, IsChain-assign_last,
  Distinct-left, Distinct-right, Distinct-append, Distinct-apart,
}
use lpel.Base.Run.{out_of_fuel, Run, ok, assert_failed, fault, ◌>>=◌, ◌>>◌, assert, access, map_run}
use lpel.Base.Int.{◌-ℤ◌, ℤ, pos, negsuc, pos_part, neg_part}

-- What is used of the type `double`; `less` is `<`, and `difference` is the subtraction cut to `int`.
pub record Double (D : Type 0) : Type 0 where
  pub of_int : ℤ → D
  pub plus : D → D → D
  pub times : D → D → D
  pub over : D → D → D
  pub dbl_max : D
  pub less : D → D → Bool
  pub difference : D → D → ℤ

-- `prio_type`
pub data PrioType : Type 0 where
  static_prio : PrioType
  dynamic_prio : PrioType

-- `lpel_task_prio_conf`; `none` is NULL, the flag `update_neigh_prio` is a truth value.
pub record PrioConf (D : Type 0) : Type 0 where
  pub prio_index : ℤ
  pub prio_type : PrioType
  pub update_neigh_prio : Bool
  pub neg_demand_lim : ℤ
  pub prio_func : Option (ℤ → ℤ → D)
  pub rts_prio_cmp : Option (Ptr → Ptr → ℤ)

-- `n == -1`
abbrev pub is_minus_one : ℤ → Bool
is_minus_one (pos n) = false
is_minus_one (negsuc n) = n == 0

-- `case n`
abbrev pub is_case : ℕ → ℤ → Bool
is_case n (pos i) = i == n
is_case n (negsuc i) = false

module _ {D : Type 0} (d : Double D) where
  -- `n + 1.0`
  abbrev pub succ_of : ℤ → D
  succ_of n = d.plus (d.of_int n) (d.of_int (pos 1))

  -- `1.0 + n`, of an entry task's output
  abbrev pub one_plus : ℤ → D
  one_plus n = d.plus (d.of_int (pos 1)) (d.of_int n)

  -- `if (out == -1) out = 0;`
  abbrev pub zero_if_none : ℤ → ℤ
  zero_if_none n = if is_minus_one n then pos 0 else n

  abbrev pub prior_func1 : ℤ → ℤ → D
  prior_func1 i o =
      if is_minus_one i
      then d.of_int (pos 0)
      else if is_minus_one o
      then d.dbl_max
      else d.over (succ_of i) (succ_of o)

  abbrev pub prior_func2 : ℤ → ℤ → D
  prior_func2 i o =
      if is_minus_one i
      then d.of_int (pos 0)
      else if is_minus_one o
      then succ_of i
      else d.over (succ_of i) (succ_of o)

  abbrev pub prior_func3 : ℤ → ℤ → D
  prior_func3 i o =
      if is_minus_one i
      then d.over (d.of_int (pos 1)) (one_plus (zero_if_none o))
      else if is_minus_one o
      then d.dbl_max
      else d.over (succ_of i) (succ_of o)

  abbrev pub prior_func4 : ℤ → ℤ → D
  prior_func4 i o =
      if is_minus_one i
      then d.over (d.of_int (pos 1)) (one_plus (zero_if_none o))
      else if is_minus_one o
      then succ_of i
      else d.over (succ_of i) (succ_of o)

  abbrev pub prior_func5 : ℤ → ℤ → D
  prior_func5 i o =
      if is_minus_one i
      then d.of_int (pos 0)
      else if is_minus_one o
      then d.dbl_max
      else d.over (d.times (succ_of i) (succ_of i)) (succ_of o)

  abbrev pub prior_func6 : ℤ → ℤ → D
  prior_func6 i o =
      if is_minus_one i
      then d.of_int (pos 0)
      else if is_minus_one o
      then d.times (succ_of i) (succ_of i)
      else d.over (d.times (succ_of i) (succ_of i)) (succ_of o)

  abbrev pub prior_func7 : ℤ → ℤ → D
  prior_func7 i o =
      if is_minus_one i
      then d.over (d.of_int (pos 1)) (one_plus (zero_if_none o))
      else if is_minus_one o
      then d.dbl_max
      else d.over (d.times (succ_of i) (succ_of i)) (succ_of o)

  abbrev pub prior_func8 : ℤ → ℤ → D
  prior_func8 i o =
      if is_minus_one i
      then d.over (d.of_int (pos 1)) (one_plus (zero_if_none o))
      else if is_minus_one o
      then d.times (succ_of i) (succ_of i)
      else d.over (d.times (succ_of i) (succ_of i)) (succ_of o)

  abbrev pub prior_func9 : ℤ → ℤ → D
  prior_func9 i o =
      if is_minus_one i
      then d.of_int (pos 0)
      else if is_minus_one o
      then d.dbl_max
      else d.over (d.over (succ_of i) (succ_of o)) (succ_of o)

  abbrev pub prior_func10 : ℤ → ℤ → D
  prior_func10 i o =
      if is_minus_one i
      then d.of_int (pos 0)
      else if is_minus_one o
      then succ_of i
      else d.over (d.over (succ_of i) (succ_of o)) (succ_of o)

  abbrev pub prior_func11 : ℤ → ℤ → D
  prior_func11 i o =
      if is_minus_one i
      then d.over (d.over (d.of_int (pos 1)) (one_plus (zero_if_none o))) (succ_of (zero_if_none o))
      else if is_minus_one o
      then d.dbl_max
      else d.over (d.over (succ_of i) (succ_of o)) (succ_of o)

  abbrev pub prior_func12 : ℤ → ℤ → D
  prior_func12 i o =
      if is_minus_one i
      then d.over (d.over (d.of_int (pos 1)) (one_plus (zero_if_none o))) (succ_of (zero_if_none o))
      else if is_minus_one o
      then succ_of i
      else d.over (d.over (succ_of i) (succ_of o)) (succ_of o)

  abbrev pub prior_func14 : ℤ → ℤ → D
  prior_func14 i o = d.of_int (zero_if_none i -ℤ zero_if_none o)

  -- The `switch` of `LpelTaskPrioInit`, and the fields that it sets; `random` is `priorrandom`.
  unfoldable pub choose : (ℤ → ℤ → D) → ℤ → PrioConf D → PrioConf D
  choose random i c =
      if is_case 1 i
      then record c { prio_func = some prior_func1 }
      else if is_case 2 i
      then record c { prio_func = some prior_func2 }
      else if is_case 3 i
      then record c { prio_func = some prior_func3 }
      else if is_case 4 i
      then record c { prio_func = some prior_func4 }
      else if is_case 5 i
      then record c { prio_func = some prior_func5 }
      else if is_case 6 i
      then record c { prio_func = some prior_func6 }
      else if is_case 7 i
      then record c { prio_func = some prior_func7 }
      else if is_case 8 i
      then record c { prio_func = some prior_func8 }
      else if is_case 9 i
      then record c { prio_func = some prior_func9 }
      else if is_case 10 i
      then record c { prio_func = some prior_func10 }
      else if is_case 11 i
      then record c { prio_func = some prior_func11 }
      else if is_case 12 i
      then record c { prio_func = some prior_func12 }
      else if is_case 13 i
      then record c { prio_func = some random }
      else if is_case 14 i
      then record c { prio_func = some prior_func14 }
      else if is_case 15 i
      then record c { prio_func = none; prio_type = static_prio; update_neigh_prio = false }
      else if is_case 16 i
      then record c { prio_func = some random; prio_type = static_prio; update_neigh_prio = false }
      else record c { prio_func = some prior_func14 }

  -- `LpelTaskPrioInit`; `srand` is left to the caller's `random`.
  unfoldable pub prio_init : (ℤ → ℤ → D) → PrioConf D → PrioConf D
  unfolding choose
  prio_init random c =
      let chosen =
        choose random c.prio_index
          (record c { prio_type = dynamic_prio; update_neigh_prio = true }) in
      if is_case 15 chosen.prio_index then chosen else record chosen { rts_prio_cmp = none }
