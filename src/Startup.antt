-- ===== src/Startup.antt =====
-- src/lpel_main.c and src/lpel_hwloc.c: the check of a configuration and the processors that threads
-- are pinned to, in the variant with HAVE_PTHREAD_SETAFFINITY_NP. A set of processors is the list of
-- its members; the calls of the system are arguments.
pub mod Topology
pub mod Order
pub mod Places
pub mod Pinning
mod Tests
use lpel.Base.{
  ℕ, zero, suc, ◌+◌, ◌-◌, ◌*◌, ◌/◌, ◌%◌, ◌^◌, ◌<◌, ◌≤◌, ◌≡◌, ◌≢◌, refl, ap, sym, subst, ◌∙◌, arith,
  dec_lt, ℕ_discrete, ◌⊎◌, inl, inr, ◌↔◌, Bool, true, false, not, ◌&&◌, ◌||◌, Option, none, some,
  List, [], ◌∷◌, ◌++◌, append-nil, append_assoc, map, Ptr, null, ◌==◌, if◌then◌else◌, ltb, leb,
  length, set, get_elem?, get_or, head_or, last_or, replicate, assign, assign_self, assign_ne,
  assign_undo, assign-assign, fun_ext, length-append, length-set, lt→ltb, ==_of_ne, ==_self, ==→eq,
  ==_false→ne, le→ltb_false, Bool-cases, Option-cases, tests, load, store, load-ok, store-ok, mem,
  ◌∈◌, ◌∉◌, Distinct, IsChain, mem-append, Distinct-remove, map-assign, map-snoc, apart_sym,
  not_mem_snoc, snoc_apart, mem-last, mem-head, ne_of_mem, ne_null_of_mem, IsChain-frame,
  IsChain-assign, head_or-append, last_or-append, IsChain-append, IsChain-left, IsChain-right,
  IsChain-last, IsChain-assign_last, Distinct-left, Distinct-right, Distinct-append, Distinct-apart,
}
use lpel.Base.Run.{out_of_fuel, Run, ok, assert_failed, fault, ◌>>=◌, ◌>>◌, assert, access, map_run}
use lpel.Base.Int.{int32, ℤ, pos, negsuc, pos_part, neg_part}
use lpel.Base.Int.{◌+ℤ◌, ltb_ℤ}
use lpel.Timing.{eqb_ℤ}

-- `lpel_backend_type`
pub data Backend : Type 0 where
  decen_lpel : Backend
  hrc_lpel : Backend

-- The fields of `lpel_config_t` that the start reads; `pinned` and `exclusive` are the bits
-- LPEL_FLAG_PINNED and LPEL_FLAG_EXCLUSIVE of its flags.
pub record Config : Type 0 where
  pub backend : Backend
  pub num_workers : ℤ
  pub proc_workers : ℤ
  pub proc_others : ℤ
  pub pinned : Bool
  pub exclusive : Bool

-- `LPEL_ERR_FAIL`, `LPEL_ERR_INVAL`, `LPEL_ERR_ASSIGN` and `LPEL_ERR_EXCL`; 0 is success.
abbrev pub err_fail : ℤ
err_fail = negsuc 0

abbrev pub err_inval : ℤ
err_inval = pos 1

abbrev pub err_assign : ℤ
err_assign = pos 2

abbrev pub err_excl : ℤ
err_excl = pos 3

-- `LpelGetNumCores`: `online` is what sysconf returns, -1 where there is none, and `variable` the value
-- of LPEL_NUM_WORKERS. The result is the code, and what `*result` is set to.
unfoldable pub get_num_cores : ℤ → Option ℤ → ℤ × Option ℤ
get_num_cores online variable =
    let proc_avail =
      if eqb_ℤ online err_fail then elim variable [ none ↦ online | some n ↦ n ] else online in
    if eqb_ℤ proc_avail err_fail then (err_fail, none) else (pos 0, some proc_avail)

-- The `#else` of LpelHwLocInit, without sysconf: the processors that it notes, from `old` on.
unfoldable pub init_fallback : Option ℤ → ℤ → ℤ
unfolding get_num_cores
init_fallback variable old =
    let (res, found) = get_num_cores err_fail variable in
    let counted : ℤ = elim found [ none ↦ old | some n ↦ n ] in
    if eqb_ℤ res (pos 0) then res else counted

abbrev pub min_workers : Backend → ℤ
min_workers decen_lpel = pos 0
min_workers hrc_lpel = pos 1

-- `LpelHwLocCheckConfig`; the test of permissions has no effect, and the sum is an `int`.
unfoldable pub check_config : ℤ → Config → ℤ
check_config pu_count c =
    let too_few =
      not (ltb_ℤ (min_workers c.backend) c.num_workers) || not (ltb_ℤ (pos 0) c.proc_workers) in
    let counted = not (eqb_ℤ pu_count err_fail) in
    let exclusive_mapping = eqb_ℤ c.proc_others (pos 0) || ltb_ℤ c.proc_workers c.num_workers in
    if too_few
    then err_inval
    else if ltb_ℤ c.proc_others (pos 0)
    then err_inval
    else if counted && ltb_ℤ pu_count (int32 (c.proc_workers +ℤ c.proc_others))
    then err_inval
    else if counted && (c.exclusive && exclusive_mapping)
    then err_inval
    else if c.exclusive && not c.pinned
    then err_inval
    else pos 0

-- The variables of the module that LpelThreadAssign reads.
pub record Cpus : Type 0 where
  pub cpuset_workers : List ℕ
  pub cpuset_others : List ℕ
  pub offset_others : ℕ
  pub rot_others : ℕ
  pub proc_others : ℕ
  pub proc_workers : ℕ

-- `for (i=from; i < from+n; i++) CPU_SET(i, &cpuset)` on the empty set.
abbrev pub cpu_range : ℕ → ℕ → List ℕ
cpu_range from zero = []
cpu_range from (suc n) = from ∷ cpu_range (from + 1) n

-- `LpelHwLocStart`; no thread has been assigned before.
unfoldable pub hwloc_start : Config → Cpus
hwloc_start c =
    let workers = pos_part c.proc_workers in
    let others = pos_part c.proc_others in
    if eqb_ℤ c.proc_others (pos 0)
    then record {
      cpuset_workers = cpu_range 0 workers;
      cpuset_others = cpu_range 0 workers;
      offset_others = 0;
      rot_others = 0;
      proc_others = workers;
      proc_workers = workers;
    }
    else record {
      cpuset_workers = cpu_range 0 workers;
      cpuset_others = cpu_range workers others;
      offset_others = workers;
      rot_others = 0;
      proc_others = others;
      proc_workers = workers;
    }

-- The cases LPEL_MAP_WRAPPER and LPEL_MAP_SOSI of LpelThreadAssign. The remainder by zero is a fault.
unfoldable pub other_cpus : Config → Cpus → Run (List ℕ × Cpus)
other_cpus c k =
    let turned : Cpus = record k { rot_others = (k.rot_others + 1) % k.proc_others } in
    let pinned =
      if k.proc_others == 0 then fault else ok ((k.rot_others + k.offset_others) ∷ [], turned) in
    if c.pinned then pinned else ok (k.cpuset_others, k)

-- The processors that LpelThreadAssign gives a thread: `core` is the worker, or LPEL_MAP_WRAPPER (-1),
-- or LPEL_MAP_SOSI (-2). A worker that is pinned has a number from 0 to `num_workers`.
unfoldable pub thread_cpus : Config → ℤ → Cpus → Run (List ℕ × Cpus)
unfolding other_cpus
thread_cpus c (pos i) k =
    let pinned =
      assert (ltb_ℤ (pos i) c.num_workers)
      >> (if k.proc_workers == 0 then fault else ok ((i % k.proc_workers) ∷ [], k)) in
    if c.pinned then pinned else ok (k.cpuset_workers, k)
thread_cpus c (negsuc zero) k = other_cpus c k
thread_cpus c (negsuc (suc zero)) k = other_cpus c k
thread_cpus c (negsuc (suc (suc i))) k =
    if c.pinned then assert_failed else ok (k.cpuset_workers, k)

-- `LpelThreadAssign`: `set` is what pthread_setaffinity_np returns for these processors, and `raise`
-- what pthread_setschedparam returns.
unfoldable pub thread_assign : Config → (List ℕ → ℤ) → ℤ → ℤ → Cpus → Run (ℤ × Cpus)
unfolding thread_cpus
thread_assign c set raise core k = thread_cpus c core k >>= λ (cpus, k'). ok (
  if not (eqb_ℤ (set cpus) (pos 0))
      then err_assign
      else if c.exclusive && not (ltb_ℤ core (pos 0)) && not (eqb_ℤ raise (pos 0))
      then err_excl
      else pos 0,
  k',
)

-- `LpelStart` up to the workers: the code, and the state of the module when it is success.
unfoldable pub start : ℤ → Config → ℤ × Option Cpus
unfolding check_config hwloc_start
start pu_count c =
    let res = check_config pu_count c in
    if eqb_ℤ res (pos 0) then (pos 0, some (hwloc_start c)) else (res, none)
