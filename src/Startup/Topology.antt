-- ===== src/Startup/Topology.antt =====
-- src/lpel_hwloc.c with HAVE_HWLOC: the places of the processing units, numbered in the order of a
-- traversal of the topology, which hwloc provides as a tree of objects.
use lpel.Base.{ℕ, ◌+◌, Bool, ◌&&◌, List, [], ◌∷◌, ◌++◌, if◌then◌else◌, ltb, get_elem?}
use lpel.Base.Run.{Run, ok, ◌>>=◌, ◌>>◌, assert, access}
use lpel.Base.Int.{ℤ, pos, negsuc}
use lpel.Base.Sem.{incr}
use lpel.Timing.{eqb_ℤ}

-- `hwloc_obj_type_t`, as far as it matters.
pub data ObjType : Type 0 where
  obj_socket : ObjType
  obj_core : ObjType
  obj_pu : ObjType
  obj_other : ObjType

-- `hwloc_obj_t` with its children.
mutual
  pub data Obj : Type 0 where
    obj : ObjType → Objs → Obj

  pub data Objs : Type 0 where
    nil : Objs
    cons : Obj → Objs → Objs

-- `lpel_hw_place_t`
pub record Place : Type 0 where
  pub socket : ℤ
  pub core : ℤ
  pub pu : ℤ

-- The static variables of `traverse`, and the entries of `hw_places` written so far.
pub record Walk : Type 0 where
  pub index : ℕ
  pub current : Place
  pub hw_places : List Place

abbrev pub minus_one : ℤ
minus_one = negsuc 0

-- The variables when the program starts.
abbrev pub walk_start : Walk
walk_start = record {
  index = 0;
  current = record { socket = minus_one; core = minus_one; pu = minus_one };
  hw_places = [];
}

abbrev pub next_socket : Place → Place
next_socket p = record { socket = incr p.socket; core = minus_one; pu = minus_one }

abbrev pub next_core : Place → Place
next_core p = record { socket = p.socket; core = incr p.core; pu = minus_one }

abbrev pub next_pu : Place → Place
next_pu p = record { socket = p.socket; core = p.core; pu = incr p.pu }

-- The switch of `traverse`.
unfoldable pub visit : ObjType → Walk → Walk
visit obj_socket w = record w { current = next_socket w.current }
visit obj_core w = record w { current = next_core w.current }
visit obj_pu w = record {
  index = w.index + 1;
  current = next_pu w.current;
  hw_places = w.hw_places ++ (next_pu w.current ∷ []);
}
visit obj_other w = w

-- `assert(index < pu_count)` and the switch.
unfoldable pub enter : ℕ → ObjType → Walk → Run Walk
unfolding visit
enter pu_count t w = assert (ltb w.index pu_count) >> ok (visit t w)

-- `traverse`
unfoldable mutual
  unfolding enter

  pub traverse : ℕ → Obj → Walk → Run Walk
  traverse pu_count (obj t children) w =
      enter pu_count t w >>= λ w'. traverse_children pu_count children w'

  pub traverse_children : ℕ → Objs → Walk → Run Walk
  traverse_children pu_count nil w = ok w
  traverse_children pu_count (cons o os) w =
      traverse pu_count o w >>= λ w'. traverse_children pu_count os w'

-- The number of processing units, `hwloc_get_nbobjs_by_type(topology, HWLOC_OBJ_PU)`.
abbrev pub own_pus : ObjType → ℕ
own_pus obj_pu = 1
own_pus obj_socket = 0
own_pus obj_core = 0
own_pus obj_other = 0

unfoldable mutual
  pub pus : Obj → ℕ
  pus (obj t children) = own_pus t + pus_of children

  pub pus_of : Objs → ℕ
  pus_of nil = 0
  pus_of (cons o os) = pus o + pus_of os

-- `LpelHwLocInit`, from the static variables `w` on.
unfoldable pub hwloc_init : Obj → Walk → Run Walk
unfolding traverse pus
hwloc_init root w = traverse (pus root) root (record w { hw_places = [] })

abbrev pub same_place : Place → Place → Bool
same_place a b = eqb_ℤ a.socket b.socket && (eqb_ℤ a.core b.core && eqb_ℤ a.pu b.pu)

-- `LpelHwLocToWorker`, the loop from `i` on.
unfoldable pub place_to_worker_from : ℕ → List Place → Place → ℤ
place_to_worker_from i [] place = minus_one
place_to_worker_from i (p ∷ ps) place =
    if same_place p place then pos i else place_to_worker_from (i + 1) ps place

unfoldable pub place_to_worker : List Place → Place → ℤ
unfolding place_to_worker_from
place_to_worker places place = place_to_worker_from 0 places place

-- `LpelWorkerToHwLoc`
unfoldable pub worker_to_place : List Place → ℕ → Run Place
worker_to_place places wid = access (get_elem? places wid)
