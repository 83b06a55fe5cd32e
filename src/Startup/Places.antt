-- ===== src/Startup/Places.antt =====
-- src/lpel_hwloc.c: the numbers of the places, and LpelHwLocToWorker.
use lpel.Base.Int.{pos}
use lpel.Startup.Order.{
  place_to_worker-get_elem?, Before-next_pu, Before-next_core, Before-next_socket, Ascends-from,
  Ascends,
}
use lpel.Base.{
  le→ltb_false, zero, subst, suc, some, get_elem?, ℕ, ◌+◌, ◌<◌, ◌≡◌, refl, ap, sym, ◌∙◌, arith,
  List, [], ◌∷◌, ◌++◌, append-nil, append_assoc, length, fun_ext, lt→ltb,
}
use lpel.Base.Run.{assert_failed, Run, ok, ◌>>=◌}
use lpel.Base.After.{bind_assoc}
use lpel.Startup.Topology.{
  place_to_worker, walk_start, worker_to_place, hwloc_init, ObjType, obj_socket, obj_core, obj_pu,
  obj_other, Obj, obj, Objs, nil, cons, Place, Walk, next_socket, next_core, next_pu, visit, enter,
  traverse, traverse_children, own_pus, pus, pus_of,
}

-- The types of the objects in the order of the traversal.
mutual
  preorder : Obj → List ObjType
  preorder (obj t children) = t ∷ preorder_of children

  preorder_of : Objs → List ObjType
  preorder_of nil = []
  preorder_of (cons o os) = preorder o ++ preorder_of os

run_types : ℕ → List ObjType → Walk → Run Walk
run_types n [] w = ok w
run_types n (t ∷ ts) w = enter n t w >>= run_types n ts

run_types-append :
    (n : ℕ) (ts us : List ObjType) (w : Walk)
    → run_types n (ts ++ us) w ≡ (run_types n ts w >>= run_types n us)
unfolding run_types
run_types-append n [] us w = refl
run_types-append n (t ∷ ts) us w =
    ap (λ f. enter n t w >>= f) (fun_ext (λ v. run_types-append n ts us v))
    ∙ sym (bind_assoc (enter n t w) (run_types n ts) (run_types n us))

mutual
  unfolding traverse preorder run_types

  traverse-preorder : (n : ℕ) (o : Obj) (w : Walk) → traverse n o w ≡ run_types n (preorder o) w
  traverse-preorder n (obj t children) w =
      ap (λ f. enter n t w >>= f) (fun_ext (λ v. children-preorder n children v))

  children-preorder :
      (n : ℕ) (os : Objs) (w : Walk) → traverse_children n os w ≡ run_types n (preorder_of os) w
  children-preorder n nil w = refl
  children-preorder n (cons o os) w =
      ap (λ r. r >>= λ v. traverse_children n os v) (traverse-preorder n o w)
      ∙ ap (λ f. run_types n (preorder o) w >>= f) (fun_ext (λ v. children-preorder n os v))
      ∙ sym (run_types-append n (preorder o) (preorder_of os) w)

abbrev count_pus : List ObjType → ℕ
count_pus [] = 0
count_pus (t ∷ ts) = own_pus t + count_pus ts

count_pus-append : (ts us : List ObjType) → count_pus (ts ++ us) ≡ count_pus ts + count_pus us
count_pus-append [] us = omega arith
count_pus-append (t ∷ ts) us = omega (arith, count_pus-append ts us)

mutual
  unfolding pus preorder

  pus-preorder : (o : Obj) → pus o ≡ count_pus (preorder o)
  pus-preorder (obj t children) = omega (arith, pus_of-preorder children)

  pus_of-preorder : (os : Objs) → pus_of os ≡ count_pus (preorder_of os)
  pus_of-preorder nil = refl
  pus_of-preorder (cons o os) =
      omega
        (arith, pus-preorder o, pus_of-preorder os, count_pus-append (preorder o) (preorder_of os))

-- Every object of the topology has a processing unit in it.
unfoldable mutual
  pub HasPus : Obj → Type 0
  HasPus (obj t children) = (0 < own_pus t + pus_of children) × AllHavePus children

  pub AllHavePus : Objs → Type 0
  AllHavePus nil = Unit
  AllHavePus (cons o os) = HasPus o × AllHavePus os

-- From each object on there is a processing unit to come.
abbrev EachAhead : List ObjType → Type 0
EachAhead [] = Unit
EachAhead (t ∷ ts) = (0 < own_pus t + count_pus ts) × EachAhead ts

EachAhead-append : (ts us : List ObjType) → EachAhead ts → EachAhead us → EachAhead (ts ++ us)
EachAhead-append [] us h k = k
EachAhead-append (t ∷ ts) us h k =
    (omega (arith, h.0, count_pus-append ts us), EachAhead-append ts us h.1 k)

mutual
  unfolding HasPus preorder

  HasPus-EachAhead : (o : Obj) → HasPus o → EachAhead (preorder o)
  HasPus-EachAhead (obj t children) h =
      (omega (arith, h.0, pus_of-preorder children), AllHavePus-EachAhead children h.1)

  AllHavePus-EachAhead : (os : Objs) → AllHavePus os → EachAhead (preorder_of os)
  AllHavePus-EachAhead nil h = tt
  AllHavePus-EachAhead (cons o os) h =
      EachAhead-append (preorder o) (preorder_of os) (HasPus-EachAhead o h.0)
        (AllHavePus-EachAhead os h.1)

-- The places in the order of the traversal.
scan : List ObjType → Place → List Place
scan [] p = []
scan (obj_socket ∷ ts) p = scan ts (next_socket p)
scan (obj_core ∷ ts) p = scan ts (next_core p)
scan (obj_pu ∷ ts) p = next_pu p ∷ scan ts (next_pu p)
scan (obj_other ∷ ts) p = scan ts p

length-scan : (ts : List ObjType) (p : Place) → length (scan ts p) ≡ count_pus ts
unfolding scan
length-scan [] p = refl
length-scan (obj_socket ∷ ts) p = omega (arith, length-scan ts (next_socket p))
length-scan (obj_core ∷ ts) p = omega (arith, length-scan ts (next_core p))
length-scan (obj_pu ∷ ts) p = omega (arith, length-scan ts (next_pu p))
length-scan (obj_other ∷ ts) p = omega (arith, length-scan ts p)

-- The traversal writes these places, behind those of before, and ends at `n`.
abbrev Walked : ℕ → List Place → Run Walk → Type 0
Walked n places r = (w : Walk) × (r ≡ ok w) × (w.hw_places ≡ places) × (w.index ≡ n)

run_types-Walked :
    (n : ℕ) (ts : List ObjType) (w : Walk)
    → EachAhead ts
    → w.index + count_pus ts ≡ n
    → Walked n (w.hw_places ++ scan ts w.current) (run_types n ts w)
unfolding run_types scan enter
run_types-Walked n [] w h k = (w, refl, sym (append-nil w.hw_places), omega arith)
run_types-Walked n (obj_socket ∷ ts) w h k =
    rw (lt→ltb w.index n (omega arith))
      (run_types-Walked n ts (visit obj_socket w) h.1 (omega arith))
run_types-Walked n (obj_core ∷ ts) w h k =
    rw (lt→ltb w.index n (omega arith)) (run_types-Walked n ts (visit obj_core w) h.1 (omega arith))
run_types-Walked n (obj_other ∷ ts) w h k =
    rw (lt→ltb w.index n (omega arith)) (run_types-Walked n ts w h.1 (omega arith))
run_types-Walked n (obj_pu ∷ ts) w h k =
    let (w', e, places, i) = run_types-Walked n ts (visit obj_pu w) h.1 (omega arith) in
    (
      w',
      rw (lt→ltb w.index n (omega arith)) e,
      places ∙ append_assoc w.hw_places (next_pu w.current ∷ []) (scan ts (next_pu w.current)),
      i,
    )

scan-Ascends : (ts : List ObjType) (p : Place) → Ascends p (scan ts p)
unfolding scan
scan-Ascends [] p = tt
scan-Ascends (obj_socket ∷ ts) p =
    Ascends-from p (next_socket p) (scan ts (next_socket p)) (Before-next_socket p)
      (scan-Ascends ts (next_socket p))
scan-Ascends (obj_core ∷ ts) p =
    Ascends-from p (next_core p) (scan ts (next_core p)) (Before-next_core p)
      (scan-Ascends ts (next_core p))
scan-Ascends (obj_pu ∷ ts) p = (Before-next_pu p, scan-Ascends ts (next_pu p))
scan-Ascends (obj_other ∷ ts) p = scan-Ascends ts p

get_elem?-some : (qs : List Place) (i : ℕ) → i < length qs → (q : Place) × (get_elem? qs i ≡ some q)
get_elem?-some [] i h = absurd (omega arith)
get_elem?-some (q ∷ qs) zero h = (q, refl)
get_elem?-some (q ∷ qs) (suc i) h = get_elem?-some qs i (omega arith)

-- On a topology in which every object has a processing unit in it, the first LpelHwLocInit returns
-- and writes as many places as there are units, and LpelHwLocToWorker of the place that
-- LpelWorkerToHwLoc gives for a worker below that number is the worker again.
pub place_to_worker-worker_to_place :
    (root : Obj)
    → HasPus root
    → (w : Walk) × (hwloc_init root walk_start ≡ ok w)
      × (length w.hw_places ≡ pus root)
      × ((i : ℕ)
          → i < pus root
          → (p : Place) × (worker_to_place w.hw_places i ≡ ok p)
            × (place_to_worker w.hw_places p ≡ pos i))
unfolding hwloc_init worker_to_place place_to_worker
place_to_worker-worker_to_place root h =
    let ts = preorder root in
    let (w, e, places, i) =
      run_types-Walked (pus root) ts walk_start (HasPus-EachAhead root h)
        (omega (arith, pus-preorder root)) in
    let n : length w.hw_places ≡ pus root =
      ap length places ∙ length-scan ts walk_start.current ∙ sym (pus-preorder root) in
    (
      w,
      traverse-preorder (pus root) root walk_start ∙ e,
      n,
      λ k lt.
          let (p, g) = get_elem?-some w.hw_places k (omega (arith, n, lt)) in
          (
            p,
            rw g refl,
            place_to_worker-get_elem? 0 walk_start.current w.hw_places k p
                  (subst (Ascends walk_start.current) (sym places)
                    (scan-Ascends ts walk_start.current))
                  g
                ∙ ap pos (omega arith),
          ),
    )

traverse-again : (n : ℕ) (o : Obj) (w : Walk) → w.index ≡ n → traverse n o w ≡ assert_failed
unfolding traverse enter
traverse-again n (obj t children) w i = rw (le→ltb_false w.index n (omega arith)) refl

-- After an LpelHwLocInit on such a topology the next one on it fails its assertion, since the static
-- index is not reset.
pub hwloc_init_again :
    (root : Obj)
    → HasPus root
    → (w : Walk) × (hwloc_init root walk_start ≡ ok w) × (hwloc_init root w ≡ assert_failed)
unfolding hwloc_init
hwloc_init_again root h =
    let (w, e, places, i) =
      run_types-Walked (pus root) (preorder root) walk_start (HasPus-EachAhead root h)
        (omega (arith, pus-preorder root)) in
    (
      w,
      traverse-preorder (pus root) root walk_start ∙ e,
      traverse-again (pus root) root (record w { hw_places = [] }) i,
    )
