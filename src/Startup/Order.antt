-- ===== src/Startup/Order.antt =====
-- src/lpel_hwloc.c: the traversal numbers the places in ascending order, socket first.
use lpel.Base.{
  ℕ, zero, suc, ◌+◌, ◌<◌, ◌≡◌, refl, ap, sym, subst, ◌∙◌, arith, ◌⊎◌, inl, inr, true, false, some,
  List, [], ◌∷◌, if◌then◌else◌, get_elem?, ==_self,
}
use lpel.Base.Int.{ℤ, pos, negsuc, pos_part, neg_part}
use lpel.Base.Sem.{incr}
use lpel.Timing.{eqb_ℤ}
use lpel.Startup.Topology.{Place, next_socket, next_core, next_pu, same_place, place_to_worker_from}

infix 50 ◌<ℤ◌
abbrev pub ◌<ℤ◌ : ℤ → ℤ → Type 0
a <ℤ b = pos_part a + neg_part b < pos_part b + neg_part a

lt-incr : (a : ℤ) → a <ℤ incr a
unfolding incr
lt-incr (pos n) = omega arith
lt-incr (negsuc zero) = omega arith
lt-incr (negsuc (suc n)) = omega arith

-- The order by socket, then core, then unit.
abbrev pub Before : Place → Place → Type 0
Before a b =
    (a.socket <ℤ b.socket)
    ⊎ ((a.socket ≡ b.socket) × ((a.core <ℤ b.core) ⊎ ((a.core ≡ b.core) × (a.pu <ℤ b.pu))))

lt_trans : (a b c : ℤ) → a <ℤ b → b <ℤ c → a <ℤ c
lt_trans a b c h k = omega arith

pub Before-trans : (a b c : Place) → Before a b → Before b c → Before a c
Before-trans a b c (inl h) (inl k) = inl (lt_trans a.socket b.socket c.socket h k)
Before-trans a b c (inl h) (inr k) = inl (subst (λ z. a.socket <ℤ z) k.0 h)
Before-trans a b c (inr h) (inl k) = inl (subst (λ z. z <ℤ c.socket) (sym h.0) k)
Before-trans a b c (inr (e, inl h)) (inr (f, inl k)) =
    inr (e ∙ f, inl (lt_trans a.core b.core c.core h k))
Before-trans a b c (inr (e, inl h)) (inr (f, inr k)) =
    inr (e ∙ f, inl (subst (λ z. a.core <ℤ z) k.0 h))
Before-trans a b c (inr (e, inr h)) (inr (f, inl k)) =
    inr (e ∙ f, inl (subst (λ z. z <ℤ c.core) (sym h.0) k))
Before-trans a b c (inr (e, inr h)) (inr (f, inr k)) =
    inr (e ∙ f, inr (h.0 ∙ k.0, lt_trans a.pu b.pu c.pu h.1 k.1))

pub Before-next_socket : (p : Place) → Before p (next_socket p)
Before-next_socket p = inl (lt-incr p.socket)

pub Before-next_core : (p : Place) → Before p (next_core p)
Before-next_core p = inr (refl, inl (lt-incr p.core))

pub Before-next_pu : (p : Place) → Before p (next_pu p)
Before-next_pu p = inr (refl, inr (refl, lt-incr p.pu))

-- The places are after `p` and ascend.
abbrev pub Ascends : Place → List Place → Type 0
Ascends p [] = Unit
Ascends p (q ∷ qs) = Before p q × Ascends q qs

pub Ascends-from : (p q : Place) (qs : List Place) → Before p q → Ascends q qs → Ascends p qs
Ascends-from p q [] h a = tt
Ascends-from p q (r ∷ qs) h a = (Before-trans p q r h a.0, a.1)

eqb_ℤ-lt : (a b : ℤ) → a <ℤ b → eqb_ℤ a b ≡ false
eqb_ℤ-lt (pos m) (pos n) h = ground (arith, h)
eqb_ℤ-lt (negsuc m) (negsuc n) h = ground (arith, h)
eqb_ℤ-lt (pos m) (negsuc n) h = refl
eqb_ℤ-lt (negsuc m) (pos n) h = refl

eqb_ℤ-self : (a : ℤ) → eqb_ℤ a a ≡ true
eqb_ℤ-self (pos n) = ==_self n
eqb_ℤ-self (negsuc n) = ==_self n

same_place-Before : (a b : Place) → Before a b → same_place a b ≡ false
same_place-Before a b (inl h) = rw (eqb_ℤ-lt a.socket b.socket h) refl
same_place-Before a b (inr (e, inl h)) = rw (eqb_ℤ-lt a.core b.core h) (ground arith)
same_place-Before a b (inr (e, inr h)) = rw (eqb_ℤ-lt a.pu b.pu h.1) (ground arith)

pub same_place_self : (a : Place) → same_place a a ≡ true
same_place_self a = rw (eqb_ℤ-self a.socket, eqb_ℤ-self a.core, eqb_ℤ-self a.pu) refl

Before-get_elem? :
    (p : Place) (qs : List Place) (i : ℕ) (q : Place)
    → Ascends p qs
    → get_elem? qs i ≡ some q
    → Before p q
Before-get_elem? p [] i q a h = cc
Before-get_elem? p (r ∷ qs) zero q a h = subst (Before p) (ground (arith, h)) a.0
Before-get_elem? p (r ∷ qs) (suc i) q a h = Before-trans p r q a.0 (Before-get_elem? r qs i q a.1 h)

-- In an ascending list the search for the place at `i` ends there.
pub place_to_worker-get_elem? :
    (k : ℕ) (p : Place) (qs : List Place) (i : ℕ) (q : Place)
    → Ascends p qs
    → get_elem? qs i ≡ some q
    → place_to_worker_from k qs q ≡ pos (k + i)
unfolding place_to_worker_from
place_to_worker-get_elem? k p [] i q a h = cc
place_to_worker-get_elem? k p (r ∷ qs) zero q a h =
    let e : r ≡ q = ground (arith, h) in
    subst (λ z. (if same_place r z then pos k else place_to_worker_from (k + 1) qs z) ≡ pos (k + 0))
      e (rw (same_place_self r) (ap pos (omega arith)))
place_to_worker-get_elem? k p (r ∷ qs) (suc i) q a h =
    rw (same_place-Before r q (Before-get_elem? r qs i q a.1 h))
      (place_to_worker-get_elem? (k + 1) r qs i q a.1 h ∙ ap pos (omega arith))
