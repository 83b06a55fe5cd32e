-- ===== src/Base/Fields.antt =====
-- Pointers and the fields of the objects that they point to: a field of a struct is a function
-- from addresses, and an assignment through a pointer updates it at that address.
use Prim.Native.Nat.{ℕ}
use mathlib.Core.Path.{◌≡◌, refl, fun_ext}
use mathlib.Core.Logic.{◌≢◌}
use native.Mathlib.Omega.{arith}
use lpel.Base.Run.{Run, ok, fault}
use mathlib.Core.Logic.{inl, inr}
use lpel.Base.Tests.{Bool-cases, ==→eq, ==_of_ne, ◌==◌, if◌then◌else◌}

abbrev pub Ptr : Type 0
Ptr = ℕ

abbrev pub null : Ptr
null = 0

module _ {ℓ} {A : Type ℓ} where
  -- `p->field = v`
  unfoldable pub assign : (Ptr → A) → Ptr → A → Ptr → A
  assign f p v q = if q == p then v else f q

  -- Reads and writes through a pointer: a fault at NULL. Other pointers lead to allocated objects.
  unfoldable pub load : (Ptr → A) → Ptr → Run A
  load f p = if p == null then fault else ok (f p)

  unfoldable pub store : (Ptr → A) → Ptr → A → Run (Ptr → A)
  store f p v = if p == null then fault else ok (assign f p v)

  pub load-ok : (f : Ptr → A) (p : Ptr) → p ≢ null → load f p ≡ ok (f p)
  unfolding load
  load-ok f p h = rw (==_of_ne p null h)

  pub store-ok : (f : Ptr → A) (p : Ptr) (v : A) → p ≢ null → store f p v ≡ ok (assign f p v)
  unfolding store
  store-ok f p v h = rw (==_of_ne p null h)

  pub assign_self : (f : Ptr → A) (p : Ptr) (v : A) → assign f p v p ≡ v
  unfolding assign
  assign_self f p v = ground arith

  pub assign_ne : (f : Ptr → A) (p q : Ptr) (v : A) → q ≢ p → assign f p v q ≡ f q
  unfolding assign
  assign_ne f p q v h = ground arith

  -- An assignment is undone by one of the old value, and a later one hides it.
  pub assign_undo : (f : Ptr → A) (p : Ptr) (v : A) → assign (assign f p v) p (f p) ≡ f
  unfolding assign
  assign_undo f p v =
      fun_ext
        λ q. elim (Bool-cases (q == p)) [ inl e ↦ rw (e, ==→eq q p e) refl | inr e ↦ rw e refl ]

  pub assign-assign : (f : Ptr → A) (p : Ptr) (v w : A) → assign (assign f p v) p w ≡ assign f p w
  unfolding assign
  assign-assign f p v w =
      fun_ext λ q. elim (Bool-cases (q == p)) [ inl e ↦ rw e refl | inr e ↦ rw e refl ]
