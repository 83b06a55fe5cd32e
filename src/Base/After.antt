-- ===== src/Base/After.antt =====
-- What holds after a run that returns, by the steps of the run.
use lpel.Base.{◌≡◌, Option, none, some, refl, subst, Bool, true, false, if◌then◌else◌}
use lpel.Base.Run.{out_of_fuel, Run, ok, assert_failed, fault, ◌>>=◌}

module _ {ℓ} {A : Type ℓ} where
  -- The result has the property, if there is one.
  abbrev pub After : (A → Type 0) → Run A → Type 0
  After P (ok a) = P a
  After P assert_failed = Unit
  After P fault = Unit
  After P out_of_fuel = Unit

module _ {ℓ κ} {A : Type ℓ} {B : Type κ} where
  pub After-bind :
      (P : B → Type 0) (Q : A → Type 0) (r : Run A) (f : A → Run B)
      → After Q r
      → ((a : A) → Q a → After P (f a))
      → After P (r >>= f)
  After-bind P Q (ok a) f h k = k a h
  After-bind P Q assert_failed f h k = tt
  After-bind P Q fault f h k = tt
  After-bind P Q out_of_fuel f h k = tt

  -- When nothing is known of the first part's result.
  pub After-any :
      (P : B → Type 0) (r : Run A) (f : A → Run B) → ((a : A) → After P (f a)) → After P (r >>= f)
  After-any P (ok a) f k = k a
  After-any P assert_failed f k = tt
  After-any P fault f k = tt
  After-any P out_of_fuel f k = tt

module _ {ℓ} {A : Type ℓ} where
  pub After-if :
      (P : A → Type 0) (b : Bool) (x y : Run A)
      → After P x
      → After P y
      → After P (if b then x else y)
  After-if P true x y h k = h
  After-if P false x y h k = k

  pub After-ok : (P : A → Type 0) (r : Run A) (a : A) → After P r → r ≡ ok a → P a
  After-ok P r a h e = subst (After P) e h

module _ {ℓ κ} {A : Type ℓ} {B : Type κ} where
  -- A branch on an option, with the equation that each case has.
  pub After-option :
      (P : A → Type 0) (o : Option B) (x : Run A) (f : B → Run A)
      → (o ≡ none → After P x)
      → ((b : B) → o ≡ some b → After P (f b))
      → After P (elim o [ none ↦ x | some b ↦ f b ])
  After-option P none x f h k = h refl
  After-option P (some b) x f h k = k b refl

module _ {ℓ κ} {A : Type ℓ} {B : Type κ} where
  -- Two ways on from a run are the same, if they are for each result that it can have.
  pub bind-same :
      (Q : A → Type 0) (r : Run A) (f g : A → Run B)
      → After Q r
      → ((a : A) → Q a → f a ≡ g a)
      → (r >>= f) ≡ (r >>= g)
  bind-same Q (ok a) f g h k = k a h
  bind-same Q assert_failed f g h k = refl
  bind-same Q fault f g h k = refl
  bind-same Q out_of_fuel f g h k = refl

module _ {ℓ κ μ} {A : Type ℓ} {B : Type κ} {C : Type μ} where
  pub bind_assoc :
      (r : Run A) (f : A → Run B) (g : B → Run C) → (r >>= f >>= g) ≡ (r >>= λ a. f a >>= g)
  bind_assoc (ok a) f g = refl
  bind_assoc assert_failed f g = refl
  bind_assoc fault f g = refl
  bind_assoc out_of_fuel f g = refl
