-- ===== src/Base/Links.antt =====
-- Objects linked by a `next` field: membership, distinctness, and chains of links.
use mathlib.Core.Path.{◌≡◌, refl, sym, ap, ◌∙◌}
use mathlib.Core.Logic.{◌≢◌, inl, inr}
use mathlib.Core.Bool.{Bool, true, false, ◌||◌, or_assoc}
use mathlib.Core.List.{List, [], ◌∷◌, ◌++◌, map}
use native.Mathlib.Omega.{arith}
use lpel.Base.Tests.{◌==◌, Bool-cases, ==→eq}
use lpel.Base.Lists.{head_or, last_or}
use lpel.Base.Fields.{Ptr, null, assign, assign_self, assign_ne}

abbrev pub mem : Ptr → List Ptr → Bool
mem a [] = false
mem a (x ∷ xs) = (a == x) || mem a xs

infix 40 ◌∈◌ ◌∉◌
abbrev pub ◌∈◌ : Ptr → List Ptr → Type 0
a ∈ xs = mem a xs ≡ true

abbrev pub ◌∉◌ : Ptr → List Ptr → Type 0
a ∉ xs = mem a xs ≡ false

-- The objects of the list are different from one another, and none is NULL.
abbrev pub Distinct : List Ptr → Type 0
Distinct [] = Unit
Distinct (x ∷ xs) = (x ≢ null) × (x ∉ xs) × Distinct xs

-- The link of each object leads to the next one, that of the last to `stop`.
abbrev pub IsChain : (Ptr → Ptr) → List Ptr → Ptr → Type 0
IsChain next [] stop = Unit
IsChain next (x ∷ xs) stop = (next x ≡ head_or xs stop) × IsChain next xs stop

pub mem-append : (a : Ptr) (xs ys : List Ptr) → mem a (xs ++ ys) ≡ (mem a xs || mem a ys)
mem-append a [] ys = refl
mem-append a (x ∷ xs) ys = rw (mem-append a xs ys, or_assoc)

pub mem-last : (x : Ptr) (xs : List Ptr) → last_or xs x ∈ x ∷ xs
mem-last x [] = ground arith
mem-last x (y ∷ xs) = ground (arith, mem-last y xs)

pub mem-head : (x : Ptr) (xs : List Ptr) → x ∈ x ∷ xs
mem-head x xs = ground arith

pub ne_of_mem : (a b : Ptr) (xs : List Ptr) → a ∈ xs → b ∉ xs → a ≢ b
ne_of_mem a b xs h k e = cc (h, k, ap (λ z. mem z xs) e)

pub ne_null_of_mem : (a : Ptr) (xs : List Ptr) → Distinct xs → a ∈ xs → a ≢ null
ne_null_of_mem a [] d h = cc
ne_null_of_mem a (x ∷ xs) d h = elim (Bool-cases (a == x)) [
  | inl e ↦ rw (==→eq _ _ e) d.0
  | inr e ↦ ne_null_of_mem a xs d.2 (ground (arith, h, e))
]

-- A chain stays when no object of it is changed.
pub IsChain-frame :
    (next next' : Ptr → Ptr) (xs : List Ptr) (stop : Ptr)
    → ((a : Ptr) → a ∈ xs → next' a ≡ next a)
    → IsChain next xs stop
    → IsChain next' xs stop
IsChain-frame next next' [] stop same c = tt
IsChain-frame next next' (x ∷ xs) stop same c = (
  same x (mem-head x xs) ∙ c.0,
  IsChain-frame next next' xs stop (λ a h. same a (ground arith)) c.1,
)

pub IsChain-assign :
    (next : Ptr → Ptr) (p v : Ptr) (xs : List Ptr) (stop : Ptr)
    → p ∉ xs
    → IsChain next xs stop
    → IsChain (assign next p v) xs stop
IsChain-assign next p v xs stop h =
    IsChain-frame next (assign next p v) xs stop λ a k. assign_ne next p a v (ne_of_mem a p xs k h)

pub head_or-append : (xs ys : List Ptr) (d : Ptr) → head_or (xs ++ ys) d ≡ head_or xs (head_or ys d)
head_or-append [] ys d = refl
head_or-append (x ∷ xs) ys d = refl

pub last_or-append : (xs ys : List Ptr) (d : Ptr) → last_or (xs ++ ys) d ≡ last_or ys (last_or xs d)
last_or-append [] ys d = refl
last_or-append (x ∷ xs) ys d = last_or-append xs ys x

pub IsChain-append :
    (next : Ptr → Ptr) (xs ys : List Ptr) (stop : Ptr)
    → IsChain next xs (head_or ys stop)
    → IsChain next ys stop
    → IsChain next (xs ++ ys) stop
IsChain-append next [] ys stop c d = d
IsChain-append next (x ∷ xs) ys stop c d =
    (c.0 ∙ sym (head_or-append xs ys stop), IsChain-append next xs ys stop c.1 d)

pub IsChain-left :
    (next : Ptr → Ptr) (xs ys : List Ptr) (stop : Ptr)
    → IsChain next (xs ++ ys) stop
    → IsChain next xs (head_or ys stop)
IsChain-left next [] ys stop c = tt
IsChain-left next (x ∷ xs) ys stop c =
    (c.0 ∙ head_or-append xs ys stop, IsChain-left next xs ys stop c.1)

pub IsChain-right :
    (next : Ptr → Ptr) (xs ys : List Ptr) (stop : Ptr)
    → IsChain next (xs ++ ys) stop
    → IsChain next ys stop
IsChain-right next [] ys stop c = c
IsChain-right next (x ∷ xs) ys stop c = IsChain-right next xs ys stop c.1

-- The last object's link.
pub IsChain-last :
    (next : Ptr → Ptr) (x : Ptr) (xs : List Ptr) (stop : Ptr)
    → IsChain next (x ∷ xs) stop
    → next (last_or xs x) ≡ stop
IsChain-last next x [] stop c = c.0
IsChain-last next x (y ∷ xs) stop c = IsChain-last next y xs stop c.1

-- An assignment to the last object's link moves the end of the chain.
pub IsChain-assign_last :
    (next : Ptr → Ptr) (v x : Ptr) (xs : List Ptr) (stop : Ptr)
    → Distinct (x ∷ xs)
    → IsChain next (x ∷ xs) stop
    → IsChain (assign next (last_or xs x) v) (x ∷ xs) v
IsChain-assign_last next v x [] stop d c = (assign_self next x v, tt)
IsChain-assign_last next v x (y ∷ xs) stop d c = (
  assign_ne next (last_or xs y) x v
        (λ e. ne_of_mem (last_or xs y) x (y ∷ xs) (mem-last y xs) d.1 (sym e))
      ∙ c.0,
  IsChain-assign_last next v y xs stop d.2 c.1,
)

pub Distinct-left : (xs ys : List Ptr) → Distinct (xs ++ ys) → Distinct xs
Distinct-left [] ys d = tt
Distinct-left (x ∷ xs) ys d =
    (d.0, ground (arith, mem-append x xs ys, d.1), Distinct-left xs ys d.2)

pub Distinct-right : (xs ys : List Ptr) → Distinct (xs ++ ys) → Distinct ys
Distinct-right [] ys d = d
Distinct-right (x ∷ xs) ys d = Distinct-right xs ys d.2

pub Distinct-append :
    (xs ys : List Ptr)
    → Distinct xs
    → Distinct ys
    → ((a : Ptr) → a ∈ xs → a ∉ ys)
    → Distinct (xs ++ ys)
Distinct-append [] ys d e apart = e
Distinct-append (x ∷ xs) ys d e apart = (
  d.0,
  rw (mem-append, d.1) (apart x (mem-head x xs)),
  Distinct-append xs ys d.2 e (λ a h. apart a (ground arith)),
)

pub Distinct-apart : (xs ys : List Ptr) → Distinct (xs ++ ys) → (a : Ptr) → a ∈ xs → a ∉ ys
Distinct-apart [] ys d a h = cc
Distinct-apart (x ∷ xs) ys d a h = elim (Bool-cases (a == x)) [
  | inl e ↦ rw (==→eq _ _ e) (ground (arith, mem-append x xs ys, d.1))
  | inr e ↦ Distinct-apart xs ys d.2 a (ground (arith, h, e))
]

-- Lists without a common object.
pub apart_sym : (xs ys : List Ptr) → ((a : Ptr) → a ∈ xs → a ∉ ys) → (a : Ptr) → a ∈ ys → a ∉ xs
apart_sym xs ys apart a k = elim (Bool-cases (mem a xs)) [
  | inl h ↦ absurd (ground (arith, apart a h))
  | inr h ↦ h
]

pub not_mem_snoc : (a t : Ptr) (xs ys : List Ptr) → a ∉ ys → a ∈ xs → t ∉ xs → a ∉ ys ++ (t ∷ [])
not_mem_snoc a t xs ys out h k = ground (arith, mem-append a ys (t ∷ []), ne_of_mem a t xs h k)

pub snoc_apart :
    (a t : Ptr) (xs ys : List Ptr) → (a ∈ xs → a ∉ ys) → t ∉ ys → a ∈ xs ++ (t ∷ []) → a ∉ ys
snoc_apart a t xs ys apart out h = elim (Bool-cases (mem a xs)) [
  | inl k ↦ apart k
  | inr k ↦ ap (λ z. mem z ys) (==→eq a t (ground (arith, mem-append a xs (t ∷ [])))) ∙ out
]

pub Distinct-remove :
    (node : Ptr) (pre post : List Ptr) → Distinct (pre ++ (node ∷ post)) → Distinct (pre ++ post)
Distinct-remove node [] post d = d.2
Distinct-remove node (x ∷ pre) post d = (
  d.0,
  ground (arith, mem-append x pre (node ∷ post), mem-append x pre post, d.1),
  Distinct-remove node pre post d.2,
)

-- The values of a field at the objects of a list.
module _ {ℓ} {A : Type ℓ} where
  pub map-assign :
      (f : Ptr → A) (p : Ptr) (v : A) (xs : List Ptr) → p ∉ xs → map (assign f p v) xs ≡ map f xs
  map-assign f p v [] out = refl
  map-assign f p v (x ∷ xs) out =
      rw (assign_ne f p x v (ground arith), map-assign f p v xs (ground arith))

  pub map-snoc :
      (f : Ptr → A) (xs : List Ptr) (y : Ptr) → map f (xs ++ (y ∷ [])) ≡ map f xs ++ (f y ∷ [])
  map-snoc f [] y = refl
  map-snoc f (x ∷ xs) y = rw (map-snoc f xs y)
