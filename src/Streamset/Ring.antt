-- ===== src/Streamset/Ring.antt =====
-- The descriptors of a set in the order of iteration.
use lpel.Base.{
  ◌≡◌, ◌≢◌, ap, sym, ◌∙◌, List, ◌∷◌, Ptr, null, head_or, last_or, ◌∉◌, Distinct, IsChain, mem-last,
  ne_null_of_mem, IsChain-last,
}
use lpel.Streamset.{Set}

-- The links go round through the distinct descriptors `xs`, and the handle points to the last.
pub record IsRing (s : Set) (xs : List Ptr) : Type 0 where
  pub handle : s.handle ≡ last_or xs null
  pub distinct : Distinct xs
  pub chain : IsChain s.next xs (head_or xs null)

-- The `next` fields of the descriptors outside `xs` are as before.
abbrev pub SameOutside : List Ptr → Set → Set → Type 0
SameOutside xs s t = (a : Ptr) → a ∉ xs → t.next a ≡ s.next a

module _ {s : Set} {x : Ptr} {xs : List Ptr} (r : IsRing s (x ∷ xs)) where
  pub handle-ne_null : s.handle ≢ null
  handle-ne_null e =
      ne_null_of_mem (last_or xs x) (x ∷ xs) r.distinct (mem-last x xs) (sym r.handle ∙ e)

  -- The last descriptor's link leads to the first.
  pub next-handle : s.next s.handle ≡ x
  next-handle = ap s.next r.handle ∙ IsChain-last s.next x xs x r.chain
