-- ===== src/Decen/Buffer/Tests.antt =====
-- The theorems on the buffer of decen_buffer.c at a buffer of two slots.
use lpel.Base.{◌≡◌, refl, subst, arith, [], ◌∷◌, null}
use lpel.Base.Run.{Run, ok}
use lpel.Decen.Buffer.{Buffer, init, is_space, put}
use lpel.Decen.Buffer.Refine.{Holds, init-Holds, put-append}

abbrev one_item : Buffer
one_item = record { pread = 0; pwrite = 1; size = 2; slots = 7 ∷ null ∷ [] }

abbrev two_items : Buffer
two_items = record { pread = 0; pwrite = 0; size = 2; slots = 7 ∷ 8 ∷ [] }

put_first : put (init 2) 7 ≡ ok one_item
unfolding put is_space init
put_first = refl

put_second : put one_item 8 ≡ ok two_items
unfolding put is_space init
put_second = refl

ok-injective : {A : Type 0} {x y : A} {r : Run A} → r ≡ ok x → r ≡ ok y → x ≡ y
ok-injective h k = cc

size_two : (init 2).size ≡ 2
unfolding init
size_two = refl

one_item-Holds : Holds one_item (7 ∷ [])
one_item-Holds =
    let (buf', e, v, k) =
      put-append (init-Holds 2 (omega arith) (omega arith)) 7 (ground arith)
        (omega (arith, size_two)) in
    subst (λ b. Holds b (7 ∷ [])) (ok-injective e put_first) v

two_items-Holds : Holds two_items (7 ∷ 8 ∷ [])
two_items-Holds =
    let (buf', e, v, k) = put-append one_item-Holds 8 (ground arith) (omega arith) in
    subst (λ b. Holds b (7 ∷ 8 ∷ [])) (ok-injective e put_second) v
