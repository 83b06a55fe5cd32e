-- ===== src/Base/Sem.antt =====
-- Atomic integers used as semaphores: src/include/arch/atomic*.h give `atomic_fetch_sub` and
-- `atomic_fetch_add`, which return the value before the step.
use Prim.Native.Nat.{zero, suc}
use mathlib.Core.Bool.{Bool, true, false}
use lpel.Base.Int.{ℤ, pos, negsuc}

-- The value that `atomic_fetch_sub( &s, 1)` leaves.
unfoldable pub decr : ℤ → ℤ
decr (pos zero) = negsuc 0
decr (pos (suc n)) = pos n
decr (negsuc n) = negsuc (suc n)

-- The value that `atomic_fetch_add( &s, 1)` leaves.
unfoldable pub incr : ℤ → ℤ
incr (pos n) = pos (suc n)
incr (negsuc zero) = pos 0
incr (negsuc (suc n)) = negsuc n

abbrev pub is_zero : ℤ → Bool
is_zero (pos zero) = true
is_zero (pos (suc n)) = false
is_zero (negsuc n) = false

abbrev pub is_neg : ℤ → Bool
is_neg (pos n) = false
is_neg (negsuc n) = true
