-- ===== src/Decen/Buffer/Index.antt =====
-- The indices of the buffer go round at its size.
use native.Mathlib.Nat.{mod-eq_of_lt, mod-eq-sub-mod, mod-add-mod}
use lpel.Base.{ℕ, suc, ◌+◌, ◌-◌, ◌%◌, ◌^◌, ◌<◌, ◌≡◌, ◌≢◌, ap, sym, arith, dec_lt}
use lpel.Decen.Buffer.{advance}

-- The step of `pread` and `pwrite` does not wrap at the word size: it is a step round the buffer.
pub advance-mod : (size i : ℕ) → size < 2 ^ 32 → i < size → advance size i ≡ (i + 1) % size
unfolding advance
advance-mod size i h k = elim (dec_lt (i + 1) size) [
  | yes p ↦ ground (arith, mod-eq_of_lt p)
  | no p ↦
      let e : i + 1 ≡ size = omega arith in
      ground (
        arith,
        mod-eq-sub-mod {n = i + 1} {m = size} (omega arith),
        mod-eq_of_lt {n = 0} {m = size} (omega arith),
      )
]

pub mod-lt_pos : (a m : ℕ) → 0 < m → a % m < m
mod-lt_pos a m h = grind arith

-- One round of the buffer meets each index once.
pub add-mod-ne : (size r i j : ℕ) → r < size → i < j → j < size → (r + i) % size ≢ (r + j) % size
add-mod-ne size r i j hr hij hj = elim (dec_lt (r + j) size) [
  | yes p ↦ omega (arith, mod-eq_of_lt p, mod-eq_of_lt {n = r + i} {m = size} (omega arith))
  | no p ↦ elim (dec_lt (r + i) size) [
    | yes q ↦ omega (
      arith,
      mod-eq_of_lt q,
      mod-eq-sub-mod {n = r + j} {m = size} (omega arith),
      mod-eq_of_lt {n = r + j - size} {m = size} (omega arith),
    )
    | no q ↦ omega (
      arith,
      mod-eq-sub-mod {n = r + j} {m = size} (omega arith),
      mod-eq_of_lt {n = r + j - size} {m = size} (omega arith),
      mod-eq-sub-mod {n = r + i} {m = size} (omega arith),
      mod-eq_of_lt {n = r + i - size} {m = size} (omega arith),
    )
  ]
]

pub add-mod-ne_symm :
    (size r i j : ℕ) → r < size → i < size → j < size → i ≢ j → (r + i) % size ≢ (r + j) % size
add-mod-ne_symm size r i j hr hi hj ne e = elim (dec_lt i j) [
  | yes p ↦ add-mod-ne size r i j hr p hj e
  | no p ↦ add-mod-ne size r j i hr (omega arith) hi (sym e)
]

-- Stepping first, or last, is the same.
pub mod-add-step : (size r i : ℕ) → ((r + 1) % size + i) % size ≡ (r + suc i) % size
mod-add-step size r i = rw mod-add-mod (ap (λ k. k % size) (omega arith))
