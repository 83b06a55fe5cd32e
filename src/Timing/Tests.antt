-- ===== src/Timing/Tests.antt =====
-- The theorems on times at 1.5 s and 2.7 s.
use lpel.Base.{◌≡◌, ◌≢◌, refl, arith, ◌⊎◌}
use lpel.Base.Int.{pos}
use lpel.Base.Int.{◌+ℤ◌}
use lpel.Timing.{Time, timing_billion, add}
use lpel.Timing.Laws.{IsNormal, add-IsNormal}

abbrev early : Time
early = record { tv_sec = pos 1; tv_nsec = pos 500000000 }

abbrev late : Time
late = record { tv_sec = pos 2; tv_nsec = pos 700000000 }

early-IsNormal : IsNormal early
early-IsNormal = (refl, omega arith)

late-IsNormal : IsNormal late
late-IsNormal = (refl, omega arith)

add-IsNormal_example :
    IsNormal (add early early)
    ⊎ ((early.tv_nsec +ℤ early.tv_nsec ≡ timing_billion)
        × ((add early early).tv_nsec ≡ timing_billion))
add-IsNormal_example = add-IsNormal early early early-IsNormal early-IsNormal

test_not_normal : (add early early).tv_nsec ≡ timing_billion
unfolding add ◌+ℤ◌
test_not_normal = refl

not_a_billion : early.tv_nsec +ℤ late.tv_nsec ≢ timing_billion
unfolding ◌+ℤ◌
not_a_billion = ground arith
