-- ===== src/Timing/Laws.antt =====
-- What the operations on times do to the number of nanoseconds, and when their results are normal.
use lpel.Base.{
  ltb_false→le, ltb→lt, ◌+◌, ◌*◌, ◌<◌, ◌≡◌, ◌≢◌, refl, ap, subst, ◌∙◌, arith, ℕ_discrete, ◌⊎◌, inl,
  inr, ◌↔◌, Bool, true, ◌&&◌, ==_self, ==→eq, Bool-cases,
}
use lpel.Base.Int.{ℤ, pos, negsuc, pos_part, neg_part}
use lpel.Base.Int.{◌+ℤ◌, ◌-ℤ◌, ltb_ℤ, sub_ℕ, +ℤ_parts, -ℤ_parts, eq_of_parts}
use lpel.Base.Int.{◌+ℤ◌, ◌-ℤ◌, ltb_ℤ, sub_ℕ, +ℤ_parts, -ℤ_parts, eq_of_parts}
use lpel.Base.Int.{◌+ℤ◌, ◌-ℤ◌, ltb_ℤ, sub_ℕ, +ℤ_parts, -ℤ_parts, eq_of_parts}
use lpel.Timing.{Time, timing_billion, end, add, diff, equals, eqb_ℤ}

-- A time as a number of nanoseconds.
unfoldable pub nanos : Time → ℤ
nanos t =
    sub_ℕ (pos_part t.tv_sec * 1000000000 + pos_part t.tv_nsec)
      (neg_part t.tv_sec * 1000000000 + neg_part t.tv_nsec)

nanos_parts :
    (t : Time)
    → pos_part (nanos t) + neg_part t.tv_sec * 1000000000 + neg_part t.tv_nsec
      ≡ neg_part (nanos t) + pos_part t.tv_sec * 1000000000 + pos_part t.tv_nsec
unfolding nanos
nanos_parts t = ground arith

-- The nanoseconds are within a second.
abbrev pub IsNormal : Time → Type 0
IsNormal t = (neg_part t.tv_nsec ≡ 0) × (pos_part t.tv_nsec < 1000000000)

parts_apart : (z : ℤ) → (pos_part z ≡ 0) ⊎ (neg_part z ≡ 0)
parts_apart (pos n) = inr refl
parts_apart (negsuc n) = inl refl

add_carry :
    (sec nsec : ℤ)
    → nanos (record { tv_sec = sec +ℤ pos 1; tv_nsec = nsec -ℤ timing_billion })
      ≡ nanos (record { tv_sec = sec; tv_nsec = nsec })
add_carry sec nsec = eq_of_parts _ _ (
    omega (
      arith,
      nanos_parts (record { tv_sec = sec +ℤ pos 1; tv_nsec = nsec -ℤ timing_billion }),
      nanos_parts (record { tv_sec = sec; tv_nsec = nsec }),
      +ℤ_parts sec (pos 1),
      -ℤ_parts nsec timing_billion,
    ))

nanos-sum :
    (t val : Time)
    → nanos (record { tv_sec = t.tv_sec +ℤ val.tv_sec; tv_nsec = t.tv_nsec +ℤ val.tv_nsec })
      ≡ nanos t +ℤ nanos val
nanos-sum t val = eq_of_parts _ _ (
    omega (
      arith,
      nanos_parts (record { tv_sec = t.tv_sec +ℤ val.tv_sec; tv_nsec = t.tv_nsec +ℤ val.tv_nsec }),
      nanos_parts t,
      nanos_parts val,
      +ℤ_parts t.tv_sec val.tv_sec,
      +ℤ_parts t.tv_nsec val.tv_nsec,
      +ℤ_parts (nanos t) (nanos val),
    ))

-- `LpelTimingAdd` adds the numbers of nanoseconds.
pub add-nanos : (t val : Time) → nanos (add t val) ≡ nanos t +ℤ nanos val
unfolding add
add-nanos t val = elim (Bool-cases (ltb_ℤ timing_billion (t.tv_nsec +ℤ val.tv_nsec))) [
  | inl e ↦ rw e (add_carry _ _ ∙ nanos-sum t val)
  | inr e ↦ rw e (nanos-sum t val)
]

nanos-difference :
    (t val : Time)
    → nanos (record { tv_sec = t.tv_sec -ℤ val.tv_sec; tv_nsec = t.tv_nsec -ℤ val.tv_nsec })
        +ℤ nanos val
      ≡ nanos t
nanos-difference t val =
    let d : Time = record { tv_sec = t.tv_sec -ℤ val.tv_sec; tv_nsec = t.tv_nsec -ℤ val.tv_nsec } in
    eq_of_parts _ _ (
      omega (
        arith,
        nanos_parts d,
        nanos_parts t,
        nanos_parts val,
        -ℤ_parts t.tv_sec val.tv_sec,
        -ℤ_parts t.tv_nsec val.tv_nsec,
        +ℤ_parts (nanos d) (nanos val),
      ))

-- `LpelTimingDiff` is the difference of the numbers of nanoseconds.
pub diff-nanos : (t u : Time) → nanos (diff t u) +ℤ nanos t ≡ nanos u
unfolding diff
diff-nanos t u = elim (Bool-cases (ltb_ℤ u.tv_nsec t.tv_nsec)) [
  | inl e ↦
      let borrowed : Time = record {
        tv_sec = t.tv_sec +ℤ pos 1;
        tv_nsec = t.tv_nsec -ℤ timing_billion;
      } in
      rw (e, ← add_carry t.tv_sec t.tv_nsec) (nanos-difference u borrowed)
  | inr e ↦ rw e (nanos-difference u t)
]

-- `LpelTimingDiff` of normal times is normal.
pub diff-IsNormal : (t u : Time) → IsNormal t → IsNormal u → IsNormal (diff t u)
unfolding diff
diff-IsNormal t u h k = elim (Bool-cases (ltb_ℤ u.tv_nsec t.tv_nsec)) [
  | inl e ↦
      let start = t.tv_nsec -ℤ timing_billion in
      rw e (
        omega (
          arith,
          h,
          k,
          ltb→lt _ _ e,
          parts_apart (u.tv_nsec -ℤ start),
          -ℤ_parts t.tv_nsec timing_billion,
          -ℤ_parts u.tv_nsec start,
        ))
  | inr e ↦ rw e (
      omega (
        arith,
        h,
        k,
        ltb_false→le _ _ e,
        parts_apart (u.tv_nsec -ℤ t.tv_nsec),
        -ℤ_parts u.tv_nsec t.tv_nsec,
      ))
]

-- `LpelTimingAdd` of normal times gives a normal time, except that nanoseconds which add up to one
-- billion exactly are left at one billion.
pub add-IsNormal :
    (t val : Time)
    → IsNormal t
    → IsNormal val
    → IsNormal (add t val)
      ⊎ ((t.tv_nsec +ℤ val.tv_nsec ≡ timing_billion) × ((add t val).tv_nsec ≡ timing_billion))
unfolding add
add-IsNormal t val h k =
    let sum = t.tv_nsec +ℤ val.tv_nsec in
    elim (Bool-cases (ltb_ℤ timing_billion sum)) [
      | inl e ↦ rw e (
          inl (
            omega (
              arith,
              h,
              k,
              ltb→lt _ _ e,
              parts_apart sum,
              parts_apart (sum -ℤ timing_billion),
              -ℤ_parts sum timing_billion,
              +ℤ_parts t.tv_nsec val.tv_nsec,
            )))
      | inr e ↦ rw e (elim (ℕ_discrete (pos_part sum) 1000000000) [
        | yes f ↦
            let same =
              eq_of_parts sum timing_billion
                (omega (arith, h, k, parts_apart sum, +ℤ_parts t.tv_nsec val.tv_nsec)) in
            inr (same, same)
        | no f ↦ inl (
            omega
              (arith, h, k, ltb_false→le _ _ e, parts_apart sum, +ℤ_parts t.tv_nsec val.tv_nsec))
      ])
    ]

time_eq : (t u : Time) → t.tv_sec ≡ u.tv_sec → t.tv_nsec ≡ u.tv_nsec → t ≡ u
time_eq t u p q = λ i. record { tv_sec = p i; tv_nsec = q i }

-- A normal time is determined by its number of nanoseconds.
normal_unique : (t u : Time) → IsNormal t → IsNormal u → nanos t ≡ nanos u → t ≡ u
normal_unique t u h k e =
    time_eq t u
      (eq_of_parts _ _
        (omega (arith, h, k, ap pos_part e, ap neg_part e, nanos_parts t, nanos_parts u)))
      (eq_of_parts _ _
        (omega (arith, h, k, ap pos_part e, ap neg_part e, nanos_parts t, nanos_parts u)))

cancel : (a b c : ℤ) → a +ℤ b ≡ b +ℤ c → a ≡ c
cancel a b c e =
    eq_of_parts a c (omega (arith, ap pos_part e, ap neg_part e, +ℤ_parts a b, +ℤ_parts b c))

-- Without nanoseconds that add up to one billion exactly, `LpelTimingDiff` undoes `LpelTimingAdd` of
-- normal times.
pub diff-add :
    (t val : Time)
    → IsNormal t
    → IsNormal val
    → t.tv_nsec +ℤ val.tv_nsec ≢ timing_billion
    → diff t (add t val) ≡ val
diff-add t val h k ne =
    normal_unique (diff t (add t val)) val (diff-IsNormal t (add t val) h normal) k
      (cancel _ (nanos t) _ (diff-nanos t (add t val) ∙ add-nanos t val))
  where
    normal : IsNormal (add t val)
    normal = elim (add-IsNormal t val h k) [ inl n ↦ n | inr e ↦ absurd (ne e.0) ]

-- `LpelTimingEnd` is `LpelTimingDiff` from the stored time to the clock.
pub end-diff : (now t : Time) → end now t ≡ diff t now
unfolding end diff
end-diff now t = elim (Bool-cases (ltb_ℤ now.tv_nsec t.tv_nsec)) [ inl e ↦ rw e | inr e ↦ rw e ]

eqb_ℤ→eq : (a b : ℤ) → eqb_ℤ a b ≡ true → a ≡ b
eqb_ℤ→eq (pos m) (pos n) e = ap pos (==→eq m n e)
eqb_ℤ→eq (negsuc m) (negsuc n) e = ap negsuc (==→eq m n e)
eqb_ℤ→eq (pos m) (negsuc n) e = cc
eqb_ℤ→eq (negsuc m) (pos n) e = cc

eqb_ℤ_self : (a : ℤ) → eqb_ℤ a a ≡ true
eqb_ℤ_self (pos n) = ==_self n
eqb_ℤ_self (negsuc n) = ==_self n

and_parts : (a b : Bool) → (a && b) ≡ true → (a ≡ true) × (b ≡ true)
and_parts a b e = ground arith

-- `LpelTimingEquals` tells whether two times are the same.
pub equals_lem : (t u : Time) → (equals t u ≡ true) ↔ (t ≡ u)
unfolding equals
equals_lem t u = (
  λ e.
      let (p, q) = and_parts _ _ e in
      time_eq t u (eqb_ℤ→eq t.tv_sec u.tv_sec p) (eqb_ℤ→eq t.tv_nsec u.tv_nsec q),
  λ e. subst (λ v. equals t v ≡ true) e (rw (eqb_ℤ_self t.tv_sec, eqb_ℤ_self t.tv_nsec)),
)
