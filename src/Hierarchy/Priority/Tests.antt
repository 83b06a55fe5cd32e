-- ===== src/Hierarchy/Priority/Tests.antt =====
-- The configuration with whole numbers in place of floating-point ones.
use lpel.Base.{◌≡◌, refl, true, false, none, some}
use lpel.Base.Int.{ℤ, pos, negsuc}
use lpel.Base.Int.{◌+ℤ◌, ◌-ℤ◌}
use lpel.Hierarchy.Priority.{
  Double, static_prio, dynamic_prio, PrioConf, prio_init, prior_func14, prior_func3,
}

abbrev whole : Double ℤ
whole = record {
  of_int = λ n. n;
  plus = λ a b. a +ℤ b;
  times = λ a b. a;
  over = λ a b. a;
  dbl_max = pos 1000;
  less = λ a b. false;
  difference = λ a b. a -ℤ b;
}

abbrev conf : PrioConf ℤ
conf = record {
  prio_index = pos 3;
  prio_type = static_prio;
  update_neigh_prio = false;
  neg_demand_lim = pos 5;
  prio_func = none;
  rts_prio_cmp = some (λ a b. pos 0);
}

test_prior_func14 : prior_func14 whole (negsuc 0) (pos 4) ≡ negsuc 3
unfolding ◌-ℤ◌
test_prior_func14 = refl

test_prio_init : prio_init whole (λ i o. pos 0) conf ≡ record conf {
  prio_type = dynamic_prio;
  update_neigh_prio = true;
  prio_func = some (prior_func3 whole);
  rts_prio_cmp = none;
}
unfolding prio_init
test_prio_init = refl
