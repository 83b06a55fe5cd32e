-- ===== src/Hierarchy/Buffer/Tests.antt =====
-- The theorems on the buffer of hrc_buffer.c at the items 70 and 80 in the entries 3 and 5 behind
-- the dummy entry 2.
use lpel.Base.{refl, arith, [], ◌∷◌, null, ◌==◌, if◌then◌else◌}
use lpel.Hierarchy.Buffer.{Buffer}
use lpel.Hierarchy.Buffer.Refine.{Holds}

abbrev two : Buffer
two = record {
  next = λ a. if a == 2 then 3 else if a == 3 then 5 else null;
  data_at = λ a. if a == 3 then 70 else if a == 5 then 80 else null;
  head = 2;
  tail = 5;
}

two-Holds : Holds two 2 (3 ∷ 5 ∷ []) (70 ∷ 80 ∷ [])
two-Holds = record {
  head = refl;
  tail = refl;
  distinct = ground arith;
  chain = (refl, (refl, (refl, tt)));
  content = refl;
  items = ground arith;
}
