-- ===== src/Decen/Poll/Unregister.antt =====
-- The loop of LpelStreamPoll that takes the streams off again.
use lpel.Base.Sem.{decr}
use lpel.Decen.Poll.{decr, World, Poller, mark, unregister}
use lpel.Decen.Poll.Inv.{Found, Taken, At, Inv}
use lpel.Decen.Poll.Turns.{mark-IsStream, mark-is_poll, mark-HasItem, mark-owes}
use lpel.Base.{
  zero, suc, ◌≡◌, ◌≢◌, refl, sym, subst, arith, inl, inr, false, List, [], ◌∷◌, Ptr, ◌∈◌,
}
use lpel.Base.Int.{ℤ, pos, negsuc}

off_head : {sd : Ptr} (a y : Ptr) (r : List Ptr) → a ≢ sd → sd ≡ y → a ∈ y ∷ r → a ∈ r
off_head a y r ne e h = ground (arith, h, e)

module _ {set : List Ptr} {w : World} (v : Inv set w) where
  -- A stream is taken off: what is left of the registered streams is `r'`.
  unmark :
      (sd : Ptr) (p : Poller) (r r' : List Ptr)
      → r ≡ v.registered
      → ((a : Ptr) → a ≢ sd → a ∈ r → a ∈ r')
      → ((a : Ptr) → a ∈ r' → a ∈ r)
      → At set p r' (record w { streams = mark sd false w.streams; poller = p })
      → Inv set (record w { streams = mark sd false w.streams; poller = p })
  unmark sd p r r' q others left at = record {
    registered = r';
    streams = λ a. mark-IsStream w.streams sd false a (v.streams a);
    marked = λ a h. elim (mark-is_poll w.streams sd false a h) [
      | inl (e, k) ↦ absurd (ground (arith, k))
      | inr (ne, k) ↦ others a ne (subst (λ z. a ∈ z) (sym q) (v.marked a k))
    ];
    within = λ a h. v.within a (subst (λ z. a ∈ z) q (left a h));
    at = at;
  }

  Taken-off :
      (sd : Ptr) (p : Poller)
      → Taken w
      → Taken (record w { streams = mark sd false w.streams; poller = p })
  Taken-off sd p t = record {
    token = t.token;
    wakes = t.wakes;
    none_owes = λ a. mark-owes w.streams sd false false a (t.none_owes a);
  }

  Found-off :
      (sd a : Ptr) (p : Poller)
      → Found set a w
      → Found set a (record w { streams = mark sd false w.streams; poller = p })
  Found-off sd a p f = (f.0, mark-HasItem w.streams sd false a f.1)

  -- The loop that takes streams off meets the registered ones first, and counts them.
  pub unregister-Keeps :
      (sd : Ptr) (rest r : List Ptr) (cnt : ℤ)
      → r ≡ v.registered
      → At set (Poller.unregistering (sd ∷ rest) cnt) r w
      → Inv set (unregister sd rest cnt w)
  unfolding unregister decr
  unregister-Keeps sd rest [] (pos zero) q (e, c, t, f) =
      unmark sd _ [] [] q (λ a ne h. h) (λ a h. h)
        (
          (rest, refl),
          refl,
          Taken-off sd _ t,
          Found-off sd w.wakeup_sd (Poller.unregistering rest (negsuc 0)) f,
        )
  unregister-Keeps sd rest [] (negsuc n) q (e, c, t, f) =
      unmark sd _ [] [] q (λ a ne h. h) (λ a h. h)
        (
          (rest, refl),
          refl,
          Taken-off sd _ t,
          Found-off sd w.wakeup_sd (Poller.unregistering rest (negsuc (suc n))) f,
        )
  unregister-Keeps sd rest [] (pos (suc n)) q (e, c, t, f) = absurd (omega (arith, c))
  unregister-Keeps sd rest (y ∷ []) (pos (suc zero)) q ((x, e), c, t, f) =
      unmark sd _ (y ∷ []) [] q (λ a ne h. off_head a y [] ne (cc e) h)
        (λ a h. absurd (ground (arith, h)))
        (refl, Taken-off sd _ t, Found-off sd w.wakeup_sd (Poller.done w.wakeup_sd) f)
  unregister-Keeps sd rest (y ∷ (z ∷ r)) (pos (suc (suc n))) q ((x, e), c, t, f) =
      unmark sd _ (y ∷ (z ∷ r)) (z ∷ r) q (λ a ne h. off_head a y (z ∷ r) ne (cc e) h)
        (λ a h. ground (arith, h))
        (
          (x, cc),
          omega (arith, c),
          Taken-off sd _ t,
          Found-off sd w.wakeup_sd (Poller.unregistering rest (pos (suc n))) f,
        )
  unregister-Keeps sd rest (y ∷ (z ∷ r)) (pos (suc zero)) q (e, c, t, f) = absurd (omega (arith, c))
  unregister-Keeps sd rest (y ∷ []) (pos (suc (suc n))) q (e, c, t, f) = absurd (omega (arith, c))
  unregister-Keeps sd rest (y ∷ r) (pos zero) q (e, c, t, f) = absurd (omega (arith, c))
  unregister-Keeps sd rest (y ∷ r) (negsuc n) q (e, c, t, f) = absurd (omega (arith, c))
