-- ===== src/Decen/Poll/Answer.antt =====
-- LpelStreamPoll as a whole, in any interleaving with the producers.
use lpel.Decen.Poll.{World, Poller, begin_poll, poll_at, poll_step, Step, Reach}
use lpel.Decen.Poll.Producer.{IsEmpty, HasItem}
use lpel.Decen.Poll.Inv.{owes_at, Found, Waits, At, Inv, IsReady, begin-Inv}
use lpel.Decen.Poll.Kept.{Produce-Inv}
use lpel.Decen.Poll.Turns.{Keeps}
use lpel.Decen.Poll.Steps.{poll_at-Keeps, Stops}
use lpel.Base.{
  ◌≡◌, refl, ap, sym, subst, ◌∙◌, arith, ◌⊎◌, inl, inr, true, Option, none, some, List, [], ◌++◌,
  append-nil, Ptr, set, Bool-cases, ◌∈◌,
}
use lpel.Base.Run.{out_of_fuel, Run, ok, assert_failed, fault}
use lpel.Base.Int.{ℤ}

Step-Inv : (set : List Ptr) {w w' : World} → Step set w w' → Inv set w → Inv set w'
unfolding poll_step
Step-Inv set {w = w} (Step.poll_on run) v =
    subst (Keeps set (Stops w.poller w)) run (poll_at-Keeps v w.poller v.at)
Step-Inv set {w = w} (Step.produce sd t act e) v =
    subst (Inv set) (sym e) (Produce-Inv set sd t w act v)

Reach-Inv : (set : List Ptr) {w w' : World} → Reach set w w' → Inv set w → Inv set w'
Reach-Inv set Reach.here v = v
Reach-Inv set (Reach.next r s) v = Step-Inv set s (Reach-Inv set r v)

-- The poll goes on, or it is over, or it is blocked for a good reason.
abbrev pub Outcome : List Ptr → World → Type 0
Outcome set w =
    ((w' : World) × (poll_step set w ≡ ok (some w')))
    ⊎ (((sd : Ptr) × (w.poller ≡ Poller.done sd))
        ⊎ ((cnt : ℤ) × (w.poller ≡ Poller.blocked cnt)
            × (((w.poll_token ≡ true)
                  × ((a : Ptr)
                      → a ∈ set
                      → ((w.streams a).stream.is_poll ≡ true) × IsEmpty (w.streams a)))
                ⊎ ((a : Ptr) × (a ∈ set) × HasItem (w.streams a) × (owes_at a w ≡ true)))))

blocked_why :
    (set r rest : List Ptr) (w : World)
    → set ≡ r ++ rest
    → (w.poll_token ≡ true → rest ≡ [])
    → w.wakes ≡ 0
    → Waits set r w
    → ((w.poll_token ≡ true)
        × ((a : Ptr) → a ∈ set → ((w.streams a).stream.is_poll ≡ true) × IsEmpty (w.streams a)))
      ⊎ ((a : Ptr) × (a ∈ set) × HasItem (w.streams a) × (owes_at a w ≡ true))
blocked_why set r rest w e k z (inl v) = inl (
  v.token,
  λ a h. v.quiet a (subst (λ q. a ∈ q) (e ∙ ap (λ q. r ++ q) (k v.token) ∙ append-nil r) h),
)
blocked_why set r rest w e k z (inr (inl (a, v))) = inr (a, v.found.0, v.found.1, v.turn)
blocked_why set r rest w e k z (inr (inr v)) = absurd (omega (arith, z, v.wakes))

stopped :
    (set : List Ptr) (w : World) (p : Poller) (r : List Ptr)
    → w.poller ≡ p
    → Stops p w
    → At set p r w
    → Outcome set w
stopped set w (Poller.blocked cnt) r e z ((rest, q, k), c, t) =
    inr (inr (cnt, e, blocked_why set r rest w q k z t))
stopped set w (Poller.done sd) r e z h = inr (inl (sd, e))
stopped set w (Poller.looking ahead) r e z h = absurd z
stopped set w Poller.placing r e z h = absurd z
stopped set w (Poller.registering ahead cnt) r e z h = absurd z
stopped set w (Poller.checking cnt) r e z h = absurd z
stopped set w (Poller.unregistering ahead cnt) r e z h = absurd z

outcome_of :
    (set : List Ptr) (w : World) (m : Run (Option World))
    → poll_step set w ≡ m
    → (Stops w.poller w → Outcome set w)
    → Keeps set (Stops w.poller w) m
    → Outcome set w
outcome_of set w (ok (some w')) e stop v = inl (w', e)
outcome_of set w (ok none) e stop v = stop v
outcome_of set w assert_failed e stop v = absurd v
outcome_of set w fault e stop v = absurd v
outcome_of set w out_of_fuel e stop v = absurd v

module _ (set : List Ptr) (w0 w1 w : World) where
  -- Every buffer holds items, no stream is marked for a poll, the token is not set, and nobody is to
  -- wake up the consumer. After the head of LpelStreamPoll and any interleaving of it with the
  -- producers, none of its assertions fails: it goes on, or it has returned, or it is blocked. While
  -- it is blocked with no wakeup under way to it, the token is set and every stream of the set is
  -- empty and marked, so that the next write takes the token; or a producer that has put an item into
  -- a stream of the set has taken the token and has still to make its wakeup.
  pub poll_goes_on : IsReady w0 → begin_poll set w0 ≡ ok w1 → Reach set w1 w → Outcome set w
  unfolding poll_step
  poll_goes_on ready begun reach =
      let v = Reach-Inv set reach (begin-Inv set w0 w1 ready begun) in
      outcome_of set w (poll_at set w.poller w) refl
        (λ z. stopped set w w.poller v.registered refl z v.at) (poll_at-Keeps v w.poller v.at)

  -- Under the same conditions, when LpelStreamPoll has returned a descriptor, it is one of the set and
  -- its stream has an item; the token is not set, no stream is marked any more and nobody is to wake
  -- up the consumer, so that the next poll can begin.
  pub poll_returns :
      (sd : Ptr)
      → IsReady w0
      → begin_poll set w0 ≡ ok w1
      → Reach set w1 w
      → w.poller ≡ Poller.done sd
      → Found set sd w × IsReady w
  poll_returns sd ready begun reach e =
      let v = Reach-Inv set reach (begin-Inv set w0 w1 ready begun) in
      let (empty, t, f) = subst (λ p. At set p v.registered w) e v.at in
      (
        f,
        record {
          streams = v.streams;
          unmarked = λ a. elim (Bool-cases ((w.streams a).stream.is_poll)) [
            | inl k ↦ absurd (ground (arith, subst (λ r. a ∈ r) empty (v.marked a k)))
            | inr k ↦ k
          ];
          taken = t;
        },
      )
