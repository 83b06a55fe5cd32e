-- ===== src/Decen/Poll/Steps.antt =====
-- The next action of the consumer in a poll, wherever it stands.
use lpel.Base.Sem.{incr}
use lpel.Decen.Poll.{incr, World, Poller, look, register, poll_block, poll_at}
use lpel.Decen.Poll.Inv.{Waits, At, Inv}
use lpel.Decen.Poll.Unregister.{unregister-Keeps}
use lpel.Decen.Poll.Turns.{
  Keeps, top_cases, mark-IsStream, mark-is_poll, Held-mark, Waits-exchange, Waits-Taken,
  Waits-Woken,
}
use lpel.Base.{
  ℕ, suc, ◌≡◌, ◌≢◌, refl, ap, sym, subst, ◌∙◌, arith, ◌⊎◌, inl, inr, true, false, some, List, [],
  ◌∷◌, ◌++◌, append_assoc, Ptr, null, ◌==◌, length, length-append, ==_of_ne, ==→eq, Bool-cases, mem,
  ◌∈◌, mem-append, mem-head,
}
use lpel.Base.Run.{ok, ◌>>=◌}
use lpel.Base.Int.{ℤ, pos}

-- Where the consumer has no action to make.
abbrev pub Stops : Poller → World → Type 0
Stops (Poller.looking ahead) w = ⊥
Stops Poller.placing w = ⊥
Stops (Poller.registering ahead cnt) w = ⊥
Stops (Poller.blocked cnt) w = w.wakes ≡ 0
Stops (Poller.checking cnt) w = ⊥
Stops (Poller.unregistering ahead cnt) w = ⊥
Stops (Poller.done sd) w = Unit

incr_pos : (n : ℕ) → incr (pos n) ≡ pos (suc n)
unfolding incr
incr_pos n = refl

left_nil : (xs ys : List Ptr) → [] ≡ xs ++ ys → xs ≡ []
left_nil [] ys e = refl
left_nil (x ∷ xs) ys e = absurd cc

-- What is known of the waiting consumer does not depend on where it stands.
blocked_Waits :
    {set r : List Ptr} {w : World} {p : Poller}
    → Waits set r w
    → Waits set r (record w { poller = p })
blocked_Waits (inl v) =
    inl (record { token = v.token; wakes = v.wakes; none_owes = v.none_owes; quiet = v.quiet })
blocked_Waits (inr (inl (a, v))) = inr (
    inl (
      a,
      record { token = v.token; wakes = v.wakes; turn = v.turn; alone = v.alone; found = v.found },
    ))
blocked_Waits (inr (inr v)) =
    inr
      (inr (record { token = v.token; wakes = v.wakes; none_owes = v.none_owes; found = v.found }))

module _ {set : List Ptr} {w : World} (v : Inv set w) where
  look-Keeps :
      (sd : Ptr) (rest : List Ptr)
      → At set (Poller.looking (sd ∷ rest)) v.registered w
      → Keeps set ⊥ (look sd rest w >>= λ w'. ok (some w'))
  unfolding look
  look-Keeps sd rest (e, sub, t) = elim (top_cases (v.streams sd)) [
    | inl z ↦ rw z (record {
      registered = v.registered;
      streams = v.streams;
      marked = v.marked;
      within = v.within;
      at = (
        e,
        (λ a h. sub a (ground (arith, h))),
        record { token = t.token; wakes = t.wakes; none_owes = t.none_owes },
      );
    })
    | inr (x, h, ne) ↦
        rw (h, ==_of_ne x null ne)
          (record {
            registered = v.registered;
            streams = v.streams;
            marked = v.marked;
            within = v.within;
            at = (
              e,
              record { token = t.token; wakes = t.wakes; none_owes = t.none_owes },
              (sub sd (mem-head sd rest), (x, h, ne)),
            );
          })
  ]

  register-Keeps :
      (sd : Ptr) (rest : List Ptr) (cnt : ℤ)
      → At set (Poller.registering (sd ∷ rest) cnt) v.registered w
      → Keeps set ⊥ (register sd rest cnt w >>= λ w'. ok (some w'))
  unfolding register
  register-Keeps sd rest cnt (e, c, t) = elim (top_cases (v.streams sd)) [
    | inl z ↦ rw z (record {
      registered = v.registered ++ (sd ∷ []);
      streams = λ a. mark-IsStream w.streams sd true a (v.streams a);
      marked = λ a h. marked_new a (mark-is_poll w.streams sd true a h);
      within = λ a h. within_new a (Bool-cases (mem a v.registered)) h;
      at = (rw append_assoc e, count, Held-mark sd z _ t);
    })
    | inr (x, h, ne) ↦ elim (Bool-cases w.poll_token) [
      | inl k ↦
          rw (h, ==_of_ne x null ne, k)
            (record {
              registered = v.registered;
              streams = v.streams;
              marked = v.marked;
              within = v.within;
              at = (
                (sd ∷ rest, e),
                c,
                record {
                  token = refl;
                  wakes = (Waits-Taken k t).0;
                  none_owes = (Waits-Taken k t).1;
                },
                (in_set, (x, h, ne)),
              );
            })
      | inr k ↦
          rw (h, ==_of_ne x null ne, k)
            (record {
              registered = v.registered;
              streams = v.streams;
              marked = v.marked;
              within = v.within;
              at = ((sd ∷ rest, e, λ q. absurd (ground (arith, q))), c, Waits-exchange _ k t);
            })
    ]
  ]
    where
      in_set : sd ∈ set
      in_set = rw e (ground (arith, mem-append sd v.registered (sd ∷ rest)))

      marked_new :
          (a : Ptr)
          → ((a ≡ sd) × (true ≡ true)) ⊎ ((a ≢ sd) × ((w.streams a).stream.is_poll ≡ true))
          → a ∈ v.registered ++ (sd ∷ [])
      marked_new a (inl (q, k)) = ground (arith, q, mem-append a v.registered (sd ∷ []))
      marked_new a (inr (q, k)) = ground (arith, v.marked a k, mem-append a v.registered (sd ∷ []))

      within_new :
          (a : Ptr)
          → (mem a v.registered ≡ true) ⊎ (mem a v.registered ≡ false)
          → a ∈ v.registered ++ (sd ∷ [])
          → a ∈ set
      within_new a (inl k) h = v.within a k
      within_new a (inr k) h =
          subst (λ z. z ∈ set)
            (sym (==→eq a sd (ground (arith, h, k, mem-append a v.registered (sd ∷ []))))) in_set

      count : incr cnt ≡ pos (length (v.registered ++ (sd ∷ [])))
      count = rw c (
          incr_pos (length v.registered)
          ∙ ap pos (omega (arith, length-append v.registered (sd ∷ []))))

  block-Keeps :
      (cnt : ℤ)
      → At set (Poller.blocked cnt) v.registered w
      → Keeps set (w.wakes ≡ 0) (ok (poll_block cnt w))
  unfolding poll_block
  block-Keeps cnt ((rest, e, k), c, t) = elim (Bool-cases (w.wakes == 0)) [
    | inl z ↦ rw z (==→eq w.wakes 0 z)
    | inr z ↦
        let woken = Waits-Woken z t in
        rw z (record {
          registered = v.registered;
          streams = v.streams;
          marked = v.marked;
          within = v.within;
          at = (
            (rest, e),
            c,
            record {
              token = woken.token;
              wakes = omega (arith, woken.wakes);
              none_owes = woken.none_owes;
            },
            woken.found,
          );
        })
  ]

  -- An action of the consumer does not fail, and keeps the invariant.
  pub poll_at-Keeps :
      (p : Poller) → At set p v.registered w → Keeps set (Stops p w) (poll_at set p w)
  unfolding poll_at
  poll_at-Keeps (Poller.looking []) (e, sub, t) = record {
    registered = v.registered;
    streams = v.streams;
    marked = v.marked;
    within = v.within;
    at = (e, record { token = t.token; wakes = t.wakes; none_owes = t.none_owes });
  }
  poll_at-Keeps (Poller.looking (sd ∷ rest)) h = look-Keeps sd rest h
  poll_at-Keeps Poller.placing (e, t) = record {
    registered = v.registered;
    streams = v.streams;
    marked = v.marked;
    within = v.within;
    at = (
      rw e refl,
      rw e refl,
      inl (record {
        token = refl;
        wakes = t.wakes;
        none_owes = t.none_owes;
        quiet = λ a h. absurd (ground (arith, subst (λ z. a ∈ z) e h));
      }),
    );
  }
  poll_at-Keeps (Poller.registering [] cnt) (e, c, t) = record {
    registered = v.registered;
    streams = v.streams;
    marked = v.marked;
    within = v.within;
    at = (([], e, λ h. refl), c, blocked_Waits t);
  }
  poll_at-Keeps (Poller.registering (sd ∷ rest) cnt) h = register-Keeps sd rest cnt h
  poll_at-Keeps (Poller.blocked cnt) h = block-Keeps cnt h
  poll_at-Keeps (Poller.checking cnt) ((rest, e), c, t, f) = rw t.token (record {
    registered = v.registered;
    streams = v.streams;
    marked = v.marked;
    within = v.within;
    at = (
      (rest, e),
      rw c refl,
      record { token = refl; wakes = t.wakes; none_owes = t.none_owes },
      f,
    );
  })
  poll_at-Keeps (Poller.unregistering [] cnt) ((rest, e), c, t, f) = record {
    registered = v.registered;
    streams = v.streams;
    marked = v.marked;
    within = v.within;
    at = (
      left_nil v.registered rest e,
      record { token = t.token; wakes = t.wakes; none_owes = t.none_owes },
      f,
    );
  }
  poll_at-Keeps (Poller.unregistering (sd ∷ rest) cnt) h =
      unregister-Keeps v sd rest v.registered cnt refl h
  poll_at-Keeps (Poller.done sd) h = tt
