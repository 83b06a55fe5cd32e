-- ===== src/Decen/Poll/Kept.antt =====
-- An action of a producer keeps the invariant of a poll.
use lpel.Decen.Stream.{System}
use lpel.Decen.Poll.{Poller, Produce, World, update, view}
use lpel.Decen.Poll.Producer.{Produce-Made, IsStream, owes, IsEmpty, HasItem, Made}
use lpel.Decen.Poll.Inv.{assign_every, At, Inv, owes_at, Held, Found, Taken, Waits}
use lpel.Base.{
  if◌then◌else◌, ap, ◌+◌, ◌&&◌, Bool-cases, ◌∈◌, ◌≡◌, ◌≢◌, refl, sym, subst, ◌∙◌, arith, ℕ_discrete,
  inl, inr, true, false, List, Ptr, assign_self, assign_ne,
}

IsEmpty-HasItem : (s : System) → IsEmpty s → HasItem s → ⊥
IsEmpty-HasItem s e (x, k, ne) = ne cc

HasItem-kept : {s t : System} → Made s t → HasItem s → HasItem t
HasItem-kept (Made.still b p o k r u) (x, h, ne) = (x, rw b h, ne)
HasItem-kept (Made.stores i p o o' k r u) h = i
HasItem-kept (Made.wakes b p o o' k r u) (x, h, ne) = (x, rw b h, ne)

is_poll-kept : {s t : System} → Made s t → t.stream.is_poll ≡ true → s.stream.is_poll ≡ true
is_poll-kept (Made.still b p o k r u) h = sym p ∙ h
is_poll-kept (Made.stores i p o o' k r u) h = absurd (ground (arith, h, p))
is_poll-kept (Made.wakes b p o o' k r u) h = sym p ∙ h

token-kept : {s t : System} → Made s t → t.poll_token ≡ true → s.poll_token ≡ true
token-kept (Made.still b p o k r u) h = sym k ∙ h
token-kept (Made.stores i p o o' k r u) h = ground (arith, h, k)
token-kept (Made.wakes b p o o' k r u) h = sym k ∙ h

-- A change that concerns neither the token nor a wakeup.
pub record Calm (w w' : World) : Type 0 where
  pub token : w'.poll_token ≡ w.poll_token
  pub wakes : w'.wakes ≡ w.wakes
  pub wakeup : w'.wakeup_sd ≡ w.wakeup_sd
  pub owed : (a : Ptr) → owes_at a w' ≡ owes_at a w
  pub item : (a : Ptr) → HasItem (w.streams a) → HasItem (w'.streams a)
  pub quiet :
      w.poll_token ≡ true
      → (a : Ptr) → ((w.streams a).stream.is_poll ≡ true) × IsEmpty (w.streams a)
      → ((w'.streams a).stream.is_poll ≡ true) × IsEmpty (w'.streams a)

module _ {w w' : World} (c : Calm w w') where
  pub Calm-Taken : Taken w → Taken w'
  Calm-Taken v = record {
    token = c.token ∙ v.token;
    wakes = c.wakes ∙ v.wakes;
    none_owes = λ a. c.owed a ∙ v.none_owes a;
  }

  pub Calm-Found : (set : List Ptr) (a : Ptr) → Found set a w → Found set a w'
  Calm-Found set a f = (f.0, c.item a f.1)

  pub Calm-Found_wakeup : (set : List Ptr) → Found set w.wakeup_sd w → Found set w'.wakeup_sd w'
  Calm-Found_wakeup set f =
      subst (λ a. Found set a w') (sym c.wakeup) (Calm-Found set w.wakeup_sd f)

  pub Calm-Held : {r : List Ptr} → Held r w → Held r w'
  Calm-Held v = record {
    token = c.token ∙ v.token;
    wakes = c.wakes ∙ v.wakes;
    none_owes = λ a. c.owed a ∙ v.none_owes a;
    quiet = λ a m. c.quiet v.token a (v.quiet a m);
  }

  pub Calm-Waits : {set r : List Ptr} → Waits set r w → Waits set r w'
  Calm-Waits (inl v) = inl (Calm-Held v)
  Calm-Waits (inr (inl (a, v))) = inr (
      inl (
        a,
        record {
          token = c.token ∙ v.token;
          wakes = c.wakes ∙ v.wakes;
          turn = c.owed a ∙ v.turn;
          alone = λ b ne. c.owed b ∙ v.alone b ne;
          found = Calm-Found _ a v.found;
        },
      ))
  Calm-Waits (inr (inr v)) = inr (
      inr (record {
        token = c.token ∙ v.token;
        wakes = c.wakes ∙ v.wakes;
        none_owes = λ a. c.owed a ∙ v.none_owes a;
        found = Calm-Found_wakeup _ v.found;
      }))

module _ (sd : Ptr) (t : System) (w : World) where
  every :
      (P : Ptr → System → Type 0)
      → P sd t
      → ((a : Ptr) → a ≢ sd → P a (w.streams a))
      → (a : Ptr) → P a ((update sd t w).streams a)
  unfolding update
  every P p other = assign_every w.streams sd t P p other

  every-Calm :
      t.poll_token ≡ w.poll_token
      → t.reader_wake ≡ w.wakes
      → t.wakeup_sd ≡ false
      → owes t.writer ≡ owes_at sd w
      → Made (view sd w) t
      → (w.poll_token ≡ true
          → ((w.streams sd).stream.is_poll ≡ true) × IsEmpty (w.streams sd)
          → (t.stream.is_poll ≡ true) × IsEmpty t)
      → Calm w (update sd t w)
  unfolding update view
  every-Calm k r u o m q = record {
    token = k;
    wakes = r;
    wakeup = rw u refl;
    owed = every (λ a s. owes s.writer ≡ owes_at a w) o (λ a ne. refl);
    item = every (λ a s. HasItem (w.streams a) → HasItem s) (HasItem-kept m) (λ a ne h. h);
    quiet = λ h.
        every
          (λ a s.
            ((w.streams a).stream.is_poll ≡ true) × IsEmpty (w.streams a)
            → (s.stream.is_poll ≡ true) × IsEmpty s)
          (q h) (λ a ne k. k);
  }

module _ (sd : Ptr) (t : System) (w : World) where
  -- The store that takes the token.
  take_token :
      {set r : List Ptr}
      → ((a : Ptr) → (w.streams a).stream.is_poll ≡ true → a ∈ set)
      → HasItem t
      → owes t.writer ≡ true
      → t.poll_token ≡ false
      → t.reader_wake ≡ w.wakes
      → (w.streams sd).stream.is_poll ≡ true
      → w.poll_token ≡ true
      → Waits set r w
      → Waits set r (update sd t w)
  unfolding update
  take_token sub i o k r p z (inl v) = inr (
      inl (
        sd,
        record {
          token = k;
          wakes = r ∙ v.wakes;
          turn = rw (assign_self w.streams sd t) o;
          alone = λ b ne. rw (assign_ne w.streams sd b t ne) (v.none_owes b);
          found = (sub sd p, rw (assign_self w.streams sd t) i);
        },
      ))
  take_token sub i o k r p z (inr (inl (a, v))) = absurd (ground (arith, z, v.token))
  take_token sub i o k r p z (inr (inr v)) = absurd (ground (arith, z, v.token))

  -- The call of LpelTaskUnblock by the producer that took the token.
  wake_up :
      {set r : List Ptr}
      → Made (view sd w) t
      → owes_at sd w ≡ true
      → owes t.writer ≡ false
      → t.poll_token ≡ w.poll_token
      → t.reader_wake ≡ w.wakes + 1
      → t.wakeup_sd ≡ true
      → Waits set r w
      → Waits set r (update sd t w)
  unfolding update view
  wake_up m o o' k r u (inl v) = absurd (ground (arith, o, v.none_owes sd))
  wake_up m o o' k r u (inr (inr v)) = absurd (ground (arith, o, v.none_owes sd))
  wake_up {set = set} m o o' k r u (inr (inl (a, v))) = elim (ℕ_discrete sd a) [
    | no ne ↦ absurd (ground (arith, o, v.alone sd ne))
    | yes e ↦ inr (
        inr (record {
          token = k ∙ v.token;
          wakes = omega (arith, r, v.wakes);
          none_owes =
              every sd t w (λ b s. owes s.writer ≡ false) o'
                (λ b ne. v.alone b (λ q. ne (q ∙ sym e)));
          found =
              subst (λ z. Found set z (update sd t w))
                (sym (ap (λ b. if b then sd else w.wakeup_sd) u))
                (
                  subst (λ z. z ∈ set) (sym e) v.found.0,
                  subst HasItem (sym (assign_self w.streams sd t))
                      (HasItem-kept m (subst (λ z. HasItem (w.streams z)) (sym e) v.found.1)),
                );
        }))
  ]

  -- While nobody waits, a producer changes nothing of it.
  Taken-Calm : Made (view sd w) t → Taken w → Calm w (update sd t w)
  unfolding view
  Taken-Calm (Made.still b p o k r u) v =
      every-Calm sd t w k r u o (Made.still b p o k r u) λ h. absurd (ground (arith, h, v.token))
  Taken-Calm (Made.stores i p o o' k r u) v =
      every-Calm sd t w (ground (arith, k, v.token)) r u (ground (arith, o, o', v.token))
        (Made.stores i p o o' k r u) λ h. absurd (ground (arith, h, v.token))
  Taken-Calm (Made.wakes b p o o' k r u) v = absurd (ground (arith, o, v.none_owes sd))

  -- The next wakeup stays in sight.
  Waits-kept :
      {set r : List Ptr}
      → ((a : Ptr) → (w.streams a).stream.is_poll ≡ true → a ∈ set)
      → Made (view sd w) t
      → Waits set r w
      → Waits set r (update sd t w)
  unfolding view
  Waits-kept sub (Made.still b p o k r u) v =
      Calm-Waits (every-Calm sd t w k r u o (Made.still b p o k r u) λ h (q, e). (p ∙ q, rw b e)) v
  Waits-kept sub (Made.stores i p o o' k r u) v =
      elim (Bool-cases ((w.streams sd).stream.is_poll && w.poll_token)) [
        | inr e ↦
            Calm-Waits
              (every-Calm sd t w (ground (arith, k, e)) r u (ground (arith, o, o', e))
                (Made.stores i p o o' k r u) λ h (q, z). absurd (ground (arith, h, q, e)))
              v
        | inl e ↦
            take_token sub i (o' ∙ e) (ground (arith, k, e)) r (ground (arith, e))
              (ground (arith, e)) v
      ]
  Waits-kept sub (Made.wakes b p o o' k r u) v = wake_up (Made.wakes b p o o' k r u) o o' k r u v

view-IsStream : (sd : Ptr) (w : World) → IsStream (w.streams sd) → IsStream (view sd w)
unfolding view
view-IsStream sd w v = record {
  queue = v.queue;
  holds = v.holds;
  count = v.count;
  n_sem = v.n_sem;
  writer_ok = v.writer_ok;
}

module _ (set : List Ptr) (sd : Ptr) (t : System) (w : World) where
  At-kept :
      (p : Poller) (r : List Ptr)
      → ((a : Ptr) → (w.streams a).stream.is_poll ≡ true → a ∈ set)
      → Made (view sd w) t
      → At set p r w
      → At set p r (update sd t w)
  unfolding update view
  At-kept (Poller.looking ahead) r sub m v = (v.0, v.1, Calm-Taken (Taken-Calm sd t w m v.2) v.2)
  At-kept Poller.placing r sub m v = (v.0, Calm-Taken (Taken-Calm sd t w m v.1) v.1)
  At-kept (Poller.registering ahead cnt) r sub m v = (v.0, v.1, Waits-kept sd t w sub m v.2)
  At-kept (Poller.blocked cnt) r sub m v =
      ((v.0.0, v.0.1, λ h. v.0.2 (token-kept m h)), v.1, Waits-kept sd t w sub m v.2)
  At-kept (Poller.checking cnt) r sub m v =
      let c = Taken-Calm sd t w m v.2 in (v.0, v.1, Calm-Taken c v.2, Calm-Found_wakeup c set v.3)
  At-kept (Poller.unregistering ahead cnt) r sub m v =
      let c = Taken-Calm sd t w m v.2 in (v.0, v.1, Calm-Taken c v.2, Calm-Found_wakeup c set v.3)
  At-kept (Poller.done a) r sub m v =
      let c = Taken-Calm sd t w m v.1 in (v.0, Calm-Taken c v.1, Calm-Found c set a v.2)

  -- Whatever a producer does, the invariant stays.
  pub Produce-Inv : Produce (view sd w) t → Inv set w → Inv set (update sd t w)
  unfolding update view
  Produce-Inv act v =
      let (ok_t, m) = Produce-Made (view-IsStream sd w (v.streams sd)) act in
      record {
        registered = v.registered;
        streams = every sd t w (λ a s. IsStream s) ok_t (λ a ne. v.streams a);
        marked =
            every sd t w (λ a s. s.stream.is_poll ≡ true → a ∈ v.registered)
              (λ h. v.marked sd (is_poll-kept m h)) (λ a ne. v.marked a);
        within = v.within;
        at = At-kept w.poller v.registered (λ a h. v.within a (v.marked a h)) m v.at;
      }
