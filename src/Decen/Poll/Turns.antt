-- ===== src/Decen/Poll/Turns.antt =====
-- The actions of the consumer keep the invariant of a poll, and none of them fails.
use lpel.Decen.Buffer.Refine.{top-head_or}
use lpel.Decen.Stream.{System}
use lpel.Decen.Poll.{World, Poller, mark}
use lpel.Decen.Poll.Producer.{owes, IsEmpty, HasItem, IsStream}
use lpel.Decen.Poll.Inv.{assign_every, owes_at, Woken, Waits, Inv}
use lpel.Base.{
  ◌≡◌, ◌≢◌, refl, ap, ◌∙◌, arith, ◌⊎◌, inl, inr, Bool, true, false, Option, none, some, List, [],
  ◌∷◌, ◌++◌, Ptr, null, ◌==◌, set, head_or, ==→eq, ==_false→ne, Bool-cases, ◌∈◌, mem-append,
}
use lpel.Base.Run.{out_of_fuel, Run, ok, assert_failed, fault}

-- The outcome of an action: the invariant, or `N` where there is no action to make.
abbrev pub Keeps : List Ptr → Type 0 → Run (Option World) → Type 0
Keeps set N (ok (some w)) = Inv set w
Keeps set N (ok none) = N
Keeps set N assert_failed = ⊥
Keeps set N fault = ⊥
Keeps set N out_of_fuel = ⊥

-- `LpelBufferTop` returns NULL or an item.
pub top_cases : {s : System} → IsStream s → IsEmpty s ⊎ HasItem s
top_cases v = elim (Bool-cases (head_or v.queue null == null)) [
  | inl e ↦ inl (top-head_or v.holds ∙ ap ok (==→eq (head_or v.queue null) null e))
  | inr e ↦
      inr (head_or v.queue null, top-head_or v.holds, ==_false→ne (head_or v.queue null) null e)
]

-- The fields that a poll reads stay when a stream is registered or no longer registered.
mark-same :
    (f : Ptr → System) (sd : Ptr) (b : Bool) (P : System → Type 0)
    → ((s : System) (b : Bool) → P s → P (record s { stream = record (s.stream) { is_poll = b } }))
    → (a : Ptr) → P (f a)
    → P (mark sd b f a)
unfolding mark
mark-same f sd b P stay =
    assign_every f sd (record (f sd) { stream = record ((f sd).stream) { is_poll = b } })
      (λ a s. P (f a) → P s) (stay (f sd) b) (λ a ne h. h)

pub mark-IsStream :
    (f : Ptr → System) (sd : Ptr) (b : Bool) (a : Ptr) → IsStream (f a) → IsStream (mark sd b f a)
mark-IsStream f sd b = mark-same f sd b IsStream λ s c v. record {
  queue = v.queue;
  holds = v.holds;
  count = v.count;
  n_sem = v.n_sem;
  writer_ok = v.writer_ok;
}

pub mark-HasItem :
    (f : Ptr → System) (sd : Ptr) (b : Bool) (a : Ptr) → HasItem (f a) → HasItem (mark sd b f a)
mark-HasItem f sd b = mark-same f sd b HasItem λ s c v. v

mark-IsEmpty :
    (f : Ptr → System) (sd : Ptr) (b : Bool) (a : Ptr) → IsEmpty (f a) → IsEmpty (mark sd b f a)
mark-IsEmpty f sd b = mark-same f sd b IsEmpty λ s c v. v

pub mark-owes :
    (f : Ptr → System) (sd : Ptr) (b : Bool) (c : Bool) (a : Ptr)
    → owes (f a).writer ≡ c
    → owes (mark sd b f a).writer ≡ c
mark-owes f sd b c = mark-same f sd b (λ s. owes s.writer ≡ c) λ s d v. v

-- A stream is marked if it was set so, or was before.
pub mark-is_poll :
    (f : Ptr → System) (sd : Ptr) (b : Bool) (a : Ptr)
    → (mark sd b f a).stream.is_poll ≡ true
    → ((a ≡ sd) × (b ≡ true)) ⊎ ((a ≢ sd) × ((f a).stream.is_poll ≡ true))
unfolding mark
mark-is_poll f sd b =
    assign_every f sd (record (f sd) { stream = record ((f sd).stream) { is_poll = b } })
      (λ a s.
        s.stream.is_poll ≡ true
        → ((a ≡ sd) × (b ≡ true)) ⊎ ((a ≢ sd) × ((f a).stream.is_poll ≡ true)))
      (λ h. inl (refl, h)) (λ a ne h. inr (ne, h))

module _ (r : List Ptr) (w : World) where
  marked_quiet :
      (sd : Ptr)
      → IsEmpty (w.streams sd)
      → ((a : Ptr) → a ∈ r → ((w.streams a).stream.is_poll ≡ true) × IsEmpty (w.streams a))
      → (a : Ptr) → a ∈ r ++ (sd ∷ [])
      → ((mark sd true w.streams a).stream.is_poll ≡ true) × IsEmpty (mark sd true w.streams a)
  unfolding mark
  marked_quiet sd e quiet =
      assign_every w.streams sd
        (record (w.streams sd) { stream = record ((w.streams sd).stream) { is_poll = true } })
        (λ a s. a ∈ r ++ (sd ∷ []) → (s.stream.is_poll ≡ true) × IsEmpty s) (λ h. (refl, e))
        (λ a ne h. quiet a (ground (arith, h, mem-append a r (sd ∷ []), ne)))

module _ {set r : List Ptr} {w : World} where
  -- A stream without an item is registered: who wakes up the consumer stays the same.
  pub Held-mark :
      (sd : Ptr)
      → IsEmpty (w.streams sd)
      → (p : Poller) → Waits set r w
      → Waits set (r ++ (sd ∷ [])) (record w { streams = mark sd true w.streams; poller = p })
  Held-mark sd e p (inl v) = inl (record {
    token = v.token;
    wakes = v.wakes;
    none_owes = λ a. mark-owes w.streams sd true false a (v.none_owes a);
    quiet = marked_quiet r w sd e v.quiet;
  })
  Held-mark sd e p (inr (inl (a, v))) = inr (
      inl (
        a,
        record {
          token = v.token;
          wakes = v.wakes;
          turn = mark-owes w.streams sd true true a v.turn;
          alone = λ b ne. mark-owes w.streams sd true false b (v.alone b ne);
          found = (v.found.0, mark-HasItem w.streams sd true a v.found.1);
        },
      ))
  Held-mark sd e p (inr (inr v)) = inr (
      inr (record {
        token = v.token;
        wakes = v.wakes;
        none_owes = λ a. mark-owes w.streams sd true false a (v.none_owes a);
        found = (v.found.0, mark-HasItem w.streams sd true w.wakeup_sd v.found.1);
      }))

  -- The exchange of a token that was taken before changes nothing.
  pub Waits-exchange :
      (p : Poller)
      → w.poll_token ≡ false
      → Waits set r w
      → Waits set r (record w { poller = p; poll_token = false })
  Waits-exchange p e (inl v) = absurd (ground (arith, e, v.token))
  Waits-exchange p e (inr (inl (a, v))) = inr (
      inl (
        a,
        record { token = refl; wakes = v.wakes; turn = v.turn; alone = v.alone; found = v.found },
      ))
  Waits-exchange p e (inr (inr v)) =
      inr (inr (record { token = refl; wakes = v.wakes; none_owes = v.none_owes; found = v.found }))

  -- The consumer takes the token back.
  pub Waits-Taken :
      w.poll_token ≡ true → Waits set r w → (w.wakes ≡ 0) × ((a : Ptr) → owes_at a w ≡ false)
  Waits-Taken e (inl v) = (v.wakes, v.none_owes)
  Waits-Taken e (inr (inl (a, v))) = absurd (ground (arith, e, v.token))
  Waits-Taken e (inr (inr v)) = absurd (ground (arith, e, v.token))

  -- A consumer that goes on was woken up once.
  pub Waits-Woken : (w.wakes == 0) ≡ false → Waits set r w → Woken set w
  Waits-Woken e (inl v) = absurd (ground (arith, e, v.wakes))
  Waits-Woken e (inr (inl (a, v))) = absurd (ground (arith, e, v.wakes))
  Waits-Woken e (inr (inr v)) = v
