-- ===== src/Decen/Poll/Inv.antt =====
-- The invariant of a poll: who wakes up the consumer, and which streams are registered.
use lpel.Decen.Poll.Producer.{owes, IsEmpty, HasItem, IsStream}
use lpel.Decen.Poll.{World, begin_poll, Poller}
use lpel.Decen.Stream.{System}
use lpel.Base.{
  assign, assign_self, assign_ne, ℕ_discrete, sym, ◌≡◌, ◌≢◌, refl, subst, arith, ◌⊎◌, inl, inr,
  Bool, true, false, List, [], ◌++◌, Ptr, null, ◌==◌, length, head_or, Bool-cases, ◌∈◌,
}
use lpel.Base.Run.{out_of_fuel, Run, ok, assert_failed, fault}
use lpel.Base.Int.{pos, pos_part}

-- What the assigned stream and every other one has, every stream has.
pub assign_every :
    (f : Ptr → System) (p : Ptr) (t : System) (P : Ptr → System → Type 0)
    → P p t
    → ((a : Ptr) → a ≢ p → P a (f a))
    → (a : Ptr) → P a (assign f p t a)
assign_every f p t P h other a = elim (ℕ_discrete a p) [
  | yes e ↦ subst (λ z. P z (assign f p t z)) (sym e) (subst (P p) (sym (assign_self f p t)) h)
  | no ne ↦ subst (P a) (sym (assign_ne f p a t ne)) (other a ne)
]

abbrev pub owes_at : Ptr → World → Bool
owes_at a w = owes (w.streams a).writer

-- The token is set, nobody is about to wake up the consumer, and every registered stream is empty
-- and will take the token.
pub record Held (r : List Ptr) (w : World) : Type 0 where
  pub token : w.poll_token ≡ true
  pub wakes : w.wakes ≡ 0
  pub none_owes : (a : Ptr) → owes_at a w ≡ false
  pub quiet : (a : Ptr) → a ∈ r → ((w.streams a).stream.is_poll ≡ true) × IsEmpty (w.streams a)

-- A stream of the set that has an item.
abbrev pub Found : List Ptr → Ptr → World → Type 0
Found set a w = (a ∈ set) × HasItem (w.streams a)

-- One producer has taken the token and is about to wake up the consumer.
pub record Owed (set : List Ptr) (a : Ptr) (w : World) : Type 0 where
  pub token : w.poll_token ≡ false
  pub wakes : w.wakes ≡ 0
  pub turn : owes_at a w ≡ true
  pub alone : (b : Ptr) → b ≢ a → owes_at b w ≡ false
  pub found : Found set a w

-- The consumer has been woken up once, and has not acted on it.
pub record Woken (set : List Ptr) (w : World) : Type 0 where
  pub token : w.poll_token ≡ false
  pub wakes : w.wakes ≡ 1
  pub none_owes : (a : Ptr) → owes_at a w ≡ false
  pub found : Found set w.wakeup_sd w

-- The consumer waits for nobody.
pub record Taken (w : World) : Type 0 where
  pub token : w.poll_token ≡ false
  pub wakes : w.wakes ≡ 0
  pub none_owes : (a : Ptr) → owes_at a w ≡ false

abbrev pub Waits : List Ptr → List Ptr → World → Type 0
Waits set r w = Held r w ⊎ (((a : Ptr) × Owed set a w) ⊎ Woken set w)

-- What holds where the consumer stands, with the streams `r` registered.
abbrev pub At : List Ptr → Poller → List Ptr → World → Type 0
At set (Poller.looking ahead) r w = (r ≡ []) × ((a : Ptr) → a ∈ ahead → a ∈ set) × Taken w
At set Poller.placing r w = (r ≡ []) × Taken w
At set (Poller.registering ahead cnt) r w =
    (set ≡ r ++ ahead) × (cnt ≡ pos (length r)) × Waits set r w
At set (Poller.blocked cnt) r w =
    ((rest : List Ptr) × (set ≡ r ++ rest) × (w.poll_token ≡ true → rest ≡ []))
    × (cnt ≡ pos (length r))
    × Waits set r w
At set (Poller.checking cnt) r w =
    ((rest : List Ptr) × (set ≡ r ++ rest))
    × (cnt ≡ pos (length r))
    × Taken w
    × Found set w.wakeup_sd w
At set (Poller.unregistering ahead cnt) r w =
    ((rest : List Ptr) × (ahead ≡ r ++ rest))
    × (pos_part cnt ≡ length r)
    × Taken w
    × Found set w.wakeup_sd w
At set (Poller.done sd) r w = (r ≡ []) × Taken w × Found set sd w

pub record Inv (set : List Ptr) (w : World) : Type 0 where
  pub registered : List Ptr
  pub streams : (a : Ptr) → IsStream (w.streams a)
  pub marked : (a : Ptr) → (w.streams a).stream.is_poll ≡ true → a ∈ registered
  pub within : (a : Ptr) → a ∈ registered → a ∈ set
  pub at : At set w.poller registered w

-- Before the call: no producer has to wake up the consumer, and no stream is registered.
pub record IsReady (w : World) : Type 0 where
  pub streams : (a : Ptr) → IsStream (w.streams a)
  pub unmarked : (a : Ptr) → (w.streams a).stream.is_poll ≡ false
  pub taken : Taken w

-- A call of LpelStreamPoll begins with the invariant.
abbrev Begins : List Ptr → Run World → Type 0
Begins set (ok w) = Inv set w
Begins set assert_failed = Unit
Begins set fault = Unit
Begins set out_of_fuel = Unit

begin_poll-Begins : (set : List Ptr) (w : World) → IsReady w → Begins set (begin_poll set w)
unfolding begin_poll
begin_poll-Begins set w v = elim (Bool-cases (head_or set null == null)) [
  | inl z ↦ rw z tt
  | inr z ↦ rw z (record {
    registered = [];
    streams = v.streams;
    marked = λ a k. absurd (ground (arith, k, v.unmarked a));
    within = λ a k. absurd (ground (arith, k));
    at = (
      refl,
      (λ a k. k),
      record { token = v.taken.token; wakes = v.taken.wakes; none_owes = v.taken.none_owes },
    );
  })
]

pub begin-Inv : (set : List Ptr) (w w' : World) → IsReady w → begin_poll set w ≡ ok w' → Inv set w'
begin-Inv set w w' v e = subst (Begins set) e (begin_poll-Begins set w v)
