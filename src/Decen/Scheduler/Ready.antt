-- ===== src/Decen/Scheduler/Ready.antt =====
-- The scheduler's contract: tasks of the higher priority first, each priority in order of arrival.
use lpel.Base.{
  ℕ, suc, ◌+◌, ◌^◌, ◌<◌, ◌≡◌, ◌≢◌, refl, arith, inl, inr, Bool, true, false, List, [], ◌∷◌, ◌++◌,
  Ptr, null, if◌then◌else◌, ltb, length, length-append, lt→ltb, Bool-cases, ◌∈◌, ◌∉◌, apart_sym,
  not_mem_snoc, snoc_apart,
}
use lpel.Base.Run.{Run, ok}
use lpel.Base.Int.{ℤ, pos, negsuc}
use lpel.Decen.Taskqueue.{Links, Queue, init}
use lpel.Decen.Taskqueue.Seg.{IsSeg_frame}
use lpel.Decen.Taskqueue.Ends.{IsQueue, IsFree, SameOutside, init-IsQueue}
use lpel.Decen.Taskqueue.Push.{push-Pushed}
use lpel.Decen.Taskqueue.Pop.{pop-Popped}
use lpel.Decen.Scheduler.{Sched, create, queue_of, make_ready, fetch_ready}

-- A queue is not touched by writes to other tasks.
IsQueue-frame :
    {l l' : Links} {q : Queue} (xs ys : List Ptr)
    → IsQueue l q xs
    → SameOutside ys l l'
    → ((a : Ptr) → a ∈ xs → a ∉ ys)
    → IsQueue l' q xs
IsQueue-frame {l} {l'} xs ys v same apart = record {
  head = v.head;
  tail = v.tail;
  count = v.count;
  distinct = v.distinct;
  links = IsSeg_frame l l' null xs null (λ a h. same a (apart a h)) v.links;
}

-- The scheduler holds the ready tasks `low` and `high`, in this order; there are fewer than 2^32.
pub record Holds (l : Links) (sc : Sched) (low high : List Ptr) : Type 0 where
  pub first : Queue
  pub second : Queue
  pub queues : sc.queues ≡ first ∷ second ∷ []
  pub low_queue : IsQueue l first low
  pub high_queue : IsQueue l second high
  pub apart : (a : Ptr) → a ∈ low → a ∉ high
  pub few : length low + length high < 2 ^ 32

pub create-Holds : (l : Links) → Holds l create [] []
unfolding create
create-Holds l = record {
  first = init;
  second = init;
  queues = refl;
  low_queue = init-IsQueue l;
  high_queue = init-IsQueue l;
  apart = λ a h. refl;
  few = omega arith;
}

-- Is a priority above the lowest?
abbrev pub is_high : ℤ → Bool
is_high (negsuc n) = false
is_high (pos n) = ltb 0 n

queue_of_high : (prio : ℤ) → is_high prio ≡ true → queue_of prio ≡ 1
unfolding queue_of
queue_of_high (pos n) h = ground arith
queue_of_high (negsuc n) h = cc

queue_of_low : (prio : ℤ) → is_high prio ≡ false → queue_of prio ≡ 0
unfolding queue_of
queue_of_low (pos n) h = ground arith
queue_of_low (negsuc n) h = refl

-- What an operation leaves when it returns `t`.
abbrev pub Leaves : {A : Type 0} → A → List Ptr → List Ptr → Run (A × Links × Sched) → Type 0
Leaves a low high r = (l' : Links) × (sc' : Sched) × (r ≡ ok (a, l', sc')) × Holds l' sc' low high

-- What a fetch leaves: the first task of the higher priority is taken, without one the first of the
-- lower, without one NULL.
abbrev pub Fetched : List Ptr → List Ptr → Run (Ptr × Links × Sched) → Type 0
Fetched low (h ∷ high) r = Leaves h low high r
Fetched (t ∷ low) [] r = Leaves t low [] r
Fetched [] [] r = Leaves null [] [] r

-- The count of a queue that holds a task is not zero.
count-positive :
    {l : Links} {q : Queue} (t : Ptr) (xs : List Ptr) (n : ℕ)
    → IsQueue l q (t ∷ xs)
    → length (t ∷ xs) + n < 2 ^ 32
    → ltb 0 q.count ≡ true
count-positive t xs n v few = lt→ltb 0 _ (omega (arith, v.count, few))

count-zero : {l : Links} {q : Queue} → IsQueue l q [] → ltb 0 q.count ≡ false
count-zero v = rw v.count

-- On a scheduler that holds the ready tasks `low` and `high`, fewer than 2^32, `LpelSchedFetchReady`
-- returns the first of the higher priority, without one the first of the lower, without one NULL;
-- the others stay in order.
pub fetch_ready-Fetched :
    {l : Links} {sc : Sched} (low high : List Ptr)
    → Holds l sc low high
    → Fetched low high (fetch_ready l sc)
unfolding fetch_ready
fetch_ready-Fetched {l} {sc} low (h ∷ high) v =
    let (l', q', e, queue, free, same) = pop-Popped h high v.high_queue in
    (
      l',
      record { queues = v.first ∷ q' ∷ [] },
      rw (v.queues, count-positive h high (length low) v.high_queue (omega (arith, v.few)), e),
      record {
        first = v.first;
        second = q';
        queues = refl;
        low_queue = IsQueue-frame low (h ∷ high) v.low_queue same v.apart;
        high_queue = queue;
        apart = λ a k. ground (arith, v.apart a k);
        few = omega (arith, v.few);
      },
    )
fetch_ready-Fetched {l} {sc} (t ∷ low) [] v =
    let (l', q', e, queue, free, same) = pop-Popped t low v.low_queue in
    (
      l',
      record { queues = q' ∷ v.second ∷ [] },
      rw (
        v.queues,
        count-zero v.high_queue,
        count-positive t low 0 v.low_queue (omega (arith, v.few)),
        e,
      ),
      record {
        first = q';
        second = v.second;
        queues = refl;
        low_queue = queue;
        high_queue = IsQueue-frame [] (t ∷ low) v.high_queue same (λ a k. absurd (ground arith));
        apart = λ a k. refl;
        few = omega (arith, v.few);
      },
    )
fetch_ready-Fetched {l} {sc} [] [] v =
    (l, sc, rw (v.queues, count-zero v.high_queue, count-zero v.low_queue), v)

-- What `make_ready` leaves: the ready tasks `low` and `high`.
abbrev pub Readied : List Ptr → List Ptr → Run (Links × Sched) → Type 0
Readied low high r = (l' : Links) × (sc' : Sched) × (r ≡ ok (l', sc')) × Holds l' sc' low high

module _ {l : Links} {sc : Sched} (prio : ℤ) (t : Ptr) (low high : List Ptr) where
  make_ready-high :
      Holds l sc low high
      → is_high prio ≡ true
      → t ≢ null
      → IsFree l t
      → t ∉ low
      → t ∉ high
      → suc (length low + length high) < 2 ^ 32
      → Readied low (high ++ (t ∷ [])) (make_ready prio t l sc)
  unfolding make_ready
  make_ready-high v is_high ne free not_low not_high few =
      let (l', q', e, queue, same) = push-Pushed t high v.high_queue ne free not_high in
      (
        l',
        record { queues = v.first ∷ q' ∷ [] },
        rw (v.queues, queue_of_high prio is_high, e),
        record {
          first = v.first;
          second = q';
          queues = refl;
          low_queue =
              IsQueue-frame low (high ++ (t ∷ [])) v.low_queue same
                (λ a k. not_mem_snoc a t low high (v.apart a k) k not_low);
          high_queue = queue;
          apart = λ a k. not_mem_snoc a t low high (v.apart a k) k not_low;
          few = omega (arith, length-append high (t ∷ []), few);
        },
      )

  make_ready-low :
      Holds l sc low high
      → is_high prio ≡ false
      → t ≢ null
      → IsFree l t
      → t ∉ low
      → t ∉ high
      → suc (length low + length high) < 2 ^ 32
      → Readied (low ++ (t ∷ [])) high (make_ready prio t l sc)
  unfolding make_ready
  make_ready-low v is_low ne free not_low not_high few =
      let (l', q', e, queue, same) = push-Pushed t low v.low_queue ne free not_low in
      (
        l',
        record { queues = q' ∷ v.second ∷ [] },
        rw (v.queues, queue_of_low prio is_low, e),
        record {
          first = q';
          second = v.second;
          queues = refl;
          low_queue = queue;
          high_queue =
              IsQueue-frame high (low ++ (t ∷ [])) v.high_queue same
                (λ a k. not_mem_snoc a t high low (apart_sym low high v.apart a k) k not_high);
          apart = λ a k. snoc_apart a t low high (v.apart a) not_high k;
          few = omega (arith, length-append low (t ∷ []), few);
        },
      )

  -- On a scheduler that holds the ready tasks `low` and `high`, `LpelSchedMakeReady` puts a task that
  -- is not NULL, in no queue and not among them behind those of its priority, and keeps the others,
  -- as long as there are fewer than 2^32 tasks; a priority above 0 is the higher.
  pub make_ready-Readied :
      Holds l sc low high
      → t ≢ null
      → IsFree l t
      → t ∉ low
      → t ∉ high
      → suc (length low + length high) < 2 ^ 32
      → Readied
          (if is_high prio then low else (low ++ (t ∷ [])))
          (if is_high prio then (high ++ (t ∷ [])) else high)
          (make_ready prio t l sc)
  make_ready-Readied v ne free not_low not_high few = elim (Bool-cases (is_high prio)) [
    | inl e ↦ rw e (make_ready-high v e ne free not_low not_high few)
    | inr e ↦ rw e (make_ready-low v e ne free not_low not_high few)
  ]
