-- ===== src/Monitoring/Report.antt =====
-- modimpl/monitoring.c: what the log has of a task's streams when the task stops.
use lpel.Monitoring.{dirty_end, print_dirty_list, Monitor}
use lpel.Base.{
  ℕ, suc, ◌+◌, ◌%◌, ◌^◌, ◌≤◌, ◌≡◌, refl, ap, sym, subst, ◌∙◌, arith, inl, inr, true, ◌||◌, List, [],
  ◌∷◌, ◌++◌, Ptr, ◌==◌, length, assign, assign_self, ==→eq, Bool-cases, mem, ◌∈◌, ◌∉◌, mem-append,
}
use lpel.Base.Run.{Run, ok, ◌>>=◌}
use lpel.Monitoring.Dirty.{IsTracked, IsPrinted, entries, released, is_closed, print_from-IsPrinted}
use lpel.Monitoring.Events.{Event, marked, IsLive, IsQuiet, stream_of, run_event, moves, event-runs}

-- The events since the task was dispatched.
abbrev pub run_events : List Event → Monitor → Run Monitor
run_events [] m = ok m
run_events (e ∷ es) m = run_event e m >>= run_events es

-- The streams that the events mark, and the items that they move on the stream `a`.
abbrev pub all_marked : List Event → List Ptr → List Ptr
all_marked [] xs = xs
all_marked (e ∷ es) xs = all_marked es (marked (stream_of e) xs)

abbrev pub all_moves : List Event → Ptr → ℕ
all_moves [] a = 0
all_moves (e ∷ es) a = moves e a + all_moves es a

abbrev pub AllLive : Ptr → List Event → Monitor → Type 0
AllLive mt [] m = Unit
AllLive mt (e ∷ es) m = IsLive mt (stream_of e) m × AllLive mt es m

IsLive-quiet : {mt ms : Ptr} {m m' : Monitor} → IsQuiet m m' → IsLive mt ms m → IsLive mt ms m'
IsLive-quiet {mt} {ms} q l = record {
  not_null = l.not_null;
  not_end = l.not_end;
  owner = ap (λ f. f ms) q.montask ∙ l.owner;
  not_freed = ap (mem ms) q.freed ∙ l.not_freed;
  mode = ap (λ f. (f ms == b'r') || (f ms == b'w')) q.mode ∙ l.mode;
}

AllLive-quiet :
    (mt : Ptr) (es : List Event) {m m' : Monitor}
    → IsQuiet m m'
    → AllLive mt es m
    → AllLive mt es m'
AllLive-quiet mt [] q l = tt
AllLive-quiet mt (e ∷ es) q l = (IsLive-quiet q l.0, AllLive-quiet mt es q l.1)

-- After the events.
pub record IsRun (mt : Ptr) (xs : List Ptr) (n : Ptr → ℕ) (m m' : Monitor) : Type 0 where
  pub tracked : IsTracked mt xs m'
  pub quiet : IsQuiet m m'
  pub counter : (a : Ptr) → m'.counter a % 2 ^ 64 ≡ (m.counter a + n a) % 2 ^ 64

IsQuiet-trans : {m m' m'' : Monitor} → IsQuiet m m' → IsQuiet m' m'' → IsQuiet m m''
IsQuiet-trans p q = record {
  montask = q.montask ∙ p.montask;
  mode = q.mode ∙ p.mode;
  freed = q.freed ∙ p.freed;
  log = q.log ∙ p.log;
  mw = q.mw ∙ p.mw;
  outfile = q.outfile ∙ p.outfile;
}

-- From a consistent list on, events on live streams of the task return and keep it consistent.
pub run_events-IsRun :
    (mt : Ptr) (es : List Event) (xs : List Ptr) (m : Monitor)
    → IsTracked mt xs m
    → AllLive mt es m
    → (m' : Monitor) × (run_events es m ≡ ok m') × IsRun mt (all_marked es xs) (all_moves es) m m'
run_events-IsRun mt [] xs m v l = (
  m,
  refl,
  record {
    tracked = v;
    quiet = record {
      montask = refl;
      mode = refl;
      freed = refl;
      log = refl;
      mw = refl;
      outfile = refl;
    };
    counter = λ a. omega arith;
  },
)
run_events-IsRun mt (e ∷ es) xs m v l =
    let (m1, run, s) = event-runs mt e xs m v l.0 in
    let (m2, runs, r) =
      run_events-IsRun mt es (marked (stream_of e) xs) m1 s.tracked
        (AllLive-quiet mt es s.quiet l.1) in
    (
      m2,
      rw run runs,
      record {
        tracked = r.tracked;
        quiet = IsQuiet-trans s.quiet r.quiet;
        counter = λ a. omega (arith, r.counter a, s.counter a);
      },
    )

marked-length : (x : Ptr) (xs : List Ptr) → length (marked x xs) ≤ suc (length xs)
marked-length x xs = ground arith

all_marked-length :
    (es : List Event) (xs : List Ptr) → length (all_marked es xs) ≤ length es + length xs
all_marked-length [] xs = omega arith
all_marked-length (e ∷ es) xs =
    omega (arith, all_marked-length es (marked (stream_of e) xs), marked-length (stream_of e) xs)

mem_released :
    (a : Ptr) (xs : List Ptr) (m : Monitor)
    → a ∈ xs
    → is_closed (m.state a) ≡ true
    → a ∈ released xs m
mem_released a [] m h c = cc
mem_released a (x ∷ xs) m h c = elim (Bool-cases (a == x)) [
  | inl e ↦ rw (ap (λ z. is_closed (m.state z)) (sym (==→eq a x e)) ∙ c) (rw e refl)
  | inr e ↦ elim (Bool-cases (is_closed (m.state x))) [
    | inl k ↦ rw k (rw (e, mem_released a xs m (ground (arith, h, e)) c) refl)
    | inr k ↦ rw k (mem_released a xs m (ground (arith, h, e)) c)
  ]
]

-- PrintDirtyList of a consistent list: it returns, and the list of the task is empty.
print_list-IsPrinted :
    (fuel : ℕ) (mt : Ptr) (xs : List Ptr) (m : Monitor)
    → length xs ≤ fuel
    → IsTracked mt xs m
    → (m' : Monitor) × (print_dirty_list fuel mt m ≡ ok m')
      × IsPrinted (m.outfile (m.mw mt)) xs m m'
      × IsTracked mt [] m'
unfolding print_dirty_list
print_list-IsPrinted fuel mt xs m k v =
    let (n, run, p) =
      print_from-IsPrinted fuel (m.outfile (m.mw mt)) mt xs m k v.chain v.distinct v.no_end
        v.owned in
    (
      record n { dirty_list = assign n.dirty_list mt dirty_end },
      rw v.head (rw run refl),
      record {
        log = p.log;
        freed = p.freed;
        reset = λ a h. record {
          counter = (p.reset a h).counter;
          state = (p.reset a h).state;
          dirty = (p.reset a h).dirty;
          flags = (p.reset a h).flags;
        };
        outside = λ a h. record {
          montask = (p.outside a h).montask;
          dirty = (p.outside a h).dirty;
          mode = (p.outside a h).mode;
          state = (p.outside a h).state;
          sid = (p.outside a h).sid;
          counter = (p.outside a h).counter;
          flags = (p.outside a h).flags;
        };
        montask = p.montask;
      },
      record {
        head = assign_self n.dirty_list mt dirty_end;
        chain = tt;
        distinct = tt;
        no_end = refl;
        owned = λ a h. cc;
        clean = λ a o f h. elim (Bool-cases (mem a xs)) [
          | inl i ↦ elim (Bool-cases (is_closed (m.state a))) [
            | inl c ↦ absurd (gone a i c (ap (mem a) (sym p.freed) ∙ f))
            | inr c ↦ (p.reset a i).dirty c
          ]
          | inr i ↦
              (p.outside a i).dirty
              ∙ v.clean a (sym (p.outside a i).montask ∙ o) (kept a (ap (mem a) (sym p.freed) ∙ f))
                  i
        ];
      },
    )
  where
    gone : (a : Ptr) → a ∈ xs → is_closed (m.state a) ≡ true → a ∉ m.freed ++ released xs m → ⊥
    gone a i c f = ground (arith, mem-append a m.freed (released xs m), mem_released a xs m i c, f)

    kept : (a : Ptr) → a ∉ m.freed ++ released xs m → a ∉ m.freed
    kept a f = ground (arith, mem-append a m.freed (released xs m), f)

-- A task has no dirty stream. After any sequence of the callbacks for the end of a read or write, for
-- blocking on a stream, and for replacing and closing one, on open streams of the task, PrintDirtyList
-- with a turn for each of them returns; the log gets one entry for each stream that was marked, the last
-- one marked first, which shows the stream as it is after the callbacks, with the counter of before
-- and the items moved since, modulo 2^64; and the task has no dirty stream again.
pub report_events :
    (fuel : ℕ) (mt : Ptr) (es : List Event) (m : Monitor)
    → length es ≤ fuel
    → IsTracked mt [] m
    → AllLive mt es m
    → (m1 m2 : Monitor) × (run_events es m ≡ ok m1)
      × (print_dirty_list fuel mt m1 ≡ ok m2)
      × (m2.log (m.outfile (m.mw mt))
          ≡ m.log (m.outfile (m.mw mt)) ++ entries (all_marked es []) m1)
      × ((a : Ptr) → m1.counter a % 2 ^ 64 ≡ (m.counter a + all_moves es a) % 2 ^ 64)
      × ((a : Ptr) → a ∈ all_marked es [] → m2.counter a ≡ 0)
      × IsTracked mt [] m2
report_events fuel mt es m k v l =
    let (m1, run, r) = run_events-IsRun mt es [] m v l in
    let (m2, printed, p, t) =
      print_list-IsPrinted fuel mt (all_marked es []) m1 (omega (arith, all_marked-length es []))
        r.tracked in
    let file : m1.outfile (m1.mw mt) ≡ m.outfile (m.mw mt) =
      ap (λ f. f (m1.mw mt)) r.quiet.outfile ∙ ap (λ f. m.outfile (f mt)) r.quiet.mw in
    (
      m1,
      m2,
      run,
      printed,
      subst (λ f. m2.log f ≡ m1.log f ++ entries (all_marked es []) m1) file p.log
          ∙ ap (λ f. f (m.outfile (m.mw mt)) ++ entries (all_marked es []) m1) r.quiet.log,
      r.counter,
      λ a h. (p.reset a h).counter,
      t,
    )
