-- ===== src/Monitoring/Events.antt =====
-- modimpl/monitoring.c: the callbacks on the streams of a task between two stops of the task.
use lpel.Monitoring.{
  set_moved, replaced, StrevtFlags, set_blockon, closed, stream_replace, stream_close,
  stream_blockon, StreamState, read_finish, dirty_end, Monitor, link_dirty, mark_dirty,
}
use lpel.Base.{
  ℕ, ◌+◌, ◌%◌, ◌^◌, ◌≡◌, ◌≢◌, refl, ap, sym, ◌∙◌, arith, inl, inr, true, ◌||◌, List, [], ◌∷◌, Ptr,
  null, ◌==◌, if◌then◌else◌, assign, assign_self, assign_ne, ==_of_ne, ==→eq, ==_false→ne,
  Bool-cases, mem, ◌∈◌, ◌∉◌, Distinct, IsChain, IsChain-assign,
}
use lpel.Base.Run.{Run, ok}
use lpel.Monitoring.Dirty.{IsTracked}

-- An object with a link that is in the list.
linked-ne_null :
    (m : Monitor) (a : Ptr) (xs : List Ptr)
    → IsChain m.dirty xs dirty_end
    → Distinct xs
    → a ∈ xs
    → m.dirty a ≢ null
linked-ne_null m a [] c d h = cc
linked-ne_null m a (x ∷ []) c d h = omega (arith, c.0, ap m.dirty (==→eq a x (ground (arith, h))))
linked-ne_null m a (x ∷ y ∷ xs) c d h = elim (Bool-cases (a == x)) [
  | inl e ↦ λ k. d.2.0 (sym c.0 ∙ ap m.dirty (sym (==→eq a x e)) ∙ k)
  | inr e ↦ linked-ne_null m a (y ∷ xs) c.1 d.2 (ground (arith, h, e))
]

-- The list after a mark: each object is in it once.
abbrev pub marked : Ptr → List Ptr → List Ptr
marked ms xs = if mem ms xs then xs else ms ∷ xs

-- An object of task `mt` that the callbacks may be called with.
pub record IsLive (mt ms : Ptr) (m : Monitor) : Type 0 where
  pub not_null : ms ≢ null
  pub not_end : ms ≢ dirty_end
  pub owner : m.montask ms ≡ mt
  pub not_freed : ms ∉ m.freed
  pub mode : (m.mode ms == b'r') || (m.mode ms == b'w') ≡ true

link_dirty-IsTracked :
    (mt ms : Ptr) (xs : List Ptr) (m : Monitor)
    → IsTracked mt xs m
    → IsLive mt ms m
    → IsTracked mt (marked ms xs) (link_dirty ms m)
unfolding link_dirty
link_dirty-IsTracked mt ms xs m v l = elim (Bool-cases (mem ms xs)) [
  | inl h ↦ rw (h, ==_of_ne (m.dirty ms) null (linked-ne_null m ms xs v.chain v.distinct h)) v
  | inr h ↦
      rw (h, v.clean ms l.owner l.not_freed h, l.owner)
        (record {
          head = assign_self m.dirty_list mt ms;
          chain = (
            assign_self m.dirty ms (m.dirty_list mt) ∙ v.head,
            IsChain-assign m.dirty ms (m.dirty_list mt) xs dirty_end h v.chain,
          );
          distinct = (l.not_null, h, v.distinct);
          no_end = ground (arith, v.no_end, l.not_end);
          owned = λ a k. elim (Bool-cases (a == ms)) [
            | inl e ↦ ap m.montask (==→eq a ms e) ∙ l.owner
            | inr e ↦ v.owned a (ground (arith, k, e))
          ];
          clean = λ a o f k.
              assign_ne m.dirty ms a (m.dirty_list mt) (==_false→ne a ms (ground (arith, k)))
              ∙ v.clean a o f (ground (arith, k));
        })
]

-- What the callbacks on streams leave alone.
pub record IsQuiet (m m' : Monitor) : Type 0 where
  pub montask : m'.montask ≡ m.montask
  pub mode : m'.mode ≡ m.mode
  pub freed : m'.freed ≡ m.freed
  pub log : m'.log ≡ m.log
  pub mw : m'.mw ≡ m.mw
  pub outfile : m'.outfile ≡ m.outfile

link_dirty-IsQuiet :
    (ms : Ptr) (m : Monitor) → IsQuiet m (link_dirty ms m) × ((link_dirty ms m).counter ≡ m.counter)
unfolding link_dirty
link_dirty-IsQuiet ms m = elim (Bool-cases (m.dirty ms == null)) [
  | inl e ↦ rw e (
    record { montask = refl; mode = refl; freed = refl; log = refl; mw = refl; outfile = refl },
    refl,
  )
  | inr e ↦ rw e (
    record { montask = refl; mode = refl; freed = refl; log = refl; mw = refl; outfile = refl },
    refl,
  )
]

-- A marked object is in the list of its task, which had the objects `xs`.
abbrev pub Marks : Ptr → Ptr → List Ptr → Monitor → Run Monitor → Type 0
Marks mt ms xs m r =
    (m' : Monitor) × (r ≡ ok m')
    × IsTracked mt (marked ms xs) m'
    × IsQuiet m m'
    × (m'.counter ≡ m.counter)

IsTracked-counts :
    {mt : Ptr} {xs : List Ptr} {m : Monitor} (i o : Ptr → ℕ)
    → IsTracked mt xs m
    → IsTracked mt xs (record m { last_in_cnt = i; last_out_cnt = o })
IsTracked-counts i o v = record {
  head = v.head;
  chain = v.chain;
  distinct = v.distinct;
  no_end = v.no_end;
  owned = v.owned;
  clean = v.clean;
}

mark_dirty-Marks :
    (mt ms : Ptr) (xs : List Ptr) (m : Monitor)
    → IsTracked mt xs m
    → IsLive mt ms m
    → Marks mt ms xs m (mark_dirty ms m)
unfolding mark_dirty
mark_dirty-Marks mt ms xs m v l =
    let n = link_dirty ms m in
    let t = link_dirty-IsTracked mt ms xs m v l in
    let (q, c) = link_dirty-IsQuiet ms m in
    let quiet = λ (i o : Ptr → ℕ).
      let w : IsQuiet m (record n { last_in_cnt = i; last_out_cnt = o }) = record {
        montask = q.montask;
        mode = q.mode;
        freed = q.freed;
        log = q.log;
        mw = q.mw;
        outfile = q.outfile;
      } in
      w in
    let at = n.montask ms in
    elim (Bool-cases (n.mode ms == b'r')) [
      | inl e ↦ (
        record n { last_in_cnt = assign n.last_in_cnt at (n.counter ms) },
        rw e refl,
        IsTracked-counts (assign n.last_in_cnt at (n.counter ms)) n.last_out_cnt t,
        quiet (assign n.last_in_cnt at (n.counter ms)) n.last_out_cnt,
        c,
      )
      | inr e ↦
          let w : (n.mode ms == b'w') ≡ true =
            ground (arith, e, ap (λ f. (f ms == b'r') || (f ms == b'w')) q.mode ∙ l.mode) in
          (
            record n { last_out_cnt = assign n.last_out_cnt at (n.counter ms) },
            rw (e, w) refl,
            IsTracked-counts n.last_in_cnt (assign n.last_out_cnt at (n.counter ms)) t,
            quiet n.last_in_cnt (assign n.last_out_cnt at (n.counter ms)),
            c,
          )
    ]

-- The callbacks on a stream that mark it: MonCbStreamReadFinish and MonCbStreamWriteFinish,
-- MonCbStreamBlockon, MonCbStreamReplace and MonCbStreamClose.
pub data Event : Type 0 where
  finish : Ptr → Event
  block : Ptr → Event
  replace : Ptr → ℕ → Event
  close : Ptr → Event

abbrev pub stream_of : Event → Ptr
stream_of (finish ms) = ms
stream_of (block ms) = ms
stream_of (replace ms sid) = ms
stream_of (close ms) = ms

abbrev pub run_event : Event → Monitor → Run Monitor
run_event (finish ms) m = read_finish ms m
run_event (block ms) m = stream_blockon ms m
run_event (replace ms new_sid) m = stream_replace ms new_sid m
run_event (close ms) m = stream_close ms m

-- The items that the event counts at `a`.
abbrev pub moves : Event → Ptr → ℕ
moves (finish ms) a = if a == ms then 1 else 0
moves (block ms) a = 0
moves (replace ms sid) a = 0
moves (close ms) a = 0

-- After an event: its object is in the list, and the counters have the items moved.
pub record IsAfter (mt : Ptr) (ms : Ptr) (n : Ptr → ℕ) (xs : List Ptr) (m m' : Monitor)
    : Type 0 where
  pub tracked : IsTracked mt (marked ms xs) m'
  pub quiet : IsQuiet m m'
  pub counter : (a : Ptr) → m'.counter a % 2 ^ 64 ≡ (m.counter a + n a) % 2 ^ 64

abbrev pub EventRuns : Ptr → Event → List Ptr → Monitor → Type 0
EventRuns mt e xs m =
    (m' : Monitor) × (run_event e m ≡ ok m') × IsAfter mt (stream_of e) (moves e) xs m m'

counted :
    (ms a : Ptr) (f : Ptr → ℕ)
    → assign f ms ((f ms + 1) % 2 ^ 64) a % 2 ^ 64 ≡ (f a + (if a == ms then 1 else 0)) % 2 ^ 64
unfolding assign
counted ms a f = elim (Bool-cases (a == ms)) [
  | inl e ↦ rw (e, ==→eq a ms e) (omega arith)
  | inr e ↦ rw e (omega arith)
]

-- Each callback changes some fields of its object and marks it.
module _ (mt ms : Ptr) (xs : List Ptr) (m : Monitor) (v : IsTracked mt xs m)
    (l : IsLive mt ms m) where
  same_place :
      (s : Ptr → StreamState) (i c : Ptr → ℕ) (f : Ptr → StrevtFlags)
      → Marks mt ms xs
          (record m { state = s; sid = i; counter = c; strevt_flags = f })
          (mark_dirty ms (record m { state = s; sid = i; counter = c; strevt_flags = f }))
  same_place s i c f =
      mark_dirty-Marks mt ms xs (record m { state = s; sid = i; counter = c; strevt_flags = f })
        (record {
          head = v.head;
          chain = v.chain;
          distinct = v.distinct;
          no_end = v.no_end;
          owned = v.owned;
          clean = v.clean;
        })
        (record {
          not_null = l.not_null;
          not_end = l.not_end;
          owner = l.owner;
          not_freed = l.not_freed;
          mode = l.mode;
        })

  IsQuiet-of :
      (s : Ptr → StreamState) (i c : Ptr → ℕ) (f : Ptr → StrevtFlags) (m' : Monitor)
      → IsQuiet (record m { state = s; sid = i; counter = c; strevt_flags = f }) m'
      → IsQuiet m m'
  IsQuiet-of s i c f m' q = record {
    montask = q.montask;
    mode = q.mode;
    freed = q.freed;
    log = q.log;
    mw = q.mw;
    outfile = q.outfile;
  }

  finish-runs : EventRuns mt (finish ms) xs m
  unfolding read_finish
  finish-runs =
      let c = assign m.counter ms ((m.counter ms + 1) % 2 ^ 64) in
      let f = assign m.strevt_flags ms (set_moved (m.strevt_flags ms)) in
      let (m', run, t, q, k) = same_place m.state m.sid c f in
      (
        m',
        rw (==_of_ne ms null l.not_null) run,
        record {
          tracked = t;
          quiet = IsQuiet-of m.state m.sid c f m' q;
          counter = λ a. ap (λ g. g a % 2 ^ 64) k ∙ counted ms a m.counter;
        },
      )

  replace-runs : (new_sid : ℕ) → EventRuns mt (replace ms new_sid) xs m
  unfolding stream_replace
  replace-runs new_sid =
      let s = assign m.state ms replaced in
      let i = assign m.sid ms new_sid in
      let (m', run, t, q, k) = same_place s i m.counter m.strevt_flags in
      (
        m',
        rw (==_of_ne ms null l.not_null) run,
        record {
          tracked = t;
          quiet = IsQuiet-of s i m.counter m.strevt_flags m' q;
          counter = λ a. ap (λ g. g a % 2 ^ 64) k ∙ omega arith;
        },
      )

  close-runs : EventRuns mt (close ms) xs m
  unfolding stream_close
  close-runs =
      let s = assign m.state ms closed in
      let (m', run, t, q, k) = same_place s m.sid m.counter m.strevt_flags in
      (
        m',
        rw (==_of_ne ms null l.not_null) run,
        record {
          tracked = t;
          quiet = IsQuiet-of s m.sid m.counter m.strevt_flags m' q;
          counter = λ a. ap (λ g. g a % 2 ^ 64) k ∙ omega arith;
        },
      )

  block-runs : EventRuns mt (block ms) xs m
  unfolding stream_blockon
  block-runs =
      let f = assign m.strevt_flags ms (set_blockon (m.strevt_flags ms)) in
      let (m', run, t, q, k) = same_place m.state m.sid m.counter f in
      let mode = ap (λ (g : Ptr → ℕ). (g ms == b'r') || (g ms == b'w')) q.mode ∙ l.mode in
      let after = λ (b : Ptr → ℕ).
        let w : IsAfter mt ms (moves (block ms)) xs m (record m' { blockon = b }) = record {
          tracked = record {
            head = t.head;
            chain = t.chain;
            distinct = t.distinct;
            no_end = t.no_end;
            owned = t.owned;
            clean = t.clean;
          };
          quiet =
              (let z = IsQuiet-of m.state m.sid m.counter f m' q in
                record {
                  montask = z.montask;
                  mode = z.mode;
                  freed = z.freed;
                  log = z.log;
                  mw = z.mw;
                  outfile = z.outfile;
                });
          counter = λ a. ap (λ g. g a % 2 ^ 64) k ∙ omega arith;
        } in
        w in
      elim (Bool-cases (m'.mode ms == b'r')) [
        | inl e ↦ (
          record m' { blockon = assign m'.blockon (m'.montask ms) b'I' },
          rw (==_of_ne ms null l.not_null) (rw run (rw e refl)),
          after (assign m'.blockon (m'.montask ms) b'I'),
        )
        | inr e ↦
            let w : (m'.mode ms == b'w') ≡ true = ground (arith, e, mode) in
            (
              record m' { blockon = assign m'.blockon (m'.montask ms) b'O' },
              rw (==_of_ne ms null l.not_null) (rw run (rw (e, w) refl)),
              after (assign m'.blockon (m'.montask ms) b'O'),
            )
      ]

pub event-runs :
    (mt : Ptr) (e : Event) (xs : List Ptr) (m : Monitor)
    → IsTracked mt xs m
    → IsLive mt (stream_of e) m
    → EventRuns mt e xs m
event-runs mt (finish ms) xs m v l = finish-runs mt ms xs m v l
event-runs mt (block ms) xs m v l = block-runs mt ms xs m v l
event-runs mt (replace ms new_sid) xs m v l = replace-runs mt ms xs m v l new_sid
event-runs mt (close ms) xs m v l = close-runs mt ms xs m v l
