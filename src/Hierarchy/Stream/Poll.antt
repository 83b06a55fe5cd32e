-- ===== src/Hierarchy/Stream/Poll.antt =====
-- src/sched/hierarchy/hrc_stream.c, LpelStreamPoll on the descriptors of the set in the order in
-- which the iterator visits them, without other tasks between its first look at the streams and the
-- block.
use lpel.Base.{
  ℕ, ◌+◌, ◌≡◌, ◌≢◌, refl, ap, sym, ◌∙◌, arith, inl, inr, Bool, true, false, not, Option, none, some,
  List, [], ◌∷◌, ◌++◌, Ptr, null, ◌==◌, if◌then◌else◌, length, assign, assign_self, assign_ne,
  ==→eq, ==_false→ne, Bool-cases, ◌∈◌, ◌∉◌,
}
use lpel.Base.Run.{Run, ok, ◌>>=◌, ◌>>◌, assert, map_run}
use lpel.Base.Int.{ℤ, pos}
use lpel.Base.Int.{◌+ℤ◌, ◌-ℤ◌, ltb_ℤ}
use lpel.Hierarchy.Buffer.{top}
use lpel.Hierarchy.Taskqueue.{is_zero}
use lpel.Hierarchy.Task.{running, blocked, leave_running}
use lpel.Hierarchy.Stream.{World, write_rest}
use lpel.Hierarchy.Stream.Item.{Contains, write_rest-Contains}

-- What `LpelStreamPoll` comes to, up to its context switch: a descriptor at once, or the number of
-- streams that it has registered with, with or without a switch.
pub data Polled : Type 0 where
  polled_at : Ptr → Polled
  polled_switch : ℤ → Polled
  polled_stay : ℤ → Polled

-- The flags with those of the streams of the set.
abbrev pub marked : (Ptr → Ptr) → List Ptr → (Ptr → Bool) → Ptr → Bool
marked stream_of [] f = f
marked stream_of (sd ∷ sds) f = marked stream_of sds (assign f (stream_of sd) true)

set_keeps : (g : Ptr → Bool) (p s : Ptr) → g s ≡ true → assign g p true s ≡ true
set_keeps g p s k = elim (Bool-cases (s == p)) [
  | inl e ↦ ap (assign g p true) (==→eq s p e) ∙ assign_self g p true
  | inr e ↦ assign_ne g p s true (==_false→ne s p e) ∙ k
]

marked_keeps :
    (stream_of : Ptr → Ptr) (sds : List Ptr) (f : Ptr → Bool) (s : Ptr)
    → f s ≡ true
    → marked stream_of sds f s ≡ true
marked_keeps stream_of [] f s h = h
marked_keeps stream_of (sd ∷ sds) f s h =
    marked_keeps stream_of sds (assign f (stream_of sd) true) s (set_keeps f (stream_of sd) s h)

marked_member :
    (stream_of : Ptr → Ptr) (sds : List Ptr) (f : Ptr → Bool) (sd : Ptr)
    → sd ∈ sds
    → marked stream_of sds f (stream_of sd) ≡ true
marked_member stream_of [] f sd h = cc
marked_member stream_of (x ∷ sds) f sd h = elim (Bool-cases (sd == x)) [
  | inl e ↦ marked_keeps stream_of sds (assign f (stream_of x) true) (stream_of sd) (
      ap (λ z. assign f (stream_of x) true (stream_of z)) (==→eq sd x e)
      ∙ assign_self f (stream_of x) true)
  | inr e ↦ marked_member stream_of sds (assign f (stream_of x) true) sd (ground (arith, h, e))
]

count_up : (n : ℕ) → pos n +ℤ pos 1 ≡ pos (n + 1)
unfolding ◌+ℤ◌
count_up n = ground arith

module _ {D : Type 0} where
  -- `LpelBufferTop( &s->buffer) != NULL`
  abbrev pub has_item : Ptr → World D → Run Bool
  has_item sd w = map_run (λ x. not (x == null)) (top (w.buffers (w.tasks.stream_of sd)))

  -- The fast path.
  unfoldable pub poll_fast : List Ptr → World D → Run (Option Ptr)
  unfolding top
  poll_fast [] w = ok none
  poll_fast (sd ∷ sds) w =
      let rest = poll_fast sds w in has_item sd w >>= λ has. if has then ok (some sd) else rest

  -- The loop that registers with the streams: whether to switch, and `cnt`.
  unfoldable pub poll_register : Ptr → List Ptr → ℤ → World D → Run (Bool × ℤ × World D)
  unfolding top
  poll_register self [] cnt w = ok (true, cnt, w)
  poll_register self (sd ∷ sds) cnt w =
      let taken : World D = record w { poll_token = assign w.poll_token self false } in
      let rest =
        poll_register self sds (cnt +ℤ pos 1)
          (record w { is_poll = assign w.is_poll (w.tasks.stream_of sd) true }) in
      has_item sd w >>= λ has.
      if has
      then (if w.poll_token self
          then ok (false, cnt, record taken { wakeup_sd = assign w.wakeup_sd self sd })
          else ok (true, cnt, taken))
      else rest

  -- `LpelStreamPoll` of task `self` up to its context switch.
  unfoldable pub poll_enter : Ptr → List Ptr → World D → Run (Polled × World D)
  unfolding poll_fast poll_register leave_running
  poll_enter self sds w = poll_fast sds w >>= λ found. elim found [
    | some sd ↦ ok (polled_at sd, w)
    | none ↦
        poll_register self sds (pos 0) (record w { poll_token = assign w.poll_token self true })
        >>= λ (switch, cnt, w1).
            let leave = leave_running blocked self w1.tasks >>= λ m.
            ok (polled_switch cnt, record w1 { tasks = m }) in
            if switch then leave else ok (polled_stay cnt, w1)
  ]

  -- The loop that unregisters, which stops when `--cnt` is 0.
  unfoldable pub poll_clear : List Ptr → ℤ → World D → World D
  poll_clear [] cnt w = w
  poll_clear (sd ∷ sds) cnt w =
      let cleared : World D = record w {
        is_poll = assign w.is_poll (w.tasks.stream_of sd) false;
      } in
      let rest = poll_clear sds (cnt -ℤ pos 1) cleared in
      if is_zero (cnt -ℤ pos 1) then cleared else rest

  -- The end of `LpelStreamPoll`: the descriptor of the stream that caused the wakeup.
  unfoldable pub poll_leave : Ptr → List Ptr → ℤ → World D → Run (Ptr × World D)
  unfolding poll_clear
  poll_leave self sds cnt w = do
    assert (not (w.poll_token self))
    ok (w.wakeup_sd self, poll_clear sds cnt w)

  -- No stream of the set holds an item.
  abbrev pub AllEmpty : List Ptr → World D → Type 0
  AllEmpty [] w = Unit
  AllEmpty (sd ∷ sds) w = (top (w.buffers (w.tasks.stream_of sd)) ≡ ok null) × AllEmpty sds w

  poll_fast-none : (sds : List Ptr) (w : World D) → AllEmpty sds w → poll_fast sds w ≡ ok none
  unfolding poll_fast
  poll_fast-none [] w h = refl
  poll_fast-none (sd ∷ sds) w h = rw (h.0, poll_fast-none sds w h.1) refl

  AllEmpty-poll :
      (s : Ptr) (sds : List Ptr) (w : World D)
      → AllEmpty sds w
      → AllEmpty sds (record w { is_poll = assign w.is_poll s true })
  AllEmpty-poll s [] w h = tt
  AllEmpty-poll s (sd ∷ sds) w h = (h.0, AllEmpty-poll s sds w h.1)

  poll_register-empty :
      (self : Ptr) (sds : List Ptr) (n : ℕ) (w : World D)
      → AllEmpty sds w
      → poll_register self sds (pos n) w
        ≡ ok (
          true,
          pos (n + length sds),
          record w { is_poll = marked w.tasks.stream_of sds w.is_poll },
        )
  unfolding poll_register
  poll_register-empty self [] n w h = ap (λ k. ok (true, pos k, w)) (omega arith)
  poll_register-empty self (sd ∷ sds) n w h =
      let after : World D = record w { is_poll = assign w.is_poll (w.tasks.stream_of sd) true } in
      rw
        (
          h.0,
          count_up n,
          poll_register-empty self sds (n + 1) after
              (AllEmpty-poll (w.tasks.stream_of sd) sds w h.1),
        )
        (ap
          (λ k. ok (true, pos k, record w { is_poll = marked w.tasks.stream_of sds after.is_poll }))
          (omega arith))

  -- The state in which a task blocks in a poll of streams without items.
  abbrev pub polling : Ptr → List Ptr → World D → World D
  polling self sds w = record w {
    poll_token = assign w.poll_token self true;
    is_poll = marked w.tasks.stream_of sds w.is_poll;
    tasks = record w.tasks { state = assign w.tasks.state self blocked };
  }

  AllEmpty-token :
      (self : Ptr) (b : Bool) (sds : List Ptr) (w : World D)
      → AllEmpty sds w
      → AllEmpty sds (record w { poll_token = assign w.poll_token self b })
  AllEmpty-token self b [] w h = tt
  AllEmpty-token self b (sd ∷ sds) w h = (h.0, AllEmpty-token self b sds w h.1)

  poll_enter-empty :
      (self : Ptr) (sds : List Ptr) (w : World D)
      → AllEmpty sds w
      → w.tasks.state self ≡ running
      → poll_enter self sds w ≡ ok (polled_switch (pos (length sds)), polling self sds w)
  unfolding poll_enter leave_running
  poll_enter-empty self sds w h e =
      rw
        (
          poll_fast-none sds w h,
          poll_register-empty self sds 0 (record w { poll_token = assign w.poll_token self true })
              (AllEmpty-token self true sds w h),
          e,
        )
        (ap (λ k. ok (polled_switch (pos k), polling self sds w)) (omega arith))

  -- A running task polls streams without items, of which one is open by the task's descriptor `sd`
  -- with no wait under way. The poll registers with each stream and blocks, and the next write of an
  -- item to the stream of `sd`, with a new entry, stores the item and wakes up the task.
  pub poll_wakeup :
      (w : World D) (self : Ptr) (sds : List Ptr) (sd cell dummy : Ptr) (cells : List Ptr)
      (item r : ℕ)
      → AllEmpty sds w
      → w.tasks.state self ≡ running
      → sd ∈ sds
      → sd ≢ null
      → w.tasks.task_of sd ≡ self
      → w.tasks.cons_sd (w.tasks.stream_of sd) ≡ sd
      → ltb_ℤ (w.n_sem (w.tasks.stream_of sd)) (pos 0) ≡ false
      → Contains w (w.tasks.stream_of sd) dummy cells [] r
      → cell ≢ null
      → cell ∉ dummy ∷ cells
      → item ≢ null
      → (w1 : World D) × (w2 : World D) × (poll_enter self sds w
          ≡ ok (polled_switch (pos (length sds)), w1))
        × (w1.tasks.state self ≡ blocked)
        × (write_rest cell (w.tasks.stream_of sd) item w1 ≡ ok w2)
        × Contains w2 (w.tasks.stream_of sd) dummy (cells ++ (cell ∷ [])) (item ∷ []) r
        × (w2.woken ≡ w.woken ++ (self ∷ []))
  poll_wakeup w self sds sd cell dummy cells item r h e m nn et ec idle held nc out ni =
      let s = w.tasks.stream_of sd in
      let w1 = polling self sds w in
      let held1 : Contains w1 s dummy cells [] r = record {
        holds = held.holds;
        read_cnt = held.read_cnt;
        write_cnt = held.write_cnt;
      } in
      let (w2, run, full, woken) =
        write_rest-Contains w1 cell s dummy cells item [] r held1 nc out ni
          (λ z. nn (sym ec ∙ z)) in
      let flag = marked_member w.tasks.stream_of sds w.is_poll sd m in
      (
        w1,
        w2,
        poll_enter-empty self sds w h e,
        assign_self w.tasks.state self blocked,
        run,
        full,
        woken ∙ rw (idle, flag, ec, et, assign_self w.poll_token self true) refl,
      )
