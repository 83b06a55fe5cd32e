-- ===== src/Hierarchy/Worker/Token.antt =====
-- src/sched/hierarchy/hrc_worker_op.c: the invariant of the master and its workers.
use lpel.Base.{
  ℕ, suc, ◌+◌, ◌-◌, ◌*◌, ◌<◌, ◌≤◌, ◌≡◌, refl, arith, inl, inr, true, false, some, List, [], ◌∷◌,
  ◌++◌, Ptr, ◌==◌, get_or, assign, assign_self, assign_ne, ==_self, ==→eq, ==_false→ne, Bool-cases,
}
use lpel.Hierarchy.Priority.{Double, PrioConf}
use lpel.Hierarchy.Master.{Msg, msg_terminate, msg_wakeup, msg_assign, msg_request, msg_return}
use lpel.Hierarchy.Master.Requests.{bit, waiting, sent_to, asks}
use lpel.Hierarchy.Master.Balance.{IsFresh, handle-balance}
use lpel.Hierarchy.Worker.{request_task}
use lpel.Hierarchy.Worker.System.{
  Phase, receiving, running, leaving, System, nth_sent, Leave, by_exit, by_block, by_yield,
  worker_numbers, leave_messages, is_foreign, Step, step_master, step_start, step_receive,
  step_leave, step_back, step_foreign, step_tasks, Reach, reach_start, reach_step, requests, owes,
  IsOneEach, IsInitial,
}

leave_messages_request : (how : Leave) (i : ℕ) → leave_messages how i ≡ msg_request i ∷ []
unfolding leave_messages
leave_messages_request by_exit i = ground arith
leave_messages_request by_block i = ground arith
leave_messages_request by_yield i = ground arith

requests-snoc :
    (i : ℕ) (msgs : List Msg) (msg : Msg)
    → requests i (msgs ++ (msg ∷ [])) ≡ requests i msgs + asks i msg
requests-snoc i [] msg = omega arith
requests-snoc i (x ∷ msgs) msg = omega (arith, requests-snoc i msgs msg)

foreign_asks : (i : ℕ) (msg : Msg) → is_foreign msg ≡ true → asks i msg ≡ 0
foreign_asks i (msg_request w) h = cc
foreign_asks i (msg_return t) h = refl
foreign_asks i (msg_assign t) h = refl
foreign_asks i (msg_wakeup t) h = refl
foreign_asks i msg_terminate h = refl

-- A task that a worker can receive is one that was sent to it.
nth_sent-below :
    (i n : ℕ) (sent : List (ℕ × Ptr)) (t : Ptr) → nth_sent i n sent ≡ some t → n < sent_to i sent
nth_sent-below i n [] t e = cc
nth_sent-below i n ((w, u) ∷ sent) t e = elim (Bool-cases (i == w)) [
  | inl k ↦ elim (Bool-cases (n == 0)) [
    | inl z ↦ rw k (omega (arith, ==→eq n 0 z))
    | inr z ↦ rw k (omega (arith, nth_sent-below i (n - 1) sent t (ground (arith, e, k, z))))
  ]
  | inr k ↦ rw k (omega (arith, nth_sent-below i n sent t (ground (arith, e, k))))
]

-- What a worker owes after the phase of worker `j` changes between two that owe `a` and `b`.
owes-assign :
    (i j a b : ℕ) (phase : ℕ → Phase) (p : Phase)
    → owes (phase j) ≡ a
    → owes p ≡ b
    → owes (assign phase j p i) + bit (i == j) * a ≡ owes (phase i) + bit (i == j) * b
owes-assign i j a b phase p ea eb = elim (Bool-cases (i == j)) [
  | inl e ↦ rw (e, ==→eq i j e, assign_self phase j p, ea, eb) (omega arith)
  | inr e ↦ rw (e, assign_ne phase j i p (==_false→ne i j e)) (omega arith)
]

received_assign :
    (i j : ℕ) (received : ℕ → ℕ) (sent : List (ℕ × Ptr))
    → received i ≤ sent_to i sent
    → received j < sent_to j sent
    → (assign received j (suc (received j)) i ≡ received i + bit (i == j))
      × (assign received j (suc (received j)) i ≤ sent_to i sent)
received_assign i j received sent h below = elim (Bool-cases (i == j)) [
  | inl e ↦ rw (e, ==→eq i j e, assign_self received j (suc (received j))) (omega arith, below)
  | inr e ↦ rw (e, assign_ne received j i (suc (received j)) (==_false→ne i j e)) (omega arith, h)
]

-- No worker that waits has a request under way.
fresh :
    {D : Type 0} (s : System D) (msg : Msg) (msgs : List Msg)
    → IsOneEach s
    → s.inbox ≡ msg ∷ msgs
    → IsFresh msg s.master
fresh s (msg_request w) msgs one e = elim (Bool-cases (get_or s.master.desk.waitworkers w false)) [
  | inl k ↦
      let (sum, le) = one w in
      let own : requests w s.inbox ≡ 1 + requests w msgs = rw (e, ==_self w) refl in
      let wait : waiting w s.master.desk.waitworkers ≡ 1 = rw k refl in
      absurd (omega (arith, sum, le, own, wait))
  | inr k ↦ k
]
fresh s (msg_return t) msgs one e = tt
fresh s (msg_assign t) msgs one e = tt
fresh s (msg_wakeup t) msgs one e = tt
fresh s msg_terminate msgs one e = tt

-- Worker `j` sends a request, which it owed, and owes nothing.
sends :
    {D : Type 0} (s : System D) (j : ℕ) (p : Phase) (msgs : List Msg)
    → IsOneEach s
    → owes (s.phase j) ≡ 1
    → owes p ≡ 0
    → msgs ≡ msg_request j ∷ []
    → IsOneEach (record s { phase = assign s.phase j p; inbox = s.inbox ++ msgs })
sends s j p msgs one ep e em i =
    let (sum, le) = one i in
    let moved = owes-assign i j 1 0 s.phase p ep e in
    let more : requests i (s.inbox ++ msgs) ≡ requests i s.inbox + bit (i == j) =
      rw em (requests-snoc i s.inbox (msg_request j)) in
    (omega (arith, sum, moved, more), le)

module _ {D : Type 0} (d : Double D) (c : PrioConf D) (memory : List Ptr) where
  Step-IsOneEach : (s s' : System D) → Step d c memory s s' → IsOneEach s → IsOneEach s'
  Step-IsOneEach s s' (step_master {msg = msg} {msgs = msgs} e h) one i =
      let (sum, le) = one i in
      let (total, grows) = handle-balance d c memory i msg s.master _ (fresh s msg msgs one e) h in
      let front : requests i s.inbox ≡ asks i msg + requests i msgs = rw e refl in
      (omega (arith, sum, total, front), omega (arith, le, grows))
  Step-IsOneEach s s' (step_start j e) one i =
      sends s j receiving (request_task worker_numbers j) one (rw e refl) refl refl i
  Step-IsOneEach s s' (step_receive {t = t} j e h) one i =
      let (sum, le) = one i in
      let below = nth_sent-below j (s.received j) s.master.desk.sent t h in
      let moved = owes-assign i j 0 1 s.phase (running t) (rw e refl) refl in
      let (one_more, within) = received_assign i j s.received s.master.desk.sent le below in
      (omega (arith, sum, moved, one_more), within)
  Step-IsOneEach s s' (step_leave {t = t} j how e) one i =
      sends s j (leaving t) (leave_messages how j) one (rw e refl) refl
        (leave_messages_request how j) i
  Step-IsOneEach s s' (step_back {t = t} j e) one i =
      let (sum, le) = one i in
      let moved = owes-assign i j 0 0 s.phase receiving (rw e refl) refl in
      let more = requests-snoc i s.inbox (msg_return t) in (omega (arith, sum, moved, more), le)
  Step-IsOneEach s s' (step_foreign msg h) one i =
      let (sum, le) = one i in
      let more = requests-snoc i s.inbox msg in
      let none_more = foreign_asks i msg h in (omega (arith, sum, more, none_more), le)
  Step-IsOneEach s s' (step_tasks m) one i = one i

  -- From an initial state on, in which the master has sent nothing and each worker has still to
  -- start, and with tasks that change their fields at will, every worker has in each reachable state
  -- exactly one of these: a request to be sent, a request in the mailbox of the master, a place among
  -- the waiting workers, or a task in its own mailbox.
  pub Reach-IsOneEach : (s0 s : System D) → IsInitial s0 → Reach d c memory s0 s → IsOneEach s
  Reach-IsOneEach s0 s (inbox, phase, received, sent, idle) reach_start i =
      rw (inbox, phase i, received i, sent, idle i) (omega arith, omega arith)
  Reach-IsOneEach s0 s init (reach_step {s = s1} r step) i =
      Step-IsOneEach s1 s step (Reach-IsOneEach s0 s1 init r) i
