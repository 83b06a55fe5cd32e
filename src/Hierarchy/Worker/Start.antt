-- ===== src/Hierarchy/Worker/Start.antt =====
-- src/sched/hierarchy/hrc_worker_init.c, with the parts of hrc_worker_op.c that it calls: the contexts
-- of master and workers at the start, and what the end frees. Threads and monitoring are left out; of
-- the mailbox of a context there is its inbox, a list as in Mailbox.
use lpel.Base.{
  ℕ, zero, suc, ◌+◌, ◌≤◌, ◌≡◌, ap, sym, ◌∙◌, arith, false, List, [], ◌∷◌, ◌++◌, append-nil,
  append_assoc, Ptr, null, ◌==◌, if◌then◌else◌, length, head_or, replicate, assign, ==_of_ne,
  Distinct, IsChain,
}
use lpel.Base.Run.{out_of_fuel, Run, ok, assert_failed, ◌>>=◌, ◌>>◌, assert}
use lpel.Base.Int.{pos}
use lpel.Hierarchy.Taskqueue.{Heap}
use lpel.Hierarchy.Task.{destroy, Tasks, zombie, is_state}
use lpel.Hierarchy.Master.{
  Msg, msg_terminate, msg_wakeup, msg_assign, msg_request, msg_return, Master,
}
use lpel.Hierarchy.Worker.{Contexts}

-- The loop of `LpelWorkersInit` over the contexts of the workers from worker `i` on, with what
-- WorkerThread and `addFreeWrapper` do not set.
unfoldable pub init_contexts : ℕ → List Ptr → Contexts → Contexts
init_contexts i [] x = x
init_contexts i (wc ∷ wcs) x = init_contexts (i + 1) wcs (record x {
  wid = assign x.wid wc (pos i);
  free_sd = assign x.free_sd wc null;
  free_stream = assign x.free_stream wc null;
})

-- A loop that frees a list: `while (head != NULL) { tmp = head->next; free(head); head = tmp; }`.
unfoldable pub free_list : ℕ → (Ptr → Ptr) → Ptr → List Ptr → Run (List Ptr)
free_list zero next head freed = if head == null then ok freed else out_of_fuel
free_list (suc fuel) next head freed =
    let rest = free_list fuel next (next head) (freed ++ (head ∷ [])) in
    if head == null then ok freed else rest

-- `LpelWorkerDestroyStream` and `LpelWorkerDestroySd`
unfoldable pub destroy_stream : ℕ → Contexts → Ptr → List Ptr → Run (List Ptr)
unfolding free_list
destroy_stream fuel x wc freed = free_list fuel x.next_stream (x.free_stream wc) freed

unfoldable pub destroy_sd : ℕ → Contexts → Ptr → List Ptr → Run (List Ptr)
unfolding free_list
destroy_sd fuel x wc freed = free_list fuel x.next_sd (x.free_sd wc) freed

-- The assertion of `LpelMailboxDestroy`; the nodes of the mailbox are not followed.
abbrev pub destroy_mailbox : List Msg → Run (Unit {0})
destroy_mailbox [] = ok tt
destroy_mailbox (msg ∷ msgs) = assert_failed

-- The body of the loops that end a worker or a free wrapper.
unfoldable pub destroy_context : ℕ → (Ptr → List Msg) → Contexts → Ptr → List Ptr → Run (List Ptr)
unfolding destroy_stream destroy_sd
destroy_context fuel inbox x wc freed =
    destroy_mailbox (inbox wc) >> destroy_stream fuel x wc freed >>= λ freed.
    destroy_sd fuel x wc freed >>= λ freed. ok (freed ++ (wc ∷ []))

-- The loop of `LpelWorkersCleanup` over the contexts of the workers.
unfoldable pub destroy_workers :
    ℕ → (Ptr → List Msg) → Contexts → List Ptr → List Ptr → Run (List Ptr)
unfolding destroy_context
destroy_workers fuel inbox x [] freed = ok freed
destroy_workers fuel inbox x (wc ∷ wcs) freed =
    destroy_context fuel inbox x wc freed >>= destroy_workers fuel inbox x wcs

-- The loop of `cleanupLocalVar` over the free wrappers, from `wp` on.
unfoldable pub destroy_wrappers :
    ℕ → ℕ → (Ptr → List Msg) → Contexts → Ptr → List Ptr → Run (List Ptr)
unfolding destroy_context
destroy_wrappers zero fuel inbox x wp freed = if wp == null then ok freed else out_of_fuel
destroy_wrappers (suc n) fuel inbox x wp freed =
    let rest =
      destroy_context fuel inbox x wp freed
      >>= destroy_wrappers n fuel inbox x (x.next_context wp) in
    if wp == null then ok freed else rest

module _ {D : Type 0} where
  -- `LpelWorkersInit`: the master, with `tq` from LpelTaskqueueInit.
  unfoldable pub init_master : ℕ → Heap → Tasks D → Master D
  init_master num_workers tq m = record {
    terminate = false;
    wakenup = λ t. false;
    desk = record {
      ready_tasks = tq;
      waitworkers = replicate num_workers false;
      sent = [];
      tasks = m;
    };
  }

  -- `LpelTaskDestroy` as in `cleanupMasterMb`.
  abbrev pub destroy_returned : Ptr → Tasks D → List Ptr → Run (List Ptr)
  destroy_returned t m freed =
      assert (is_state (m.state t) zombie) >> (destroy t m >>= λ _. ok (freed ++ (t ∷ [])))

  -- `cleanupMasterMb` on the messages in the mailbox.
  unfoldable pub cleanup_master_mb : List Msg → Tasks D → List Ptr → Run (List Ptr)
  unfolding destroy
  cleanup_master_mb [] m freed = ok freed
  cleanup_master_mb (msg_request wid ∷ msgs) m freed = cleanup_master_mb msgs m freed
  cleanup_master_mb (msg_return t ∷ msgs) m freed =
      destroy_returned t m freed >>= cleanup_master_mb msgs m
  cleanup_master_mb (msg_terminate ∷ msgs) m freed = assert_failed
  cleanup_master_mb (msg_wakeup t ∷ msgs) m freed = assert_failed
  cleanup_master_mb (msg_assign t ∷ msgs) m freed = assert_failed

  -- `LpelWorkersCleanup` after the threads have ended, with what the mailbox of the master and those of
  -- the other contexts still hold; `cleanupMasterMb` leaves the master's empty. The result is the freed tasks, contexts, streams and
  -- descriptors in the order of the calls.
  unfoldable pub workers_cleanup :
      ℕ → ℕ → List Msg → (Ptr → List Msg) → Tasks D → Contexts → List Ptr → Ptr → Run (List Ptr)
  unfolding cleanup_master_mb destroy_workers destroy_wrappers
  workers_cleanup n fuel msgs inbox m x workers freewrappers =
      cleanup_master_mb msgs m [] >>= λ freed.
      destroy_workers fuel inbox x workers freed >>= λ freed.
      destroy_wrappers n fuel inbox x freewrappers freed

-- What a context has in its free lists; no message is left for it.
pub record IsContext (inbox : Ptr → List Msg) (x : Contexts) (wc : Ptr) (streams sds : List Ptr)
    : Type 0 where
  pub inbox_empty : inbox wc ≡ []
  pub stream_head : x.free_stream wc ≡ head_or streams null
  pub stream_chain : IsChain x.next_stream streams null
  pub stream_distinct : Distinct streams
  pub sd_head : x.free_sd wc ≡ head_or sds null
  pub sd_chain : IsChain x.next_sd sds null
  pub sd_distinct : Distinct sds

free_list-all :
    (fuel : ℕ) (next : Ptr → Ptr) (xs freed : List Ptr)
    → length xs ≤ fuel
    → IsChain next xs null
    → Distinct xs
    → free_list fuel next (head_or xs null) freed ≡ ok (freed ++ xs)
unfolding free_list
free_list-all zero next [] freed k c d = ap ok (sym (append-nil freed))
free_list-all (suc fuel) next [] freed k c d = ap ok (sym (append-nil freed))
free_list-all zero next (x ∷ xs) freed k c d = absurd (omega arith)
free_list-all (suc fuel) next (x ∷ xs) freed k c d =
    rw (==_of_ne x null d.0, c.0)
      (free_list-all fuel next xs (freed ++ (x ∷ [])) (omega arith) c.1 d.2
        ∙ ap ok (append_assoc freed (x ∷ []) xs))

destroy_context-all :
    (fuel : ℕ) (inbox : Ptr → List Msg) (x : Contexts) (wc : Ptr) (streams sds freed : List Ptr)
    → length streams ≤ fuel
    → length sds ≤ fuel
    → IsContext inbox x wc streams sds
    → destroy_context fuel inbox x wc freed ≡ ok (freed ++ (streams ++ (sds ++ (wc ∷ []))))
unfolding destroy_context
destroy_context-all fuel inbox x wc streams sds freed h k v =
    rw
      (
        v.inbox_empty,
        v.stream_head,
        free_list-all fuel x.next_stream streams freed h v.stream_chain v.stream_distinct,
        v.sd_head,
        free_list-all fuel x.next_sd sds (freed ++ streams) k v.sd_chain v.sd_distinct,
      )
      (ap ok (
        append_assoc (freed ++ streams) sds (wc ∷ [])
        ∙ append_assoc freed streams (sds ++ (wc ∷ []))))

-- The contexts of a list, each with its free streams and descriptors.
abbrev pub Held : Type 0
Held = List (Ptr × List Ptr × List Ptr)

abbrev pub addresses : Held → List Ptr
addresses [] = []
addresses ((wc, streams, sds) ∷ hs) = wc ∷ addresses hs

abbrev pub all_of : Held → List Ptr
all_of [] = []
all_of ((wc, streams, sds) ∷ hs) = (streams ++ (sds ++ (wc ∷ []))) ++ all_of hs

abbrev pub AllHeld : ℕ → (Ptr → List Msg) → Contexts → Held → Type 0
AllHeld fuel inbox x [] = Unit
AllHeld fuel inbox x ((wc, streams, sds) ∷ hs) =
    (length streams ≤ fuel)
    × (length sds ≤ fuel)
    × IsContext inbox x wc streams sds
    × AllHeld fuel inbox x hs

destroy_workers-all :
    (fuel : ℕ) (inbox : Ptr → List Msg) (x : Contexts) (hs : Held) (freed : List Ptr)
    → AllHeld fuel inbox x hs
    → destroy_workers fuel inbox x (addresses hs) freed ≡ ok (freed ++ all_of hs)
unfolding destroy_workers
destroy_workers-all fuel inbox x [] freed h = ap ok (sym (append-nil freed))
destroy_workers-all fuel inbox x ((wc, streams, sds) ∷ hs) freed h =
    rw (destroy_context-all fuel inbox x wc streams sds freed h.0 h.1 h.2) (
      destroy_workers-all fuel inbox x hs (freed ++ (streams ++ (sds ++ (wc ∷ [])))) h.3
      ∙ ap ok (append_assoc freed (streams ++ (sds ++ (wc ∷ []))) (all_of hs)))

destroy_wrappers-all :
    (n fuel : ℕ) (inbox : Ptr → List Msg) (x : Contexts) (hs : Held) (freed : List Ptr)
    → length hs ≤ n
    → IsChain x.next_context (addresses hs) null
    → Distinct (addresses hs)
    → AllHeld fuel inbox x hs
    → destroy_wrappers n fuel inbox x (head_or (addresses hs) null) freed ≡ ok (freed ++ all_of hs)
unfolding destroy_wrappers
destroy_wrappers-all zero fuel inbox x [] freed k c d h = ap ok (sym (append-nil freed))
destroy_wrappers-all (suc n) fuel inbox x [] freed k c d h = ap ok (sym (append-nil freed))
destroy_wrappers-all zero fuel inbox x (e ∷ hs) freed k c d h = absurd (omega arith)
destroy_wrappers-all (suc n) fuel inbox x ((wc, streams, sds) ∷ hs) freed k c d h =
    rw
      (==_of_ne wc null d.0, destroy_context-all fuel inbox x wc streams sds freed h.0 h.1 h.2, c.0)
      (destroy_wrappers-all n fuel inbox x hs (freed ++ (streams ++ (sds ++ (wc ∷ []))))
          (omega arith) c.1 d.2 h.3
        ∙ ap ok (append_assoc freed (streams ++ (sds ++ (wc ∷ []))) (all_of hs)))

module _ {D : Type 0} (m : Tasks D) where
  -- The messages that may be left for the master: requests, and returns of tasks that have ended and
  -- closed their streams.
  abbrev pub AllEnded : List Msg → Type 0
  AllEnded [] = Unit
  AllEnded (msg_request wid ∷ msgs) = AllEnded msgs
  AllEnded (msg_return t ∷ msgs) =
      ((m.state t ≡ zombie) × (m.in_streams t ≡ []) × (m.out_streams t ≡ [])) × AllEnded msgs
  AllEnded (msg_terminate ∷ msgs) = ⊥
  AllEnded (msg_wakeup t ∷ msgs) = ⊥
  AllEnded (msg_assign t ∷ msgs) = ⊥

  abbrev pub returned_tasks : List Msg → List Ptr
  returned_tasks [] = []
  returned_tasks (msg_return t ∷ msgs) = t ∷ returned_tasks msgs
  returned_tasks (msg_request wid ∷ msgs) = returned_tasks msgs
  returned_tasks (msg_terminate ∷ msgs) = returned_tasks msgs
  returned_tasks (msg_wakeup t ∷ msgs) = returned_tasks msgs
  returned_tasks (msg_assign t ∷ msgs) = returned_tasks msgs

  cleanup_master_mb-all :
      (msgs : List Msg) (freed : List Ptr)
      → AllEnded msgs
      → cleanup_master_mb msgs m freed ≡ ok (freed ++ returned_tasks msgs)
  unfolding cleanup_master_mb
  cleanup_master_mb-all [] freed h = ap ok (sym (append-nil freed))
  cleanup_master_mb-all (msg_request wid ∷ msgs) freed h = cleanup_master_mb-all msgs freed h
  cleanup_master_mb-all (msg_return t ∷ msgs) freed h =
      rw (h.0.0, h.0.1, h.0.2)
        (cleanup_master_mb-all msgs (freed ++ (t ∷ [])) h.1
          ∙ ap ok (append_assoc freed (t ∷ []) (returned_tasks msgs)))
  cleanup_master_mb-all (msg_terminate ∷ msgs) freed h = absurd h
  cleanup_master_mb-all (msg_wakeup t ∷ msgs) freed h = absurd h
  cleanup_master_mb-all (msg_assign t ∷ msgs) freed h = absurd h

  -- The threads have ended, and the master's mailbox holds only requests and returns of tasks that
  -- have ended and closed their streams; those of the workers and of the free wrappers are empty. With
  -- fuel for the lists LpelWorkersCleanup returns, and frees
  -- in this order each returned task, then for each worker and for each free wrapper its free streams,
  -- its free descriptors and its context, each object as often as it is in these lists.
  pub workers_cleanup-all :
      (n fuel : ℕ) (msgs : List Msg) (inbox : Ptr → List Msg) (x : Contexts)
      (workers wrappers : Held)
      → AllEnded msgs
      → AllHeld fuel inbox x workers
      → AllHeld fuel inbox x wrappers
      → length wrappers ≤ n
      → IsChain x.next_context (addresses wrappers) null
      → Distinct (addresses wrappers)
      → workers_cleanup n fuel msgs inbox m x
          (addresses workers)
          (head_or (addresses wrappers) null)
        ≡ ok ((returned_tasks msgs ++ all_of workers) ++ all_of wrappers)
  unfolding workers_cleanup
  workers_cleanup-all n fuel msgs inbox x workers wrappers e h k l c d =
      rw
        (
          cleanup_master_mb-all msgs [] e,
          destroy_workers-all fuel inbox x workers (returned_tasks msgs) h,
        )
        (destroy_wrappers-all n fuel inbox x wrappers (returned_tasks msgs ++ all_of workers) l c d
          k)
