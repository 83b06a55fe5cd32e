-- ===== src/Hierarchy/Stream/Item.antt =====
-- src/sched/hierarchy/hrc_stream.c: a read and a write of an item, after the wait for it or for space.
use lpel.Base.{
  ℕ, ◌+◌, ◌%◌, ◌^◌, ◌<◌, ◌≡◌, ◌≢◌, refl, ap, sym, subst, ◌∙◌, arith, inl, inr, Bool, false, ◌&&◌,
  ◌||◌, List, [], ◌∷◌, ◌++◌, Ptr, null, if◌then◌else◌, length, assign, assign_self, length-append,
  ==_of_ne, Bool-cases, load-ok, ◌∉◌,
}
use lpel.Base.Run.{ok}
use lpel.Base.Int.{pos}
use lpel.Base.Int.{pos}
use lpel.Base.Int.{◌+ℤ◌, ltb_ℤ}
use lpel.Hierarchy.Buffer.Refine.{Holds, top-linked, pop-linked, put-linked}
use lpel.Hierarchy.Task.{fill_level}
use lpel.Hierarchy.Task.Level.{fill_level_counts}
use lpel.Hierarchy.Stream.{World, is_entry, read_rest, write_item, write_rest}

next_count : (r : ℕ) → (r % 2 ^ 32 + 1) % 2 ^ 32 ≡ (r + 1) % 2 ^ 32
next_count r = omega arith

module _ {D : Type 0} where
  -- The stream `s` holds the items `q` in the entries `cells`; `r` items have been read from it.
  pub record Contains (w : World D) (s dummy : Ptr) (cells q : List Ptr) (r : ℕ) : Type 0 where
    pub holds : Holds (w.buffers s) dummy cells q
    pub read_cnt : w.tasks.read_cnt s ≡ r % 2 ^ 32
    pub write_cnt : w.tasks.write_cnt s ≡ (r + length q) % 2 ^ 32

  -- The fill level of a stream is the number of its items, if that is below 2 ^ 31.
  fill_level-length :
      (w : World D) (s dummy : Ptr) (cells q : List Ptr) (r : ℕ)
      → Contains w s dummy cells q r
      → s ≢ null
      → length q < 2 ^ 31
      → fill_level w.tasks s ≡ pos (length q)
  fill_level-length w s dummy cells q r h ne small =
      fill_level_counts w.tasks s (r + length q) r ne h.write_cnt h.read_cnt (omega arith)
        (omega (arith, small))
      ∙ ap pos (omega arith)

  -- A reader wakes up the producer, if it waits for space in an entry stream.
  abbrev pub after_read : World D → Ptr → List Ptr
  after_read w s =
      if is_entry (w.tasks.stream_type s) && ltb_ℤ (w.e_sem s) (pos 0)
      then w.woken ++ (w.tasks.task_of (w.tasks.prod_sd s) ∷ [])
      else w.woken

  -- A read of a stream that holds an item, past the wait for it, returns the oldest item and keeps
  -- the others in order, counts the read, and wakes up the producer exactly if the stream is an
  -- entry and the producer waits for space.
  pub read_rest-Contains :
      (w : World D) (s dummy x : Ptr) (cells : List Ptr) (item : Ptr) (q : List Ptr) (r : ℕ)
      → Contains w s dummy (x ∷ cells) (item ∷ q) r
      → item ≢ null
      → w.tasks.prod_sd s ≢ null
      → (w' : World D) × (read_rest s w ≡ ok (item, w'))
        × Contains w' s x cells q (r + 1)
        × (w'.woken ≡ after_read w s)
  unfolding read_rest
  read_rest-Contains w s dummy x cells item q r h ne np =
      let (buf, e, held, out) = pop-linked x cells item q h.holds in
      let w1 : World D = record w {
        buffers = assign w.buffers s buf;
        tasks = record w.tasks {
          read_cnt = assign w.tasks.read_cnt s ((w.tasks.read_cnt s + 1) % 2 ^ 32);
        };
      } in
      let w2 : World D = record w1 { e_sem = assign w.e_sem s (w.e_sem s +ℤ pos 1) } in
      let held1 = subst (λ b. Holds b x cells q) (sym (assign_self w.buffers s buf)) held in
      let counted =
        assign_self w.tasks.read_cnt s ((w.tasks.read_cnt s + 1) % 2 ^ 32)
        ∙ ap (λ n. (n + 1) % 2 ^ 32) h.read_cnt
        ∙ next_count r in
      let total : (r + length (item ∷ q)) % 2 ^ 32 ≡ (r + 1 + length q) % 2 ^ 32 =
        ap (λ n. n % 2 ^ 32) (omega arith) in
      elim (Bool-cases (is_entry (w.tasks.stream_type s))) [
        | inl k ↦ elim (Bool-cases (ltb_ℤ (w.e_sem s) (pos 0))) [
          | inl l ↦ (
            record w2 { woken = w.woken ++ (w.tasks.task_of (w.tasks.prod_sd s) ∷ []) },
            rw
                (
                  top-linked (x ∷ cells) h.holds,
                  ==_of_ne item null ne,
                  e,
                  k,
                  l,
                  load-ok w.tasks.task_of (w.tasks.prod_sd s) np,
                )
                refl,
            record { holds = held1; read_cnt = counted; write_cnt = h.write_cnt ∙ total },
            rw (k, l) refl,
          )
          | inr l ↦ (
            w2,
            rw (top-linked (x ∷ cells) h.holds, ==_of_ne item null ne, e, k, l) refl,
            record { holds = held1; read_cnt = counted; write_cnt = h.write_cnt ∙ total },
            rw (k, l) refl,
          )
        ]
        | inr k ↦ (
          w1,
          rw (top-linked (x ∷ cells) h.holds, ==_of_ne item null ne, e, k) refl,
          record { holds = held1; read_cnt = counted; write_cnt = h.write_cnt ∙ total },
          rw k refl,
        )
      ]

  -- A write wakes up the consumer, if it waits for an item or has left its poll token.
  abbrev pub after_write : World D → Ptr → List Ptr
  after_write w s =
      if ltb_ℤ (w.n_sem s) (pos 0)
        || (w.is_poll s && w.poll_token (w.tasks.task_of (w.tasks.cons_sd s)))
      then w.woken ++ (w.tasks.task_of (w.tasks.cons_sd s) ∷ [])
      else w.woken

  -- What the section under the lock leaves for the wakeup.
  record Written (w w1 : World D) (s : Ptr) (token : Bool) : Type 0 where
    woken : w1.woken ≡ w.woken
    n_sem : w1.n_sem ≡ w.n_sem
    task_of : w1.tasks.task_of ≡ w.tasks.task_of
    cons_sd : w1.tasks.cons_sd ≡ w.tasks.cons_sd
    taken : token ≡ (w.is_poll s && w.poll_token (w.tasks.task_of (w.tasks.cons_sd s)))

  write_item-Written :
      (w : World D) (cell s dummy : Ptr) (cells : List Ptr) (item : Ptr) (q : List Ptr) (r : ℕ)
      → Contains w s dummy cells q r
      → cell ≢ null
      → cell ∉ dummy ∷ cells
      → item ≢ null
      → w.tasks.cons_sd s ≢ null
      → (w1 : World D) × (token : Bool) × (write_item cell s item w ≡ ok (token, w1))
        × Contains w1 s dummy (cells ++ (cell ∷ [])) (q ++ (item ∷ [])) r
        × Written w w1 s token
  unfolding write_item
  write_item-Written w cell s dummy cells item q r h nc out ni np =
      let (buf, e, held) = put-linked cell cells item h.holds nc out ni in
      let w1 : World D = record w {
        buffers = assign w.buffers s buf;
        tasks = record w.tasks {
          write_cnt = assign w.tasks.write_cnt s ((w.tasks.write_cnt s + 1) % 2 ^ 32);
        };
      } in
      let cons = w.tasks.task_of (w.tasks.cons_sd s) in
      let held1 =
        subst (λ b. Holds b dummy (cells ++ (cell ∷ [])) (q ++ (item ∷ [])))
          (sym (assign_self w.buffers s buf)) held in
      let counted =
        assign_self w.tasks.write_cnt s ((w.tasks.write_cnt s + 1) % 2 ^ 32)
        ∙ ap (λ n. (n + 1) % 2 ^ 32) h.write_cnt
        ∙ next_count (r + length q)
        ∙ ap (λ n. n % 2 ^ 32) (omega (arith, length-append q (item ∷ []))) in
      elim (Bool-cases (w.is_poll s)) [
        | inl k ↦ (
          record w1 {
            poll_token = assign w.poll_token cons false;
            is_poll = assign w.is_poll s false;
          },
          w.poll_token cons,
          rw (e, k, load-ok w.tasks.task_of (w.tasks.cons_sd s) np) refl,
          record { holds = held1; read_cnt = h.read_cnt; write_cnt = counted },
          record { woken = refl; n_sem = refl; task_of = refl; cons_sd = refl; taken = rw k refl },
        )
        | inr k ↦ (
          w1,
          false,
          rw (e, k) refl,
          record { holds = held1; read_cnt = h.read_cnt; write_cnt = counted },
          record { woken = refl; n_sem = refl; task_of = refl; cons_sd = refl; taken = rw k refl },
        )
      ]

  -- A write of an item that is not NULL with a new entry, past the wait for space, stores the item
  -- behind the others and counts the write, and wakes up the consumer exactly if the consumer waits
  -- for an item or polls the stream with its token still set.
  pub write_rest-Contains :
      (w : World D) (cell s dummy : Ptr) (cells : List Ptr) (item : Ptr) (q : List Ptr) (r : ℕ)
      → Contains w s dummy cells q r
      → cell ≢ null
      → cell ∉ dummy ∷ cells
      → item ≢ null
      → w.tasks.cons_sd s ≢ null
      → (w' : World D) × (write_rest cell s item w ≡ ok w')
        × Contains w' s dummy (cells ++ (cell ∷ [])) (q ++ (item ∷ [])) r
        × (w'.woken ≡ after_write w s)
  unfolding write_rest
  write_rest-Contains w cell s dummy cells item q r h nc out ni np =
      let (w1, token, e, held, f) =
        write_item-Written w cell s dummy cells item q r h nc out ni np in
      let w2 : World D = record w1 { n_sem = assign w1.n_sem s (w1.n_sem s +ℤ pos 1) } in
      let cons = w1.tasks.task_of (w1.tasks.cons_sd s) in
      let kept : Contains w2 s dummy (cells ++ (cell ∷ [])) (q ++ (item ∷ [])) r = record {
        holds = held.holds;
        read_cnt = held.read_cnt;
        write_cnt = held.write_cnt;
      } in
      let np1 : w1.tasks.cons_sd s ≢ null = λ z. np (sym (ap (λ g. g s) f.cons_sd) ∙ z) in
      let loaded = load-ok w1.tasks.task_of (w1.tasks.cons_sd s) np1 in
      let same : w1.woken ++ (cons ∷ []) ≡ w.woken ++ (w.tasks.task_of (w.tasks.cons_sd s) ∷ []) =
        rw (f.woken, f.task_of, f.cons_sd) refl in
      let sem : w1.n_sem s ≡ w.n_sem s = ap (λ g. g s) f.n_sem in
      elim (Bool-cases (ltb_ℤ (w1.n_sem s) (pos 0))) [
        | inl k ↦ (
          record w2 { woken = w1.woken ++ (cons ∷ []) },
          rw (e, k, loaded) refl,
          record { holds = kept.holds; read_cnt = kept.read_cnt; write_cnt = kept.write_cnt },
          same ∙ rw (← sem, k) refl,
        )
        | inr k ↦ elim (Bool-cases token) [
          | inl l ↦ (
            record w2 {
              wakeup_sd = assign w1.wakeup_sd cons (w1.tasks.cons_sd s);
              woken = w1.woken ++ (cons ∷ []);
            },
            rw (e, k, l, loaded) refl,
            record { holds = kept.holds; read_cnt = kept.read_cnt; write_cnt = kept.write_cnt },
            same ∙ rw (← sem, k, ← f.taken, l) refl,
          )
          | inr l ↦ (w2, rw (e, k, l) refl, kept, f.woken ∙ rw (← sem, k, ← f.taken, l) refl)
        ]
      ]
