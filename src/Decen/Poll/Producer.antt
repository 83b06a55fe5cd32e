-- ===== src/Decen/Poll/Producer.antt =====
-- What an action of a producer does to its stream while the consumer polls.
use lpel.Decen.Poll.{Produce}
use lpel.Base.Sem.{is_zero, decr, incr}
use lpel.Decen.Stream.{
  wake_poller, wake_reader, write_block, write_acquire, writer_at, begin_write, writer_step,
  try_write, write_store, write_release, Writer, System,
}
use lpel.Decen.Buffer.Refine.{top-head_or, put-append, is_space_lem, Holds, AllItems}
use lpel.Base.{
  if◌then◌else◌, arith, ℕ, suc, ◌+◌, ◌≡◌, ◌≢◌, refl, sym, subst, ◌∙◌, dec_lt, inl, inr, Bool, true,
  false, not, ◌&&◌, Option, none, some, List, [], ◌∷◌, ◌++◌, Ptr, null, ◌==◌, ltb, length, head_or,
  lt→ltb, ==_false→ne, le→ltb_false, Bool-cases,
}
use lpel.Decen.Buffer.{top}
use lpel.Base.Run.{out_of_fuel, Run, ok, assert_failed, fault, ◌>>=◌}
use lpel.Base.Int.{pos}

-- The oldest item of the buffer is there, or there is none.
abbrev pub HasItem : System → Type 0
HasItem s = (x : Ptr) × (top s.stream.buffer ≡ ok x) × (x ≢ null)

abbrev pub IsEmpty : System → Type 0
IsEmpty s = top s.stream.buffer ≡ ok null

-- Has the producer taken the poll token, and not yet woken up the consumer?
abbrev pub owes : Writer → Bool
owes (Writer.stored b) = b
owes Writer.waking_poll = true
owes Writer.idle = false
owes (Writer.trying x) = false
owes (Writer.started x) = false
owes (Writer.blocked x) = false
owes (Writer.granted x) = false
owes Writer.waking = false

-- Items are not NULL, and no producer wakes up a consumer that reads.
abbrev pub WriterOk : Writer → Type 0
WriterOk (Writer.stored b) = Unit
WriterOk Writer.waking_poll = Unit
WriterOk Writer.idle = Unit
WriterOk (Writer.trying x) = x ≢ null
WriterOk (Writer.started x) = x ≢ null
WriterOk (Writer.blocked x) = x ≢ null
WriterOk (Writer.granted x) = x ≢ null
WriterOk Writer.waking = ⊥

-- A stream that nobody reads from: its buffer holds items, and `n_sem` is not negative.
pub record IsStream (s : System) : Type 0 where
  pub queue : List Ptr
  pub holds : Holds s.stream.buffer queue
  pub count : ℕ
  pub n_sem : s.stream.n_sem ≡ pos count
  pub writer_ok : WriterOk s.writer

pub data Made (s t : System) : Type 0 where
  still :
      t.stream.buffer ≡ s.stream.buffer
      → t.stream.is_poll ≡ s.stream.is_poll
      → owes t.writer ≡ owes s.writer
      → t.poll_token ≡ s.poll_token
      → t.reader_wake ≡ s.reader_wake
      → t.wakeup_sd ≡ s.wakeup_sd
      → Made s t
  stores :
      HasItem t
      → t.stream.is_poll ≡ false
      → owes s.writer ≡ false
      → owes t.writer ≡ (s.stream.is_poll && s.poll_token)
      → t.poll_token ≡ (not s.stream.is_poll && s.poll_token)
      → t.reader_wake ≡ s.reader_wake
      → t.wakeup_sd ≡ s.wakeup_sd
      → Made s t
  wakes :
      t.stream.buffer ≡ s.stream.buffer
      → t.stream.is_poll ≡ s.stream.is_poll
      → owes s.writer ≡ true
      → owes t.writer ≡ false
      → t.poll_token ≡ s.poll_token
      → t.reader_wake ≡ s.reader_wake + 1
      → t.wakeup_sd ≡ true
      → Made s t

abbrev Keeps : System → Run (Option System) → Type 0
Keeps s (ok (some t)) = IsStream t × Made s t
Keeps s (ok none) = Unit
Keeps s assert_failed = Unit
Keeps s fault = Unit
Keeps s out_of_fuel = Unit

Keeps-ok :
    (s t : System) (m : Run (Option System)) → Keeps s m → m ≡ ok (some t) → IsStream t × Made s t
Keeps-ok s t m k e = subst (Keeps s) e k

head-item : (q : List Ptr) (x : Ptr) → AllItems q → x ≢ null → head_or (q ++ (x ∷ [])) null ≢ null
head-item [] x a h = h
head-item (y ∷ q) x a h = a.0

module _ {s : System} (v : IsStream s) where
  -- Only the position of the producer changes, or other fields that a poll does not see.
  still_at :
      {t : System}
      → t.stream.buffer ≡ s.stream.buffer
      → t.stream.is_poll ≡ s.stream.is_poll
      → t.stream.n_sem ≡ s.stream.n_sem
      → owes t.writer ≡ owes s.writer
      → t.poll_token ≡ s.poll_token
      → t.reader_wake ≡ s.reader_wake
      → t.wakeup_sd ≡ s.wakeup_sd
      → WriterOk t.writer
      → IsStream t × Made s t
  still_at b p n o k r u ok_w = (
    record {
      queue = v.queue;
      holds = subst (λ z. Holds z v.queue) (sym b) v.holds;
      count = v.count;
      n_sem = n ∙ v.n_sem;
      writer_ok = ok_w;
    },
    Made.still b p o k r u,
  )

  write_store-Keeps :
      (x : Ptr) → s.writer ≡ Writer.granted x → Keeps s (write_store x s >>= λ t. ok (some t))
  unfolding write_store
  write_store-Keeps x e = elim (dec_lt (length v.queue) s.stream.buffer.size) [
    | no p ↦
        rw (is_space_lem v.holds, le→ltb_false (length v.queue) s.stream.buffer.size (omega arith))
          tt
    | yes p ↦
        let x_ne : x ≢ null = subst WriterOk e v.writer_ok in
        let (buf, put, held, size) = put-append v.holds x x_ne p in
        let item : HasItem (record s { stream = record (s.stream) { buffer = buf } }) =
          (_, top-head_or held, head-item v.queue x v.holds.items x_ne) in
        rw (is_space_lem v.holds, lt→ltb _ _ p, put)
          (elim (Bool-cases s.stream.is_poll) [
            | inl poll ↦ simp poll (
              record {
                queue = v.queue ++ (x ∷ []);
                holds = held;
                count = v.count;
                n_sem = v.n_sem;
                writer_ok = tt;
              },
              Made.stores item refl (rw e refl) (simp poll) (simp poll) refl refl,
            )
            | inr poll ↦ simp poll (
              record {
                queue = v.queue ++ (x ∷ []);
                holds = held;
                count = v.count;
                n_sem = v.n_sem;
                writer_ok = tt;
              },
              Made.stores item refl (rw e refl) (simp poll) (simp poll) refl refl,
            )
          ])
  ]

  release_ok : (b : Bool) → WriterOk (if b then Writer.waking_poll else Writer.idle)
  release_ok true = tt
  release_ok false = tt

  release_owes : (b : Bool) → owes (if b then Writer.waking_poll else Writer.idle) ≡ b
  release_owes true = refl
  release_owes false = refl

  write_release-Keeps :
      (b : Bool) → s.writer ≡ Writer.stored b → Keeps s (ok (some (write_release b s)))
  unfolding write_release incr
  write_release-Keeps b e = (
    record {
      queue = v.queue;
      holds = v.holds;
      count = suc v.count;
      n_sem = rw v.n_sem refl;
      writer_ok = rw v.n_sem (release_ok b);
    },
    Made.still refl refl (rw (v.n_sem, e) (release_owes b)) refl refl refl,
  )

  begin_write-Keeps :
      (w : Writer) (x : Ptr)
      → owes s.writer ≡ false
      → Keeps s (begin_write x s >>= λ t. ok (some t))
  unfolding begin_write
  begin_write-Keeps w x e = elim (Bool-cases (s.prod_mode == b'w')) [
    | inr m ↦ rw m tt
    | inl m ↦ elim (Bool-cases (x == null)) [
      | inl z ↦ rw (m, z) tt
      | inr z ↦
          rw (m, z) (still_at refl refl refl (rw e refl) refl refl refl (==_false→ne x null z))
    ]
  ]

  try_write-Keeps :
      (x : Ptr) → s.writer ≡ Writer.trying x → Keeps s (try_write x s >>= λ t. ok (some t))
  unfolding try_write
  try_write-Keeps x e =
      rw (is_space_lem v.holds) (elim (Bool-cases (ltb (length v.queue) s.stream.buffer.size)) [
        | inl z ↦ rw z (begin_write-Keeps (Writer.trying x) x (rw e refl))
        | inr z ↦ rw z (still_at refl refl refl (rw e refl) refl refl refl tt)
      ])

  writer_at-Keeps : (w : Writer) → s.writer ≡ w → Keeps s (writer_at w s)
  unfolding writer_at write_acquire decr write_block wake_reader wake_poller
  writer_at-Keeps Writer.idle e = tt
  writer_at-Keeps (Writer.trying x) e = try_write-Keeps x e
  writer_at-Keeps (Writer.started x) e = elim (Bool-cases (is_zero s.stream.e_sem)) [
    | inl z ↦
        rw z (still_at refl refl refl (rw e refl) refl refl refl (subst WriterOk e v.writer_ok))
    | inr z ↦
        rw z (still_at refl refl refl (rw e refl) refl refl refl (subst WriterOk e v.writer_ok))
  ]
  writer_at-Keeps (Writer.blocked x) e = elim (Bool-cases (s.writer_wake == 0)) [
    | inl z ↦ rw z tt
    | inr z ↦
        rw z (still_at refl refl refl (rw e refl) refl refl refl (subst WriterOk e v.writer_ok))
  ]
  writer_at-Keeps (Writer.granted x) e = write_store-Keeps x e
  writer_at-Keeps (Writer.stored b) e = write_release-Keeps b e
  writer_at-Keeps Writer.waking e = absurd (subst WriterOk e v.writer_ok)
  writer_at-Keeps Writer.waking_poll e = (
    record { queue = v.queue; holds = v.holds; count = v.count; n_sem = v.n_sem; writer_ok = tt },
    Made.wakes refl refl (rw e refl) refl refl refl refl,
  )

  -- Whatever the producer does, its stream is as it should be, and the action is of one of the kinds.
  pub Produce-Made : {t : System} → Produce s t → IsStream t × Made s t
  unfolding writer_step
  Produce-Made {t = t} (Produce.call_write x e run) =
      Keeps-ok s t _ (begin_write-Keeps s.writer x (rw e refl)) (rw run refl)
  Produce-Made (Produce.call_try_write x ne e z) =
      subst (λ t. IsStream t × Made s t) (sym z)
        (still_at refl refl refl (rw e refl) refl refl refl ne)
  Produce-Made {t = t} (Produce.write_on run) = Keeps-ok s t _ (writer_at-Keeps s.writer refl) run
