-- ===== src/Decen/Stream/Safe.antt =====
-- Every interleaving of a producer and a consumer keeps the invariant.
use lpel.Base.{
  ℕ, ◌≡◌, refl, sym, subst, arith, Option, some, List, [], ◌∷◌, ◌++◌, Ptr, null, ◌==◌, inl,
  Bool-cases, inr,
}
use lpel.Base.Run.{Run, ok, assert_failed}
use lpel.Decen.Stream.{
  begin_read, Writer, Reader, System, begin_write, writer_at, writer_step, reader_at, reader_step,
  Step, call_write, call_try_write, call_read, write_on, read_on, Reach, here, next,
}
use lpel.Decen.Stream.Inv.{Inv, Safe, Keeps}
use lpel.Decen.Stream.Write.{
  write_acquire-Inv, write_block-Inv, write_release-Inv, wake_reader-Inv, write_store-Inv,
  try_write-Inv, started-Inv,
}
use lpel.Decen.Stream.Read.{
  read_acquire-Inv, read_block-Inv, read_release-Inv, wake_writer-Inv, read_top-Inv, read_pop-Inv,
}

writer_at-Keeps :
    {n : ℕ} (w : Writer) {s : System} {q : List Ptr}
    → s.writer ≡ w
    → Inv n s q
    → Keeps n (writer_at w s)
unfolding writer_at
writer_at-Keeps Writer.idle e v = tt
writer_at-Keeps (Writer.trying x) e v = try_write-Inv v x e
writer_at-Keeps (Writer.started x) {q} e v = (q, write_acquire-Inv v x e)
writer_at-Keeps (Writer.blocked x) e v = write_block-Inv v x e
writer_at-Keeps (Writer.granted x) e v = write_store-Inv v x e
writer_at-Keeps (Writer.stored b) {q} e v = (q, write_release-Inv v b e)
writer_at-Keeps Writer.waking {q} e v = (q, wake_reader-Inv v e)
writer_at-Keeps Writer.waking_poll e v = ground (arith, v.writer_fits)

reader_at-Keeps :
    {n : ℕ} (r : Reader) {s : System} {q : List Ptr}
    → s.reader ≡ r
    → Inv n s q
    → Keeps n (reader_at r s)
unfolding reader_at
reader_at-Keeps Reader.idle e v = tt
reader_at-Keeps Reader.started {q} e v = (q, read_acquire-Inv v e)
reader_at-Keeps Reader.blocked e v = read_block-Inv v e
reader_at-Keeps Reader.granted e v = read_top-Inv v e
reader_at-Keeps (Reader.topped x) {q} e v = read_pop-Inv q x v e
reader_at-Keeps (Reader.popped x) {q} e v = (q, read_release-Inv v x e)
reader_at-Keeps (Reader.waking x) {q} e v = (q, wake_writer-Inv v x e)

pub writer_step-Keeps : {n : ℕ} {s : System} → Safe n s → Keeps n (writer_step s)
unfolding writer_step
writer_step-Keeps {s} h = writer_at-Keeps s.writer refl h.1

pub reader_step-Keeps : {n : ℕ} {s : System} → Safe n s → Keeps n (reader_step s)
unfolding reader_step
reader_step-Keeps {s} h = reader_at-Keeps s.reader refl h.1

ok-injective : {s t : System} → ok s ≡ ok t → s ≡ t
ok-injective e = cc

begin_write-Safe :
    {n : ℕ} {s t : System} (x : Ptr)
    → s.writer ≡ Writer.idle
    → begin_write x s ≡ ok t
    → Safe n s
    → Safe n t
unfolding begin_write
begin_write-Safe {n} {s} {t} x e b (q, v) = elim (Bool-cases (x == null)) [
  | inl z ↦ let stop : assert_failed ≡ ok t = rw (v.prod_mode, z) at b in cc
  | inr z ↦
      let same : ok (record s { writer = Writer.started x; sent = s.sent ++ (x ∷ []) }) ≡ ok t =
        rw (v.prod_mode, z) at b in
      subst (Safe n) (ok-injective same)
        (q, started-Inv v Writer.idle x e (inl refl) (ground arith))
]

begin_read-Safe :
    {n : ℕ} {s t : System} → s.reader ≡ Reader.idle → begin_read s ≡ ok t → Safe n s → Safe n t
unfolding begin_read
begin_read-Safe {n} {s} {t} e b (q, v) =
    let same : ok (record s { reader = Reader.started }) ≡ ok t = rw v.cons_mode at b in
    subst (Safe n) (ok-injective same) (q, ground arith)

Keeps-some : {n : ℕ} {r : Run (Option System)} {t : System} → r ≡ ok (some t) → Keeps n r → Safe n t
Keeps-some e k = rw e at k

pub Step-Safe : {n : ℕ} {s t : System} → Step s t → Safe n s → Safe n t
Step-Safe (call_write x e b) h = begin_write-Safe x e b h
Step-Safe {n} {s} {t} (call_try_write x ne e b) (q, v) = subst (Safe n) (sym b) (q, ground arith)
Step-Safe (call_read e b) h = begin_read-Safe e b h
Step-Safe (write_on e) h = Keeps-some e (writer_step-Keeps h)
Step-Safe (read_on e) h = Keeps-some e (reader_step-Keeps h)

pub Reach-Safe : {n : ℕ} {s t : System} → Reach s t → Safe n s → Safe n t
Reach-Safe here h = h
Reach-Safe (next r st) h = Step-Safe st (Reach-Safe r h)
