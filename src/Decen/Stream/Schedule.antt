-- ===== src/Decen/Stream/Schedule.antt =====
-- Interleavings as schedules that can be run.
use lpel.Decen.Stream.{
  begin_read, reader_step, writer_step, begin_write, Writer, Reader, System, Step, Reach, here,
  next, call_write, call_try_write, call_read, write_on, read_on,
}
use lpel.Base.{
  ◌≡◌, refl, ap, subst, arith, inl, inr, Bool, true, false, not, ◌&&◌, Option, none, some, List, [],
  ◌∷◌, Ptr, null, ◌==◌, if◌then◌else◌, Option-cases,
}
use lpel.Base.Run.{Run, ok, map_run}

-- A call of a client, or the next action of a task.
pub data Move : Type 0 where
  write : Ptr → Move
  try : Ptr → Move
  read : Move
  writer : Move
  reader : Move

-- A call that is allowed: by a task that is outside.
abbrev writer_idle : Writer → Bool
writer_idle Writer.idle = true
writer_idle _ = false

abbrev reader_idle : Reader → Bool
reader_idle Reader.idle = true
reader_idle _ = false

abbrev moved : Run (Option System) → Option System
moved (ok t) = t
moved Run.assert_failed = none
moved Run.fault = none
moved Run.out_of_fuel = none

-- The state after a move, if it can be made.
unfoldable pub move : Move → System → Option System
unfolding begin_write begin_read
move (write x) s =
    if writer_idle s.writer then moved (map_run (λ t. some t) (begin_write x s)) else none
move (try x) s =
    if writer_idle s.writer && not (x == null)
    then some (record s { writer = Writer.trying x })
    else none
move read s = if reader_idle s.reader then moved (map_run (λ t. some t) (begin_read s)) else none
move writer s = moved (writer_step s)
move reader s = moved (reader_step s)

unfoldable pub moves : List Move → System → Option System
unfolding move
moves [] s = some s
moves (m ∷ ms) s = elim (move m s) [ none ↦ none | some t ↦ moves ms t ]

moved-some : (r : Run (Option System)) {t : System} → moved r ≡ some t → r ≡ ok (some t)
moved-some (ok o) e = ap ok e
moved-some Run.assert_failed e = cc
moved-some Run.fault e = cc
moved-some Run.out_of_fuel e = cc

moved-map_run : (r : Run System) {t : System} → moved (map_run (λ u. some u) r) ≡ some t → r ≡ ok t
moved-map_run (ok u) e = cc
moved-map_run Run.assert_failed e = cc
moved-map_run Run.fault e = cc
moved-map_run Run.out_of_fuel e = cc

idle_of_writer : (w : Writer) → writer_idle w ≡ true → w ≡ Writer.idle
idle_of_writer w e = ground arith

idle_of_reader : (r : Reader) → reader_idle r ≡ true → r ≡ Reader.idle
idle_of_reader r e = ground arith

if-some {ℓ} :
    {A : Type ℓ} (b : Bool) (o : Option A) {t : A}
    → (if b then o else none) ≡ some t
    → (b ≡ true) × (o ≡ some t)
if-some true o e = (refl, e)
if-some false o e = cc

move-Step : (m : Move) (s : System) {t : System} → move m s ≡ some t → Step s t
unfolding move
move-Step (write x) s e =
    let (i, h) = if-some _ _ e in
    call_write x (idle_of_writer s.writer i) (moved-map_run (begin_write x s) h)
move-Step (try x) s e =
    let (i, h) =
      if-some (writer_idle s.writer && not (x == null))
        (some (record s { writer = Writer.trying x })) e in
    call_try_write x (ground (arith, i)) (idle_of_writer s.writer (ground (arith, i))) (cc h)
move-Step read s e =
    let (i, h) = if-some _ _ e in
    call_read (idle_of_reader s.reader i) (moved-map_run (begin_read s) h)
move-Step writer s e = write_on (moved-some (writer_step s) e)
move-Step reader s e = read_on (moved-some (reader_step s) e)

pub moves-from :
    {s t : System} (ms : List Move) (u : System) → Reach s u → moves ms u ≡ some t → Reach s t
unfolding moves
moves-from {s} [] u r e = subst (Reach s) (cc) r
moves-from (m ∷ ms) u r e = elim (Option-cases (move m u)) [
  | inl stop ↦ absurd (none_not stop)
  | inr (u', go) ↦ moves-from ms u' (next r (move-Step m u go)) (rw (go, moves) at e)
]
  where
    none_not : move m u ≡ none → ⊥
    none_not stop = ground (arith, e)

pub moves-Reach : {s t : System} (ms : List Move) → moves ms s ≡ some t → Reach s t
moves-Reach {s} ms e = moves-from ms s here e
