-- ===== src/Decen/Poll/Tests.antt =====
-- Examples of polls of two streams.
use lpel.Base.Sem.{decr, incr}
use lpel.Decen.Buffer.{advance, put, is_space, top, init}
use lpel.Decen.Buffer.Refine.{init-Holds}
use lpel.Decen.Stream.{write_store, writer_at, create_of, system, writer_step}
use lpel.Decen.Poll.{
  Produce, unregister, poll_block, Writer, mark, register, look, poll_at, World, Poller, begin_poll,
  poll_step, view, update, Step, Reach,
}
use lpel.Decen.Poll.Inv.{Found, IsReady}
use lpel.Decen.Poll.Answer.{poll_returns, Outcome, poll_goes_on}
use lpel.Base.{◌≡◌, refl, arith, false, none, some, List, [], ◌∷◌, Ptr, assign}
use lpel.Base.Run.{out_of_fuel, ok, assert_failed, fault}

abbrev two : List Ptr
two = 1 ∷ 2 ∷ []

abbrev quiet_world : World
quiet_world = record {
  streams = λ a. system (create_of 2);
  poller = Poller.done 1;
  poll_token = false;
  wakes = 0;
  wakeup_sd = 1;
}

quiet_world-IsReady : IsReady quiet_world
unfolding system create_of
quiet_world-IsReady = record {
  streams = λ a. record {
    queue = [];
    holds = init-Holds 2 (omega arith) (omega arith);
    count = 0;
    n_sem = refl;
    writer_ok = tt;
  };
  unmarked = λ a. refl;
  taken = record { token = refl; wakes = refl; none_owes = λ a. refl };
}

-- The world after an action, or the same one without.
abbrev polled : World → World
polled w = elim (poll_step two w) [
  | ok (some w') ↦ w'
  | ok none ↦ w
  | assert_failed ↦ w
  | fault ↦ w
  | out_of_fuel ↦ w
]

abbrev written : World → World
written w = elim (writer_step (view 2 w)) [
  | ok (some t) ↦ update 2 t w
  | ok none ↦ w
  | assert_failed ↦ w
  | fault ↦ w
  | out_of_fuel ↦ w
]

abbrev called : World
called = record quiet_world { poller = Poller.looking two }

abbrev waiting : World
waiting = polled (polled (polled (polled (polled (polled (polled called))))))

-- LpelStreamPoll finds both streams empty, registers them and blocks.
waiting-Reach : Reach two called waiting
unfolding poll_step poll_at look register mark system create_of top init incr assign
waiting-Reach =
    Reach.next
      (Reach.next
        (Reach.next
          (Reach.next
            (Reach.next (Reach.next (Reach.next Reach.here (Step.poll_on refl)) (Step.poll_on refl))
              (Step.poll_on refl))
            (Step.poll_on refl))
          (Step.poll_on refl))
        (Step.poll_on refl))
      (Step.poll_on refl)

call-called : begin_poll two quiet_world ≡ ok called
unfolding begin_poll
call-called = refl

poll_goes_on_example : Outcome two waiting
poll_goes_on_example =
    poll_goes_on two quiet_world called waiting quiet_world-IsReady call-called waiting-Reach

-- The producer of the second stream is about to store an item.
abbrev granted_world : World
granted_world = record quiet_world {
  streams = λ a. record (system (create_of 2)) { writer = Writer.granted 7 };
  poller = Poller.looking two;
}

granted_world-IsReady : IsReady granted_world
unfolding system create_of
granted_world-IsReady = record {
  streams = λ a. record {
    queue = [];
    holds = init-Holds 2 (omega arith) (omega arith);
    count = 0;
    n_sem = refl;
    writer_ok = λ e. ground (arith, e);
  };
  unmarked = λ a. refl;
  taken = record { token = refl; wakes = refl; none_owes = λ a. refl };
}

abbrev placed : World
placed = polled (polled (polled granted_world))

abbrev overtaken : World
overtaken = written placed

abbrev answered : World
answered = polled (polled (polled (polled (polled overtaken))))

-- The item comes between the fast path and the registration.
answered-Reach : Reach two granted_world answered
unfolding poll_step poll_at look register mark system create_of top init incr assign view update
    writer_step writer_at write_store decr is_space put advance poll_block unregister
answered-Reach =
    Reach.next
      (Reach.next
        (Reach.next
          (Reach.next
            (Reach.next
              (Reach.next
                (Reach.next
                  (Reach.next (Reach.next Reach.here (Step.poll_on refl)) (Step.poll_on refl))
                  (Step.poll_on refl))
                (Step.produce 2 _ (Produce.write_on refl) refl))
              (Step.poll_on refl))
            (Step.poll_on refl))
          (Step.poll_on refl))
        (Step.poll_on refl))
      (Step.poll_on refl)

call-granted_world : begin_poll two granted_world ≡ ok granted_world
unfolding begin_poll
call-granted_world = refl

answered-done : answered.poller ≡ Poller.done 2
unfolding poll_step poll_at look register mark system create_of top init incr assign view update
    writer_step writer_at write_store decr is_space put advance poll_block unregister
answered-done = refl

poll_returns_example : Found two 2 answered × IsReady answered
poll_returns_example =
    poll_returns two granted_world granted_world answered 2 granted_world-IsReady call-granted_world
      answered-Reach answered-done
