-- ===== src/Mailbox/Tests.antt =====
-- The theorems on mailboxes at a mailbox with the messages 10 and 20 in the nodes 3 and 5, and the
-- free node 7.
use lpel.Base.{ℕ, ◌≡◌, refl, arith, false, some, [], ◌∷◌, null, ◌==◌, if◌then◌else◌}
use lpel.Base.Run.{ok}
use lpel.Mailbox.{Mailbox, send, recv}
use lpel.Mailbox.Inv.{Holds}
use lpel.Mailbox.Send.{send-append}
use lpel.Mailbox.Receive.{recv-head}

abbrev two : Mailbox ℕ
two = record {
  next = λ a. if a == 3 then 5 else if a == 5 then 3 else null;
  msg = λ a. if a == 3 then 10 else if a == 5 then 20 else 0;
  list_free = 7;
  list_inbox = 5;
}

two-Holds : Holds two (3 ∷ 5 ∷ []) (7 ∷ []) (10 ∷ 20 ∷ [])
two-Holds = record {
  ring = record { handle = refl; distinct = ground arith; chain = (refl, (refl, tt)) };
  free = refl;
  free_distinct = ground arith;
  free_chain = (refl, tt);
  apart = λ a h. ground arith;
  messages = refl;
}

abbrev idle : Mailbox ℕ
idle = record { next = λ a. null; msg = λ a. 0; list_free = 7; list_inbox = null }

idle-Holds : Holds idle [] (7 ∷ []) []
idle-Holds = record {
  ring = record { handle = refl; distinct = tt; chain = tt };
  free = refl;
  free_distinct = ground arith;
  free_chain = (refl, tt);
  apart = λ a h. absurd (ground arith);
  messages = refl;
}

send-append_example :
    (mb' : Mailbox ℕ) × (send 9 30 two ≡ ok (false, mb'))
    × Holds mb' (3 ∷ 5 ∷ 7 ∷ []) [] (10 ∷ 20 ∷ 30 ∷ [])
send-append_example = send-append 9 30 (3 ∷ 5 ∷ []) (7 ∷ []) (10 ∷ 20 ∷ []) two-Holds (ground arith)

recv-head_example :
    (mb' : Mailbox ℕ) × (recv two ≡ ok (some (10, mb'))) × Holds mb' (5 ∷ []) (3 ∷ 7 ∷ []) (20 ∷ [])
recv-head_example = recv-head 3 (5 ∷ []) (7 ∷ []) 10 (20 ∷ []) two-Holds
