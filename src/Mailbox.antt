-- ===== src/Mailbox.antt =====
-- src/mailbox.c: a mailbox of messages, with a circular inbox and a list of free nodes. A section
-- under a lock is one action. `malloc` is the parameter `fresh`, the address that it returns.
pub mod Inv
pub mod Send
pub mod Receive
mod Tests
use lpel.Base.{
  ℕ, zero, suc, ◌+◌, ◌-◌, ◌*◌, ◌/◌, ◌%◌, ◌^◌, ◌<◌, ◌≤◌, ◌≡◌, ◌≢◌, refl, ap, sym, subst, ◌∙◌, arith,
  dec_lt, ℕ_discrete, ◌⊎◌, inl, inr, ◌↔◌, Bool, true, false, not, ◌&&◌, ◌||◌, Option, none, some,
  List, [], ◌∷◌, ◌++◌, append-nil, append_assoc, Ptr, null, ◌==◌, if◌then◌else◌, ltb, leb, length,
  set, get_elem?, get_or, head_or, last_or, replicate, assign, assign_self, assign_ne,
  length-append, length-set, lt→ltb, ==_of_ne, ==_self, ==→eq, ==_false→ne, le→ltb_false,
  Bool-cases, Option-cases, tests, load, store, load-ok, store-ok, mem, ◌∈◌, ◌∉◌, Distinct, IsChain,
  mem-append, mem-last, mem-head, ne_of_mem, ne_null_of_mem, IsChain-frame, IsChain-assign,
  head_or-append, last_or-append, IsChain-append, IsChain-left, IsChain-right, IsChain-last,
  IsChain-assign_last, Distinct-left, Distinct-right, Distinct-append, Distinct-apart,
}
use lpel.Base.Run.{out_of_fuel, Run, ok, assert_failed, fault, ◌>>=◌, ◌>>◌, assert, access, map_run}
use lpel.Base.Int.{ℤ, pos, negsuc, pos_part, neg_part}

-- `mailbox_t` and the nodes in memory; `M` is the type of a message.
pub record Mailbox (M : Type 0) : Type 0 where
  pub next : Ptr → Ptr
  pub msg : Ptr → M
  pub list_free : Ptr
  pub list_inbox : Ptr

-- `while (list_free != NULL) { ... free( node); }`: the nodes that are freed.
unfoldable pub free_from : ℕ → (Ptr → Ptr) → Ptr → Run (List Ptr)
free_from zero next node = if node == null then ok [] else out_of_fuel
free_from (suc fuel) next node =
    if node == null
    then ok []
    else (load next node >>= λ behind. map_run (λ nodes. node ∷ nodes) (free_from fuel next behind))

module _ {M : Type 0} where
  -- `GetFree`
  unfoldable pub get_free : Ptr → Mailbox M → Run (Ptr × Mailbox M)
  get_free fresh mb = if mb.list_free == null then ok (fresh, mb) else do
    behind ← load mb.next mb.list_free
    ok (mb.list_free, record mb { list_free = behind })

  -- `PutFree`
  unfoldable pub put_free : Ptr → Mailbox M → Run (Mailbox M)
  put_free node mb = do
    next ← store mb.next node (if mb.list_free == null then null else mb.list_free)
    ok (record mb { next = next; list_free = node })

  -- `LpelMailboxCreate`, on a memory that may hold anything.
  unfoldable pub create : (Ptr → Ptr) → (Ptr → M) → Mailbox M
  create next msg = record { next = next; msg = msg; list_free = null; list_inbox = null }

  -- `LpelMailboxDestroy`
  unfoldable pub destroy : ℕ → Mailbox M → Run (List Ptr)
  unfolding free_from
  destroy fuel mb = do assert (mb.list_inbox == null); free_from fuel mb.next mb.list_free

  -- The section of `LpelMailboxSend` under `lock_inbox`; true if it signals `notempty`.
  unfoldable pub put_inbox : Ptr → Mailbox M → Run (Bool × Mailbox M)
  put_inbox node mb =
      if mb.list_inbox == null
      then (do
        next ← store mb.next node node
        ok (true, record mb { next = next; list_inbox = node }))
      else do
        first ← load mb.next mb.list_inbox
        next ← store mb.next node first
        next ← store next mb.list_inbox node
        ok (false, record mb { next = next; list_inbox = node })

  -- `LpelMailboxSend`
  unfoldable pub send : Ptr → M → Mailbox M → Run (Bool × Mailbox M)
  unfolding get_free put_inbox
  send fresh m mb = do
    (node, mb) ← get_free fresh mb
    msg ← store mb.msg node m
    put_inbox node (record mb { msg = msg })

  -- The section of `LpelMailboxRecv` under `lock_inbox`; `none` while it waits for `notempty`.
  unfoldable pub take_inbox : Mailbox M → Run (Option (Ptr × Mailbox M))
  take_inbox mb = if mb.list_inbox == null then ok none else do
    node ← load mb.next mb.list_inbox
    if node == mb.list_inbox then ok (some (node, record mb { list_inbox = null })) else do
      behind ← load mb.next node
      next ← store mb.next mb.list_inbox behind
      ok (some (node, record mb { next = next }))

  -- The end of `LpelMailboxRecv`.
  unfoldable pub receive_node : Option (Ptr × Mailbox M) → Run (Option (M × Mailbox M))
  receive_node none = ok none
  receive_node (some (node, mb)) = do m ← load mb.msg node; mb ← put_free node mb; ok (some (m, mb))

  -- `LpelMailboxRecv`
  unfoldable pub recv : Mailbox M → Run (Option (M × Mailbox M))
  unfolding take_inbox receive_node put_free
  recv mb = do taken ← take_inbox mb; receive_node taken

  -- `LpelMailboxHasIncoming`
  unfoldable pub has_incoming : Mailbox M → Bool
  has_incoming mb = not (mb.list_inbox == null)
