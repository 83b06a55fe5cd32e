-- ===== src/Mailbox/Inv.antt =====
-- The messages that a mailbox holds, oldest first.
use lpel.Base.{
  ℕ, zero, suc, ◌≤◌, ◌≡◌, refl, sym, subst, arith, not, List, [], ◌∷◌, map, Ptr, null, ◌==◌, length,
  head_or, last_or, ==_of_ne, load-ok, ◌∈◌, ◌∉◌, Distinct, IsChain, mem-last,
}
use lpel.Base.Run.{ok}
use lpel.Streamset.{Set}
use lpel.Streamset.Ring.{IsRing, handle-ne_null}
use lpel.Mailbox.{Mailbox, create, free_from, destroy, has_incoming}

free_from-all :
    (fuel : ℕ) (next : Ptr → Ptr) (frees : List Ptr)
    → Distinct frees
    → IsChain next frees null
    → length frees ≤ fuel
    → free_from fuel next (head_or frees null) ≡ ok frees
unfolding free_from
free_from-all zero next [] d c f = refl
free_from-all zero next (x ∷ xs) d c f = absurd (omega arith)
free_from-all (suc fuel) next [] d c f = refl
free_from-all (suc fuel) next (x ∷ xs) d c f =
    rw (
      ==_of_ne x null d.0,
      load-ok next x d.0,
      c.0,
      free_from-all fuel next xs d.2 c.1 (omega arith),
    )

module _ {M : Type 0} where
  -- The inbox as a circular list; its handle points to the last node.
  abbrev pub inbox : Mailbox M → Set
  inbox mb = record { next = mb.next; handle = mb.list_inbox }

  -- The inbox goes round through `nodes`, which hold the messages `q`; the list of free nodes is
  -- `frees`, and no node is in both.
  pub record Holds (mb : Mailbox M) (nodes frees : List Ptr) (q : List M) : Type 0 where
    pub ring : IsRing (inbox mb) nodes
    pub free : mb.list_free ≡ head_or frees null
    pub free_distinct : Distinct frees
    pub free_chain : IsChain mb.next frees null
    pub apart : (a : Ptr) → a ∈ nodes → a ∉ frees
    pub messages : map mb.msg nodes ≡ q

  pub create-Holds : (next : Ptr → Ptr) (msg : Ptr → M) → Holds (create next msg) [] [] []
  unfolding create
  create-Holds next msg = record {
    ring = record { handle = refl; distinct = tt; chain = tt };
    free = refl;
    free_distinct = tt;
    free_chain = tt;
    apart = λ a h. refl;
    messages = refl;
  }

  pub inbox-not_free :
      {mb : Mailbox M} (x : Ptr) (nodes frees : List Ptr) (q : List M)
      → Holds mb (x ∷ nodes) frees q
      → mb.list_inbox ∉ frees
  inbox-not_free x nodes frees q v =
      subst (λ a. a ∉ frees) (sym v.ring.handle) (v.apart (last_or nodes x) (mem-last x nodes))

  -- `LpelMailboxHasIncoming` of a mailbox that holds the messages `q` tells whether there are any.
  pub has_incoming_lem :
      {mb : Mailbox M} (nodes frees : List Ptr) (q : List M)
      → Holds mb nodes frees q
      → has_incoming mb ≡ not (length q == 0)
  unfolding has_incoming
  has_incoming_lem [] frees q v = rw (v.ring.handle, ← v.messages)
  has_incoming_lem (x ∷ xs) frees q v =
      rw (==_of_ne _ null (handle-ne_null v.ring), ← v.messages) (ground arith)

  -- `LpelMailboxDestroy` of a mailbox without messages, with fuel for its free nodes, returns and
  -- frees each of them once.
  pub destroy-frees :
      {mb : Mailbox M} (fuel : ℕ) (frees : List Ptr)
      → Holds mb [] frees []
      → length frees ≤ fuel
      → destroy fuel mb ≡ ok frees
  unfolding destroy
  destroy-frees fuel frees v f =
      rw (v.ring.handle, v.free, free_from-all fuel _ frees v.free_distinct v.free_chain f)
