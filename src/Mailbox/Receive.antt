-- ===== src/Mailbox/Receive.antt =====
-- `LpelMailboxRecv`.
use lpel.Base.{
  last_or, ◌≡◌, ◌≢◌, refl, ap, sym, subst, ◌∙◌, arith, Option, none, some, List, [], ◌∷◌, Ptr, null,
  ◌==◌, if◌then◌else◌, head_or, assign, assign_self, ==_of_ne, ==_self, load-ok, store-ok, ◌∉◌,
  IsChain, mem-last, mem-head, ne_of_mem, IsChain-assign, IsChain-assign_last,
}
use lpel.Base.Run.{Run, ok}
use lpel.Streamset.Ring.{handle-ne_null, next-handle}
use lpel.Mailbox.{Mailbox, put_free, take_inbox, receive_node, recv}
use lpel.Mailbox.Inv.{Holds, inbox-not_free}

module _ {M : Type 0} where
  away :
      {mb : Mailbox M} {node x : Ptr} {nodes frees : List Ptr} {q : List M}
      → Holds mb (node ∷ x ∷ nodes) frees q
      → node ≢ mb.list_inbox
  away {node = node} {x = x} {nodes = nodes} v e =
      ne_of_mem (last_or nodes x) node (x ∷ nodes) (mem-last x nodes) v.ring.distinct.1
        (sym (e ∙ v.ring.handle))

  -- What the section under `lock_inbox` leaves: `node` is in no list.
  abbrev Taken :
      Mailbox M → Ptr → List Ptr → List Ptr → List M → Run (Option (Ptr × Mailbox M)) → Type 0
  Taken mb node nodes frees q r =
      (mb' : Mailbox M) × (r ≡ ok (some (node, mb'))) × Holds mb' nodes frees q × (mb'.msg ≡ mb.msg)

  take_inbox-Taken :
      {mb : Mailbox M} (node : Ptr) (nodes frees : List Ptr) (m : M) (q : List M)
      → Holds mb (node ∷ nodes) frees (m ∷ q)
      → Taken mb node nodes frees q (take_inbox mb)
  unfolding take_inbox
  take_inbox-Taken {mb} node [] frees m q v =
      let ne = handle-ne_null v.ring in
      (
        record mb { list_inbox = null },
        rw (
          v.ring.handle,
          ==_of_ne node null v.ring.distinct.0,
          load-ok mb.next node v.ring.distinct.0,
          v.ring.chain.0,
          ==_self node,
        ),
        record {
          ring = record { handle = refl; distinct = tt; chain = tt };
          free = v.free;
          free_distinct = v.free_distinct;
          free_chain = v.free_chain;
          apart = λ a h. absurd (ground arith);
          messages = cc v.messages;
        },
        refl,
      )
  take_inbox-Taken {mb} node (x ∷ nodes) frees m q v =
      let ne = handle-ne_null v.ring in
      let node_ok = v.ring.distinct.0 in
      (
        record mb { next = assign mb.next mb.list_inbox x },
        rw (
          ==_of_ne mb.list_inbox null ne,
          load-ok mb.next mb.list_inbox ne,
          next-handle v.ring,
          ==_of_ne node mb.list_inbox (away v),
          load-ok mb.next node node_ok,
          v.ring.chain.0,
          store-ok mb.next mb.list_inbox x ne,
        ),
        record {
          ring = record {
            handle = v.ring.handle;
            distinct = v.ring.distinct.2;
            chain =
                subst (λ h. IsChain (assign mb.next h x) (x ∷ nodes) x) (sym v.ring.handle)
                  (IsChain-assign_last mb.next x x nodes node v.ring.distinct.2 v.ring.chain.1);
          };
          free = v.free;
          free_distinct = v.free_distinct;
          free_chain =
              IsChain-assign mb.next mb.list_inbox x frees null
                (inbox-not_free node (x ∷ nodes) frees (m ∷ q) v) v.free_chain;
          apart = λ a h. v.apart a (ground arith);
          messages = cc v.messages;
        },
        refl,
      )

  put_free-Holds :
      {mb : Mailbox M} (node : Ptr) (nodes frees : List Ptr) (q : List M)
      → Holds mb nodes frees q
      → node ≢ null
      → node ∉ nodes
      → node ∉ frees
      → (mb' : Mailbox M) × (put_free node mb ≡ ok mb') × Holds mb' nodes (node ∷ frees) q
  unfolding put_free
  put_free-Holds {mb} node nodes frees q v ne out free = (
    record mb { next = assign mb.next node mb.list_free; list_free = node },
    rw (same mb.list_free, store-ok mb.next node mb.list_free ne),
    record {
      ring = record {
        handle = v.ring.handle;
        distinct = v.ring.distinct;
        chain =
            IsChain-assign mb.next node mb.list_free nodes (head_or nodes null) out v.ring.chain;
      };
      free = refl;
      free_distinct = (ne, free, v.free_distinct);
      free_chain = (
        assign_self mb.next node mb.list_free ∙ v.free,
        IsChain-assign mb.next node mb.list_free frees null free v.free_chain,
      );
      apart = λ a h. ground (arith, v.apart a h, ne_of_mem a node nodes h out);
      messages = v.messages;
    },
  )
    where
      same : (p : Ptr) → (if p == null then null else p) ≡ p
      same p = ground arith

  -- `LpelMailboxRecv` on a mailbox that holds messages returns the oldest and keeps the others in
  -- order; its node becomes the first free one.
  pub recv-head :
      {mb : Mailbox M} (node : Ptr) (nodes frees : List Ptr) (m : M) (q : List M)
      → Holds mb (node ∷ nodes) frees (m ∷ q)
      → (mb' : Mailbox M) × (recv mb ≡ ok (some (m, mb'))) × Holds mb' nodes (node ∷ frees) q
  unfolding recv receive_node
  recv-head {mb} node nodes frees m q v =
      let (mb₁, e₁, v₁, msg) = take_inbox-Taken node nodes frees m q v in
      let (mb₂, e₂, v₂) =
        put_free-Holds node nodes frees q v₁ v.ring.distinct.0 v.ring.distinct.1
          (v.apart node (mem-head node nodes)) in
      (
        mb₂,
        rw (e₁, load-ok mb₁.msg node v.ring.distinct.0, e₂, msg)
            (ap (λ z. ok (some (z, mb₂))) (cc v.messages)),
        v₂,
      )

  -- `LpelMailboxRecv` on a mailbox without messages waits for `notempty`.
  pub recv-waits : {mb : Mailbox M} (frees : List Ptr) → Holds mb [] frees [] → recv mb ≡ ok none
  unfolding recv receive_node take_inbox
  recv-waits frees v = rw v.ring.handle
