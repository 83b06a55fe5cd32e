-- ===== src/Mailbox/Send.antt =====
-- `LpelMailboxSend`.
use lpel.Base.{
  ◌≡◌, ◌≢◌, refl, ap, ◌∙◌, arith, inl, inr, Bool, true, false, List, [], ◌∷◌, ◌++◌, Ptr, null,
  head_or, assign, assign_self, ==_of_ne, Bool-cases, load-ok, store-ok, mem, ◌∈◌, ◌∉◌, map-assign,
  map-snoc, snoc_apart, mem-head, IsChain-assign,
}
use lpel.Base.Run.{ok}
use lpel.Streamset.Ring.{handle-ne_null, next-handle}
use lpel.Streamset.Put.{insert_last-IsRing}
use lpel.Mailbox.{Mailbox, get_free, put_inbox, send}
use lpel.Mailbox.Inv.{Holds, inbox-not_free}

abbrev pub is_nil : List Ptr → Bool
is_nil [] = true
is_nil (x ∷ xs) = false

abbrev pub tail : List Ptr → List Ptr
tail [] = []
tail (x ∷ xs) = xs

first_free_out :
    (x : Ptr) (nodes frees : List Ptr) → ((a : Ptr) → a ∈ nodes → a ∉ x ∷ frees) → x ∉ nodes
first_free_out x nodes frees apart = elim (Bool-cases (mem x nodes)) [
  | inl k ↦ cc (apart x k, mem-head x frees)
  | inr k ↦ k
]

-- A node that is in no list.
abbrev pub Unused : Ptr → List Ptr → List Ptr → Type 0
Unused node nodes frees = (node ≢ null) × (node ∉ nodes) × (node ∉ frees)

module _ {M : Type 0} where
  -- The node for a message: the first free one, or a new one.
  get_free-Unused :
      {mb : Mailbox M} (fresh : Ptr) (nodes frees : List Ptr) (q : List M)
      → Holds mb nodes frees q
      → Unused fresh nodes frees
      → (mb' : Mailbox M) × (get_free fresh mb ≡ ok (head_or frees fresh, mb'))
        × Holds mb' nodes (tail frees) q
        × Unused (head_or frees fresh) nodes (tail frees)
  unfolding get_free
  get_free-Unused {mb} fresh nodes [] q v new = (mb, rw v.free, v, new)
  get_free-Unused {mb} fresh nodes (x ∷ frees) q v new = (
    record mb { list_free = mb.next mb.list_free },
    rw (v.free, ==_of_ne x null v.free_distinct.0, load-ok mb.next x v.free_distinct.0),
    record {
      ring = v.ring;
      free = ap mb.next v.free ∙ v.free_chain.0;
      free_distinct = v.free_distinct.2;
      free_chain = v.free_chain.1;
      apart = λ a h. ground (arith, v.apart a h);
      messages = v.messages;
    },
    (v.free_distinct.0, first_free_out x nodes frees v.apart, v.free_distinct.1),
  )

  put_inbox-Holds :
      {mb : Mailbox M} (node : Ptr) (nodes frees : List Ptr) (q : List M)
      → Holds mb nodes frees q
      → Unused node nodes frees
      → (mb' : Mailbox M) × (put_inbox node mb ≡ ok (is_nil nodes, mb'))
        × Holds mb' (nodes ++ (node ∷ [])) frees (q ++ (mb.msg node ∷ []))
  unfolding put_inbox
  put_inbox-Holds {mb} node [] frees q v new = (
    record mb { next = assign mb.next node node; list_inbox = node },
    rw (v.ring.handle, store-ok mb.next node node new.0),
    record {
      ring = record {
        handle = refl;
        distinct = (new.0, refl, tt);
        chain = (assign_self mb.next node node, tt);
      };
      free = v.free;
      free_distinct = v.free_distinct;
      free_chain = IsChain-assign mb.next node node frees null new.2 v.free_chain;
      apart = λ a h. snoc_apart a node [] frees (v.apart a) new.2 h;
      messages = ap (λ z. z ++ (mb.msg node ∷ [])) v.messages;
    },
  )
  put_inbox-Holds {mb} node (x ∷ nodes) frees q v new =
      let ne = handle-ne_null v.ring in
      (
        record mb { next = assign (assign mb.next node x) mb.list_inbox node; list_inbox = node },
        rw (
          ==_of_ne mb.list_inbox null ne,
          load-ok mb.next mb.list_inbox ne,
          next-handle v.ring,
          store-ok mb.next node x new.0,
          store-ok (assign mb.next node x) mb.list_inbox node ne,
        ),
        record {
          ring = insert_last-IsRing node x nodes v.ring new.0 new.1;
          free = v.free;
          free_distinct = v.free_distinct;
          free_chain =
              IsChain-assign (assign mb.next node x) mb.list_inbox node frees null
                (inbox-not_free x nodes frees q v)
                (IsChain-assign mb.next node x frees null new.2 v.free_chain);
          apart = λ a h. snoc_apart a node (x ∷ nodes) frees (v.apart a) new.2 h;
          messages =
              map-snoc mb.msg (x ∷ nodes) node ∙ ap (λ z. z ++ (mb.msg node ∷ [])) v.messages;
        },
      )

  fill-Holds :
      {mb : Mailbox M} (node : Ptr) (m : M) (nodes frees : List Ptr) (q : List M)
      → Holds mb nodes frees q
      → node ∉ nodes
      → Holds (record mb { msg = assign mb.msg node m }) nodes frees q
  fill-Holds {mb} node m nodes frees q v out = record {
    ring = v.ring;
    free = v.free;
    free_distinct = v.free_distinct;
    free_chain = v.free_chain;
    apart = v.apart;
    messages = map-assign mb.msg node m nodes out ∙ v.messages;
  }

  -- `LpelMailboxSend` to a mailbox that holds the messages `q` returns with `m` behind them; it takes
  -- the first free node, or without one the new node of `malloc`, which is not NULL and in no list;
  -- it signals `notempty` exactly when there was no message.
  pub send-append :
      {mb : Mailbox M} (fresh : Ptr) (m : M) (nodes frees : List Ptr) (q : List M)
      → Holds mb nodes frees q
      → Unused fresh nodes frees
      → (mb' : Mailbox M) × (send fresh m mb ≡ ok (is_nil nodes, mb'))
        × Holds mb' (nodes ++ (head_or frees fresh ∷ [])) (tail frees) (q ++ (m ∷ []))
  unfolding send
  send-append {mb} fresh m nodes frees q v new =
      let node = head_or frees fresh in
      let (mb₁, e, v₁, new₁) = get_free-Unused fresh nodes frees q v new in
      let (mb₂, e₂, v₂) =
        put_inbox-Holds node nodes (tail frees) q (fill-Holds node m nodes (tail frees) q v₁ new₁.1)
          new₁ in
      (mb₂, rw (e, store-ok mb₁.msg node m new₁.0, e₂), rw (assign_self mb₁.msg node m) at v₂)
