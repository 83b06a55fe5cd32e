-- ===== src/Hierarchy/Buffer/Refine.antt =====
-- The buffer of hrc_buffer.c as an unbounded queue of items.
use lpel.Base.{
  ◌≡◌, ◌≢◌, refl, ap, sym, subst, ◌∙◌, arith, none, some, List, [], ◌∷◌, ◌++◌, map, Ptr, null, ◌==◌,
  length, head_or, last_or, assign, assign_self, assign_ne, ==_of_ne, load-ok, store-ok, ◌∉◌,
  Distinct, IsChain, map-assign, map-snoc, mem-last, ne_of_mem, ne_null_of_mem, IsChain-assign,
  last_or-append, IsChain-append, IsChain-assign_last, Distinct-append,
}
use lpel.Base.Run.{ok}
use lpel.Decen.Buffer.Refine.{AllItems, AllItems-append}
use lpel.Hierarchy.Buffer.{Buffer, init, top, pop, put, is_empty}

-- The buffer holds the items `q`, oldest first: the dummy entry `dummy` leads through the entries
-- `cells`, which hold them, to NULL.
pub record Holds (buf : Buffer) (dummy : Ptr) (cells : List Ptr) (q : List Ptr) : Type 0 where
  pub head : buf.head ≡ dummy
  pub tail : buf.tail ≡ last_or cells dummy
  pub distinct : Distinct (dummy ∷ cells)
  pub chain : IsChain buf.next (dummy ∷ cells) null
  pub content : map buf.data_at cells ≡ q
  pub items : AllItems q

-- `LpelBufferInit` with a new entry makes a buffer that holds no item.
pub init-linked :
    (fresh : Ptr) (data_at next : Ptr → Ptr)
    → fresh ≢ null
    → (buf : Buffer) × (init fresh data_at next ≡ ok buf) × Holds buf fresh [] []
unfolding init
init-linked fresh data_at next ne = (
  record {
    next = assign next fresh null;
    data_at = assign data_at fresh null;
    head = fresh;
    tail = fresh;
  },
  rw (store-ok data_at fresh null ne, store-ok next fresh null ne),
  record {
    head = refl;
    tail = refl;
    distinct = (ne, refl, tt);
    chain = (assign_self next fresh null, tt);
    content = refl;
    items = tt;
  },
)

module _ {buf : Buffer} {dummy : Ptr} {q : List Ptr} where
  head-ne_null : (cells : List Ptr) → Holds buf dummy cells q → buf.head ≢ null
  head-ne_null cells v e = v.distinct.0 (sym v.head ∙ e)

  first : (cells : List Ptr) → Holds buf dummy cells q → buf.next buf.head ≡ head_or cells null
  first cells v = ap buf.next v.head ∙ v.chain.0

  -- On a buffer that holds the items `q`, `LpelBufferTop` returns the oldest, NULL without one.
  pub top-linked : (cells : List Ptr) → Holds buf dummy cells q → top buf ≡ ok (head_or q null)
  unfolding top
  top-linked [] v = rw (load-ok buf.next buf.head (head-ne_null [] v), first [] v, ← v.content)
  top-linked (x ∷ cells) v = rw (
    load-ok buf.next buf.head (head-ne_null (x ∷ cells) v),
    first (x ∷ cells) v,
    ==_of_ne x null v.distinct.2.0,
    load-ok buf.data_at x v.distinct.2.0,
    ← v.content,
  )

  -- On a buffer that holds the items `q`, `LpelBufferIsEmpty` tells whether there are none.
  pub is_empty-linked :
      (cells : List Ptr) → Holds buf dummy cells q → is_empty buf ≡ ok (length q == 0)
  unfolding is_empty
  is_empty-linked [] v = rw (load-ok buf.next buf.head (head-ne_null [] v), first [] v, ← v.content)
  is_empty-linked (x ∷ cells) v =
      rw
        (
          load-ok buf.next buf.head (head-ne_null (x ∷ cells) v),
          first (x ∷ cells) v,
          ==_of_ne x null v.distinct.2.0,
          ← v.content,
        )
        (ground arith)

  -- `LpelBufferPop` of a buffer without items changes and frees nothing.
  pub pop_empty : Holds buf dummy [] q → pop buf ≡ ok (none, buf)
  unfolding pop
  pop_empty v = rw (load-ok buf.next buf.head (head-ne_null [] v), first [] v)

  linked :
      (fresh : Ptr) (cells : List Ptr)
      → Holds buf dummy cells q
      → fresh ≢ null
      → fresh ∉ dummy ∷ cells
      → IsChain
          (assign (assign buf.next fresh null) buf.tail fresh)
          ((dummy ∷ cells) ++ (fresh ∷ []))
          null
  linked fresh cells v ne out =
      let next' = assign buf.next fresh null in
      IsChain-append (assign next' buf.tail fresh) (dummy ∷ cells) (fresh ∷ []) null
        (subst (λ p. IsChain (assign next' p fresh) (dummy ∷ cells) fresh) (sym v.tail)
          (IsChain-assign_last next' fresh dummy cells null v.distinct
            (IsChain-assign buf.next fresh null (dummy ∷ cells) null out v.chain)))
        (assign_ne next' buf.tail fresh fresh away ∙ assign_self buf.next fresh null, tt)
    where
      away : fresh ≢ buf.tail
      away e =
          ne_of_mem (last_or cells dummy) fresh (dummy ∷ cells) (mem-last dummy cells) out
            (sym (e ∙ v.tail))

  -- On a buffer that holds the items `q`, `LpelBufferPut` of an item that is not NULL, with a new
  -- entry, returns with the item behind the others.
  pub put-linked :
      (fresh : Ptr) (cells : List Ptr) (item : Ptr)
      → Holds buf dummy cells q
      → fresh ≢ null
      → fresh ∉ dummy ∷ cells
      → item ≢ null
      → (buf' : Buffer) × (put fresh buf item ≡ ok buf')
        × Holds buf' dummy (cells ++ (fresh ∷ [])) (q ++ (item ∷ []))
  unfolding put
  put-linked fresh cells item v ne out ok_item =
      let data' = assign buf.data_at fresh item in
      let next' = assign buf.next fresh null in
      let tail : buf.tail ≢ null = λ e.
        ne_null_of_mem (last_or cells dummy) (dummy ∷ cells) v.distinct (mem-last dummy cells)
          (sym v.tail ∙ e) in
      let next'' = assign next' buf.tail fresh in
      (
        record buf { next = next''; data_at = data'; tail = fresh },
        rw (
          ==_of_ne item null ok_item,
          store-ok buf.data_at fresh item ne,
          store-ok buf.next fresh null ne,
          store-ok next' buf.tail fresh tail,
          load-ok next'' buf.tail tail,
          assign_self next' buf.tail fresh,
        ),
        record {
          head = v.head;
          tail = sym (last_or-append cells (fresh ∷ []) dummy);
          distinct =
              Distinct-append (dummy ∷ cells) (fresh ∷ []) v.distinct (ne, refl, tt)
                (λ a h. ground (arith, ne_of_mem a fresh (dummy ∷ cells) h out));
          chain = linked fresh cells v ne out;
          content =
              map-snoc data' cells fresh
              ∙ rw (
                map-assign buf.data_at fresh item cells (ground arith),
                assign_self buf.data_at fresh item,
                v.content,
              );
          items = AllItems-append q item v.items ok_item;
        },
      )

-- On a buffer that holds an item, `LpelBufferPop` drops the oldest, keeps the others in order and
-- frees the dummy entry, which no entry of the buffer is.
pub pop-linked :
    {buf : Buffer} {dummy : Ptr} (x : Ptr) (cells : List Ptr) (item : Ptr) (q : List Ptr)
    → Holds buf dummy (x ∷ cells) (item ∷ q)
    → (buf' : Buffer) × (pop buf ≡ ok (some dummy, buf'))
      × Holds buf' x cells q
      × (dummy ∉ x ∷ cells)
unfolding pop
pop-linked {buf} {dummy} x cells item q v = (
  record buf { head = x },
  rw (
    load-ok buf.next buf.head (head-ne_null (x ∷ cells) v),
    first (x ∷ cells) v,
    ==_of_ne x null v.distinct.2.0,
    v.head,
  ),
  record {
    head = refl;
    tail = v.tail;
    distinct = v.distinct.2;
    chain = v.chain.1;
    content = cc v.content;
    items = v.items.1;
  },
  v.distinct.1,
)
