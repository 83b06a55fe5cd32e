-- ===== src/Streamset/Unlink.antt =====
-- Taking a descriptor out of a ring, as `LpelStreamsetRemove` and `LpelStreamIterRemove` do.
use lpel.Base.{
  ◌≡◌, ◌≢◌, ap, sym, subst, ◌∙◌, arith, inl, inr, List, [], ◌∷◌, ◌++◌, append-nil, Ptr, null, ◌==◌,
  if◌then◌else◌, head_or, last_or, assign, ==_of_ne, ==_self, Bool-cases, mem, ◌∈◌, ◌∉◌, Distinct,
  IsChain, Distinct-remove, mem-last, mem-head, ne_of_mem, ne_null_of_mem, IsChain-assign,
  last_or-append, IsChain-append, IsChain-left, IsChain-right, IsChain-last, IsChain-assign_last,
  Distinct-left, Distinct-right, Distinct-apart,
}
use lpel.Streamset.{Set}
use lpel.Streamset.Ring.{IsRing}

-- The links without `node`: those of `pre` lead on to `post`.
relink :
    (next : Ptr → Ptr) (node a : Ptr) (pre post : List Ptr) (stop : Ptr)
    → Distinct ((a ∷ pre) ++ (node ∷ post))
    → IsChain next ((a ∷ pre) ++ (node ∷ post)) stop
    → IsChain
        (assign (assign next (last_or pre a) (head_or post stop)) node null)
        ((a ∷ pre) ++ post)
        stop
relink next node a pre post stop d c =
    IsChain-append after (a ∷ pre) post stop
      (IsChain-assign step node null (a ∷ pre) (head_or post stop)
        (apart_left node (mem-head node post))
        (IsChain-assign_last next (head_or post stop) a pre node
          (Distinct-left (a ∷ pre) (node ∷ post) d)
          (IsChain-left next (a ∷ pre) (node ∷ post) stop c)))
      (IsChain-assign step node null post stop d_right.1 (
        IsChain-assign next (last_or pre a) (head_or post stop) post stop
          (not_right (last_or pre a)
            (Distinct-apart (a ∷ pre) (node ∷ post) d (last_or pre a) (mem-last a pre)))
          (IsChain-right next (a ∷ pre) (node ∷ post) stop c).1))
  where
    step : Ptr → Ptr
    step = assign next (last_or pre a) (head_or post stop)

    after : Ptr → Ptr
    after = assign step node null

    d_right : Distinct (node ∷ post)
    d_right = Distinct-right (a ∷ pre) (node ∷ post) d

    not_right : (b : Ptr) → b ∉ node ∷ post → b ∉ post
    not_right b h = ground (arith, h)

    apart_left : (b : Ptr) → b ∈ node ∷ post → b ∉ a ∷ pre
    apart_left b h = elim (Bool-cases (mem b (a ∷ pre))) [
      | inl k ↦ cc (h, Distinct-apart (a ∷ pre) (node ∷ post) d b k)
      | inr k ↦ k
    ]

moved_handle :
    (h node a : Ptr) (pre post : List Ptr)
    → h ≡ last_or (pre ++ (node ∷ post)) a
    → node ∉ post
    → (if h == node then last_or pre a else h) ≡ last_or (pre ++ post) a
moved_handle h node a pre [] e out =
    rw (e, last_or-append pre (node ∷ []) a, ==_self node)
      (ap (λ l. last_or l a) (sym (append-nil pre)))
moved_handle h node a pre (p ∷ post) e out = rw (
  e,
  last_or-append pre (node ∷ p ∷ post) a,
  last_or-append pre (p ∷ post) a,
  ==_of_ne (last_or post p) node (ne_of_mem (last_or post p) node (p ∷ post) (mem-last p post) out),
)

module _ {s : Set} {node p : Ptr} {post : List Ptr} (r : IsRing s (node ∷ p ∷ post)) where
  pub handle-ne_first : s.handle ≢ node
  handle-ne_first e =
      ne_of_mem (last_or post p) node (p ∷ post) (mem-last p post) r.distinct.1 (sym r.handle ∙ e)

  -- The first descriptor is taken out of several.
  pub first_out-IsRing :
      IsRing
        (record { next = assign (assign s.next s.handle p) node null; handle = s.handle })
        (p ∷ post)
  first_out-IsRing = record {
    handle = r.handle;
    distinct = r.distinct.2;
    chain =
        subst (λ h. IsChain (assign (assign s.next h p) node null) (p ∷ post) p) (sym r.handle)
          (IsChain-assign (assign s.next (last_or post p) p) node null (p ∷ post) p r.distinct.1
            (IsChain-assign_last s.next p p post node r.distinct.2 r.chain.1));
  }

-- The set after a descriptor behind `pre` has been taken out.
abbrev pub inner_out : Set → Ptr → Ptr → List Ptr → List Ptr → Set
inner_out s node a pre post = record {
  next = assign (assign s.next (last_or pre a) (head_or post a)) node null;
  handle = if s.handle == node then last_or pre a else s.handle;
}

module _ {s : Set} (node a : Ptr) (pre post : List Ptr)
    (r : IsRing s ((a ∷ pre) ++ (node ∷ post))) where
  right : Distinct (node ∷ post)
  right = Distinct-right (a ∷ pre) (node ∷ post) r.distinct

  pub prev-not_mem : last_or pre a ∉ node ∷ post
  prev-not_mem = Distinct-apart (a ∷ pre) (node ∷ post) r.distinct (last_or pre a) (mem-last a pre)

  pub node-ne_null : node ≢ null
  node-ne_null = right.0

  pub prev-ne : last_or pre a ≢ node
  prev-ne = ground (arith, prev-not_mem)

  pub prev-ne_null : last_or pre a ≢ null
  prev-ne_null =
      ne_null_of_mem (last_or pre a) (a ∷ pre) (Distinct-left (a ∷ pre) (node ∷ post) r.distinct)
        (mem-last a pre)

  pub next-node : s.next node ≡ head_or post a
  next-node = (IsChain-right s.next (a ∷ pre) (node ∷ post) a r.chain).0

  pub next-prev : s.next (last_or pre a) ≡ node
  next-prev = IsChain-last s.next a pre node (IsChain-left s.next (a ∷ pre) (node ∷ post) a r.chain)

  pub handle-ne_prev : s.handle ≢ last_or pre a
  handle-ne_prev e =
      ne_of_mem (last_or post node) (last_or pre a) (node ∷ post) (mem-last node post) prev-not_mem
        (sym (r.handle ∙ last_or-append pre (node ∷ post) a) ∙ e)

  -- A descriptor behind others is taken out.
  pub inner_out-IsRing : IsRing (inner_out s node a pre post) ((a ∷ pre) ++ post)
  inner_out-IsRing = record {
    handle = moved_handle s.handle node a pre post r.handle right.1;
    distinct = Distinct-remove node (a ∷ pre) post r.distinct;
    chain = relink s.next node a pre post a r.distinct r.chain;
  }
