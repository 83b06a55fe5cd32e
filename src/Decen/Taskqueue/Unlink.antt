-- ===== src/Decen/Taskqueue/Unlink.antt =====
-- A task is taken out of the middle of a queue, as `LpelTaskqueueIterateRemove` does.
use lpel.Base.{
  suc, ◌%◌, ◌^◌, ◌≡◌, ◌≢◌, refl, ap, sym, ◌∙◌, arith, List, [], ◌∷◌, ◌++◌, Ptr, null, length,
  head_or, last_or, assign, length-append, ==_of_ne, load-ok, store-ok, ◌∈◌, ◌∉◌, Distinct,
  Distinct-remove, apart_sym, mem-last, mem-head, ne_null_of_mem, last_or-append, Distinct-left,
  Distinct-right, Distinct-apart,
}
use lpel.Base.Run.{ok}
use lpel.Decen.Taskqueue.{Links, Queue, dec, unlink}
use lpel.Decen.Taskqueue.Seg.{
  IsSeg, IsSeg_assign_next, IsSeg_assign_prev, IsSeg-append, IsSeg-left, IsSeg-right,
  IsSeg-assign_last, IsSeg-assign_first,
}
use lpel.Decen.Taskqueue.Ends.{IsQueue, dec-mod}

-- The links and the ends after the two relinking tests.
abbrev next_over : (Ptr → Ptr) → List Ptr → Ptr → Ptr → Ptr
next_over next [] n = next
next_over next (a ∷ pre) n = assign next (last_or pre a) n

abbrev prev_over : (Ptr → Ptr) → List Ptr → Ptr → Ptr → Ptr
prev_over prev [] p = prev
prev_over prev (b ∷ post) p = assign prev b p

abbrev head_over : Ptr → List Ptr → Ptr → Ptr
head_over head [] n = n
head_over head (a ∷ pre) n = head

abbrev tail_over : Ptr → List Ptr → Ptr → Ptr
tail_over tail [] p = p
tail_over tail (b ∷ post) p = tail

abbrev links_without : Links → Ptr → List Ptr → List Ptr → Links
links_without l t pre post = record {
  prev = assign (prev_over l.prev post (last_or pre null)) t null;
  next = assign (next_over l.next pre (head_or post null)) t null;
}

abbrev queue_without : Queue → List Ptr → List Ptr → Queue
queue_without q pre post = record {
  head = head_over q.head pre (head_or post null);
  tail = tail_over q.tail post (last_or pre null);
  count = dec q.count;
}

module _ (l : Links) (t : Ptr) where
  next_over-left :
      (before : Ptr) (pre : List Ptr) (n : Ptr)
      → Distinct pre
      → IsSeg l before pre t
      → IsSeg (record l { next = next_over l.next pre n }) before pre n
  next_over-left before [] n d s = tt
  next_over-left before (a ∷ pre) n d s = IsSeg-assign_last l n before a pre t d s

  prev_over-right :
      (post : List Ptr) (p : Ptr)
      → Distinct post
      → IsSeg l t post null
      → IsSeg (record l { prev = prev_over l.prev post p }) p post null
  prev_over-right [] p d s = tt
  prev_over-right (b ∷ post) p d s = IsSeg-assign_first l p t b post null d s

prev_over-out :
    (l : Links) (before : Ptr) (xs : List Ptr) (after : Ptr) (post : List Ptr) (p : Ptr)
    → ((a : Ptr) → a ∈ post → a ∉ xs)
    → IsSeg l before xs after
    → IsSeg (record l { prev = prev_over l.prev post p }) before xs after
prev_over-out l before xs after [] p out s = s
prev_over-out l before xs after (b ∷ post) p out s =
    IsSeg_assign_prev l b p before xs after (out b (mem-head b post)) s

next_over-out :
    (l : Links) (before : Ptr) (xs : List Ptr) (after : Ptr) (pre : List Ptr) (n : Ptr)
    → ((a : Ptr) → a ∈ pre → a ∉ xs)
    → IsSeg l before xs after
    → IsSeg (record l { next = next_over l.next pre n }) before xs after
next_over-out l before xs after [] n out s = s
next_over-out l before xs after (a ∷ pre) n out s =
    IsSeg_assign_next l (last_or pre a) n before xs after (out (last_or pre a) (mem-last a pre)) s

clear-out :
    (l : Links) (t before : Ptr) (xs : List Ptr) (after : Ptr)
    → t ∉ xs
    → IsSeg l before xs after
    → IsSeg (record { prev = assign l.prev t null; next = assign l.next t null }) before xs after
clear-out l t before xs after out s =
    IsSeg_assign_next (record l { prev = assign l.prev t null }) t null before xs after out
      (IsSeg_assign_prev l t null before xs after out s)

module _ (l : Links) (t : Ptr) (pre post : List Ptr) (d : Distinct (pre ++ (t ∷ post))) where
  apart : (a : Ptr) → a ∈ pre → a ∉ t ∷ post
  apart = Distinct-apart pre (t ∷ post) d

  d_post : Distinct (t ∷ post)
  d_post = Distinct-right pre (t ∷ post) d

  t_out : t ∉ pre
  t_out = apart_sym pre (t ∷ post) apart t (mem-head t post)

  links_without-IsSeg :
      IsSeg l null (pre ++ (t ∷ post)) null
      → IsSeg (links_without l t pre post) null (pre ++ post) null
  links_without-IsSeg s =
      let n = head_or post null in
      let p = last_or pre null in
      let right = IsSeg-right l null pre (t ∷ post) null s in
      IsSeg-append (links_without l t pre post) null pre post null
        (clear-out _ t null pre n t_out (
          prev_over-out _ null pre n post p (λ a h. apart_sym pre (t ∷ post) apart a (ground arith))
            (next_over-left l t null pre n (Distinct-left pre (t ∷ post) d)
              (IsSeg-left l null pre (t ∷ post) null s))))
        (clear-out _ t p post null d_post.1 (
          next_over-out _ p post null pre n (λ a h. ground (arith, apart a h))
            (prev_over-right l t post p d_post.2 right.2)))

last-ne_null :
    {l : Links} {q : Queue} (t a : Ptr) (pre post : List Ptr)
    → IsQueue l q ((a ∷ pre) ++ (t ∷ post))
    → last_or pre a ≢ null
last-ne_null t a pre post v =
    ne_null_of_mem (last_or pre a) (a ∷ pre) (Distinct-left (a ∷ pre) (t ∷ post) v.distinct)
      (mem-last a pre)

head_over-head :
    (head t : Ptr) (pre post : List Ptr)
    → head ≡ head_or (pre ++ (t ∷ post)) null
    → head_over head pre (head_or post null) ≡ head_or (pre ++ post) null
head_over-head head t [] post e = refl
head_over-head head t (a ∷ pre) post e = e

tail_over-tail :
    (tail t : Ptr) (pre post : List Ptr)
    → tail ≡ last_or (pre ++ (t ∷ post)) null
    → tail_over tail post (last_or pre null) ≡ last_or (pre ++ post) null
tail_over-tail tail t pre [] e = sym (last_or-append pre [] null)
tail_over-tail tail t pre (b ∷ post) e =
    e ∙ last_or-append pre (t ∷ b ∷ post) null ∙ sym (last_or-append pre (b ∷ post) null)

length-without :
    (t : Ptr) (pre post : List Ptr) → length (pre ++ (t ∷ post)) ≡ suc (length (pre ++ post))
length-without t pre post = omega (arith, length-append pre (t ∷ post), length-append pre post)

unlink-run :
    {l : Links} {q : Queue} (t : Ptr) (pre post : List Ptr)
    → IsQueue l q (pre ++ (t ∷ post))
    → unlink t l q ≡ ok (links_without l t pre post, queue_without q pre post)
unfolding unlink
unlink-run {l} {q} t [] [] v =
    let ne = v.distinct.0 in
    rw (
      load-ok l.prev t ne,
      load-ok l.next t ne,
      v.links.0,
      v.links.1,
      store-ok l.prev t null ne,
      store-ok l.next t null ne,
    )
unlink-run {l} {q} t [] (b ∷ post) v =
    let ne = v.distinct.0 in
    let b_ok = v.distinct.2.0 in
    rw (
      load-ok l.prev t ne,
      load-ok l.next t ne,
      v.links.0,
      v.links.1,
      ==_of_ne b null b_ok,
      store-ok l.prev b null b_ok,
      store-ok (assign l.prev b null) t null ne,
      store-ok l.next t null ne,
    )
unlink-run {l} {q} t (a ∷ pre) [] v =
    let right = IsSeg-right l null (a ∷ pre) (t ∷ []) null v.links in
    let ne = (d_post l t (a ∷ pre) [] v.distinct).0 in
    let p = last_or pre a in
    let p_ok = last-ne_null t a pre [] v in
    rw (
      load-ok l.prev t ne,
      load-ok l.next t ne,
      right.0,
      right.1,
      ==_of_ne p null p_ok,
      store-ok l.next p null p_ok,
      store-ok l.prev t null ne,
      store-ok (assign l.next p null) t null ne,
    )
unlink-run {l} {q} t (a ∷ pre) (b ∷ post) v =
    let right = IsSeg-right l null (a ∷ pre) (t ∷ b ∷ post) null v.links in
    let d_right = d_post l t (a ∷ pre) (b ∷ post) v.distinct in
    let ne = d_right.0 in
    let b_ok = d_right.2.0 in
    let p = last_or pre a in
    let p_ok = last-ne_null t a pre (b ∷ post) v in
    rw (
      load-ok l.prev t ne,
      load-ok l.next t ne,
      right.0,
      right.1,
      ==_of_ne p null p_ok,
      store-ok l.next p b p_ok,
      ==_of_ne b null b_ok,
      store-ok l.prev b p b_ok,
      store-ok (assign l.prev b p) t null ne,
      store-ok (assign l.next p b) t null ne,
    )

-- The queue without the task `t`, when it stands between `pre` and `post`.
pub unlink-IsQueue :
    {l : Links} {q : Queue} (t : Ptr) (pre post : List Ptr)
    → IsQueue l q (pre ++ (t ∷ post))
    → (l' : Links) × (q' : Queue) × (unlink t l q ≡ ok (l', q')) × IsQueue l' q' (pre ++ post)
unlink-IsQueue {l} {q} t pre post v = (
  links_without l t pre post,
  queue_without q pre post,
  unlink-run t pre post v,
  record {
    head = head_over-head q.head t pre post v.head;
    tail = tail_over-tail q.tail t pre post v.tail;
    count =
        ap dec v.count
        ∙ ap (λ n. dec (n % 2 ^ 32)) (length-without t pre post)
        ∙ dec-mod (length (pre ++ post));
    distinct = Distinct-remove t pre post v.distinct;
    links = links_without-IsSeg l t pre post v.distinct v.links;
  },
)
