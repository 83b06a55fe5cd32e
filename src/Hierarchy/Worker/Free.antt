-- ===== src/Hierarchy/Worker/Free.antt =====
-- src/sched/hierarchy/hrc_worker_op.c, LpelWorkerPutSd and LpelWorkerGetSd: the free stream
-- descriptors of a worker.
use lpel.Base.{
  zero, suc, ◌<◌, ◌≡◌, refl, subst, ◌∙◌, arith, true, false, List, [], ◌∷◌, ◌++◌, Ptr, null, length,
  head_or, last_or, assign, assign_self, ==_of_ne, ◌∉◌, Distinct, IsChain, apart_sym, mem-last,
  mem-head, IsChain-assign, IsChain-append, IsChain-left, IsChain-right, IsChain-assign_last,
  Distinct-left, Distinct-right, Distinct-apart,
}
use lpel.Base.Run.{ok}
use lpel.Hierarchy.Task.{Tasks}
use lpel.Hierarchy.Worker.{Contexts, put_sd, get_sd, get_sd_from, is_unused}

-- The list of the free descriptors of the worker.
pub record IsFreeList (wc : Ptr) (xs : List Ptr) (x : Contexts) : Type 0 where
  pub head : x.free_sd wc ≡ head_or xs null
  pub links : IsChain x.next_sd xs null

not_mem_tail : (a x : Ptr) (xs : List Ptr) → a ∉ x ∷ xs → a ∉ xs
not_mem_tail a x xs h = ground arith

-- A link from the last object of a chain past the next object.
skip_link :
    (next : Ptr → Ptr) (a : Ptr) (pre : List Ptr) (sd : Ptr) (post : List Ptr)
    → Distinct ((a ∷ pre) ++ (sd ∷ post))
    → IsChain next ((a ∷ pre) ++ (sd ∷ post)) null
    → IsChain (assign (assign next (last_or pre a) (next sd)) sd null) ((a ∷ pre) ++ post) null
skip_link next a pre sd post d k =
    let left = IsChain-left next (a ∷ pre) (sd ∷ post) null k in
    let right = IsChain-right next (a ∷ pre) (sd ∷ post) null k in
    let dl = Distinct-left (a ∷ pre) (sd ∷ post) d in
    let dr = Distinct-right (a ∷ pre) (sd ∷ post) d in
    let apart = Distinct-apart (a ∷ pre) (sd ∷ post) d in
    let last_out = apart (last_or pre a) (mem-last a pre) in
    let sd_out = apart_sym (a ∷ pre) (sd ∷ post) apart sd (mem-head sd post) in
    IsChain-append (assign (assign next (last_or pre a) (next sd)) sd null) (a ∷ pre) post null
      (IsChain-assign (assign next (last_or pre a) (next sd)) sd null (a ∷ pre) (head_or post null)
        sd_out
        (subst (IsChain (assign next (last_or pre a) (next sd)) (a ∷ pre)) right.0
          (IsChain-assign_last next (next sd) a pre sd dl left)))
      (IsChain-assign (assign next (last_or pre a) (next sd)) sd null post null dr.1 (
        IsChain-assign next (last_or pre a) (next sd) post null
          (not_mem_tail (last_or pre a) sd post last_out) right.1))

-- `LpelWorkerPutSd` of a descriptor that is not in the list makes it the first of the list.
put_sd-IsFreeList :
    (wc sd : Ptr) (xs : List Ptr) (x : Contexts)
    → sd ∉ xs
    → Distinct xs
    → IsFreeList wc xs x
    → IsFreeList wc (sd ∷ xs) (put_sd wc sd x)
unfolding put_sd
put_sd-IsFreeList wc sd [] x out d f =
    rw f.head
      (record { head = assign_self x.free_sd wc sd; links = (assign_self x.next_sd sd null, tt) })
put_sd-IsFreeList wc sd (y ∷ xs) x out d f =
    rw (f.head, ==_of_ne y null d.0)
      (record {
        head = assign_self x.free_sd wc sd;
        links =
            (assign_self x.next_sd sd y, IsChain-assign x.next_sd sd y (y ∷ xs) null out f.links);
      })

module _ {D : Type 0} (m : Tasks D) where
  abbrev pub AllUsed : List Ptr → Type 0
  AllUsed [] = Unit
  AllUsed (y ∷ ys) = (is_unused m y ≡ false) × AllUsed ys

  get_sd_from-found :
      (fuel prev : Ptr) (pre : List Ptr) (sd : Ptr) (post : List Ptr) (x : Contexts)
      → Distinct (pre ++ (sd ∷ post))
      → IsChain x.next_sd (pre ++ (sd ∷ post)) null
      → AllUsed pre
      → is_unused m sd ≡ true
      → length pre < fuel
      → get_sd_from m fuel prev (head_or (pre ++ (sd ∷ post)) null) x
        ≡ ok (
          sd,
          record x {
            next_sd = assign (assign x.next_sd (last_or pre prev) (x.next_sd sd)) sd null;
          },
        )
  unfolding get_sd_from
  get_sd_from-found zero prev pre sd post x d k used free l = absurd (omega arith)
  get_sd_from-found (suc fuel) prev [] sd post x d k used free l =
      rw (==_of_ne sd null d.0, free) refl
  get_sd_from-found (suc fuel) prev (y ∷ pre) sd post x d k used free l =
      rw
        (
          ==_of_ne y null d.0,
          used.0,
          k.0,
          get_sd_from-found fuel y pre sd post x d.2 k.1 used.1 free (omega (arith, l)),
        )
        refl

  get_sd_from-none :
      (fuel prev : Ptr) (xs : List Ptr) (x : Contexts)
      → Distinct xs
      → IsChain x.next_sd xs null
      → AllUsed xs
      → length xs < fuel
      → get_sd_from m fuel prev (head_or xs null) x ≡ ok (null, x)
  unfolding get_sd_from
  get_sd_from-none zero prev xs x d k used l = absurd (omega arith)
  get_sd_from-none (suc fuel) prev [] x d k used l = refl
  get_sd_from-none (suc fuel) prev (y ∷ xs) x d k used l =
      rw
        (
          ==_of_ne y null d.0,
          used.0,
          k.0,
          get_sd_from-none fuel y xs x d.2 k.1 used.1 (omega (arith, l)),
        )
        refl

  -- `LpelWorkerGetSd` on a list of different free descriptors in which `sd` is the first that
  -- neither a task nor a stream uses returns `sd`, unlinked, and leaves the others in order, with more
  -- fuel than there are descriptors before `sd`.
  pub get_sd-first :
      (fuel wc : Ptr) (pre : List Ptr) (sd : Ptr) (post : List Ptr) (x : Contexts)
      → Distinct (pre ++ (sd ∷ post))
      → IsFreeList wc (pre ++ (sd ∷ post)) x
      → AllUsed pre
      → is_unused m sd ≡ true
      → length pre < fuel
      → (x' : Contexts) × (get_sd m fuel wc x ≡ ok (sd, x'))
        × IsFreeList wc (pre ++ post) x'
        × (x'.next_sd sd ≡ null)
  unfolding get_sd
  get_sd-first fuel wc [] sd post x d f used free l = (
    record x { free_sd = assign x.free_sd wc (x.next_sd sd); next_sd = assign x.next_sd sd null },
    rw (f.head, ==_of_ne sd null d.0, free) refl,
    record {
      head = assign_self x.free_sd wc (x.next_sd sd) ∙ f.links.0;
      links = IsChain-assign x.next_sd sd null post null d.1 f.links.1;
    },
    assign_self x.next_sd sd null,
  )
  get_sd-first fuel wc (a ∷ pre) sd post x d f used free l =
      let next = assign x.next_sd (last_or pre a) (x.next_sd sd) in
      (
        record x { next_sd = assign next sd null },
        rw
            (
              f.head,
              ==_of_ne a null d.0,
              used.0,
              f.links.0,
              get_sd_from-found fuel a pre sd post x d.2 f.links.1 used.1 free (omega (arith, l)),
            )
            refl,
        record { head = f.head; links = skip_link x.next_sd a pre sd post d f.links },
        assign_self next sd null,
      )

  -- `LpelWorkerGetSd` on a list of free descriptors that are all in use returns NULL and changes
  -- nothing.
  get_sd-none :
      (fuel wc : Ptr) (xs : List Ptr) (x : Contexts)
      → Distinct xs
      → IsFreeList wc xs x
      → AllUsed xs
      → length xs < fuel
      → get_sd m fuel wc x ≡ ok (null, x)
  unfolding get_sd
  get_sd-none fuel wc [] x d f used l = rw f.head refl
  get_sd-none fuel wc (y ∷ xs) x d f used l =
      rw
        (
          f.head,
          ==_of_ne y null d.0,
          used.0,
          f.links.0,
          get_sd_from-none fuel y xs x d.2 f.links.1 used.1 (omega (arith, l)),
        )
        refl
