-- ===== src/Monitoring/Dirty.antt =====
-- modimpl/monitoring.c, MarkDirty and PrintDirtyList: the list of a task's dirty streams.
use lpel.Base.{
  ℕ, zero, suc, ◌≤◌, ◌≡◌, ◌≢◌, refl, ap, sym, subst, ◌∙◌, arith, inl, inr, Bool, true, false, List,
  [], ◌∷◌, ◌++◌, append-nil, append_assoc, Ptr, null, ◌==◌, if◌then◌else◌, length, head_or, assign,
  assign_self, assign_ne, ==_of_ne, ==_self, ==→eq, ==_false→ne, Bool-cases, ◌∈◌, ◌∉◌, Distinct,
  IsChain, mem-head, ne_of_mem, IsChain-frame,
}
use lpel.Base.Run.{ok}
use lpel.Monitoring.{
  dirty_end, print, Piece, no_events, renew, entry, keep_stream, print_dirty_from, Monitor,
  StreamState, in_use, opened, closed, replaced,
}

-- The objects of a task's list, the last one marked first; an object of the task that is not freed
-- and not in the list has no link.
pub record IsTracked (mt : Ptr) (xs : List Ptr) (m : Monitor) : Type 0 where
  pub head : m.dirty_list mt ≡ head_or xs dirty_end
  pub chain : IsChain m.dirty xs dirty_end
  pub distinct : Distinct xs
  pub no_end : dirty_end ∉ xs
  pub owned : (a : Ptr) → a ∈ xs → m.montask a ≡ mt
  pub clean : (a : Ptr) → m.montask a ≡ mt → a ∉ m.freed → a ∉ xs → m.dirty a ≡ null

-- The fields of a stream's object are the same.
pub record SameAt (a : Ptr) (m m' : Monitor) : Type 0 where
  pub montask : m'.montask a ≡ m.montask a
  pub dirty : m'.dirty a ≡ m.dirty a
  pub mode : m'.mode a ≡ m.mode a
  pub state : m'.state a ≡ m.state a
  pub sid : m'.sid a ≡ m.sid a
  pub counter : m'.counter a ≡ m.counter a
  pub flags : m'.strevt_flags a ≡ m.strevt_flags a

SameAt-trans : {a : Ptr} {m m' m'' : Monitor} → SameAt a m m' → SameAt a m' m'' → SameAt a m m''
SameAt-trans s t = record {
  montask = t.montask ∙ s.montask;
  dirty = t.dirty ∙ s.dirty;
  mode = t.mode ∙ s.mode;
  state = t.state ∙ s.state;
  sid = t.sid ∙ s.sid;
  counter = t.counter ∙ s.counter;
  flags = t.flags ∙ s.flags;
}

pub is_closed : StreamState → Bool
is_closed closed = true
is_closed opened = false
is_closed replaced = false
is_closed in_use = false

-- A turn of the loop in PrintDirtyList.
abbrev turn_of : Ptr → Ptr → Monitor → Monitor
turn_of file x m =
    renew (m.state x) x (record (print file (entry x m) m) { counter = assign m.counter x 0 })

keep_stream-SameAt : (x a : Ptr) (m : Monitor) → a ≢ x → SameAt a m (keep_stream x m)
unfolding keep_stream
keep_stream-SameAt x a m h = record {
  montask = refl;
  dirty = assign_ne m.dirty x a null h;
  mode = refl;
  state = assign_ne m.state x a in_use h;
  sid = refl;
  counter = refl;
  flags = assign_ne m.strevt_flags x a no_events h;
}

renew-SameAt : (s : StreamState) (x a : Ptr) (m : Monitor) → a ≢ x → SameAt a m (renew s x m)
unfolding renew
renew-SameAt closed x a m h = record {
  montask = refl;
  dirty = refl;
  mode = refl;
  state = refl;
  sid = refl;
  counter = refl;
  flags = refl;
}
renew-SameAt opened x a m h = keep_stream-SameAt x a m h
renew-SameAt replaced x a m h = keep_stream-SameAt x a m h
renew-SameAt in_use x a m h = keep_stream-SameAt x a m h

turn-SameAt : (file x a : Ptr) (m : Monitor) → a ≢ x → SameAt a m (turn_of file x m)
turn-SameAt file x a m h =
    SameAt-trans {m' = record (print file (entry x m) m) { counter = assign m.counter x 0 }}
      (record {
        montask = refl;
        dirty = refl;
        mode = refl;
        state = refl;
        sid = refl;
        counter = assign_ne m.counter x a 0 h;
        flags = refl;
      })
      (renew-SameAt (m.state x) x a _ h)

entry-SameAt : {a : Ptr} {m m' : Monitor} → SameAt a m m' → entry a m' ≡ entry a m
unfolding entry
entry-SameAt s = rw (s.sid, s.mode, s.state, s.counter, s.flags)

-- What the list prints, and which objects it releases.
abbrev pub entries : List Ptr → Monitor → List Piece
entries [] m = []
entries (x ∷ xs) m = entry x m ++ entries xs m

abbrev pub released : List Ptr → Monitor → List Ptr
released [] m = []
released (x ∷ xs) m = if is_closed (m.state x) then x ∷ released xs m else released xs m

module _ (m m' : Monitor) where
  entries_frame :
      (xs : List Ptr) → ((a : Ptr) → a ∈ xs → SameAt a m m') → entries xs m' ≡ entries xs m
  entries_frame [] same = refl
  entries_frame (x ∷ xs) same =
      rw (entry-SameAt (same x (mem-head x xs)))
        (rw (entries_frame xs (λ a h. same a (ground (arith, h)))) refl)

  released_frame :
      (xs : List Ptr) → ((a : Ptr) → a ∈ xs → SameAt a m m') → released xs m' ≡ released xs m
  released_frame [] same = refl
  released_frame (x ∷ xs) same =
      let s = same x (mem-head x xs) in
      rw s.state (rw (released_frame xs (λ a h. same a (ground (arith, h)))) refl)

-- What PrintDirtyList leaves of the objects in the list.
pub record IsReset (a : Ptr) (m m' : Monitor) : Type 0 where
  pub counter : m'.counter a ≡ 0
  pub state : is_closed (m.state a) ≡ false → m'.state a ≡ in_use
  pub dirty : is_closed (m.state a) ≡ false → m'.dirty a ≡ null
  pub flags : is_closed (m.state a) ≡ false → m'.strevt_flags a ≡ no_events

pub record IsPrinted (file : Ptr) (xs : List Ptr) (m m' : Monitor) : Type 0 where
  pub log : m'.log file ≡ m.log file ++ entries xs m
  pub freed : m'.freed ≡ m.freed ++ released xs m
  pub reset : (a : Ptr) → a ∈ xs → IsReset a m m'
  pub outside : (a : Ptr) → a ∉ xs → SameAt a m m'
  pub montask : m'.montask ≡ m.montask

renew-IsReset :
    (s : StreamState) (x : Ptr) (m : Monitor)
    → (is_closed s ≡ false
        → ((renew s x m).state x ≡ in_use)
          × ((renew s x m).dirty x ≡ null)
          × ((renew s x m).strevt_flags x ≡ no_events))
unfolding renew is_closed keep_stream
renew-IsReset closed x m h = cc
renew-IsReset opened x m h = (
  assign_self m.state x in_use,
  assign_self m.dirty x null,
  assign_self m.strevt_flags x no_events,
)
renew-IsReset replaced x m h = (
  assign_self m.state x in_use,
  assign_self m.dirty x null,
  assign_self m.strevt_flags x no_events,
)
renew-IsReset in_use x m h = (
  assign_self m.state x in_use,
  assign_self m.dirty x null,
  assign_self m.strevt_flags x no_events,
)

renew_rest :
    (s : StreamState) (x : Ptr) (m : Monitor)
    → ((renew s x m).counter ≡ m.counter)
      × ((renew s x m).log ≡ m.log)
      × ((renew s x m).montask ≡ m.montask)
      × ((renew s x m).freed ≡ m.freed ++ (if is_closed s then x ∷ [] else []))
unfolding renew is_closed keep_stream
renew_rest closed x m = (refl, refl, refl, refl)
renew_rest opened x m = (refl, refl, refl, sym (append-nil m.freed))
renew_rest replaced x m = (refl, refl, refl, sym (append-nil m.freed))
renew_rest in_use x m = (refl, refl, refl, sym (append-nil m.freed))

turn-IsReset : (file x : Ptr) (m : Monitor) → IsReset x m (turn_of file x m)
turn-IsReset file x m =
    let m1 : Monitor = record (print file (entry x m) m) { counter = assign m.counter x 0 } in
    record {
      counter = ap (λ f. f x) (renew_rest (m.state x) x m1).0 ∙ assign_self m.counter x 0;
      state = λ h. (renew-IsReset (m.state x) x m1 h).0;
      dirty = λ h. (renew-IsReset (m.state x) x m1 h).1;
      flags = λ h. (renew-IsReset (m.state x) x m1 h).2;
    }

if_append :
    (b : Bool) (x : Ptr) (xs : List Ptr)
    → (if b then x ∷ [] else []) ++ xs ≡ (if b then x ∷ xs else xs)
if_append true x xs = refl
if_append false x xs = refl

-- A turn and what the rest of the list leaves.
turn-IsPrinted :
    (file x : Ptr) (xs : List Ptr) (m m' : Monitor)
    → x ∉ xs
    → IsPrinted file xs (turn_of file x m) m'
    → IsPrinted file (x ∷ xs) m m'
turn-IsPrinted file x xs m m' out p =
    let m1 : Monitor = record (print file (entry x m) m) { counter = assign m.counter x 0 } in
    let r = renew_rest (m.state x) x m1 in
    let same = λ (a : Ptr) (h : a ∈ xs). turn-SameAt file x a m (ne_of_mem a x xs h out) in
    let t = turn-IsReset file x m in
    let o = p.outside x out in
    record {
      log =
          p.log
          ∙ ap (λ l. l file ++ entries xs (turn_of file x m)) r.1
          ∙ ap (λ l. l ++ entries xs (turn_of file x m))
              (assign_self m.log file (m.log file ++ entry x m))
          ∙ append_assoc (m.log file) (entry x m) (entries xs (turn_of file x m))
          ∙ ap (λ l. m.log file ++ (entry x m ++ l)) (entries_frame m (turn_of file x m) xs same);
      freed =
          p.freed
          ∙ ap (λ l. l ++ released xs (turn_of file x m)) r.3
          ∙ append_assoc m.freed (if is_closed (m.state x) then x ∷ [] else [])
              (released xs (turn_of file x m))
          ∙ ap (λ l. m.freed ++ ((if is_closed (m.state x) then x ∷ [] else []) ++ l))
              (released_frame m (turn_of file x m) xs same)
          ∙ ap (λ l. m.freed ++ l) (if_append (is_closed (m.state x)) x (released xs m));
      reset = λ a h. elim (Bool-cases (a == x)) [
        | inl e ↦
            subst (λ z. IsReset z m m') (sym (==→eq a x e))
              (record {
                counter = o.counter ∙ t.counter;
                state = λ k. o.state ∙ t.state k;
                dirty = λ k. o.dirty ∙ t.dirty k;
                flags = λ k. o.flags ∙ t.flags k;
              })
        | inr e ↦
            let k : a ∈ xs = ground (arith, h, e) in
            let s = same a k in
            let q = p.reset a k in
            record {
              counter = q.counter;
              state = λ c. q.state (ap is_closed s.state ∙ c);
              dirty = λ c. q.dirty (ap is_closed s.state ∙ c);
              flags = λ c. q.flags (ap is_closed s.state ∙ c);
            }
      ];
      outside = λ a h.
          SameAt-trans (turn-SameAt file x a m (==_false→ne a x (ground (arith, h))))
            (p.outside a (ground (arith, h)));
      montask = p.montask ∙ r.2;
    }

done : (file : Ptr) (m : Monitor) → IsPrinted file [] m m
done file m = record {
  log = sym (append-nil (m.log file));
  freed = sym (append-nil m.freed);
  reset = λ a h. cc;
  outside = λ a h. record {
    montask = refl;
    dirty = refl;
    mode = refl;
    state = refl;
    sid = refl;
    counter = refl;
    flags = refl;
  };
  montask = refl;
}

pub print_from-IsPrinted :
    (fuel : ℕ) (file mt : Ptr) (xs : List Ptr) (m : Monitor)
    → length xs ≤ fuel
    → IsChain m.dirty xs dirty_end
    → Distinct xs
    → dirty_end ∉ xs
    → ((a : Ptr) → a ∈ xs → m.montask a ≡ mt)
    → (m' : Monitor) × (print_dirty_from fuel file mt (head_or xs dirty_end) m ≡ ok m')
      × IsPrinted file xs m m'
unfolding print_dirty_from
print_from-IsPrinted zero file mt [] m k c d e o = (m, refl, done file m)
print_from-IsPrinted (suc fuel) file mt [] m k c d e o = (m, refl, done file m)
print_from-IsPrinted zero file mt (x ∷ xs) m k c d e o = absurd (omega arith)
print_from-IsPrinted (suc fuel) file mt (x ∷ xs) m k c d e o =
    let r =
      renew_rest (m.state x) x
        (record (print file (entry x m) m) { counter = assign m.counter x 0 }) in
    let same = λ (a : Ptr) (h : a ∈ xs). turn-SameAt file x a m (ne_of_mem a x xs h d.1) in
    let (m', run, p) =
      print_from-IsPrinted fuel file mt xs (turn_of file x m) (omega arith)
        (IsChain-frame m.dirty (turn_of file x m).dirty xs dirty_end (λ a h. (same a h).dirty) c.1)
        d.2 (ground (arith, e)) (λ a h. (same a h).montask ∙ o a (ground (arith, h))) in
    (
      m',
      rw
          (
            ==_of_ne x dirty_end (ne_of_mem x dirty_end (x ∷ xs) (mem-head x xs) e),
            o x (mem-head x xs),
            ==_self mt,
            c.0,
          )
          run,
      turn-IsPrinted file x xs m m' d.1 p,
    )
