-- ===== src/Decen/Taskqueue/Ends.antt =====
-- A queue and the tasks that it holds, first one first.
use lpel.Base.{
  ℕ, suc, ◌%◌, ◌^◌, ◌≡◌, ◌≢◌, refl, sym, ◌∙◌, arith, Bool, true, false, List, [], ◌∷◌, Ptr, null,
  length, head_or, last_or, ==_of_ne, ◌∉◌, Distinct, mem-last, ne_null_of_mem,
}
use lpel.Base.Run.{assert}
use lpel.Decen.Taskqueue.{Links, Queue, inc, dec, init, destroy}
use lpel.Decen.Taskqueue.Seg.{IsSeg}

pub record IsQueue (l : Links) (q : Queue) (xs : List Ptr) : Type 0 where
  pub head : q.head ≡ head_or xs null
  pub tail : q.tail ≡ last_or xs null
  pub count : q.count ≡ length xs % 2 ^ 32
  pub distinct : Distinct xs
  pub links : IsSeg l null xs null

-- A task that is in no queue.
abbrev pub IsFree : Links → Ptr → Type 0
IsFree l t = (l.prev t ≡ null) × (l.next t ≡ null)

-- Tasks other than those of `xs` keep their links.
abbrev pub SameOutside : List Ptr → Links → Links → Type 0
SameOutside xs l l' = (a : Ptr) → a ∉ xs → (l'.prev a ≡ l.prev a) × (l'.next a ≡ l.next a)

pub init-IsQueue : (l : Links) → IsQueue l init []
unfolding init
init-IsQueue l = record { head = refl; tail = refl; count = refl; distinct = tt; links = tt }

pub inc-mod : (n : ℕ) → inc (n % 2 ^ 32) ≡ suc n % 2 ^ 32
inc-mod n = omega arith

pub dec-mod : (n : ℕ) → dec (suc n % 2 ^ 32) ≡ n % 2 ^ 32
dec-mod n = omega arith

module _ {l : Links} {q : Queue} where
  pub head-ne_null : (x : Ptr) (xs : List Ptr) → IsQueue l q (x ∷ xs) → q.head ≢ null
  head-ne_null x xs v e = v.distinct.0 (sym v.head ∙ e)

  pub tail-ne_null : (x : Ptr) (xs : List Ptr) → IsQueue l q (x ∷ xs) → q.tail ≢ null
  tail-ne_null x xs v e =
      ne_null_of_mem (last_or xs x) (x ∷ xs) v.distinct (mem-last x xs) (sym v.tail ∙ e)

abbrev pub is_nil : List Ptr → Bool
is_nil [] = true
is_nil (x ∷ xs) = false

-- `LpelTaskqueueDestroy` of a queue returns when it holds no task; otherwise its assertion fails.
pub destroy-is_nil :
    {l : Links} {q : Queue} (xs : List Ptr) → IsQueue l q xs → destroy q ≡ assert (is_nil xs)
unfolding destroy
destroy-is_nil [] v = rw (v.head, v.tail)
destroy-is_nil (x ∷ xs) v = rw (==_of_ne _ null (head-ne_null x xs v))
