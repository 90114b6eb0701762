-- ===== src/Ring/Refine.antt =====
-- LockFreeCircleQueue.h against a first-in first-out queue of bounded length.
use ranking_server.Base.{
  ℕ, ◌+◌, ◌≡◌, refl, ap, inl, inr, ◌∙◌, List, [], ◌∷◌, ◌++◌, Bool, true, false, ◌==◌, if◌then◌else◌,
  length, Bool-cases, ==_of_ne, ==_iff, ◌≢◌, ne_of_==,
}
use ranking_server.Ring.{Ring, push, pop, next_index, printed}
use ranking_server.Ring.Contents.{
  length-printed, full-size, push_full, push_room, pop_empty, pop_some, printed-empty,
  printed-stored, printed-advanced,
}
use ranking_server.Ring.Bounds.{IsValid, push-IsValid, pop-IsValid, max_size-push, max_size-pop}

-- The specification: a list, oldest item first, that never reaches `cap` items.
abbrev pub fifo_push {ℓ} : {A : Type ℓ} → ℕ → List A → A → Bool × List A
fifo_push cap q x = if length q + 1 == cap then (false, q) else (true, q ++ (x ∷ []))

abbrev pub fifo_pop {ℓ} : {A : Type ℓ} → A → List A → A × List A
fifo_pop null [] = (null, [])
fifo_pop null (x ∷ q) = (x, q)

module _ {ℓ} {A : Type ℓ} (null : A) where
  -- What `print` shows of a valid queue is its content: `push` and `pop` act on it as on a list.
  pub push_refines :
      (r : Ring A) (x : A)
      → IsValid r
      → let (b, r') = push r x in (b, printed null r') ≡ fifo_push r.max_size (printed null r) x
  push_refines r x v = elim (Bool-cases (next_index r r.input == r.output)) [
    | inl full ↦ rw (push_full r x full, length-printed null r, ← full-size null r v, full)
    | inr room ↦
        rw (push_room r x room, length-printed null r, ← full-size null r v, room)
          (ap (λ q. (true, q)) (printed-stored null r x v (ne_of_== room)))
  ]

  pub pop_refines :
      (r : Ring A)
      → IsValid r
      → let (a, r') = pop null r in (a, printed null r') ≡ fifo_pop null (printed null r)
  pop_refines r v = elim (Bool-cases (r.output == r.input)) [
    | inl none_left ↦ rw (pop_empty null r none_left, printed-empty null r none_left)
    | inr some_left ↦ rw (pop_some null r some_left, printed-advanced null r v (ne_of_== some_left))
  ]

module _ {ℓ} {A : Type ℓ} (null : A) (r : Ring A) (x : A) (v : IsValid r) where
  -- With room, `push` adds the item; without, it changes nothing.
  pub printed-push_room :
      length (printed null r) + 1 ≢ r.max_size
      → printed null (push r x).1 ≡ printed null r ++ (x ∷ [])
  printed-push_room h = ap (λ t. t.1) (push_refines null r x v) ∙ rw (==_of_ne h)

  pub printed-push_full :
      length (printed null r) + 1 ≡ r.max_size → printed null (push r x).1 ≡ printed null r
  printed-push_full h = ap (λ t. t.1) (push_refines null r x v) ∙ rw ((==_iff _ _).1 h)

-- Calls of one thread, and what they return.
pub data Call {ℓ} (A : Type ℓ) : Type ℓ where
  pushes : A → Call A
  pops : Call A

pub data Reply {ℓ} (A : Type ℓ) : Type ℓ where
  pushed : Bool → Reply A
  popped : A → Reply A

module _ {ℓ} {A : Type ℓ} (null : A) where
  abbrev pub replies : Ring A → List (Call A) → List (Reply A)
  replies r [] = []
  replies r (pushes x ∷ cs) = let (b, r') = push r x in pushed b ∷ replies r' cs
  replies r (pops ∷ cs) = let (a, r') = pop null r in popped a ∷ replies r' cs

  abbrev pub fifo_replies : ℕ → List A → List (Call A) → List (Reply A)
  fifo_replies cap q [] = []
  fifo_replies cap q (pushes x ∷ cs) =
      let (b, q') = fifo_push cap q x in pushed b ∷ fifo_replies cap q' cs
  fifo_replies cap q (pops ∷ cs) =
      let (a, q') = fifo_pop null q in popped a ∷ fifo_replies cap q' cs

  -- A valid queue answers every sequence of push and pop calls of one thread as the list of its
  -- items does: first in, first out, at most capacity() - 1 items, T() from the empty queue.
  pub replies_refine :
      (cs : List (Call A)) (r : Ring A)
      → IsValid r
      → replies r cs ≡ fifo_replies r.max_size (printed null r) cs
  replies_refine [] r v = refl
  replies_refine (pushes x ∷ cs) r v =
      ap (λ l. pushed (push r x).0 ∷ l)
        (replies_refine cs (push r x).1 (push-IsValid r x v)
          ∙ ap (λ m. fifo_replies m (printed null (push r x).1) cs) (max_size-push r x))
      ∙ ap (λ t. pushed t.0 ∷ fifo_replies r.max_size t.1 cs) (push_refines null r x v)
  replies_refine (pops ∷ cs) r v =
      ap (λ l. popped (pop null r).0 ∷ l)
        (replies_refine cs (pop null r).1 (pop-IsValid null r v)
          ∙ ap (λ m. fifo_replies m (printed null (pop null r).1) cs) (max_size-pop null r))
      ∙ ap (λ t. popped t.0 ∷ fifo_replies r.max_size t.1 cs) (pop_refines null r v)
