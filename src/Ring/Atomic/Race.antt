-- ===== src/Ring/Atomic/Race.antt =====
-- LockFreeCircleQueue.h under two threads in the same function, as NetworkManager.cpp uses it: the
-- session threads all pop from and push to one queue of overlapped structures.
use ranking_server.Base.{
  ℕ, zero, suc, ◌≡◌, ◌≢◌, refl, inl, inr, List, [], ◌∷◌, ◌++◌, Bool, true, false, ◌==◌, get_or,
  set-set, ==_of_ne, Bool-cases,
}
use ranking_server.Ring.{Ring, next_index, printed, push, pop}
use ranking_server.Ring.Bounds.{IsValid}
use ranking_server.Ring.Contents.{
  printed-stored, printed-advanced, push_full, push_room, pop_empty, pop_some,
}
use ranking_server.Ring.Atomic.{
  Pusher, load_input, returned, Popper, load_output, popped, push_step, pop_step,
}

-- Each thread makes its loads and tests, then its access to the cell, then its store.
abbrev pub lockstep : List Bool
lockstep = true ∷ true ∷ false ∷ false ∷ true ∷ false ∷ true ∷ false ∷ []

module _ {ℓ} {A : Type ℓ} where
  -- A thread that makes `n` accesses with no other thread in between.
  unfoldable pub push_alone : ℕ → Ring A → Pusher A → Ring A × Pusher A
  push_alone zero r p = (r, p)
  push_alone (suc n) r p = let (r', p') = push_step r p in push_alone n r' p'

  unfoldable pub pop_alone : A → ℕ → Ring A → Popper A → Ring A × Popper A
  pop_alone null zero r q = (r, q)
  pop_alone null (suc n) r q = let (r', q') = pop_step null r q in pop_alone null n r' q'

  -- Two threads in `push`, by a schedule: `true` lets the first make an access.
  pub push_duel : Ring A → Pusher A → Pusher A → List Bool → Ring A × Pusher A × Pusher A
  push_duel r p q [] = (r, p, q)
  push_duel r p q (true ∷ ts) = let (r', p') = push_step r p in push_duel r' p' q ts
  push_duel r p q (false ∷ ts) = let (r', q') = push_step r q in push_duel r' p q' ts

  unfoldable pub pop_duel :
      A → Ring A → Popper A → Popper A → List Bool → Ring A × Popper A × Popper A
  pop_duel null r p q [] = (r, p, q)
  pop_duel null r p q (true ∷ ts) = let (r', p') = pop_step null r p in pop_duel null r' p' q ts
  pop_duel null r p q (false ∷ ts) = let (r', q') = pop_step null r q in pop_duel null r' p q' ts

  -- Four accesses of a thread that is alone in push are one call: they return what push returns, and
  -- leave the queue that it leaves.
  pub push_alone-push :
      (r : Ring A) (x : A)
      → let (b, r') = push r x in push_alone 4 r (load_input x) ≡ (r', returned b)
  unfolding push_alone push_step
  push_alone-push r x = elim (Bool-cases (next_index r r.input == r.output)) [
    | inl full ↦ rw (push_full r x full, full)
    | inr room ↦ rw (push_room r x room, room)
  ]

  -- Four accesses of a thread that is alone in pop are one call: they return what pop returns, and
  -- leave the queue that it leaves.
  pub pop_alone-pop :
      (null : A) (r : Ring A)
      → let (a, r') = pop null r in pop_alone null 4 r load_output ≡ (r', popped a)
  unfolding pop_alone pop_step
  pop_alone-pop null r = elim (Bool-cases (r.output == r.input)) [
    | inl gone ↦ rw (pop_empty null r gone, gone)
    | inr some_left ↦ rw (pop_some null r some_left, some_left)
  ]

  -- Two threads that pop from a valid queue with an item in it may both be given the oldest item,
  -- which leaves the queue once.
  pub pop_race :
      (null : A) (r : Ring A)
      → IsValid r
      → r.output ≢ r.input
      → let oldest = get_or r.buffer r.output null in
        let (r', p, q) = pop_duel null r load_output load_output lockstep in
        (p ≡ popped oldest) × (q ≡ popped oldest) × (printed null r ≡ oldest ∷ printed null r')
  unfolding pop_duel pop_step
  pop_race null r v ne = rw (==_of_ne ne) (refl, refl, printed-advanced null r v ne)

  -- Two threads that push to a valid queue with room may both be told of success, while the item of
  -- one is lost.
  pub push_race :
      (null : A) (r : Ring A) (x y : A)
      → IsValid r
      → next_index r r.input ≢ r.output
      → let (r', p, q) = push_duel r (load_input x) (load_input y) lockstep in
        (p ≡ returned true) × (q ≡ returned true) × (printed null r' ≡ printed null r ++ (y ∷ []))
  unfolding push_duel push_step
  push_race null r x y v ne =
      rw (==_of_ne ne)
        (refl, refl, rw (set-set r.buffer r.input x y) (printed-stored null r y v ne))
