-- ===== src/Server/Threads/Advance.antt =====
-- One access of a session thread to what the threads share.
use ranking_server.Base.{
  ℕ, ◌+◌, ◌<◌, ◌≤◌, ◌≡◌, refl, ap, subst, ◌⊎◌, inl, inr, List, ◌∷◌, Option, none, some, Bool, true,
  false, ◌==◌, if◌then◌else◌, arith, length, length-set, Bool-cases, ne_of_==, ==_iff,
}
use ranking_server.Ring.{Ring, pop, printed}
use ranking_server.Ring.Bounds.{IsValid, push-IsValid, advance-IsValid}
use ranking_server.Ring.Contents.{pop_empty, pop_some, printed-advanced}
use ranking_server.Packet.{CustomOverlapped}
use ranking_server.Packet.Buffers
use ranking_server.Network.State.{Network, start}
use ranking_server.Network.Session.{remove_first}
use ranking_server.Network.Ownership.{count, count_free, owners, count_free-push}
use ranking_server.Network.Rounds.{count-remove_first}
use ranking_server.Network.Supply.{
  InRange, IsStocked, AllValid-get_elem?, AllValid-set, start-IsStocked,
}
use ranking_server.Network.Returns.{push-InRange}
use ranking_server.Server.Threads.{
  Program, stop, fault, pop_queue, look, hand_over, push_queue, find_client, ask, update, access,
  handed, pushed,
}
use ranking_server.Server.Threads.Typed.{Uses}

-- The structures held are in the store.
abbrev pub InStore : ℕ → List ℕ → Type 0
InStore m held = (p : ℕ) → 1 ≤ count p held → p < m

-- What an access leads to: what the thread holds then, with no structure given an owner more.
pub record Advances {W : Type 0} (held : List ℕ) (n : Network) (p' : Program W) (n' : Network)
    : Type 0 where
  pub held' : List ℕ
  pub typed : Uses held' p'
  pub stocked : IsStocked n'
  pub same : length n'.overlapped ≡ length n.overlapped
  pub within : InStore (length n.overlapped) held'
  pub owned : (p : ℕ) → count p held' + owners p n' ≤ count p held + owners p n

-- The ends of a program: of the round, or in undefined behaviour of the thread's own, or by the null
-- pointer that `pop` gives of an empty queue.
abbrev pub Ends : {W : Type 0} → Program W → Network → Type 0
Ends stop n = Unit {0}
Ends fault n = Unit {0}
Ends (pop_queue k) n = n.overlapped_queue.output ≡ n.overlapped_queue.input
Ends (look p k) n = 1 ≤ 0
Ends (hand_over p o accepted sent k) n = 1 ≤ 0
Ends (push_queue p o k) n = 1 ≤ 0
Ends (find_client id k) n = 1 ≤ 0
Ends (ask k) n = 1 ≤ 0
Ends (update f k) n = 1 ≤ 0

pub access-Ends :
    {W : Type 0} (p : Program W) (n : Network) (w : W) → Ends p n → access p (n, w) ≡ none
unfolding access
access-Ends stop n w h = refl
access-Ends fault n w h = refl
access-Ends (pop_queue k) n w h = rw (pop_empty none n.overlapped_queue ((==_iff _ _).1 h)) refl
access-Ends (look p k) n w h = absurd (omega arith)
access-Ends (hand_over p o accepted sent k) n w h = absurd (omega arith)
access-Ends (push_queue p o k) n w h = absurd (omega arith)
access-Ends (find_client id k) n w h = absurd (omega arith)
access-Ends (ask k) n w h = absurd (omega arith)
access-Ends (update f k) n w h = absurd (omega arith)

remove_first-InStore :
    (m q : ℕ) (held : List ℕ) → InStore m held → 1 ≤ count q held → InStore m (remove_first q held)
remove_first-InStore m q held h k p j = h p (omega (arith, count-remove_first q p held k))

handed-owners :
    (q p : ℕ) (o : CustomOverlapped) (accepted : Bool) (sent : List (ℕ × List ℕ)) (n : Network)
    → owners p (handed q o accepted sent n) ≤ (if q == p then 1 else 0) + owners p n
unfolding start
handed-owners q p o true sent n = omega arith
handed-owners q p o false sent n = omega arith

handed-IsStocked :
    (q : ℕ) (o : CustomOverlapped) (accepted : Bool) (sent : List (ℕ × List ℕ)) (n : Network)
    → IsStocked n
    → Buffers.IsValid o
    → IsStocked (handed q o accepted sent n)
handed-IsStocked q o accepted sent n s v =
    let k = start-IsStocked n q o accepted s v in
    record { queue = k.queue; structures = k.structures; free = k.free }

pushed-IsStocked :
    (q : ℕ) (o : CustomOverlapped) (n : Network)
    → IsStocked n
    → Buffers.IsValid o
    → q < length n.overlapped
    → IsStocked (pushed q o n)
pushed-IsStocked q o n s v h = record {
  queue = push-IsValid n.overlapped_queue (some q) s.queue;
  structures = AllValid-set n.overlapped q o s.structures v;
  free =
      rw (length-set n.overlapped q o)
        (push-InRange (length n.overlapped) q n.overlapped_queue s.queue s.free h);
}

module _ {W : Type 0} (held : List ℕ) (n : Network) (w : W) (s : IsStocked n)
    (within : InStore (length n.overlapped) held) where
  -- An access has a result, or is the end of the program.
  abbrev Outcome : Program W → Type 0
  Outcome p =
      Ends p n
      ⊎ ((r : Program W × Network × W) × (access p (n, w) ≡ some r) × Advances held n r.0 r.1)

  stays : (p : Program W) → Uses held p → Advances held n p n
  stays p u = record {
    held' = held;
    typed = u;
    stocked = s;
    same = refl;
    within = within;
    owned = λ q. omega arith;
  }

  pop_front :
      (k : ℕ → Program W) (front : Option ℕ) (rest : Ring (Option ℕ))
      → ((p : ℕ) → Uses (p ∷ held) (k p))
      → pop none n.overlapped_queue ≡ (front, rest)
      → IsValid rest
      → printed none n.overlapped_queue ≡ front ∷ printed none rest
      → Outcome (pop_queue k)
  unfolding access
  pop_front k none rest u e v shown =
      absurd (omega (arith, subst (InRange (length n.overlapped)) shown s.free))
  pop_front k (some p) rest u e v shown =
      let free = subst (InRange (length n.overlapped)) shown s.free in
      inr (
        (k p, record n { overlapped_queue = rest }, w),
        rw e refl,
        record {
          held' = p ∷ held;
          typed = u p;
          stocked = record { queue = v; structures = s.structures; free = free.1 };
          same = refl;
          within = λ q j. ground (arith, within q, free.0);
          owned = λ q. omega (arith, ap (count_free q) shown);
        },
      )

  pub access-Advances : (p : Program W) → Uses held p → Outcome p
  unfolding access
  access-Advances stop u = inl tt
  access-Advances fault u = inl tt
  access-Advances (pop_queue k) u =
      let q = n.overlapped_queue in
      elim (Bool-cases (q.output == q.input)) [
        | inl gone ↦ inl ((==_iff _ _).0 gone)
        | inr left ↦
            pop_front k _ _ u (pop_some none q left) (advance-IsValid q s.queue)
              (printed-advanced none q s.queue (ne_of_== left))
      ]
  access-Advances (look p k) u =
      let (o, found, fine) = AllValid-get_elem? n.overlapped p s.structures (within p u.0) in
      inr ((k o, n, w), rw found refl, stays (k o) (u.1 o fine))
  access-Advances (hand_over p o accepted sent k) u = inr (
    (k, handed p o accepted sent n, w),
    refl,
    record {
      held' = remove_first p held;
      typed = u.2;
      stocked = handed-IsStocked p o accepted sent n s u.1;
      same = unfold start in (length-set n.overlapped p o);
      within = remove_first-InStore (length n.overlapped) p held within u.0;
      owned =
          λ q. omega (arith, count-remove_first p q held u.0, handed-owners p q o accepted sent n);
    },
  )
  access-Advances (push_queue p o k) u = inr (
    (k, pushed p o n, w),
    refl,
    record {
      held' = remove_first p held;
      typed = u.2;
      stocked = pushed-IsStocked p o n s u.1 (within p u.0);
      same = length-set n.overlapped p o;
      within = remove_first-InStore (length n.overlapped) p held within u.0;
      owned = λ q.
          omega (
            arith,
            count-remove_first p q held u.0,
            count_free-push p q n.overlapped_queue s.queue,
          );
    },
  )
  access-Advances (find_client id k) u = inr ((k _, n, w), refl, stays _ (u _))
  access-Advances (ask k) u = inr ((k w, n, w), refl, stays _ (u w))
  access-Advances (update f k) u = inr ((k, n, f w), refl, stays k u)
