-- ===== src/Server/Threads/Torn.antt =====
-- The session threads of Session.cpp beside each other, with `push` and `pop` of
-- LockFreeCircleQueue.h one access to its shared memory at a time.
pub mod Whole
use ranking_server.Base.{
  ℕ, ◌≤◌, ◌≡◌, ◌≢◌, refl, ap, ◌∙◌, subst, List, [], ◌∷◌, Option, none, some, Bool, true, false,
  get_elem?, set, arith, length,
}
use ranking_server.Ring.{Ring}
use ranking_server.Ring.Atomic.{
  Pusher, load_input, returned, Popper, load_output, popped, push_step, pop_step,
}
use ranking_server.Ring.Atomic.Race.{pop_duel, lockstep, pop_race}
use ranking_server.Packet.{CustomOverlapped, clear}
use ranking_server.Network.State.{Network, Answer}
use ranking_server.Network.Session.{Completion, dequeue, arrived}
use ranking_server.Network.Ownership.{count}
use ranking_server.Network.Supply.{IsStocked, InRange}
use ranking_server.Server.Threads.{Program, stop, pop_queue, look, push_queue, access}
use ranking_server.Server.Threads.Rounds.{or_fault, round_program, take_program}
use ranking_server.Server.Threads.Safe.{Touches}

-- Where a thread is in a call of the queue.
pub data Call : Type 0 where
  outside : Call
  popping : Popper (Option ℕ) → Call
  pushing : Pusher (Option ℕ) → Call

pub record Threads (W : Type 0) : Type 0 where
  pub network : Network
  pub world : W
  pub programs : List (Program W × Call)

front_some :
    (m : ℕ) (x : Option ℕ) (xs : List (Option ℕ)) → InRange m (x ∷ xs) → (p : ℕ) × (x ≡ some p)
front_some m none xs h = absurd (omega arith)
front_some m (some p) xs h = (p, refl)

-- An access that is not to the queue.
abbrev pub IsOther : {W : Type 0} → Program W → Type 0
IsOther (pop_queue k) = 1 ≤ 0
IsOther (push_queue p o k) = 1 ≤ 0
IsOther _ = Unit {0}

-- Two threads that are about to take a structure.
abbrev pub waiting :
    {W : Type 0}
    → Network
    → W
    → (ℕ → CustomOverlapped → Program W)
    → (ℕ → CustomOverlapped → Program W)
    → Threads W
waiting n w k k' = record {
  network = n;
  world = w;
  programs = (take_program k, outside) ∷ (take_program k', outside) ∷ [];
}

-- Two threads within `pop`.
abbrev both_pop :
    {W : Type 0}
    → Network
    → W
    → (ℕ → Program W)
    → (ℕ → Program W)
    → Ring (Option ℕ)
    → Popper (Option ℕ)
    → Popper (Option ℕ)
    → Threads W
both_pop n w k k' r p q = record {
  network = record n { overlapped_queue = r };
  world = w;
  programs = (pop_queue k, popping p) ∷ (pop_queue k', popping q) ∷ [];
}

module _ {W : Type 0} (ntohl : ℕ → ℕ)
    (callback : Answer → ℕ → ℕ → ℕ → List ℕ → Program W → Program W) (others : W → W → Type 0) where
  pub data Step (s u : Threads W) : Type 0 where
    begins :
        (i : ℕ) (c : Completion) (a : Answer) (o : CustomOverlapped)
        → get_elem? s.programs i ≡ some (stop, outside)
        → 1 ≤ count c.pointer s.network.in_flight
        → get_elem? s.network.overlapped c.pointer ≡ some o
        → u ≡ record s {
          network = dequeue c (arrived c.received o) s.network;
          programs =
              set s.programs i (round_program ntohl (callback a) c (arrived c.received o), outside);
        }
        → Step s u
    advances :
        (i : ℕ) (p : Program W) (r : Program W × Network × W)
        → get_elem? s.programs i ≡ some (p, outside)
        → IsOther p
        → access p (s.network, s.world) ≡ some r
        → u ≡ record { network = r.1; world = r.2; programs = set s.programs i (r.0, outside) }
        → Step s u
    calls_pop :
        (i : ℕ) (k : ℕ → Program W)
        → get_elem? s.programs i ≡ some (pop_queue k, outside)
        → u ≡ record s { programs = set s.programs i (pop_queue k, popping load_output) }
        → Step s u
    pops :
        (i : ℕ) (k : ℕ → Program W) (q : Popper (Option ℕ))
        → get_elem? s.programs i ≡ some (pop_queue k, popping q)
        → u ≡ record s {
          network = record s.network {
            overlapped_queue = (pop_step none s.network.overlapped_queue q).0;
          };
          programs =
              set s.programs i
                (pop_queue k, popping (pop_step none s.network.overlapped_queue q).1);
        }
        → Step s u
    has_popped :
        (i : ℕ) (k : ℕ → Program W) (p : ℕ)
        → get_elem? s.programs i ≡ some (pop_queue k, popping (popped (some p)))
        → u ≡ record s { programs = set s.programs i (k p, outside) }
        → Step s u
    calls_push :
        (i p : ℕ) (o : CustomOverlapped) (k : Program W)
        → get_elem? s.programs i ≡ some (push_queue p o k, outside)
        → u ≡ record s {
          network = record s.network { overlapped = set s.network.overlapped p o };
          programs = set s.programs i (push_queue p o k, pushing (load_input (some p)));
        }
        → Step s u
    pushes :
        (i p : ℕ) (o : CustomOverlapped) (k : Program W) (q : Pusher (Option ℕ))
        → get_elem? s.programs i ≡ some (push_queue p o k, pushing q)
        → u ≡ record s {
          network = record s.network {
            overlapped_queue = (push_step s.network.overlapped_queue q).0;
          };
          programs =
              set s.programs i
                (push_queue p o k, pushing (push_step s.network.overlapped_queue q).1);
        }
        → Step s u
    has_pushed :
        (i p : ℕ) (o : CustomOverlapped) (k : Program W) (b : Bool)
        → get_elem? s.programs i ≡ some (push_queue p o k, pushing (returned b))
        → u ≡ record s { programs = set s.programs i (k, outside) }
        → Step s u
    changes : (w : W) → others s.world w → u ≡ record s { world = w } → Step s u

  pub data Reach (s : Threads W) : Threads W → Type 0 where
    here : Reach s s
    next : {t u : Threads W} → Reach s t → Step t u → Reach s u

  Reach-first : {s t u : Threads W} → Step s t → Reach t u → Reach s u
  Reach-first st Reach.here = Reach.next Reach.here st
  Reach-first st (Reach.next r last) = Reach.next (Reach-first st r) last

  -- What two threads in `pop` do by a schedule, they can do beside each other.
  pop_duel-Reach :
      (n : Network) (w : W) (k k' : ℕ → Program W) (ts : List Bool) (r : Ring (Option ℕ))
      (p q : Popper (Option ℕ))
      → let (r', p', q') = pop_duel none r p q ts in
        Reach (both_pop n w k k' r p q) (both_pop n w k k' r' p' q')
  unfolding pop_duel
  pop_duel-Reach n w k k' [] r p q = Reach.here
  pop_duel-Reach n w k k' (true ∷ ts) r p q =
      Reach-first (Step.pops 0 k p refl refl)
        (pop_duel-Reach n w k k' ts (pop_step none r p).0 (pop_step none r p).1 q)
  pop_duel-Reach n w k k' (false ∷ ts) r p q =
      Reach-first (Step.pops 1 k' q refl refl)
        (pop_duel-Reach n w k k' ts (pop_step none r q).0 p (pop_step none r q).1)

  -- With pop and push one access to the queue's memory at a time, two session threads that are about
  -- to take a structure, from a stocked network with one left in the queue, can both be given the
  -- same one: they reach a state in which the next access of both reads it.
  pub pops_share :
      (n : Network) (w : W) (k k' : ℕ → CustomOverlapped → Program W)
      → IsStocked n
      → n.overlapped_queue.output ≢ n.overlapped_queue.input
      → (p : ℕ) × (u : Threads W) × (t : Program W) × (t' : Program W) × Reach (waiting n w k k') u
        × (u.programs ≡ (t, outside) ∷ (t', outside) ∷ [])
        × Touches p t
        × Touches p t'
  pops_share n w k k' stocked left =
      let r = n.overlapped_queue in
      let (first, second, shown) = pop_race none r stocked.queue left in
      let (p, e) =
        front_some (length n.overlapped) _ _
          (subst (InRange (length n.overlapped)) shown stocked.free) in
      let after : (ℕ → CustomOverlapped → Program W) → ℕ → Program W =
        λ j q. look q λ o. or_fault (clear o) λ o'. j q o' in
      let r' = (pop_duel none r load_output load_output lockstep).0 in
      let start = Reach-first (Step.calls_pop 0 (after k) refl refl) (
        Reach-first (Step.calls_pop 1 (after k') refl refl)
          (pop_duel-Reach n w (after k) (after k') lockstep r load_output load_output)) in
      let start' =
        subst
          (λ t. Reach (waiting n w k k') (
            both_pop n w (after k) (after k') r' t
              (pop_duel none r load_output load_output lockstep).2))
          (first ∙ ap popped e) start in
      let start'' =
        subst
          (λ t. Reach (waiting n w k k') (both_pop n w (after k) (after k') r' (popped (some p)) t))
          (second ∙ ap popped e) start' in
      (
        p,
        record {
          network = record n { overlapped_queue = r' };
          world = w;
          programs = (after k p, outside) ∷ (after k' p, outside) ∷ [];
        },
        after k p,
        after k' p,
        Reach.next (Reach.next start'' (Step.has_popped 0 (after k) p refl refl))
            (Step.has_popped 1 (after k') p refl refl),
        refl,
        refl,
        refl,
      )
