-- ===== src/Server/Threads/Safe.antt =====
-- Session threads beside each other and the overlapped structures.
use ranking_server.Base.{
  ℕ, ◌+◌, ◌<◌, ◌≤◌, ◌≡◌, ◌≢◌, subst, ◌⊎◌, inl, inr, List, [], ◌∷◌, some, arith, length, length-set,
  get_elem?, set, dec_lt, replicate,
}
use ranking_server.Network.State.{Network, Answer}
use ranking_server.Network.Session.{dequeue, arrived}
use ranking_server.Network.Ownership.{count, owners}
use ranking_server.Network.Rounds.{count-remove_first}
use ranking_server.Network.Supply.{IsStocked}
use ranking_server.Network.Returns.{dequeue-IsStocked, get_elem?-in_range, get_elem?-AllValid}
use ranking_server.Network.Closed.{arrived_as-IsValid}
use ranking_server.Server.Starts.{IsSound}
use ranking_server.Server.Threads.{
  Program, stop, fault, pop_queue, look, hand_over, push_queue, find_client, ask, update, access,
}
use ranking_server.Server.Threads.Rounds.{round_program}
use ranking_server.Server.Threads.Typed.{Uses}
use ranking_server.Server.Threads.Typed.Rounds.{IsTyped, round_program-Uses}
use ranking_server.Server.Threads.Holders.{
  AllUse, total, AllUse-get, AllUse-set, AllUse-idle, total-set, total-get, total-get_two,
  total-idle,
}
use ranking_server.Server.Threads.Steps.{Threads, Step, Reach}
use ranking_server.Server.Threads.Advance.{Ends, InStore, Advances, access-Ends, access-Advances}

-- The network is stocked, and no structure has two owners: the queue, the operating system, a thread.
pub record IsSafe {W : Type 0} (s : Threads W) : Type 0 where
  pub helds : List (List ℕ)
  pub typed : AllUse helds s.programs
  pub stocked : IsStocked s.network
  pub within : (p : ℕ) → 1 ≤ total p helds → p < length s.network.overlapped
  pub alone : (p : ℕ) → total p helds + owners p s.network ≤ 1

module _ {W : Type 0} (ntohl : ℕ → ℕ)
    (callback : Answer → ℕ → ℕ → ℕ → List ℕ → Program W → Program W)
    (typed : (a : Answer) → IsTyped (callback a)) (others : W → W → Type 0) where
  -- A thread's next state: it holds `held'` where it held `held`.
  moves :
      (s : Threads W) (k : IsSafe s) (i : ℕ) (held held' : List ℕ) (p : Program W) (n : Network)
      (w : W)
      → get_elem? k.helds i ≡ some held
      → Uses held' p
      → IsStocked n
      → length n.overlapped ≡ length s.network.overlapped
      → InStore (length s.network.overlapped) held'
      → ((q : ℕ) → count q held' + owners q n ≤ count q held + owners q s.network)
      → IsSafe (record { network = n; world = w; programs = set s.programs i p })
  moves s k i held held' p n w e u st same within owned = record {
    helds = set k.helds i held';
    typed = AllUse-set k.helds s.programs i held' p k.typed u;
    stocked = st;
    within = λ q j. elim (dec_lt (count q held') 1) [
      | yes absent ↦ omega (
        arith,
        same,
        total-set q i k.helds held held' e,
        k.within q (omega (arith, total-set q i k.helds held held' e)),
      )
      | no present ↦ omega (arith, same, within q (omega arith))
    ];
    alone = λ q. omega (
      arith,
      total-set q i k.helds held held' e,
      owned q,
      k.alone q,
      total-get q i k.helds held e,
    );
  }

  Step-IsSafe : {s u : Threads W} → IsSafe s → Step ntohl callback others s u → IsSafe u
  Step-IsSafe {s} k (Step.begins i c a o idle flying found e) =
      let (held, had, _) = AllUse-get k.helds s.programs i stop k.typed idle in
      let valid = get_elem?-AllValid s.network.overlapped c.pointer o k.stocked.structures found in
      let here = get_elem?-in_range s.network.overlapped c.pointer o found in
      let o' = arrived c.received o in
      rw e (
        moves s k i held (c.pointer ∷ []) (round_program ntohl (callback a) c o')
          (dequeue c o' s.network) s.world had
          (round_program-Uses ntohl (callback a) (typed a) c o')
          (dequeue-IsStocked c o' s.network k.stocked
            (arrived_as-IsValid o.operation_type c.received o valid))
          (unfold dequeue in (length-set s.network.overlapped c.pointer o'))
          (λ q j. ground (arith, here))
          (unfold dequeue in
            (λ q. omega (arith, count-remove_first c.pointer q s.network.in_flight flying))))
  Step-IsSafe {s} k (Step.advances i p r now done e) =
      let (held, had, use_now) = AllUse-get k.helds s.programs i p k.typed now in
      let within : InStore (length s.network.overlapped) held =
        λ q j. k.within q (omega (arith, total-get q i k.helds held had)) in
      elim (access-Advances held s.network s.world k.stocked within p use_now) [
        | inl ended ↦ absurd (cc (done, access-Ends p s.network s.world ended))
        | inr (r', done', v) ↦
            let same : r' ≡ r = cc (done, done') in
            let v' =
              subst (λ (t : Program W × Network × W). Advances held s.network t.0 t.1) same v in
            rw e (
              moves s k i held v'.held' r.0 r.1 r.2 had v'.typed v'.stocked v'.same v'.within
                v'.owned)
      ]
  Step-IsSafe {s} k (Step.changes w moved e) = rw e (record {
    helds = k.helds;
    typed = k.typed;
    stocked = k.stocked;
    within = k.within;
    alone = k.alone;
  })

  pub Reach-IsSafe : {s u : Threads W} → IsSafe s → Reach ntohl callback others s u → IsSafe u
  Reach-IsSafe k Reach.here = k
  Reach-IsSafe k (Reach.next r st) = Step-IsSafe (Reach-IsSafe k r) st

-- Threads that all wait, over a sound network.
pub idle-IsSafe :
    {W : Type 0} (n : Network) (w : W) (k : ℕ)
    → IsSound n
    → IsSafe (record { network = n; world = w; programs = replicate k stop })
idle-IsSafe {W} n w k s = record {
  helds = replicate k [];
  typed = AllUse-idle W k;
  stocked = s.stocked;
  within = λ p j. absurd (omega (arith, total-idle p k));
  alone = λ p. omega (arith, total-idle p k, s.unique p);
}

-- The next access reads or writes the structure.
abbrev pub Touches : {W : Type 0} → ℕ → Program W → Type 0
Touches p (look q k) = q ≡ p
Touches p (hand_over q o accepted sent k) = q ≡ p
Touches p (push_queue q o k) = q ≡ p
Touches p _ = 1 ≤ 0

Touches-count :
    {W : Type 0} (p : ℕ) (held : List ℕ) (t : Program W)
    → Uses held t
    → Touches p t
    → 1 ≤ count p held
Touches-count p held (look q k) u e = rw⁻¹ e u.0
Touches-count p held (hand_over q o accepted sent k) u e = rw⁻¹ e u.0
Touches-count p held (push_queue q o k) u e = rw⁻¹ e u.0
Touches-count p held stop u e = absurd (omega arith)
Touches-count p held fault u e = absurd (omega arith)
Touches-count p held (pop_queue k) u e = absurd (omega arith)
Touches-count p held (find_client id k) u e = absurd (omega arith)
Touches-count p held (ask k) u e = absurd (omega arith)
Touches-count p held (update f k) u e = absurd (omega arith)

-- A structure that a thread's next access touches is neither free nor in flight, and no other
-- thread's next access touches it.
pub touch_alone :
    {W : Type 0} (s : Threads W) (p i : ℕ) (t : Program W)
    → IsSafe s
    → get_elem? s.programs i ≡ some t
    → Touches p t
    → (owners p s.network ≡ 0)
      × ((j : ℕ) (t' : Program W) → j ≢ i → get_elem? s.programs j ≡ some t' → ¬ Touches p t')
touch_alone s p i t k e touch =
    let (held, had, u) = AllUse-get k.helds s.programs i t k.typed e in
    let one = Touches-count p held t u touch in
    (
      omega (arith, k.alone p, total-get p i k.helds held had),
      λ j t' apart e' touch'.
          let (held', had', u') = AllUse-get k.helds s.programs j t' k.typed e' in
          absurd (
            omega (
              arith,
              k.alone p,
              one,
              Touches-count p held' t' u' touch',
              total-get_two p i j k.helds held held' had had' apart,
            )),
    )

-- A thread's next access has a result, if the thread is not at an end.
pub access_or_end :
    {W : Type 0} (s : Threads W) (i : ℕ) (t : Program W)
    → IsSafe s
    → get_elem? s.programs i ≡ some t
    → Ends t s.network ⊎ ((r : Program W × Network × W) × (access t (s.network, s.world) ≡ some r))
access_or_end s i t k e =
    let (held, had, u) = AllUse-get k.helds s.programs i t k.typed e in
    elim (access-Advances held s.network s.world k.stocked
      (λ q j. k.within q (omega (arith, total-get q i k.helds held had))) t u) [
        | inl ended ↦ inl ended
        | inr (r, done, v) ↦ inr (r, done)
      ]
