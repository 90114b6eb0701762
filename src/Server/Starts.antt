-- ===== src/Server/Starts.antt =====
-- What main.cpp starts with: the overlapped structures after `Initialize` and `Ready`.
use ranking_server.Base.{
  ℕ, zero, suc, ◌+◌, ◌≤◌, ◌≡◌, refl, ap, subst, ◌⊎◌, inl, inr, Option-cases, List, [], ◌∷◌,
  if◌then◌else◌, leb, ltb, ◌&&◌, arith, length, After, After->>=, After-mono,
}
use ranking_server.Packet.{header_size, buffer_size}
use ranking_server.Network.State.{Network, Client}
use ranking_server.Network.Client.{accept_ready}
use ranking_server.Network.Manager.{
  Platform, Cleanup, Startup, stopped, started, AcceptAnswer, initialize_manager, accept_all,
  ready_manager,
}
use ranking_server.Network.Manager.Pool.{pointers, initialize_loses_last}
use ranking_server.Network.Manager.Stock.{initialize_manager-IsStocked}
use ranking_server.Network.Ownership.{Keeps, Keeps-refl, Keeps-trans, count_free, count, owners}
use ranking_server.Network.Calls.{accept_ready-Keeps}
use ranking_server.Network.Supply.{IsStocked}
use ranking_server.Network.Steady.{Steady, Steady-refl, Steady-trans, accept_ready-Steady}

-- Every overlapped structure is whole, the queue leads to such only, and none has two owners.
pub record IsSound (n : Network) : Type 0 where
  pub stocked : IsStocked n
  pub unique : (p : ℕ) → owners p n ≤ 1

pub IsSound-step : {n m : Network} → IsSound n → Keeps n m → IsStocked m → IsSound m
IsSound-step s k st = record { stocked = st; unique = λ p. omega (arith, k.owned p, s.unique p) }

count_free-pointers :
    (p k i : ℕ) → count_free p (pointers i k) ≡ (if leb i p && ltb p (i + k) then 1 else 0)
count_free-pointers p zero i = ground arith
count_free-pointers p (suc k) i = ground (arith, count_free-pointers p k (i + 1))

count_free-pointers_le : (p k i : ℕ) → count_free p (pointers i k) ≤ 1
count_free-pointers_le p k i = ground (arith, count_free-pointers p k i)

-- `Initialize` leaves a sound network.
initialize_manager-IsSound :
    (p : Platform) (sockets : ℕ) (n : Network)
    → ((i : ℕ) → (length (p.cells i).0 ≡ header_size) × (length (p.cells i).1 ≡ buffer_size))
    → initialize_manager p sockets ≡ started n
    → IsSound n
unfolding initialize_manager
initialize_manager-IsSound p sockets n sized e =
    let (made, shown, valid) = initialize_loses_last p sockets n e in
    let idle : n.in_flight ≡ [] = ground arith in
    record {
      stocked = initialize_manager-IsStocked p sockets n sized e;
      unique = λ q.
          omega (arith, ap (count_free q) shown, ap (count q) idle, count_free-pointers_le q 199 0);
    }

-- The loop of `Ready` over the clients keeps what it starts from.
accept_all-Keeps :
    (answers : ℕ → AcceptAnswer) (m : List (ℕ × Client)) (n : Network)
    → IsStocked n
    → After (λ n'. Keeps n n' × Steady n n') (accept_all answers m n)
unfolding accept_all
accept_all-Keeps answers [] n s = (Keeps-refl n s.queue, Steady-refl n s)
accept_all-Keeps answers ((id, c) ∷ m) n s =
    let e = (answers id).socket_error in
    let call =
      accept_ready c e (answers id).result (answers id).last_error (answers id).end_value n in
    let k =
      accept_ready-Keeps n s.queue c e (answers id).result (answers id).last_error
        (answers id).end_value in
    let st =
      accept_ready-Steady n s c e (answers id).result (answers id).last_error
        (answers id).end_value in
    elim (Option-cases call) [
      | inl fault ↦ rw fault tt
      | inr (r, done) ↦
          let k' = subst (After (λ r. Keeps n r.2)) done k in
          let st' = subst (After (λ r. Steady n r.2)) done st in
          rw done (
            After-mono _ _ (accept_all answers m r.2) (accept_all-Keeps answers m r.2 st'.stocked)
              λ n' j. (Keeps-trans k' j.0, Steady-trans st' j.1))
    ]

-- So does `Ready`.
pub ready_manager-IsSound :
    (p : Platform) (sockets : ℕ) (answers : ℕ → AcceptAnswer)
    → ((i : ℕ) → (length (p.cells i).0 ≡ header_size) × (length (p.cells i).1 ≡ buffer_size))
    → After (λ r. IsSound r.0) (ready_manager p answers (initialize_manager p sockets))
unfolding ready_manager
ready_manager-IsSound p sockets answers sized =
    elim (Startup-cases (initialize_manager p sockets)) [
      | inl (cs, e) ↦ rw e tt
      | inr (n, e) ↦
          let s = initialize_manager-IsSound p sockets n sized e in
          rw e (
            After->>= _ _ (accept_all answers n.client_map n) _
              (accept_all-Keeps answers n.client_map n s.stocked)
              λ n' k. IsSound-step s k.0 k.1.stocked)
    ]
  where
    Startup-cases :
        (s : Startup) → ((cs : List Cleanup) × (s ≡ stopped cs)) ⊎ ((n : Network) × (s ≡ started n))
    Startup-cases (stopped cs) = inl (cs, refl)
    Startup-cases (started n) = inr (n, refl)
