-- ===== src/Network/Rounds.antt =====
-- The loop of Session.cpp and the ownership of the overlapped structures.
use ranking_server.Base.{
  ℕ, ◌+◌, ◌≤◌, ◌≡◌, refl, inl, inr, List, [], ◌∷◌, Option, some, ◌>>=◌, ◌==◌, if◌then◌else◌, arith,
  Bool-cases, Option-cases, get_elem?, After, After->>=, After-then, After-if, After-mono, subst,
  u32,
}
use ranking_server.Ring.Bounds.{IsValid}
use ranking_server.Packet.{
  CustomOverlapped, OperationType, op_default, op_accept, op_recv, op_send, read_header,
}
use ranking_server.Network.State.{Network, Client, find, give_back}
use ranking_server.Network.Client.{receive_ready}
use ranking_server.Network.Session.{
  Completion, remove_first, dequeue, arrived, deliver, rearm, handle, round, process,
}
use ranking_server.Network.Ownership.{
  Keeps, Keeps-refl, Keeps-trans, Holds, Holds-Keeps, Holds-drop, give_back-Keeps, count,
}
use ranking_server.Network.Calls.{receive_ready-Keeps}

pub count-remove_first :
    (q p : ℕ) (l : List ℕ)
    → 1 ≤ count q l
    → (if q == p then 1 else 0) + count p (remove_first q l) ≡ count p l
unfolding remove_first
count-remove_first q p [] h = absurd (omega arith)
count-remove_first q p (x ∷ l) h = ground (arith, count-remove_first q p l)

-- The thread that dequeues a completion holds its structure.
dequeue-Holds :
    (c : Completion) (o : CustomOverlapped) (n : Network)
    → IsValid n.overlapped_queue
    → 1 ≤ count c.pointer n.in_flight
    → Holds c.pointer n (dequeue c o n)
unfolding dequeue
dequeue-Holds c o n v h = record {
  queue = v;
  owned = λ p. omega (arith, count-remove_first c.pointer p n.in_flight h);
  clients = refl;
}

-- A callback that leaves the ownership of the structures it does not hold alone.
abbrev pub IsCareful :
    {W : Type 0} → (ℕ → ℕ → ℕ → List ℕ → Network × W → Option (Network × W)) → Type 0
IsCareful {W} callback =
    (socket size type : ℕ) (body : List ℕ) (s : Network × W)
    → IsValid s.0.overlapped_queue
    → After (λ s'. Keeps s.0 s'.0) (callback socket size type body s)

module _ {W : Type 0} (ntohl : ℕ → ℕ)
    (callback : ℕ → ℕ → ℕ → List ℕ → Network × W → Option (Network × W)) where
  -- Each completion is one of a structure that the operating system has by then.
  abbrev pub EachInFlight : List Completion → Network × W → Type 0
  EachInFlight [] s = Unit {0}
  EachInFlight (c ∷ cs) s =
      (1 ≤ count c.pointer s.0.in_flight) × After (EachInFlight cs) (round ntohl callback c s)

module _ {W : Type 0} (ntohl : ℕ → ℕ)
    (callback : ℕ → ℕ → ℕ → List ℕ → Network × W → Option (Network × W))
    (careful : IsCareful callback) where
  rearm-Keeps :
      (c : Completion) (client : Client) (n : Network) (s : Network × W)
      → Holds c.pointer n s.0
      → After (λ s'. Keeps n s'.0) (rearm ntohl callback c client s)
  unfolding rearm
  rearm-Keeps c client n s h =
      After->>= (λ r. Keeps s.0 r.1) _ (receive_ready client c.socket_error c.answer s.0) _
        (receive_ready-Keeps s.0 h.queue client c.socket_error c.answer)
        λ r k.
          After->>= (Keeps n) _ (give_back c.pointer r.1) _ (give_back-Keeps (Holds-Keeps h k))
            λ n' k'. k'

  deliver-Keeps :
      (c : Completion) (o : CustomOverlapped) (s : Network × W)
      → IsValid s.0.overlapped_queue
      → After (λ s'. Keeps s.0 s'.0) (deliver ntohl callback c o s)
  unfolding deliver
  deliver-Keeps c o s v = elim (Bool-cases (c.bytes_transferred == 0)) [
    | inl closed ↦ rw closed (Keeps-refl s.0 v)
    | inr open_still ↦
        rw open_still
          (After-then _ (read_header o.header.buf) _ λ header. careful _ _ _ o.body.buf s v)
  ]

  done-Keeps :
      (c : Completion) (n : Network) (s : Network × W)
      → Holds c.pointer n s.0
      → After
          (λ (s' : Network × W). Keeps n s'.0)
          (give_back c.pointer s.0 >>= λ n'. some (n', s.1))
  done-Keeps c n s h =
      After->>= (Keeps n) _ (give_back c.pointer s.0) _ (give_back-Keeps h) λ n' k. k

  handle-Keeps :
      (c : Completion) (o : CustomOverlapped) (t : OperationType) (n : Network) (s : Network × W)
      → Holds c.pointer n s.0
      → After (λ s'. Keeps n s'.0) (handle ntohl callback c o t s)
  unfolding handle
  handle-Keeps c o op_accept n s h = After-then _ (read_header o.header.buf) _ λ header.
      elim (Option-cases (find (u32 header.socket_id) s.0.client_map)) [
        | inl e ↦ rw e (Holds-drop h)
        | inr (client, e) ↦ rw e (rearm-Keeps c client n s h)
      ]
  handle-Keeps c o op_recv n s h = elim (Option-cases (find (u32 c.key) s.0.client_map)) [
    | inl e ↦ rw (e, handle) (Holds-drop h)
    | inr (client, e) ↦
        rw (e, handle)
          (After->>= (λ s'. Keeps s.0 s'.0) _ (deliver ntohl callback c o s) _
            (deliver-Keeps c o s h.queue) λ s' k. rearm-Keeps c client n s' (Holds-Keeps h k))
  ]
  handle-Keeps c o op_send n s h = done-Keeps c n s h
  handle-Keeps c o op_default n s h = done-Keeps c n s h

  -- One round of `Session::Process` on a completion of a structure that is in flight gives no
  -- structure an owner more than it had, if the callback does not.
  pub round-Keeps :
      (c : Completion) (s : Network × W)
      → IsValid s.0.overlapped_queue
      → 1 ≤ count c.pointer s.0.in_flight
      → After (λ s'. Keeps s.0 s'.0) (round ntohl callback c s)
  unfolding round
  round-Keeps c s v h = After-then _ (get_elem? s.0.overlapped c.pointer) _ λ o.
      let o' = arrived c.received o in
      let held = dequeue-Holds c o' s.0 v h in
      After-if _ c.succeeded _ _
        (handle-Keeps c o' o'.operation_type s.0 (dequeue c o' s.0, s.1) held) (Holds-drop held)

  -- The loop of `Process`, over completions each of a structure that is then in flight, gives no
  -- structure an owner more than it had.
  pub process-Keeps :
      (cs : List Completion) (s : Network × W)
      → IsValid s.0.overlapped_queue
      → EachInFlight ntohl callback cs s
      → After (λ s'. Keeps s.0 s'.0) (process ntohl callback cs s)
  unfolding process
  process-Keeps [] s v h = Keeps-refl s.0 v
  process-Keeps (c ∷ cs) s v h = elim (Option-cases (round ntohl callback c s)) [
    | inl fault ↦ rw fault tt
    | inr (s', e) ↦
        let k = subst (After (λ t. Keeps s.0 t.0)) e (round-Keeps c s v h.0) in
        rw e (
          After-mono _ _ (process ntohl callback cs s')
            (process-Keeps cs s' k.queue (subst (After (EachInFlight ntohl callback cs)) e h.1))
            λ t k'. Keeps-trans k k')
  ]
