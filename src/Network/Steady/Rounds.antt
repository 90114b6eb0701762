-- ===== src/Network/Steady/Rounds.antt =====
-- The loop of Session.cpp and the store of overlapped structures.
use ranking_server.Base.{
  ℕ, ◌<◌, ◌≡◌, ◌∙◌, inl, inr, List, Option, some, ◌>>=◌, ◌==◌, arith, length, length-set, get_elem?,
  u32, subst, Option-cases, After, After-then, After-if, After->>=, After-mono,
}
use ranking_server.Packet.{
  CustomOverlapped, OperationType, op_default, op_accept, op_recv, op_send, read_header, clear,
}
use ranking_server.Packet.Buffers
use ranking_server.Network.State.{Network, Client, find, give_back}
use ranking_server.Network.Client.{receive_ready}
use ranking_server.Network.Session.{Completion, dequeue, arrived, deliver, rearm, handle, round}
use ranking_server.Network.Supply.{IsStocked}
use ranking_server.Network.Returns.{
  dequeue-IsStocked, give_back-IsStocked, get_elem?-in_range, get_elem?-AllValid,
}
use ranking_server.Network.Closed.{arrived_as-IsValid}
use ranking_server.Network.Steady.{Steady, Steady-trans, receive_ready-Steady}

give_back-overlapped :
    (p : ℕ) (m : Network) → After (λ n. length n.overlapped ≡ length m.overlapped) (give_back p m)
unfolding give_back
give_back-overlapped p m =
    After-then _ (get_elem? m.overlapped p) _
      λ o. After-then _ (clear o) _ λ o'. length-set m.overlapped p o'

give_back-Steady :
    {n m : Network} (p : ℕ)
    → Steady n m
    → p < length n.overlapped
    → After (Steady n) (give_back p m)
give_back-Steady {n} {m} p s h =
    let (n', e, done) = give_back-IsStocked m p s.stocked (omega (arith, s.same)) in
    rw e (record {
      stocked = done;
      same =
          subst (After (λ k. length k.overlapped ≡ length m.overlapped)) e
            (give_back-overlapped p m)
          ∙ s.same;
    })

pub dequeue-Steady :
    (c : Completion) (o : CustomOverlapped) (n : Network)
    → IsStocked n
    → Buffers.IsValid o
    → Steady n (dequeue c o n)
unfolding dequeue
dequeue-Steady c o n s v = record {
  stocked = unfold dequeue in (dequeue-IsStocked c o n s v);
  same = length-set n.overlapped c.pointer o;
}

-- A callback that leaves a stocked network stocked, over a store of the same size.
abbrev pub IsSteady :
    {W : Type 0} → (ℕ → ℕ → ℕ → List ℕ → Network × W → Option (Network × W)) → Type 0
IsSteady {W} callback =
    (socket size type : ℕ) (body : List ℕ) (s : Network × W)
    → IsStocked s.0
    → After (λ s'. Steady s.0 s'.0) (callback socket size type body s)

module _ {W : Type 0} (ntohl : ℕ → ℕ)
    (callback : ℕ → ℕ → ℕ → List ℕ → Network × W → Option (Network × W))
    (steady : IsSteady callback) where
  rearm-Steady :
      (c : Completion) (client : Client) (n : Network) (s : Network × W)
      → Steady n s.0
      → c.pointer < length n.overlapped
      → After (λ s'. Steady n s'.0) (rearm ntohl callback c client s)
  unfolding rearm
  rearm-Steady c client n s k h =
      After->>= _ _ (receive_ready client c.socket_error c.answer s.0) _
        (receive_ready-Steady s.0 k.stocked client c.socket_error c.answer)
        λ r j.
          After->>= (Steady n) _ (give_back c.pointer r.1) _
            (give_back-Steady c.pointer (Steady-trans k j) h) λ n' i. i

  deliver-Steady :
      (c : Completion) (o : CustomOverlapped) (n : Network) (s : Network × W)
      → Steady n s.0
      → After (λ s'. Steady n s'.0) (deliver ntohl callback c o s)
  unfolding deliver
  deliver-Steady c o n s k = After-if _ (c.bytes_transferred == 0) _ _ k (
      After-then _ (read_header o.header.buf) _ λ header.
        After-mono _ _ (callback _ _ _ o.body.buf s) (steady _ _ _ o.body.buf s k.stocked)
          λ s' j. Steady-trans k j)

  done-Steady :
      (c : Completion) (n : Network) (s : Network × W)
      → Steady n s.0
      → c.pointer < length n.overlapped
      → After
          (λ (s' : Network × W). Steady n s'.0)
          (give_back c.pointer s.0 >>= λ n'. some (n', s.1))
  done-Steady c n s k h =
      After->>= (Steady n) _ (give_back c.pointer s.0) _ (give_back-Steady c.pointer k h) λ n' i. i

  handle-Steady :
      (c : Completion) (o : CustomOverlapped) (t : OperationType) (n : Network) (s : Network × W)
      → Steady n s.0
      → c.pointer < length n.overlapped
      → After (λ s'. Steady n s'.0) (handle ntohl callback c o t s)
  unfolding handle
  handle-Steady c o op_accept n s k h = After-then _ (read_header o.header.buf) _ λ header.
      elim (Option-cases (find (u32 header.socket_id) s.0.client_map)) [
        | inl e ↦ rw e k
        | inr (client, e) ↦ rw e (rearm-Steady c client n s k h)
      ]
  handle-Steady c o op_recv n s k h = elim (Option-cases (find (u32 c.key) s.0.client_map)) [
    | inl e ↦ rw (e, handle) k
    | inr (client, e) ↦
        rw (e, handle)
          (After->>= (λ s'. Steady n s'.0) _ (deliver ntohl callback c o s) _
            (deliver-Steady c o n s k) λ s' j. rearm-Steady c client n s' j h)
  ]
  handle-Steady c o op_send n s k h = done-Steady c n s k h
  handle-Steady c o op_default n s k h = done-Steady c n s k h

  -- One round on a stocked network, if it does not fault, leaves it stocked, over a store of the same
  -- size, if the callback does.
  pub round-Steady :
      (c : Completion) (s : Network × W)
      → IsStocked s.0
      → After (λ s'. Steady s.0 s'.0) (round ntohl callback c s)
  unfolding round
  round-Steady c s k = elim (Option-cases (get_elem? s.0.overlapped c.pointer)) [
    | inl missing ↦ rw missing tt
    | inr (o, found) ↦
        let o' = arrived c.received o in
        let valid = get_elem?-AllValid s.0.overlapped c.pointer o k.structures found in
        let d =
          dequeue-Steady c o' s.0 k (arrived_as-IsValid o.operation_type c.received o valid) in
        rw found (
          After-if _ c.succeeded _ _
            (handle-Steady c o' o'.operation_type s.0 (dequeue c o' s.0, s.1) d
              (get_elem?-in_range s.0.overlapped c.pointer o found))
            d)
  ]
