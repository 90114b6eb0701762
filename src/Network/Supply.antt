-- ===== src/Network/Supply.antt =====
-- Client.cpp on a network whose queue still has overlapped structures.
use ranking_server.Base.{
  ℕ, zero, suc, ◌+◌, ◌≤◌, ◌<◌, ◌≡◌, ◌≢◌, refl, ap, inl, inr, subst, List, [], ◌∷◌, Option, none,
  some, Bool, true, false, not, arith, ==_of_ne, get_elem?, set, length, length-set, Bool-cases,
  ◌++◌,
}
use ranking_server.Ring.{Ring, pop, printed, next_index}
use ranking_server.Ring.Bounds.{IsValid, advance-IsValid}
use ranking_server.Ring.Contents.{pop_some, printed-advanced}
use ranking_server.Packet.{
  CustomOverlapped, MessageHeader, op_recv, set_operation_type, buffer_size, transmitted,
}
use ranking_server.Packet.Buffers
use ranking_server.Packet.Buffers.{clear_lem, cleared}
use ranking_server.Network.State.{Network, Client, Answer, take_overlapped, start, invalid_socket}
use ranking_server.Network.Client.{receive_ready, send, is_failed, report}
use ranking_server.Network.Wire.{prepared, prepare_send_lem, set_operation_type-IsValid}

abbrev pub AllValid : List CustomOverlapped → Type 0
AllValid [] = Unit {0}
AllValid (o ∷ os) = Buffers.IsValid o × AllValid os

-- No pointer of the queue is null or outside the store.
abbrev pub InRange : ℕ → List (Option ℕ) → Type 0
InRange m [] = Unit {0}
InRange m (none ∷ ps) = 1 ≤ 0
InRange m (some p ∷ ps) = (p < m) × InRange m ps

-- The structures are valid, and the queue leads to them.
pub record IsStocked (n : Network) : Type 0 where
  pub queue : IsValid n.overlapped_queue
  pub structures : AllValid n.overlapped
  pub free : InRange (length n.overlapped) (printed none n.overlapped_queue)

pub AllValid-get_elem? :
    (os : List CustomOverlapped) (p : ℕ)
    → AllValid os
    → p < length os
    → (o : CustomOverlapped) × (get_elem? os p ≡ some o) × Buffers.IsValid o
AllValid-get_elem? [] p v h = absurd (omega arith)
AllValid-get_elem? (o ∷ os) zero v h = (o, refl, v.0)
AllValid-get_elem? (o ∷ os) (suc p) v h = AllValid-get_elem? os p v.1 (omega arith)

pub AllValid-set :
    (os : List CustomOverlapped) (p : ℕ) (o : CustomOverlapped)
    → AllValid os
    → Buffers.IsValid o
    → AllValid (set os p o)
AllValid-set [] p o v w = tt
AllValid-set (x ∷ os) zero o v w = (w, v.1)
AllValid-set (x ∷ os) (suc p) o v w = (v.0, AllValid-set os p o v.1 w)

-- What a structure that was taken is: a valid one, and the rest is stocked.
pub record Supply (n : Network) (pointer : ℕ) (o : CustomOverlapped) (rest : Ring (Option ℕ))
    : Type 0 where
  pub result : take_overlapped n ≡ some (pointer, o, record n { overlapped_queue = rest })
  pub valid : Buffers.IsValid o
  pub stocked : IsStocked (record n { overlapped_queue = rest })
  pub shown : printed none n.overlapped_queue ≡ some pointer ∷ printed none rest
  pub cells : rest.max_size ≡ n.overlapped_queue.max_size
  pub within : pointer < length n.overlapped

Supply-of_front :
    (n : Network) (front : Option ℕ) (rest : Ring (Option ℕ))
    → IsStocked n
    → pop none n.overlapped_queue ≡ (front, rest)
    → IsValid rest
    → printed none n.overlapped_queue ≡ front ∷ printed none rest
    → rest.max_size ≡ n.overlapped_queue.max_size
    → (pointer : ℕ) × (o : CustomOverlapped) × Supply n pointer o rest
unfolding take_overlapped
Supply-of_front n none rest s e v shown cells =
    absurd (omega (arith, subst (InRange (length n.overlapped)) shown s.free))
Supply-of_front n (some pointer) rest s e v shown cells =
    let free = subst (InRange (length n.overlapped)) shown s.free in
    let (o, found, fine) = AllValid-get_elem? n.overlapped pointer s.structures free.0 in
    let (clears, valid) = clear_lem o fine in
    (
      pointer,
      cleared o,
      record {
        result = rw (e, found, clears);
        valid = valid;
        stocked = record { queue = v; structures = s.structures; free = free.1 };
        shown = shown;
        cells = cells;
        within = free.0;
      },
    )

-- From a stocked network with a structure left, one is taken.
pub supply_lem :
    (n : Network)
    → IsStocked n
    → n.overlapped_queue.output ≢ n.overlapped_queue.input
    → (pointer : ℕ) × (o : CustomOverlapped) × (rest : Ring (Option ℕ)) × Supply n pointer o rest
      × (length (printed none rest) + 1 ≡ length (printed none n.overlapped_queue))
supply_lem n s left =
    let q = n.overlapped_queue in
    let rest = record q { output = next_index q q.output } in
    let (pointer, o, supply) =
      Supply-of_front n _ rest s (pop_some none q (==_of_ne left)) (advance-IsValid q s.queue)
        (printed-advanced none q s.queue left) refl in
    (pointer, o, rest, supply, omega (arith, ap length (printed-advanced none q s.queue left)))

pub start-IsStocked :
    (n : Network) (pointer : ℕ) (o : CustomOverlapped) (accepted : Bool)
    → IsStocked n
    → Buffers.IsValid o
    → IsStocked (start pointer o accepted n)
unfolding start
start-IsStocked n pointer o accepted s v = record {
  queue = s.queue;
  structures = AllValid-set n.overlapped pointer o s.structures v;
  free = rw (length-set n.overlapped pointer o) s.free;
}

module _ (n : Network) (s : IsStocked n)
    (left : n.overlapped_queue.output ≢ n.overlapped_queue.input) (c : Client) (socket : ℕ)
    (has_socket : c.socket ≡ some socket) (a : Answer) where
  -- From a stocked network with a structure left, ReceiveReady of a client with a socket that is not
  -- in error returns whatever WSARecv answers: it reports that answer, one structure has left the
  -- queue, and the network is stocked again.
  pub receive_ready_returns :
      (n' : Network) × (receive_ready c 0 a n ≡ some (report a, n'))
      × (length (printed none n'.overlapped_queue) + 1 ≡ length (printed none n.overlapped_queue))
      × IsStocked n'
  unfolding receive_ready start
  receive_ready_returns =
      let (pointer, o, rest, supply, shown) = supply_lem n s left in
      let o' = set_operation_type op_recv o in
      (
        start pointer o' (not (is_failed a)) (record n { overlapped_queue = rest }),
        rw (has_socket, supply.result),
        shown,
        start-IsStocked (record n { overlapped_queue = rest }) pointer o' (not (is_failed a))
            supply.stocked (set_operation_type-IsValid op_recv o supply.valid),
      )

  sent_network-IsStocked :
      (m : Network) (wire : List (ℕ × List ℕ)) → IsStocked m → IsStocked (record m { wire = wire })
  sent_network-IsStocked m wire h = record {
    queue = h.queue;
    structures = h.structures;
    free = h.free;
  }

  -- From a stocked network with a structure left, Client::Send of at most BUFFER_SIZE bytes that the
  -- body has, on an open socket, returns whatever WSASend answers: it reports that answer, one
  -- structure has left the queue, and the network is stocked again.
  pub send_returns :
      (header : MessageHeader) (body : List ℕ) (size : ℕ)
      → socket ≢ invalid_socket
      → size ≤ buffer_size
      → size ≤ length body
      → (n' : Network) × (send c header body size a n ≡ some (report a, n'))
        × (length (printed none n'.overlapped_queue) + 1 ≡ length (printed none n.overlapped_queue))
        × IsStocked n'
  unfolding send start
  send_returns header body size opened h k =
      let (pointer, o, rest, supply, shown) = supply_lem n s left in
      let (done, bytes, valid) = prepare_send_lem o supply.valid header body size h k in
      let o' = prepared header body size o in
      let handed : Bool → Network =
        λ accepted. start pointer o' accepted (record n { overlapped_queue = rest }) in
      let stocked : (accepted : Bool) → IsStocked (handed accepted) = λ accepted.
        start-IsStocked (record n { overlapped_queue = rest }) pointer o' accepted supply.stocked
          valid in
      elim (Bool-cases (is_failed a)) [
        | inl lost ↦ (
          handed false,
          rw (has_socket, send, ==_of_ne opened, supply.result, done, lost) refl,
          shown,
          stocked false,
        )
        | inr fine ↦ (
          record (handed true) { wire = n.wire ++ ((socket, transmitted o') ∷ []) },
          rw (has_socket, send, ==_of_ne opened, supply.result, done, fine) refl,
          shown,
          sent_network-IsStocked _ _ (stocked true),
        )
      ]
