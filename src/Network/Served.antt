-- ===== src/Network/Served.antt =====
-- Client.cpp on a network with structures left: what a call leaves behind.
use ranking_server.Base.{
  if◌then◌else◌, Bool, sym, Option-cases, get_elem?-ne_none, get_elem?-set_self, get_elem?-set_ne,
  ℕ, ◌+◌, ◌≤◌, ◌<◌, ◌≡◌, ◌≢◌, refl, ap, ◌∙◌, inl, inr, List, [], ◌∷◌, ◌++◌, Option, none, some,
  true, false, not, if◌then◌else◌, arith, length, length-set, get_elem?, set, ==_of_ne, Bool-cases,
  take-length,
}
use ranking_server.Ring.{Ring, printed}
use ranking_server.Packet.{
  CustomOverlapped, OperationType, MessageHeader, op_recv, set_operation_type, buffer_size,
  header_bytes, transmitted,
}
use ranking_server.Packet.Buffers.{clear_lem, cleared}
use ranking_server.Network.State.{Network, Client, Answer, start, invalid_socket}
use ranking_server.Network.Client.{receive_ready, send, is_failed, report}
use ranking_server.Network.Wire.{prepared, prepare_send_lem, set_operation_type-IsValid}
use ranking_server.Packet.{op_send}
use ranking_server.Packet
use ranking_server.Network.Supply.{Supply, IsStocked, supply_lem, start-IsStocked}
use ranking_server.Network.Accepts.{free, left_of_free}

-- One structure has left the queue, and nothing else has changed but what is in flight and on the wire.
pub record Used (n n' : Network) (t : OperationType) (accepted : Bool) : Type 0 where
  pub stocked : IsStocked n'
  pub used : free n' + 1 ≡ free n
  pub same : length n'.overlapped ≡ length n.overlapped
  pub clients : n'.client_map ≡ n.client_map
  pub cells : n'.overlapped_queue.max_size ≡ n.overlapped_queue.max_size
  pub pointer : ℕ
  pub structure : CustomOverlapped
  pub shown : printed none n.overlapped_queue ≡ some pointer ∷ printed none n'.overlapped_queue
  pub here : get_elem? n'.overlapped pointer ≡ some structure
  pub type : structure.operation_type ≡ t
  pub flying : n'.in_flight ≡ (if accepted then pointer ∷ n.in_flight else n.in_flight)
  pub others : (r : ℕ) → r ≢ pointer → get_elem? n'.overlapped r ≡ get_elem? n.overlapped r

-- What the wire holds after a send.
abbrev pub wire_after : Network → ℕ → List ℕ → Answer → List (ℕ × List ℕ)
wire_after n socket bytes a = if is_failed a then n.wire else n.wire ++ ((socket, bytes) ∷ [])

stored_here :
    (n : Network) (p : ℕ) (o : CustomOverlapped)
    → p < length n.overlapped
    → get_elem? (set n.overlapped p o) p ≡ some o
stored_here n p o h = elim (Option-cases (get_elem? n.overlapped p)) [
  | inl gone ↦ absurd (get_elem?-ne_none n.overlapped p h gone)
  | inr (x, found) ↦ get_elem?-set_self n.overlapped p o x found
]

-- A structure that was taken and is handed over, whatever goes on the wire.
Used-start :
    (n : Network) {pointer : ℕ} {o : CustomOverlapped} {rest : Ring (Option ℕ)}
    → Supply n pointer o rest
    → length (printed none rest) + 1 ≡ free n
    → (o' : CustomOverlapped) (accepted : Bool) (wire : List (ℕ × List ℕ))
    → Packet.Buffers.IsValid o'
    → Used n
        (record (start pointer o' accepted (record n { overlapped_queue = rest })) { wire = wire })
        o'.operation_type
        accepted
unfolding start
Used-start n {pointer} {o} {rest} supply shown o' accepted wire valid =
    let st =
      start-IsStocked (record n { overlapped_queue = rest }) pointer o' accepted supply.stocked
        valid in
    record {
      stocked = record { queue = st.queue; structures = st.structures; free = st.free };
      used = shown;
      same = length-set n.overlapped pointer o';
      clients = refl;
      cells = supply.cells;
      pointer = pointer;
      structure = o';
      shown = supply.shown;
      here = stored_here n pointer o' supply.within;
      type = refl;
      flying = refl;
      others = λ r ne. get_elem?-set_ne n.overlapped pointer r o' (λ e. ne (sym e));
    }

module _ (n : Network) (s : IsStocked n) (h : 1 ≤ free n) (c : Client) (socket : ℕ)
    (has_socket : c.socket ≡ some socket) (a : Answer) where
  pub receive_ready-Used :
      (n' : Network) × (receive_ready c 0 a n ≡ some (report a, n'))
      × Used n n' op_recv (not (is_failed a))
      × (n'.wire ≡ n.wire)
  unfolding receive_ready start set_operation_type
  receive_ready-Used =
      let (pointer, o, rest, supply, shown) = supply_lem n s (left_of_free n h) in
      let o' = set_operation_type op_recv o in
      (
        start pointer o' (not (is_failed a)) (record n { overlapped_queue = rest }),
        rw (has_socket, supply.result),
        Used-start n supply shown o' (not (is_failed a)) n.wire
            (set_operation_type-IsValid op_recv o supply.valid),
        refl,
      )

  pub send-Used :
      (header : MessageHeader) (body : List ℕ)
      → socket ≢ invalid_socket
      → length body ≤ buffer_size
      → (n' : Network) × (send c header body (length body) a n ≡ some (report a, n'))
        × (n'.wire ≡ wire_after n socket (header_bytes header ++ body) a)
        × Used n n' op_send (not (is_failed a))
  unfolding send start
  send-Used header body opened short =
      let (pointer, o, rest, supply, shown) = supply_lem n s (left_of_free n h) in
      let (done, bytes, valid) =
        prepare_send_lem o supply.valid header body (length body) short (omega arith) in
      let o' = prepared header body (length body) o in
      let sent = bytes ∙ ap (λ l. header_bytes header ++ l) (take-length body) in
      elim (Bool-cases (is_failed a)) [
        | inl lost ↦ (
          start pointer o' false (record n { overlapped_queue = rest }),
          rw (has_socket, send, ==_of_ne opened, supply.result, done, lost) refl,
          rw lost refl,
          rw lost (Used-start n supply shown o' false n.wire valid),
        )
        | inr fine ↦
            let wire = n.wire ++ ((socket, transmitted o') ∷ []) in
            (
              record (start pointer o' true (record n { overlapped_queue = rest })) { wire = wire },
              rw (has_socket, send, ==_of_ne opened, supply.result, done, fine) refl,
              rw (fine, sent) refl,
              rw fine (Used-start n supply shown o' true wire valid),
            )
      ]
