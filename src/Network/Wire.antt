-- ===== src/Network/Wire.antt =====
-- What Client.cpp puts on the wire.
use ranking_server.Base.{
  ℕ, ◌≤◌, ◌<◌, ◌≡◌, ap, List, [], ◌∷◌, ◌++◌, none, some, true, false, ==_of_ne, ◌≢◌, arith, length,
  take, drop, take-copied,
}
use ranking_server.Packet.{
  CustomOverlapped, MessageHeader, OperationType, op_send, set_operation_type, transmitted,
  header_bytes, header_size, buffer_size,
}
use ranking_server.Packet.Buffers.{IsValid, set_header_lem, set_body_lem, set_body_overrun}
use ranking_server.Network.State.{
  Network, Client, Answer, ready, take_overlapped, start, invalid_socket,
}
use ranking_server.Network.Client.{prepare_send, send, is_failed}

-- The structure after `SetOperationType`, `SetHeader` and `SetBody`.
abbrev pub prepared : MessageHeader → List ℕ → ℕ → CustomOverlapped → CustomOverlapped
prepared header body size o = record o {
  header = record { buf = header_bytes header; len = header_size };
  body = record { buf = take size body ++ drop size o.body.buf; len = size };
  operation_type = op_send;
}

pub set_operation_type-IsValid :
    (t : OperationType) (o : CustomOverlapped) → IsValid o → IsValid (set_operation_type t o)
unfolding set_operation_type
set_operation_type-IsValid t o v = ground arith

module _ (o : CustomOverlapped) (v : IsValid o) (header : MessageHeader) (body : List ℕ)
    (size : ℕ) where
  -- For a body of at most BUFFER_SIZE bytes that the source has, SetOperationType, SetHeader and
  -- SetBody make the two buffers of a valid structure hold the header and the body with lengths that
  -- cut off exactly these, and leave it valid.
  pub prepare_send_lem :
      size ≤ buffer_size
      → size ≤ length body
      → (prepare_send header body size o ≡ some (prepared header body size o))
        × (transmitted (prepared header body size o) ≡ header_bytes header ++ take size body)
        × IsValid (prepared header body size o)
  unfolding prepare_send set_operation_type
  prepare_send_lem h k =
      let typed = set_operation_type-IsValid op_send o v in
      let (headed, valid) = set_header_lem (record o { operation_type = op_send }) typed header in
      let (filled, done) = set_body_lem _ valid body size h k in
      (
        rw (headed, filled),
        ap (λ l. header_bytes header ++ l) (take-copied body size o.body.buf k),
        done,
      )

  -- A longer body is undefined behaviour.
  pub prepare_send_overrun : buffer_size < size → prepare_send header body size o ≡ none
  unfolding prepare_send set_operation_type
  prepare_send_overrun h =
      let typed = set_operation_type-IsValid op_send o v in
      let (headed, valid) = set_header_lem (record o { operation_type = op_send }) typed header in
      rw headed (set_body_overrun _ valid body size h)

module _ (n : Network) (c : Client) (socket pointer : ℕ) (o : CustomOverlapped) (n' : Network)
    (has_socket : c.socket ≡ some socket) (open_socket : socket ≢ invalid_socket)
    (taken : take_overlapped n ≡ some (pointer, o, n')) (v : IsValid o) (header : MessageHeader)
    (body : List ℕ) (size : ℕ) (a : Answer) where
  -- Client::Send of at most BUFFER_SIZE bytes that the body has, where the client has an open
  -- socket, a valid structure is there and the operating system accepts: the header and the body go
  -- to the client's socket behind what went out before, and the structure is in flight.
  pub send_lem :
      size ≤ buffer_size
      → size ≤ length body
      → is_failed a ≡ false
      → let sent = start pointer (prepared header body size o) true n' in
        send c header body size a n
        ≡ some (
          ready,
          record sent {
            wire = sent.wire ++ ((socket, header_bytes header ++ take size body) ∷ []);
          },
        )
  unfolding send
  send_lem h k fine =
      let (done, bytes, valid) = prepare_send_lem o v header body size h k in
      rw (has_socket, send, ==_of_ne open_socket, taken, done, fine, bytes)

  -- Client::Send of more than BUFFER_SIZE bytes, where the client has an open socket and a valid
  -- structure is there, is undefined behaviour.
  pub send_overrun : buffer_size < size → send c header body size a n ≡ none
  unfolding send
  send_overrun h =
      rw
        (has_socket, send, ==_of_ne open_socket, taken, prepare_send_overrun o v header body size h)
