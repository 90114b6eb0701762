-- ===== src/Network/Arrival.antt =====
-- A message that comes in whole, in Session.cpp: what the callback is handed.
use ranking_server.Base.{
  ℕ, ◌^◌, ◌≤◌, ◌<◌, ◌≡◌, ◌≢◌, refl, sym, ap, ◌∙◌, List, [], ◌∷◌, ◌++◌, Option, some, true, false,
  ◌==◌, arith, length, drop, get_elem?, u32,
}
use ranking_server.Packet.{
  CustomOverlapped, MessageHeader, op_recv, header_bytes, read_header, buffer_size,
}
use ranking_server.Packet.Buffers.{IsValid, read_header-header_bytes}
use ranking_server.Network.State.{Network, Client, find, invalid_socket}
use ranking_server.Network.Session.{Completion, overwrite, scatter, arrived, arrived_as, deliver}

-- A completion that brings the message `h`, `message` from a client with an open socket.
pub record Arrives (n : Network) (c : Completion) (o : CustomOverlapped) (client : Client)
    (socket : ℕ) (h : MessageHeader) (message : List ℕ) : Type 0 where
  pub found : get_elem? n.overlapped c.pointer ≡ some o
  pub receiving : o.operation_type ≡ op_recv
  pub succeeded : c.succeeded ≡ true
  pub not_closed : (c.bytes_transferred == 0) ≡ false
  pub no_error : c.socket_error ≡ 0
  pub known : find (u32 c.key) n.client_map ≡ some client
  pub has_socket : client.socket ≡ some socket
  pub is_open : socket ≢ invalid_socket
  pub bytes : c.received ≡ header_bytes h ++ message
  pub short : length message ≤ buffer_size
  pub id_word : h.socket_id < 2 ^ 32
  pub size_word : h.body_size < 2 ^ 32
  pub type_word : h.contents_type < 2 ^ 32

overwrite-whole :
    (xs ys cells : List ℕ) → length xs ≡ length cells → overwrite (xs ++ ys) cells ≡ xs
overwrite-whole [] [] [] e = refl
overwrite-whole [] (y ∷ ys) [] e = refl
overwrite-whole [] ys (c ∷ cells) e = absurd (omega arith)
overwrite-whole (x ∷ xs) ys [] e = absurd (omega arith)
overwrite-whole (x ∷ xs) ys (c ∷ cells) e =
    ap (λ l. x ∷ l) (overwrite-whole xs ys cells (omega arith))

overwrite-front :
    (xs cells : List ℕ)
    → length xs ≤ length cells
    → overwrite xs cells ≡ xs ++ drop (length xs) cells
overwrite-front [] cells h = refl
overwrite-front (x ∷ xs) [] h = absurd (omega arith)
overwrite-front (x ∷ xs) (c ∷ cells) h = ap (λ l. x ∷ l) (overwrite-front xs cells (omega arith))

arrived_as-recv :
    (received : List ℕ) (o : CustomOverlapped)
    → o.operation_type ≡ op_recv
    → arrived received o ≡ scatter received o
arrived_as-recv received o e = ap (λ t. arrived_as t received o) e

-- What has come in stands in the structure: its header can be read, and the message is at the front of
-- the body.
pub arrived-read :
    {n : Network} {c : Completion} {o : CustomOverlapped} {client : Client} {socket : ℕ}
    {h : MessageHeader} {message : List ℕ}
    → Arrives n c o client socket h message
    → IsValid o
    → (read_header (arrived c.received o).header.buf ≡ some h)
      × ((arrived c.received o).body.buf ≡ message ++ drop (length message) o.body.buf)
unfolding scatter
arrived-read {n} {c} {o} {client} {socket} {h} {message} r v =
    let here = arrived_as-recv c.received o r.receiving ∙ ap (λ b. scatter b o) r.bytes in
    let front = overwrite-whole (header_bytes h) message o.header.buf (sym v.header_cells) in
    let body = overwrite-front message o.body.buf (omega (arith, v.body_cells, r.short)) in
    let word = read_header-header_bytes h [] r.id_word r.size_word r.type_word in
    (rw (here, front, word) refl, rw (here, body) refl)

module _ {W : Type 0} (ntohl : ℕ → ℕ)
    (callback : ℕ → ℕ → ℕ → List ℕ → Network × W → Option (Network × W)) where
  -- The callback is handed the fields of the header in the host's order, and a buffer with the message
  -- at its front.
  pub deliver_lem :
      {n : Network} {c : Completion} {o : CustomOverlapped} {client : Client} {socket : ℕ}
      {h : MessageHeader} {message : List ℕ}
      → Arrives n c o client socket h message
      → IsValid o
      → (s : Network × W)
      → deliver ntohl callback c (arrived c.received o) s
        ≡ callback
            (u32 c.key)
            (ntohl h.body_size)
            (ntohl h.contents_type)
            (message ++ drop (length message) o.body.buf)
            s
  unfolding deliver
  deliver_lem {c = c} {o = o} r v s =
      let (header, body) = arrived-read r v in rw (r.not_closed, header, body)
