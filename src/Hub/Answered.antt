-- ===== src/Hub/Answered.antt =====
-- Hub.cpp in a round of Session.cpp: a message comes in, and an answer goes out.
use ranking_server.Base.{
  ◌∷◌, if◌then◌else◌, not, sym, ap, none, get_elem?, refl, ℕ, ◌+◌, ◌≡◌, ◌≢◌, ◌≤◌, ◌∙◌, List, ◌++◌,
  some, arith, length, drop, u32,
}
use ranking_server.Outside.Flat.{FlatBuffers}
use ranking_server.Outside.Json.{JsonLibrary}
use ranking_server.Outside.Redis.{Redis}
use ranking_server.Packet.{
  op_recv, op_send, CustomOverlapped, MessageHeader, header_bytes, buffer_size,
}
use ranking_server.Network.Client.{is_failed}
use ranking_server.Network.State.{Network, Client, Answer, find, invalid_socket}
use ranking_server.Network.Manager.{send_to}
use ranking_server.Network.Session.{remove_first, Completion, dequeue, arrived, round}
use ranking_server.Network.Supply.{IsStocked}
use ranking_server.Network.Accepts.{free}
use ranking_server.Network.Returns.{get_elem?-AllValid}
use ranking_server.Network.Closed.{arrived_as-IsValid}
use ranking_server.Network.Steady.Rounds.{dequeue-Steady}
use ranking_server.Ring.{printed}
use ranking_server.Network.Ownership.{count_free}
use ranking_server.Network.Served.{Used, wire_after, send-Used}
use ranking_server.Network.Passed.{count_free-rest, count_free-front, round_delivered_returns}
use ranking_server.Network.Arrival.{Arrives, deliver_lem}
use ranking_server.Hub.{send_buffer, hub_send, hub_read, message_read}

-- The header of an answer as it goes out.
abbrev pub answer_header : (ℕ → ℕ) → ℕ → ℕ → List ℕ → List ℕ
answer_header htonl id contents_type buffer = header_bytes (record {
  socket_id = htonl id;
  body_size = htonl (length buffer);
  contents_type = htonl contents_type;
})

-- A structure is in flight unless its transfer has failed.
abbrev pub begun : Answer → ℕ → List ℕ → List ℕ
begun a p flying = if not (is_failed a) then p ∷ flying else flying

-- A message has been answered: the queue is one structure shorter, header and answer are on the wire
-- unless WSASend has failed, and a structure that was in the queue is sending them, if it is not the
-- round's own and was in the queue once. A second one receives what comes next.
pub record Answered (n n' : Network) (p socket : ℕ) (bytes : List ℕ) (a b : Answer) : Type 0 where
  pub stocked : IsStocked n'
  pub used : free n' + 1 ≡ free n
  pub wire : n'.wire ≡ wire_after n socket bytes a
  pub cells : n'.overlapped_queue.max_size ≡ n.overlapped_queue.max_size
  pub pointer : ℕ
  pub was_free : 1 ≤ count_free pointer (printed none n.overlapped_queue)
  pub sending :
      pointer ≢ p
      → count_free pointer (printed none n.overlapped_queue) ≤ 1
      → (o : CustomOverlapped) × (get_elem? n'.overlapped pointer ≡ some o)
        × (o.operation_type ≡ op_send)
  pub next : ℕ
  pub next_was_free : 1 ≤ count_free next (printed none n.overlapped_queue)
  pub apart : count_free pointer (printed none n.overlapped_queue) ≤ 1 → next ≢ pointer
  pub receiving :
      next ≢ p
      → (o : CustomOverlapped) × (get_elem? n'.overlapped next ≡ some o)
        × (o.operation_type ≡ op_recv)
  pub flying : n'.in_flight ≡ begun b next (begun a pointer (remove_first p n.in_flight))

module _ (fb : FlatBuffers) (js : JsonLibrary) (rd : Redis) (htonl ntohl : ℕ → ℕ) (a : Answer) where
  send_buffer-Used :
      (id contents_type : ℕ) (buffer : List ℕ) (n : Network) (cache : rd.Store) (client : Client)
      (socket : ℕ)
      → IsStocked n
      → 1 ≤ free n
      → find id n.client_map ≡ some client
      → client.socket ≡ some socket
      → socket ≢ invalid_socket
      → length buffer ≤ buffer_size
      → (n' : Network) × (send_buffer fb js rd htonl a id contents_type buffer (n, cache)
          ≡ some (n', cache))
        × (n'.wire ≡ wire_after n socket (answer_header htonl id contents_type buffer ++ buffer) a)
        × Used n n' op_send (not (is_failed a))
  unfolding send_buffer send_to
  send_buffer-Used id contents_type buffer n cache client socket s h known has_socket opened short =
      let (n', e, wire, used) =
        send-Used n s h client socket has_socket a
          (record {
            socket_id = htonl id;
            body_size = htonl (length buffer);
            contents_type = htonl contents_type;
          })
          buffer opened short in
      (n', rw (known, send_to, e), wire, used)

  module _ {c : Completion} {o : CustomOverlapped} {client : Client} {socket : ℕ}
      {h : MessageHeader} {message : List ℕ} (s : Network × rd.Store) (stocked : IsStocked s.0)
      (left : 2 ≤ free s.0) (r : Arrives s.0 c o client socket h message) where
    -- Where the hub answers the message by `buffer`, the round returns with the answer on the wire.
    pub round-Answered :
        (contents_type : ℕ) (buffer : List ℕ) (cache : rd.Store)
        → ((rest : List ℕ) (n : Network)
            → hub_send fb js rd htonl a
                (u32 c.key)
                (ntohl h.contents_type)
                (message ++ rest)
                (n, s.1)
              ≡ send_buffer fb js rd htonl a (u32 c.key) contents_type buffer (n, cache))
        → length buffer ≤ buffer_size
        → (n' : Network) × (round ntohl (hub_read fb js rd htonl a) c s ≡ some (n', cache))
          × Answered s.0 n' c.pointer socket
              (answer_header htonl (u32 c.key) contents_type buffer ++ buffer)
              a
              c.answer
    unfolding hub_read message_read dequeue
    round-Answered contents_type buffer cache answers short =
        let valid = get_elem?-AllValid s.0.overlapped c.pointer o stocked.structures r.found in
        let o' = arrived c.received o in
        let n = dequeue c o' s.0 in
        let valid' = arrived_as-IsValid o.operation_type c.received o valid in
        let steady = dequeue-Steady c o' s.0 stocked valid' in
        let (m, sent, wire, used) =
          send_buffer-Used (u32 c.key) contents_type buffer n cache client socket steady.stocked
            (omega arith) r.known r.has_socket r.is_open short in
        let delivered =
          deliver_lem ntohl (hub_read fb js rd htonl a) r valid (n, s.1)
          ∙ answers (drop (length message) o.body.buf) n
          ∙ sent in
        let (n', done, passed) =
          round_delivered_returns ntohl (hub_read fb js rd htonl a) c o s client socket m cache
            r.found r.receiving r.succeeded r.no_error r.known r.has_socket delivered used.stocked
            (used.same ∙ steady.same) (omega (arith, used.used)) in
        let front = count_free-front n m used used.pointer refl in
        let taken = passed.taken in
        let second = count_free-front m passed.between taken taken.pointer refl in
        (
          n',
          done,
          record {
            stocked = passed.stocked;
            used = omega (arith, used.used, passed.equal);
            wire = passed.wire ∙ wire;
            cells = passed.cells ∙ used.cells;
            pointer = used.pointer;
            was_free = omega (arith, front);
            sending = λ other once. (
              used.structure,
              passed.others used.pointer other (omega (arith, front, once)) ∙ used.here,
              used.type,
            );
            next = taken.pointer;
            next_was_free = omega (arith, second, count_free-rest n m used taken.pointer);
            apart = λ once same. omega (
              arith,
              front,
              once,
              count_free-front m passed.between taken used.pointer (sym same),
            );
            receiving = λ other.
                (taken.structure, passed.back.others taken.pointer other ∙ taken.here, taken.type);
            flying =
                passed.back.flying ∙ taken.flying ∙ ap (begun c.answer taken.pointer) used.flying;
          },
        )
