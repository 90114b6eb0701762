-- ===== src/Network/Accepts.antt =====
-- The loop of `Ready` in NetworkManager.cpp on a network that has a structure for each client.
use ranking_server.Base.{
  ℕ, zero, suc, ◌+◌, ◌≤◌, ◌≡◌, ◌≢◌, refl, ap, inl, inr, List, [], ◌∷◌, Option, none, some, Bool,
  false, ◌||◌, ◌==◌, if◌then◌else◌, arith, length, ==_iff, Bool-cases,
}
use ranking_server.Ring.{printed}
use ranking_server.Ring.Contents.{printed-empty}
use ranking_server.Packet.{MessageHeader, header_bytes, header_size, op_accept, set_operation_type}
use ranking_server.Packet.Buffers.{set_header_lem}
use ranking_server.Network.State.{
  Network, Client, Report, start, ready, failed, socket_error_detected, wsa_io_pending,
}
use ranking_server.Network.Client.{accept_ready, accept_is_failed, initialize}
use ranking_server.Network.Wire.{set_operation_type-IsValid}
use ranking_server.Network.Manager.{AcceptAnswer, accept_all, make_clients}
use ranking_server.Network.Supply.{IsStocked, supply_lem, start-IsStocked}

-- The structures that are free.
abbrev pub free : Network → ℕ
free n = length (printed none n.overlapped_queue)

pub left_of_free : (n : Network) → 1 ≤ free n → n.overlapped_queue.output ≢ n.overlapped_queue.input
left_of_free n h e =
    omega (arith, ap length (printed-empty none n.overlapped_queue ((==_iff _ _).1 e)))

-- `AcceptReady` with a structure left, where its end gives a value, returns, and takes one at most.
accept_ready_returns :
    (n : Network)
    → IsStocked n
    → 1 ≤ free n
    → (c : Client) (socket : ℕ) → c.socket ≡ some socket
    → (error : ℕ) (result : Bool) (last_error : ℕ) (end_value : Option Bool) (value : Bool)
    → end_value ≡ some value
    → (r : Bool × Report × Network) × (accept_ready c error result last_error end_value n ≡ some r)
      × (free n ≤ free r.2 + 1)
      × IsStocked r.2
unfolding accept_ready start
accept_ready_returns n s h c socket has_socket error result last_error end_value value ends =
    elim (Bool-cases (error == 0)) [
      | inl fine ↦
          let (pointer, o, rest, supply, shown) = supply_lem n s (left_of_free n h) in
          let header : MessageHeader = record {
            socket_id = c.socket_id;
            body_size = 0;
            contents_type = 0;
          } in
          let typed = set_operation_type op_accept o in
          let o' = record typed {
            header = record { buf = header_bytes header; len = header_size };
          } in
          let (done, valid) =
            set_header_lem typed (set_operation_type-IsValid op_accept o supply.valid) header in
          let taken = record n { overlapped_queue = rest } in
          let begun = result || last_error == wsa_io_pending in
          (
            (
              value,
              (if accept_is_failed result last_error then failed last_error else ready),
              start pointer o' begun taken,
            ),
            rw (has_socket, fine, supply.result, done, ends) refl,
            omega (arith, shown),
            start-IsStocked taken pointer o' begun supply.stocked valid,
          )
      | inr broken ↦
          ((false, socket_error_detected error, n), rw (has_socket, broken), omega arith, s)
    ]

-- Each client has a socket.
abbrev pub HasSockets : List (ℕ × Client) → Type 0
HasSockets [] = Unit {0}
HasSockets ((id, c) ∷ m) = ((socket : ℕ) × (c.socket ≡ some socket)) × HasSockets m

pub make_clients-HasSockets : (sockets : ℕ → ℕ) (k i : ℕ) → HasSockets (make_clients sockets k i)
unfolding make_clients initialize
make_clients-HasSockets sockets zero i = tt
make_clients-HasSockets sockets (suc k) i =
    ((sockets i, refl), make_clients-HasSockets sockets k (i + 1))

pub length-make_clients : (sockets : ℕ → ℕ) (k i : ℕ) → length (make_clients sockets k i) ≡ k
unfolding make_clients
length-make_clients sockets zero i = refl
length-make_clients sockets (suc k) i = ap suc (length-make_clients sockets k (i + 1))

-- AcceptReady ends with a value.
abbrev pub HasEnds : (ℕ → AcceptAnswer) → Type 0
HasEnds answers = (id : ℕ) → (value : Bool) × ((answers id).end_value ≡ some value)

-- The loop returns where there are as many structures as clients.
pub accept_all_returns :
    (answers : ℕ → AcceptAnswer) (m : List (ℕ × Client)) (n : Network)
    → HasEnds answers
    → IsStocked n
    → HasSockets m
    → length m ≤ free n
    → (n' : Network) × (accept_all answers m n ≡ some n')
      × (free n ≤ free n' + length m)
      × IsStocked n'
unfolding accept_all
accept_all_returns answers [] n ends s t h = (n, refl, omega arith, s)
accept_all_returns answers ((id, c) ∷ m) n ends s ((socket, has_socket), t) h =
    let a = answers id in
    let ((b, r, n'), done, used, s') =
      accept_ready_returns n s (omega arith) c socket has_socket a.socket_error a.result
        a.last_error a.end_value (ends id).0 (ends id).1 in
    let (n'', rest, used', s'') = accept_all_returns answers m n' ends s' t (omega arith) in
    (n'', rw done rest, omega arith, s'')
