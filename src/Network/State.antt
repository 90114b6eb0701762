-- ===== src/Network/State.antt =====
-- The state that the files of RankingServer/include and src for the network share: Client.h,
-- NetworkManager.h, and the queue of overlapped structures that all of them use.
use ranking_server.Base.{
  ℕ, ◌-◌, ◌^◌, List, [], ◌∷◌, Option, none, some, ◌>>=◌, Bool, ◌==◌, if◌then◌else◌, get_elem?, set,
}
use ranking_server.Ring.{Ring, push, pop}
use ranking_server.Packet.{CustomOverlapped, clear}

-- The socket of `Client::mClientSocketPtr` is `none` for a null pointer. An `int` is its 32-bit
-- pattern, a `SOCKET` its 64-bit one.
pub record Client : Type 0 where
  pub socket_id : ℕ
  pub socket : Option ℕ

abbrev pub invalid_socket : ℕ
invalid_socket = 2 ^ 64 - 1

-- A `CustomOverlapped*` is an index into `overlapped`, and a null pointer is `none`. `in_flight` are
-- the structures that the operating system works on, `wire` what it was given to send.
pub record Network : Type 0 where
  pub overlapped : List CustomOverlapped
  pub overlapped_queue : Ring (Option ℕ)
  pub client_map : List (ℕ × Client)
  pub in_flight : List ℕ
  pub wire : List (ℕ × List ℕ)

-- `clientMap->find(id)`
unfoldable pub find : ℕ → List (ℕ × Client) → Option Client
find id [] = none
find id ((k, c) ∷ m) = if k == id then some c else find id m

-- What an operation writes to the log, by the branch that writes it.
pub data Report : Type 0 where
  ready : Report
  failed : ℕ → Report
  socket_error_detected : ℕ → Report
  invalid_socket_pointer : Report
  client_not_found : Report

-- The operating system's answer to a call that starts a transfer.
pub record Answer : Type 0 where
  pub is_error : Bool
  pub last_error : ℕ

-- `WSA_IO_PENDING`
abbrev pub wsa_io_pending : ℕ
wsa_io_pending = 997

-- `mOverlappedQueue->pop()` and `overlapped->Clear()`, which reads through a null pointer if the
-- queue is empty.
unfoldable pub take_overlapped : Network → Option (ℕ × CustomOverlapped × Network)
take_overlapped n =
    let (front, rest) = pop none n.overlapped_queue in
    do
      pointer ← front
      o ← get_elem? n.overlapped pointer
      o' ← clear o
      some (pointer, o', record n { overlapped_queue = rest })

-- The structure as it is handed over, and whether the transfer has been accepted.
unfoldable pub start : ℕ → CustomOverlapped → Bool → Network → Network
start pointer o accepted n = record n {
  overlapped = set n.overlapped pointer o;
  in_flight = if accepted then pointer ∷ n.in_flight else n.in_flight;
}

-- `overlapped->Clear()` and `overlappedQueue->push(overlapped)` at the end of a round of
-- `Session::Process`, which does not look at the result of `push`.
unfoldable pub give_back : ℕ → Network → Option Network
give_back pointer n = do
  o ← get_elem? n.overlapped pointer
  o' ← clear o
  some (record n {
    overlapped = set n.overlapped pointer o';
    overlapped_queue = (push n.overlapped_queue (some pointer)).1;
  })
