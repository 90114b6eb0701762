-- ===== src/Network/Manager.antt =====
-- RankingServer/src/NetworkManager.cpp.
pub mod Pool
pub mod Ready
pub mod Stock
use ranking_server.Base.{
  ℕ, zero, suc, ◌+◌, ◌*◌, ◌≡◌, List, [], ◌∷◌, ◌++◌, Option, none, some, ◌>>=◌, Bool, true, false,
  ◌==◌, if◌then◌else◌, not, u32,
}
use ranking_server.Ring.{Ring, construct, push}
use ranking_server.Packet.{CustomOverlapped}
use ranking_server.Packet
use ranking_server.Network.State.{
  Network, Client, find, Answer, Report, client_not_found, invalid_socket,
}
use ranking_server.Network.Client.{initialize, accept_ready, send}
use ranking_server.Network.Client

-- The loop that makes `k` structures and pushes their pointers, from the `i`th on. `cells` is what
-- `new` leaves in the two buffers of each. The result of `push` is not looked at.
unfoldable pub make_overlapped :
    (ℕ → List ℕ × List ℕ)
    → ℕ
    → ℕ
    → Ring (Option ℕ) × List CustomOverlapped
    → Ring (Option ℕ) × List CustomOverlapped
make_overlapped cells zero i (q, store) = (q, store)
make_overlapped cells (suc k) i (q, store) =
    make_overlapped cells k (i + 1)
      ((push q (some i)).1, store ++ (Packet.create (cells i).0 (cells i).1 ∷ []))

-- The loop that makes `k` clients from index `i` on, with the socket that WSASocket gives for each.
unfoldable pub make_clients : (ℕ → ℕ) → ℕ → ℕ → List (ℕ × Client)
make_clients sockets zero i = []
make_clients sockets (suc k) i =
    (i, initialize (sockets i) i Client.create) ∷ make_clients sockets k (i + 1)

-- What the operating system answers during `Initialize`: `true` for a call that fails.
pub record Platform : Type 0 where
  pub processors : ℕ
  pub wsa_startup_fails : Bool
  pub listen_socket : ℕ
  pub bind_fails : Bool
  pub listen_fails : Bool
  pub port_fails : Bool
  pub attach_fails : Bool
  pub ioctl_fails : Bool
  pub sockets : ℕ → ℕ
  pub cells : ℕ → List ℕ × List ℕ

pub data Cleanup : Type 0 where
  close_socket wsa_cleanup : Cleanup

-- `Initialize` returns early, after the clean-up calls listed, or has made the state.
pub data Startup : Type 0 where
  stopped : List Cleanup → Startup
  started : Network → Startup

-- The number of overlapped structures.
abbrev pub overlapped_count : ℕ
overlapped_count = 200

abbrev pub make_network : Platform → ℕ → Network
make_network p socket_max =
    let (q, store) =
      make_overlapped p.cells overlapped_count 0 (construct none overlapped_count, []) in
    record {
      overlapped = store;
      overlapped_queue = q;
      client_map = make_clients p.sockets socket_max 1;
      in_flight = [];
      wire = [];
    }

unfoldable pub initialize_manager : Platform → ℕ → Startup
initialize_manager p socket_max =
    if p.wsa_startup_fails
    then stopped []
    else if p.listen_socket == invalid_socket
    then stopped (wsa_cleanup ∷ [])
    else if p.bind_fails
    then stopped (close_socket ∷ wsa_cleanup ∷ [])
    else if p.listen_fails
    then stopped (close_socket ∷ wsa_cleanup ∷ [])
    else if p.port_fails
    then stopped (close_socket ∷ wsa_cleanup ∷ [])
    else if p.attach_fails
    then stopped (close_socket ∷ wsa_cleanup ∷ [])
    else if p.ioctl_fails
    then stopped []
    else started (make_network p socket_max)

-- `mNumThreads`
abbrev pub num_threads : Platform → ℕ
num_threads p = p.processors * 2

-- What a call of `AcceptReady` meets: SO_ERROR of the socket, the result of AcceptEx and its
-- error, and what the end of the function gives.
pub record AcceptAnswer : Type 0 where
  pub socket_error : ℕ
  pub result : Bool
  pub last_error : ℕ
  pub end_value : Option Bool

-- The loop of `Ready` over the clients.
unfoldable pub accept_all : (ℕ → AcceptAnswer) → List (ℕ × Client) → Network → Option Network
accept_all answers [] n = some n
accept_all answers ((id, c) ∷ m) n = do
  (_, _, n') ←
      accept_ready c (answers id).socket_error (answers id).result (answers id).last_error
        (answers id).end_value n
  accept_all answers m n'

-- The loop of `Ready` that starts the session threads, from the `i`th on.
unfoldable pub start_sessions : ℕ → ℕ → Ring (Option ℕ) → Ring (Option ℕ)
start_sessions zero i q = q
start_sessions (suc k) i q = start_sessions k (i + 1) (push q (some i)).1

-- `Ready`: where `Initialize` has stopped, the client map is a null pointer.
unfoldable pub ready_manager :
    Platform → (ℕ → AcceptAnswer) → Startup → Option (Network × Ring (Option ℕ))
ready_manager p answers (stopped _) = none
ready_manager p answers (started n) = do
  n' ← accept_all answers n.client_map n
  some (n', start_sessions (num_threads p) 0 (construct none (num_threads p + 1)))

-- `NetworkManager::Send`. `htonl` is the socket library's.
unfoldable pub send_to : (ℕ → ℕ) → ℕ → ℕ → List ℕ → ℕ → Answer → Network → Option (Report × Network)
send_to htonl id contents_type body size a n = elim (find id n.client_map) [
  | none ↦ some (client_not_found, n)
  | some client ↦
      send client
        (record {
          socket_id = htonl id;
          body_size = htonl size;
          contents_type = htonl contents_type;
        })
        body size a n
]
