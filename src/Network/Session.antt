-- ===== src/Network/Session.antt =====
-- RankingServer/src/Session.cpp.
use ranking_server.Base.{
  ℕ, List, [], ◌∷◌, Option, none, some, ◌>>=◌, Bool, ◌==◌, if◌then◌else◌, get_elem?, set, drop, u32,
  true, false,
}
use ranking_server.Packet.{
  CustomOverlapped, OperationType, op_default, op_accept, op_recv, op_send, read_header,
  header_size,
}
use ranking_server.Network.State.{Client, Network, find, Answer, give_back}
use ranking_server.Network.Client.{receive_ready}

pub record Session : Type 0 where
  pub active : Bool

abbrev pub create : Session
create = record { active = false }

abbrev pub activate : Session → Session
activate s = record { active = true }

abbrev pub deactivate : Session → Session
deactivate s = record { active = false }

-- What GetQueuedCompletionStatus returns, with the bytes that have come in, and the answers to the
-- calls that the round makes.
pub record Completion : Type 0 where
  pub succeeded : Bool
  pub bytes_transferred : ℕ
  pub key : ℕ
  pub pointer : ℕ
  pub received : List ℕ
  pub socket_error : ℕ
  pub answer : Answer

-- The bytes that have come in, over the front of a buffer.
abbrev pub overwrite : List ℕ → List ℕ → List ℕ
overwrite [] cells = cells
overwrite (x ∷ xs) [] = []
overwrite (x ∷ xs) (c ∷ cells) = x ∷ overwrite xs cells

-- WSARecv fills the two buffers one after the other.
unfoldable pub scatter : List ℕ → CustomOverlapped → CustomOverlapped
scatter received o = record o {
  header = record { buf = overwrite received o.header.buf; len = o.header.len };
  body = record { buf = overwrite (drop header_size received) o.body.buf; len = o.body.len };
}

unfoldable pub remove_first : ℕ → List ℕ → List ℕ
remove_first p [] = []
remove_first p (q ∷ qs) = if q == p then qs else q ∷ remove_first p qs

-- The operating system lets go of the structure, a receive with its bytes in it.
abbrev pub arrived_as : OperationType → List ℕ → CustomOverlapped → CustomOverlapped
arrived_as op_recv received o = scatter received o
arrived_as _ received o = o

abbrev pub arrived : List ℕ → CustomOverlapped → CustomOverlapped
arrived received o = arrived_as o.operation_type received o

unfoldable pub dequeue : Completion → CustomOverlapped → Network → Network
dequeue c o n = record n {
  overlapped = set n.overlapped c.pointer o;
  in_flight = remove_first c.pointer n.in_flight;
}

-- `ntohl` is the socket library's; the callback is the one handed to `Process`. `W` is the state of
-- the server outside the network.
module _ {W : Type 0} (ntohl : ℕ → ℕ)
    (callback : ℕ → ℕ → ℕ → List ℕ → Network × W → Option (Network × W)) where
  -- A message that has come in goes to the callback; no bytes are the end of the connection or an
  -- error, which is only logged.
  unfoldable pub deliver : Completion → CustomOverlapped → Network × W → Option (Network × W)
  deliver c o s = if c.bytes_transferred == 0 then some s else do
    header ← read_header o.header.buf
    callback (u32 c.key) (ntohl header.body_size) (ntohl header.contents_type) o.body.buf s

  -- `client->ReceiveReady()`, and then the end of the round.
  unfoldable pub rearm : Completion → Client → Network × W → Option (Network × W)
  rearm c client s = do
    (_, n) ← receive_ready client c.socket_error c.answer s.0
    n' ← give_back c.pointer n
    some (n', s.1)

  -- The switch. Where the client is not found the round is left by `continue`.
  unfoldable pub handle :
      Completion → CustomOverlapped → OperationType → Network × W → Option (Network × W)
  handle c o op_accept s = do
    header ← read_header o.header.buf
    elim (find (u32 header.socket_id) s.0.client_map) [
      | none ↦ some s
      | some client ↦ rearm c client s
    ]
  handle c o op_recv s = elim (find (u32 c.key) s.0.client_map) [
    | none ↦ some s
    | some client ↦ do s' ← deliver c o s; rearm c client s'
  ]
  handle c o op_send s = do n ← give_back c.pointer s.0; some (n, s.1)
  handle c o op_default s = do n ← give_back c.pointer s.0; some (n, s.1)

  -- One round of the loop of `Process`.
  unfoldable pub round : Completion → Network × W → Option (Network × W)
  round c s = do
    o ← get_elem? s.0.overlapped c.pointer
    let o' = arrived c.received o
    let s' : Network × W = (dequeue c o' s.0, s.1)
    if c.succeeded then handle c o' o'.operation_type s' else some s'

  -- The loop, over the completions that come while the session is active.
  unfoldable pub process : List Completion → Network × W → Option (Network × W)
  process [] s = some s
  process (c ∷ cs) s = do s' ← round c s; process cs s'

  -- The test of `while (mActive)`, which nothing changes while the loop runs: `Deactivate` is called
  -- nowhere.
  unfoldable pub serve : Session → List Completion → Network × W → Option (Network × W)
  serve session cs s = if session.active then process cs s else some s
