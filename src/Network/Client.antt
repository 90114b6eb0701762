-- ===== src/Network/Client.antt =====
-- RankingServer/src/Client.cpp.
use ranking_server.Base.{
  ℕ, ◌-◌, ◌^◌, List, ◌∷◌, [], ◌++◌, Option, none, some, ◌>>=◌, Bool, true, false, not, ◌&&◌, ◌||◌,
  ◌==◌, if◌then◌else◌,
}
use ranking_server.Packet.{
  MessageHeader, CustomOverlapped, op_accept, op_recv, op_send, set_operation_type, set_header,
  set_body, transmitted,
}
use ranking_server.Network.State.{
  Client, Network, Report, ready, failed, socket_error_detected, invalid_socket_pointer, Answer,
  wsa_io_pending, invalid_socket, take_overlapped, start,
}

-- `-1` as an `int`, also `SOCKET_ERROR`.
abbrev pub int_minus_one : ℕ
int_minus_one = 2 ^ 32 - 1

-- The constructor.
pub create : Client
create = record { socket_id = int_minus_one; socket = none }

unfoldable pub initialize : ℕ → ℕ → Client → Client
initialize socket id c = record { socket_id = id; socket = some socket }

pub deinitialize : Client → Client
deinitialize c = record c { socket = none }

-- A transfer counts as failed if the call returns SOCKET_ERROR for another reason than that it goes
-- on in the background.
abbrev pub is_failed : Answer → Bool
is_failed a = a.is_error && not (a.last_error == wsa_io_pending)

abbrev pub report : Answer → Report
report a = if is_failed a then failed a.last_error else ready

-- `error` is what `getsockopt` gives for SO_ERROR, `a` the answer to `WSARecv`.
unfoldable pub receive_ready : Client → ℕ → Answer → Network → Option (Report × Network)
receive_ready c error a n = do
  socket ← c.socket
  if not (error == 0) then some (socket_error_detected error, n) else do
    (pointer, o, n') ← take_overlapped n
    some (report a, start pointer (set_operation_type op_recv o) (not (is_failed a)) n')

-- A `bool` compared with an `int`.
abbrev pub bool_int : Bool → ℕ
bool_int true = 1
bool_int false = 0

-- The test by which `AcceptReady` chooses what to log: the BOOL that AcceptEx returns, kept in a
-- `bool`, is compared with SOCKET_ERROR.
abbrev pub accept_is_failed : Bool → ℕ → Bool
accept_is_failed result last_error =
    bool_int result == int_minus_one && not (last_error == wsa_io_pending)

-- `AcceptReady` ends with no `return`, which is undefined: `end_value` is what the compiler lets it
-- return there, `none` where it lets it do anything else. AcceptEx takes the structure over if it
-- returns TRUE or the error is ERROR_IO_PENDING.
unfoldable pub accept_ready :
    Client → ℕ → Bool → ℕ → Option Bool → Network → Option (Bool × Report × Network)
accept_ready c error result last_error end_value n = do
  socket ← c.socket
  if not (error == 0) then some (false, socket_error_detected error, n) else do
    (pointer, o, n') ← take_overlapped n
    o' ←
        set_header (record { socket_id = c.socket_id; body_size = 0; contents_type = 0 })
          (set_operation_type op_accept o)
    value ← end_value
    some (
      value,
      (if accept_is_failed result last_error then failed last_error else ready),
      start pointer o' (result || last_error == wsa_io_pending) n',
    )

-- The structure that `Send` hands to WSASend.
unfoldable pub prepare_send :
    MessageHeader → List ℕ → ℕ → CustomOverlapped → Option CustomOverlapped
prepare_send header body size o = do
  o' ← set_header header (set_operation_type op_send o)
  set_body body size o'

abbrev pub send_on : ℕ → MessageHeader → List ℕ → ℕ → Answer → Network → Option (Report × Network)
send_on socket header body size a n = do
  (pointer, o, n') ← take_overlapped n
  o' ← prepare_send header body size o
  let n'' = start pointer o' (not (is_failed a)) n'
  some (
    report a,
    (if is_failed a
        then n''
        else record n'' { wire = n''.wire ++ ((socket, transmitted o') ∷ []) }),
  )

unfoldable pub send :
    Client → MessageHeader → List ℕ → ℕ → Answer → Network → Option (Report × Network)
send c header body size a n = elim c.socket [
  | none ↦ some (invalid_socket_pointer, n)
  | some socket ↦
      if socket == invalid_socket
      then some (invalid_socket_pointer, n)
      else send_on socket header body size a n
]
