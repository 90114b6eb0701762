-- ===== src/Examples/Setting.antt =====
-- A small network that is serving one client, for the other modules here.
use ranking_server.Base.{refl, [], ◌∷◌, ◌++◌, none, some, true, arith, replicate}
use ranking_server.Ring.Bounds.{IsValid}
use ranking_server.Packet.{CustomOverlapped, MessageHeader, op_recv, header_bytes, buffer_size}
use ranking_server.Packet
use ranking_server.Packet.Buffers
use ranking_server.Network.State.{Client, Network, Answer}
use ranking_server.Network.Session.{Completion}
use ranking_server.Network.Supply.{IsStocked}
use ranking_server.Packet.{op_send, OperationType}

abbrev pub fresh : CustomOverlapped
fresh = Packet.create (replicate 12 0) (replicate 1024 0)

-- Structure 0 is receiving for the client with id 1, structure 1 is free.
abbrev pub serving : Network
serving = record {
  overlapped = record fresh { operation_type = op_recv } ∷ fresh ∷ [];
  overlapped_queue = record {
    max_size = 3;
    input = 1;
    output = 0;
    buffer = some 1 ∷ none ∷ none ∷ [];
  };
  client_map = (1, record { socket_id = 1; socket = some 500 }) ∷ [];
  in_flight = 0 ∷ [];
  wire = [];
}

pub serving-IsValid : IsValid serving.overlapped_queue
serving-IsValid = omega arith

abbrev pub accepted : Answer
accepted = record { is_error = true; last_error = 997 }

-- A request for a ranking comes in for structure 0.
abbrev pub request : Completion
request = record {
  succeeded = true;
  bytes_transferred = 13;
  key = 1;
  pointer = 0;
  received = header_bytes (record { socket_id = 1; body_size = 1; contents_type = 3 }) ++ (0 ∷ []);
  socket_error = 0;
  answer = accepted;
}

pub fresh-IsValid : Packet.Buffers.IsValid fresh
fresh-IsValid = Packet.Buffers.create-IsValid (replicate 12 0) (replicate 1024 0) refl refl

abbrev pub client : Client
client = record { socket_id = 1; socket = some 500 }

pub typed-IsValid :
    (t : OperationType) → Packet.Buffers.IsValid (record fresh { operation_type = t })
typed-IsValid t = record {
  header_cells = fresh-IsValid.header_cells;
  header_len = fresh-IsValid.header_len;
  body_cells = fresh-IsValid.body_cells;
  body_len = fresh-IsValid.body_len;
}

pub serving-IsStocked : IsStocked serving
serving-IsStocked = record {
  queue = serving-IsValid;
  structures = (typed-IsValid op_recv, (fresh-IsValid, tt));
  free = omega arith;
}
