-- ===== src/Examples/Sessions.antt =====
-- Session.cpp and Client.cpp at concrete inputs.
use ranking_server.Base.{ℕ, ◌≡◌, refl, List, [], ◌∷◌, Option, none, some, arith, After}
use ranking_server.Ring.{pop}
use ranking_server.Ring.Contents.{pop_some}
use ranking_server.Packet.{CustomOverlapped, MessageHeader, op_recv, header_bytes, buffer_size}
use ranking_server.Packet
use ranking_server.Packet.Buffers
use ranking_server.Network.State.{Network, take_overlapped}
use ranking_server.Network.Supply.{IsStocked}
use ranking_server.Packet.{op_send, OperationType}
use ranking_server.Examples.Setting.{fresh, fresh-IsValid, serving, serving-IsValid, typed-IsValid}

After-unit : {A : Type 0} (m : Option A) → After (λ a. Unit {0}) m
After-unit none = tt
After-unit (some a) = tt

abbrev taken_cleared : CustomOverlapped
taken_cleared = Packet.Buffers.cleared fresh

abbrev after_taken : Network
after_taken = record serving {
  overlapped_queue = record {
    max_size = 3;
    input = 1;
    output = 1;
    buffer = some 1 ∷ none ∷ none ∷ [];
  };
}

popped : pop none serving.overlapped_queue ≡ (some 1, after_taken.overlapped_queue)
popped = pop_some none serving.overlapped_queue refl

serving-taken : take_overlapped serving ≡ some (1, taken_cleared, after_taken)
unfolding take_overlapped
serving-taken = rw (popped, (Packet.Buffers.clear_lem fresh fresh-IsValid).0) refl

abbrev send_header : MessageHeader
send_header = record { socket_id = 1; body_size = 2; contents_type = 4 }

cleared-IsValid : Packet.Buffers.IsValid taken_cleared
cleared-IsValid = (Packet.Buffers.clear_lem fresh fresh-IsValid).1

-- Structure 0 has been sending.
abbrev sending : Network
sending = record serving { overlapped = record fresh { operation_type = op_send } ∷ fresh ∷ [] }

sending-IsStocked : IsStocked sending
sending-IsStocked = record {
  queue = serving-IsValid;
  structures = (typed-IsValid op_send, (fresh-IsValid, tt));
  free = omega arith;
}

abbrev nothing_more : ℕ → ℕ → ℕ → List ℕ → Network × ℕ → Option (Network × ℕ)
nothing_more socket size type body s = some s
