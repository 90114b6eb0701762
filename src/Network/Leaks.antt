-- ===== src/Network/Leaks.antt =====
-- The rounds of Session.cpp that are left by `continue`.
use ranking_server.Base.{ℕ, ◌≡◌, refl, List}
use ranking_server.Packet.{CustomOverlapped, OperationType, op_default, op_accept, op_recv, op_send}
use ranking_server.Network.Session.{arrived_as, scatter}

-- The bytes that come in leave the kind of the operation.
pub arrived_as-type :
    (t : OperationType) (received : List ℕ) (o : CustomOverlapped)
    → (arrived_as t received o).operation_type ≡ o.operation_type
unfolding scatter
arrived_as-type op_recv received o = refl
arrived_as-type op_default received o = refl
arrived_as-type op_accept received o = refl
arrived_as-type op_send received o = refl
