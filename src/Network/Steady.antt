-- ===== src/Network/Steady.antt =====
-- The calls of Client.cpp and the store of overlapped structures.
pub mod Rounds
use ranking_server.Base.{
  ℕ, ◌<◌, ◌≤◌, ◌≡◌, refl, sym, ap, ◌∙◌, inl, inr, List, Option, none, some, ◌>>=◌, Bool, true,
  false, not, ◌==◌, leb, if◌then◌else◌, arith, length, length-set, set, Bool-cases, Option-cases,
  After, After-then, After-if, After->>=, After-mono, ne_of_==, dec_lt,
}
use ranking_server.Ring.{pop}
use ranking_server.Ring.Contents.{pop_empty}
use ranking_server.Packet.{
  CustomOverlapped, OperationType, MessageHeader, op_recv, op_accept, op_send, set_operation_type,
  set_header, set_body, buffer_size,
}
use ranking_server.Packet.Buffers
use ranking_server.Packet.Buffers.{set_header_lem, set_body_lem, set_body_overrun, set_body_lacking}
use ranking_server.Network.State.{
  Network, Client, Answer, Report, find, take_overlapped, start, invalid_socket,
}
use ranking_server.Network.Client.{
  receive_ready, accept_ready, send, send_on, prepare_send, is_failed, report,
}
use ranking_server.Network.Wire.{set_operation_type-IsValid}
use ranking_server.Network.Manager.{send_to}
use ranking_server.Network.Supply.{IsStocked, supply_lem, start-IsStocked}

-- The network after an operation is stocked, over a store of the same size.
pub record Steady (n n' : Network) : Type 0 where
  pub stocked : IsStocked n'
  pub same : length n'.overlapped ≡ length n.overlapped

pub Steady-refl : (n : Network) → IsStocked n → Steady n n
Steady-refl n s = record { stocked = s; same = refl }

pub Steady-trans : {n m k : Network} → Steady n m → Steady m k → Steady n k
Steady-trans a b = record { stocked = b.stocked; same = b.same ∙ a.same }

wire-Steady :
    {n m : Network} → Steady n m → (wire : List (ℕ × List ℕ)) → Steady n (record m { wire = wire })
wire-Steady k wire = record {
  stocked = record {
    queue = k.stocked.queue;
    structures = k.stocked.structures;
    free = k.stocked.free;
  };
  same = k.same;
}

pub start-Steady :
    {n m : Network}
    → Steady n m
    → (pointer : ℕ) (o : CustomOverlapped) (accepted : Bool) → Buffers.IsValid o
    → Steady n (start pointer o accepted m)
unfolding start
start-Steady {n} {m} s pointer o accepted v = record {
  stocked = start-IsStocked m pointer o accepted s.stocked v;
  same = length-set m.overlapped pointer o ∙ s.same;
}

-- What is taken is a valid structure.
pub take_overlapped-Steady :
    (n : Network)
    → IsStocked n
    → After (λ t. Buffers.IsValid t.1 × Steady n t.2) (take_overlapped n)
unfolding take_overlapped
take_overlapped-Steady n s =
    elim (Bool-cases (n.overlapped_queue.output == n.overlapped_queue.input)) [
      | inl gone ↦ rw (pop_empty none n.overlapped_queue gone) tt
      | inr some_left ↦
          let (pointer, o, rest, supply, shown) = supply_lem n s (ne_of_== some_left) in
          rw supply.result (supply.valid, record { stocked = supply.stocked; same = refl })
    ]

set_header-IsValid :
    (h : MessageHeader) (o : CustomOverlapped)
    → Buffers.IsValid o
    → After Buffers.IsValid (set_header h o)
set_header-IsValid h o v = let (done, valid) = set_header_lem o v h in rw done valid

set_body-IsValid :
    (source : List ℕ) (n : ℕ) (o : CustomOverlapped)
    → Buffers.IsValid o
    → After Buffers.IsValid (set_body source n o)
set_body-IsValid source n o v = elim (dec_lt buffer_size n) [
  | yes long ↦ rw (set_body_overrun o v source n long) tt
  | no short ↦ elim (dec_lt (length source) n) [
    | yes lacking ↦ rw (set_body_lacking o v source n (omega arith) lacking) tt
    | no enough ↦
        let (done, valid) = set_body_lem o v source n (omega arith) (omega arith) in rw done valid
  ]
]

pub prepare_send-IsValid :
    (header : MessageHeader) (body : List ℕ) (size : ℕ) (o : CustomOverlapped)
    → Buffers.IsValid o
    → After Buffers.IsValid (prepare_send header body size o)
unfolding prepare_send
prepare_send-IsValid header body size o v =
    After->>= _ _ (set_header header (set_operation_type op_send o)) _
      (set_header-IsValid _ _ (set_operation_type-IsValid op_send o v))
      λ o' w. set_body-IsValid body size o' w

module _ (n : Network) (s : IsStocked n) where
  pub receive_ready-Steady :
      (c : Client) (error : ℕ) (a : Answer) → After (λ r. Steady n r.1) (receive_ready c error a n)
  unfolding receive_ready
  receive_ready-Steady c error a = After-then _ c.socket _ λ socket.
      After-if _ (not (error == 0)) _ _ (Steady-refl n s) (
        After->>= _ _ (take_overlapped n) _ (take_overlapped-Steady n s)
          λ t k. start-Steady k.1 t.0 _ _ (set_operation_type-IsValid op_recv t.1 k.0))

  pub accept_ready-Steady :
      (c : Client) (error : ℕ) (result : Bool) (last_error : ℕ) (end_value : Option Bool)
      → After (λ r. Steady n r.2) (accept_ready c error result last_error end_value n)
  unfolding accept_ready
  accept_ready-Steady c error result last_error end_value = After-then _ c.socket _ λ socket.
      After-if _ (not (error == 0)) _ _ (Steady-refl n s) (
        After->>= _ _ (take_overlapped n) _ (take_overlapped-Steady n s) λ t k.
          After->>= _ _ (set_header _ (set_operation_type op_accept t.1)) _
            (set_header-IsValid _ _ (set_operation_type-IsValid op_accept t.1 k.0))
            λ o' v. After-then _ end_value _ λ value. start-Steady k.1 t.0 o' _ v)

  send_on-Steady :
      (socket : ℕ) (header : MessageHeader) (body : List ℕ) (size : ℕ) (a : Answer)
      → After (λ r. Steady n r.1) (send_on socket header body size a n)
  send_on-Steady socket header body size a =
      After->>= _ _ (take_overlapped n) _ (take_overlapped-Steady n s) λ t k.
        After->>= _ _ (prepare_send header body size t.1) _
          (prepare_send-IsValid header body size t.1 k.0)
          λ o' v. elim (Bool-cases (is_failed a)) [
            | inl lost ↦ rw lost (start-Steady k.1 t.0 o' false v)
            | inr fine ↦ rw fine (wire-Steady (start-Steady k.1 t.0 o' true v) _)
          ]

  pub send_to-Steady :
      (htonl : ℕ → ℕ) (id contents_type : ℕ) (body : List ℕ) (size : ℕ) (a : Answer)
      → After (λ r. Steady n r.1) (send_to htonl id contents_type body size a n)
  unfolding send_to send
  send_to-Steady htonl id contents_type body size a = elim (Option-cases (find id n.client_map)) [
    | inl e ↦ rw (e, send_to) (Steady-refl n s)
    | inr (client, e) ↦ elim (Option-cases client.socket) [
      | inl e' ↦ rw (e, send_to, e', send) (Steady-refl n s)
      | inr (socket, e') ↦ elim (Bool-cases (socket == invalid_socket)) [
        | inl bad ↦ rw (e, send_to, e', send, bad) (Steady-refl n s)
        | inr good ↦ rw (e, send_to, e', send, good) (send_on-Steady socket _ body size a)
      ]
    ]
  ]
