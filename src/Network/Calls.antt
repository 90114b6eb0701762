-- ===== src/Network/Calls.antt =====
-- The calls of Client.cpp and the ownership of the overlapped structures.
use ranking_server.Base.{
  Option, ℕ, inl, inr, List, Bool, true, false, ◌==◌, Bool-cases, Option-cases, After, After-then,
}
use ranking_server.Ring.Bounds.{IsValid}
use ranking_server.Packet.{MessageHeader, op_accept, set_operation_type, set_header}
use ranking_server.Network.State.{Network, Client, Answer, invalid_socket}
use ranking_server.Network.Client.{
  receive_ready, accept_ready, send, send_on, prepare_send, is_failed,
}
use ranking_server.Network.Ownership.{Keeps, Keeps-refl, take_cases, start-Keeps, Keeps-wire}

module _ (n : Network) (v : IsValid n.overlapped_queue) where
  -- `ReceiveReady`, if it has a result, keeps the ownership.
  pub receive_ready-Keeps :
      (c : Client) (error : ℕ) (a : Answer) → After (λ r. Keeps n r.1) (receive_ready c error a n)
  unfolding receive_ready
  receive_ready-Keeps c error a = elim (Option-cases c.socket) [
    | inl e ↦ rw e tt
    | inr (socket, e) ↦ elim (Bool-cases (error == 0)) [
      | inl fine ↦ elim (take_cases n v) [
        | inl fault ↦ rw (e, fine, fault) tt
        | inr (pointer, o, rest, t) ↦ rw (e, fine, t.result) (start-Keeps t _ _)
      ]
      | inr broken ↦ rw (e, broken) (Keeps-refl n v)
    ]
  ]

  -- `AcceptReady` too.
  pub accept_ready-Keeps :
      (c : Client) (error : ℕ) (result : Bool) (last_error : ℕ) (end_value : Option Bool)
      → After (λ r. Keeps n r.2) (accept_ready c error result last_error end_value n)
  unfolding accept_ready
  accept_ready-Keeps c error result last_error end_value = elim (Option-cases c.socket) [
    | inl e ↦ rw e tt
    | inr (socket, e) ↦ elim (Bool-cases (error == 0)) [
      | inl fine ↦ elim (take_cases n v) [
        | inl fault ↦ rw (e, fine, fault) tt
        | inr (pointer, o, rest, t) ↦
            rw (e, fine, t.result)
              (After-then _ (set_header _ (set_operation_type op_accept o)) _
                λ o'. After-then _ end_value _ λ value. start-Keeps t o' _)
      ]
      | inr broken ↦ rw (e, broken) (Keeps-refl n v)
    ]
  ]

  send_on-Keeps :
      (socket : ℕ) (header : MessageHeader) (body : List ℕ) (size : ℕ) (a : Answer)
      → After (λ r. Keeps n r.1) (send_on socket header body size a n)
  send_on-Keeps socket header body size a = elim (take_cases n v) [
    | inl fault ↦ rw fault tt
    | inr (pointer, o, rest, t) ↦ rw t.result (
        After-then _ (prepare_send header body size o) _ λ o'. elim (Bool-cases (is_failed a)) [
          | inl lost ↦ rw lost (start-Keeps t o' false)
          | inr fine ↦ rw fine (Keeps-wire (start-Keeps t o' true) _)
        ])
  ]

  -- `Client::Send` too.
  pub send-Keeps :
      (c : Client) (header : MessageHeader) (body : List ℕ) (size : ℕ) (a : Answer)
      → After (λ r. Keeps n r.1) (send c header body size a n)
  unfolding send
  send-Keeps c header body size a = elim (Option-cases c.socket) [
    | inl e ↦ rw (e, send) (Keeps-refl n v)
    | inr (socket, e) ↦ elim (Bool-cases (socket == invalid_socket)) [
      | inl bad ↦ rw (e, send, bad) (Keeps-refl n v)
      | inr good ↦ rw (e, send, good) (send_on-Keeps socket header body size a)
    ]
  ]
