-- ===== src/Server/Threads/Equal.antt =====
-- A round of Session.cpp as a program of accesses, and the round as one step.
pub mod Rounds
use ranking_server.Base.{
  ℕ, ◌≡◌, refl, sym, inl, inr, List, append-nil, Option, none, some, ◌>>=◌, Bool, true, false, ◌==◌,
  ◌%◌, ◌^◌, if◌then◌else◌, length, u32, get_elem?, Option-cases, Bool-cases,
}
use ranking_server.Outside.Flat.{FlatBuffers}
use ranking_server.Outside.Json.{JsonLibrary}
use ranking_server.Outside.Redis.{Redis}
use ranking_server.Ring.{pop}
use ranking_server.Packet.{
  CustomOverlapped, MessageHeader, OperationType, op_default, op_accept, op_recv, op_send, clear,
  read_header,
}
use ranking_server.Network.State.{
  Network, Client, Answer, invalid_socket, find, take_overlapped, give_back,
}
use ranking_server.Network.Client.{is_failed, prepare_send, receive_ready, send, send_on}
use ranking_server.Network.Manager.{send_to}
use ranking_server.Network.Session.{Completion, deliver, rearm, handle, round, dequeue, arrived}
use ranking_server.Server.Threads.{Program, stop, find_client, run}
use ranking_server.Server.Threads.Rounds.{
  or_fault, take_program, receive_program, send_on_program, send_program, send_to_program,
  give_back_program, deliver_program, rearm_program, handle_program, round_program,
  send_buffer_program, save_score_program, player_ranking_program, hub_read_program,
}
use ranking_server.Data.{score_to_json, read_ranking}
use ranking_server.Database.{get_cached_data, ranking_table}
use ranking_server.Protocol.RequestSaveScore
use ranking_server.Protocol.RequestPlayerRanking
use ranking_server.Hub.{
  send_buffer, response_save_score, response_player_ranking, hub_send, hub_read, message_read,
}

module _ {W : Type 0} where
  pub run-or_fault {ℓ} :
      {A : Type ℓ} (m : Option A) (k : A → Program W) (s : Network × W)
      → run (or_fault m k) s ≡ (m >>= λ x. run (k x) s)
  unfolding run
  run-or_fault none k s = refl
  run-or_fault (some x) k s = refl

  pub run-take_program :
      (k : ℕ → CustomOverlapped → Program W) (n : Network) (w : W)
      → run (take_program k) (n, w) ≡ (take_overlapped n >>= λ t. run (k t.0 t.1) (t.2, w))
  unfolding run take_overlapped
  run-take_program k n w = elim (Option-cases (pop none n.overlapped_queue).0) [
    | inl e ↦ rw e refl
    | inr (p, e) ↦ elim (Option-cases (get_elem? n.overlapped p)) [
      | inl e' ↦ rw (e, e') refl
      | inr (o, e') ↦ elim (Option-cases (clear o)) [
        | inl e'' ↦ rw (e, e', run-or_fault, e'') refl
        | inr (o', e'') ↦ rw (e, e', run-or_fault, e'') refl
      ]
    ]
  ]

  -- The continuation after an operation that leaves the world alone.
  abbrev pub after_call {ℓ} :
      {A : Type ℓ} → Program W → W → Option (A × Network) → Option (Network × W)
  after_call k w m = m >>= λ r. run k (r.1, w)

  pub run-receive_program :
      (c : Client) (error : ℕ) (a : Answer) (k : Program W) (n : Network) (w : W)
      → run (receive_program c error a k) (n, w) ≡ after_call k w (receive_ready c error a n)
  unfolding run receive_ready
  run-receive_program c error a k n w = elim (Option-cases c.socket) [
    | inl e ↦ rw (run-or_fault, e) refl
    | inr (socket, e) ↦ elim (Bool-cases (error == 0)) [
      | inl fine ↦ elim (Option-cases (take_overlapped n)) [
        | inl e' ↦ rw (run-or_fault, e, fine, run-take_program, e') refl
        | inr (t, e') ↦ rw (run-or_fault, e, fine, run-take_program, e', append-nil) refl
      ]
      | inr broken ↦ rw (run-or_fault, e, broken) refl
    ]
  ]

  pub run-send_on_program :
      (socket : ℕ) (header : MessageHeader) (body : List ℕ) (size : ℕ) (a : Answer) (k : Program W)
      (n : Network) (w : W)
      → run (send_on_program socket header body size a k) (n, w)
        ≡ after_call k w (send_on socket header body size a n)
  unfolding run
  run-send_on_program socket header body size a k n w = elim (Option-cases (take_overlapped n)) [
    | inl e ↦ rw (run-take_program, e) refl
    | inr (t, e) ↦ elim (Option-cases (prepare_send header body size t.1)) [
      | inl e' ↦ rw (run-take_program, e, run-or_fault, e') refl
      | inr (o, e') ↦ elim (Bool-cases (is_failed a)) [
        | inl lost ↦ rw (run-take_program, e, run-or_fault, e', lost, append-nil) refl
        | inr fine ↦ rw (run-take_program, e, run-or_fault, e', fine) refl
      ]
    ]
  ]

  pub run-send_program :
      (c : Client) (header : MessageHeader) (body : List ℕ) (size : ℕ) (a : Answer) (k : Program W)
      (n : Network) (w : W)
      → run (send_program c header body size a k) (n, w)
        ≡ after_call k w (send c header body size a n)
  unfolding run send
  run-send_program c header body size a k n w = elim (Option-cases c.socket) [
    | inl e ↦ rw e refl
    | inr (socket, e) ↦ elim (Bool-cases (socket == invalid_socket)) [
      | inl bad ↦ rw (e, bad) refl
      | inr good ↦ rw (e, good) (run-send_on_program socket header body size a k n w)
    ]
  ]

  pub run-send_to_program :
      (htonl : ℕ → ℕ) (id contents_type : ℕ) (body : List ℕ) (size : ℕ) (a : Answer) (k : Program W)
      (n : Network) (w : W)
      → run (send_to_program htonl id contents_type body size a k) (n, w)
        ≡ after_call k w (send_to htonl id contents_type body size a n)
  unfolding run send_to
  run-send_to_program htonl id contents_type body size a k n w =
      elim (Option-cases (find id n.client_map)) [
        | inl e ↦ rw (run, e, send_to) refl
        | inr (client, e) ↦ rw (run, e, send_to) (run-send_program client _ body size a k n w)
      ]

  pub run-give_back_program :
      (p : ℕ) (k : Program W) (n : Network) (w : W)
      → run (give_back_program p k) (n, w) ≡ (give_back p n >>= λ n'. run k (n', w))
  unfolding run give_back
  run-give_back_program p k n w = elim (Option-cases (get_elem? n.overlapped p)) [
    | inl e ↦ rw e refl
    | inr (o, e) ↦ elim (Option-cases (clear o)) [
      | inl e' ↦ rw (e, run-or_fault, e') refl
      | inr (o', e') ↦ rw (e, run-or_fault, e') refl
    ]
  ]
