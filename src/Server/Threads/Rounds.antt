-- ===== src/Server/Threads/Rounds.antt =====
-- The round of Session.cpp, with the calls of Client.cpp, NetworkManager.cpp, Hub.cpp and
-- RankingSystem.cpp that it makes, as a program of accesses. `k` is what comes after.
use ranking_server.Base.{
  ℕ, List, [], ◌∷◌, Option, none, some, true, not, ◌==◌, ◌%◌, ◌^◌, if◌then◌else◌, length, u32,
}
use ranking_server.Outside.Flat.{FlatBuffers}
use ranking_server.Outside.Json.{JsonLibrary}
use ranking_server.Outside.Redis.{Redis}
use ranking_server.Packet.{
  CustomOverlapped, MessageHeader, OperationType, op_default, op_accept, op_recv, op_send,
  set_operation_type, clear, read_header, transmitted,
}
use ranking_server.Data.{score_to_json, read_ranking}
use ranking_server.Database.{set_cached_data, get_cached_data, score_table, ranking_table}
use ranking_server.Protocol.MessageContent
use ranking_server.Protocol.RequestSaveScore
use ranking_server.Protocol.ResponseSaveScore
use ranking_server.Protocol.RequestPlayerRanking
use ranking_server.Network.State.{Client, Answer, invalid_socket}
use ranking_server.Network.Client.{is_failed, prepare_send}
use ranking_server.Network.Session.{Completion}
use ranking_server.Hub.{korea_time, save_ttl, ranked_response, unranked_response}
use ranking_server.Server.Threads.{
  Program, stop, fault, pop_queue, look, hand_over, push_queue, find_client, ask, update,
}

module _ {W : Type 0} where
  abbrev pub or_fault {ℓ} : {A : Type ℓ} → Option A → (A → Program W) → Program W
  or_fault none k = fault
  or_fault (some a) k = k a

  abbrev pub take_program : (ℕ → CustomOverlapped → Program W) → Program W
  take_program k = pop_queue λ p. look p λ o. or_fault (clear o) λ o'. k p o'

  -- `Client::ReceiveReady`
  abbrev pub receive_program : Client → ℕ → Answer → Program W → Program W
  receive_program c error a k = or_fault c.socket λ socket.
      if not (error == 0)
      then k
      else take_program λ p o. hand_over p (set_operation_type op_recv o) (not (is_failed a)) [] k

  abbrev pub send_on_program : ℕ → MessageHeader → List ℕ → ℕ → Answer → Program W → Program W
  send_on_program socket header body size a k = take_program λ p o.
      or_fault (prepare_send header body size o) λ o'.
        hand_over p o' (not (is_failed a))
          (if is_failed a then [] else (socket, transmitted o') ∷ []) k

  -- `Client::Send`
  abbrev pub send_program : Client → MessageHeader → List ℕ → ℕ → Answer → Program W → Program W
  send_program c header body size a k = elim c.socket [
    | none ↦ k
    | some socket ↦
        if socket == invalid_socket then k else send_on_program socket header body size a k
  ]

  -- `NetworkManager::Send`
  abbrev pub send_to_program : (ℕ → ℕ) → ℕ → ℕ → List ℕ → ℕ → Answer → Program W → Program W
  send_to_program htonl id contents_type body size a k = find_client id λ found. elim found [
    | none ↦ k
    | some client ↦
        send_program client
          (record {
            socket_id = htonl id;
            body_size = htonl size;
            contents_type = htonl contents_type;
          })
          body size a k
  ]

  -- `overlapped->Clear()` and `overlappedQueue->push(overlapped)`
  abbrev pub give_back_program : ℕ → Program W → Program W
  give_back_program p k = look p λ o. or_fault (clear o) λ o'. push_queue p o' k

module _ {W : Type 0} (ntohl : ℕ → ℕ) (callback : ℕ → ℕ → ℕ → List ℕ → Program W → Program W) where
  abbrev pub deliver_program : Completion → CustomOverlapped → Program W → Program W
  deliver_program c o k =
      if c.bytes_transferred == 0
      then k
      else or_fault (read_header o.header.buf) λ header.
        callback (u32 c.key) (ntohl header.body_size) (ntohl header.contents_type) o.body.buf k

  abbrev pub rearm_program : Completion → Client → Program W
  rearm_program c client =
      receive_program client c.socket_error c.answer (give_back_program c.pointer stop)

  -- The switch of `Process`.
  abbrev pub handle_program : Completion → CustomOverlapped → OperationType → Program W
  handle_program c o op_accept = or_fault (read_header o.header.buf) λ header.
      find_client (u32 header.socket_id)
        λ found. elim found [ none ↦ stop | some client ↦ rearm_program c client ]
  handle_program c o op_recv = find_client (u32 c.key) λ found. elim found [
    | none ↦ stop
    | some client ↦ deliver_program c o (rearm_program c client)
  ]
  handle_program c o op_send = give_back_program c.pointer stop
  handle_program c o op_default = give_back_program c.pointer stop

  -- A round after GetQueuedCompletionStatus has returned with the structure as `o`.
  unfoldable pub round_program : Completion → CustomOverlapped → Program W
  round_program c o = if c.succeeded then handle_program c o o.operation_type else stop

module _ (fb : FlatBuffers) (js : JsonLibrary) (rd : Redis) (htonl : ℕ → ℕ) (a : Answer) where
  abbrev pub send_buffer_program : ℕ → ℕ → List ℕ → Program rd.Store → Program rd.Store
  send_buffer_program socket_id contents_type buffer k =
      send_to_program htonl socket_id contents_type buffer (length buffer) a k

  -- `Hub::Response_SaveScore`
  abbrev pub save_score_program : ℕ → List ℕ → ℕ → ℕ → Program rd.Store → Program rd.Store
  save_score_program socket_id id new_score update_date k =
      or_fault (js.dump (score_to_json js id new_score update_date)) λ json.
        update (set_cached_data js rd score_table id json save_ttl) (
          send_buffer_program socket_id MessageContent.response_save_score
            (fb.finish (ResponseSaveScore.create id true)) k)

  -- `Hub::Response_PlayerRanking`
  abbrev pub player_ranking_program : ℕ → List ℕ → Program rd.Store → Program rd.Store
  player_ranking_program socket_id id k = ask λ s.
      or_fault (get_cached_data js rd ranking_table id s) λ json.
        if js.is_blank json
        then send_buffer_program socket_id MessageContent.response_player_ranking
            (unranked_response fb id) k
        else or_fault (read_ranking js json) λ r.
          send_buffer_program socket_id MessageContent.response_player_ranking
            (ranked_response fb id r) k

  -- `Hub::Read`, `RankingSystem::MessageRead` and `Hub::Send`
  unfoldable pub hub_read_program : ℕ → ℕ → ℕ → List ℕ → Program rd.Store → Program rd.Store
  hub_read_program socket_id body_size request_type body k =
      let message_type = request_type % 2 ^ 8 in
      if message_type == MessageContent.request_player_ranking
      then or_fault (RequestPlayerRanking.player_id fb (fb.root body))
          (λ id. player_ranking_program socket_id id k)
      else if message_type == MessageContent.request_save_score
      then or_fault (RequestSaveScore.player_id fb (fb.root body)) (λ id.
        or_fault (korea_time (RequestSaveScore.last_update fb (fb.root body))) (λ update_date.
          save_score_program socket_id id (RequestSaveScore.score fb (fb.root body)) update_date k))
      else k
