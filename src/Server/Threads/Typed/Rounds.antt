-- ===== src/Server/Threads/Typed/Rounds.antt =====
-- Which overlapped structures a whole round of Session.cpp uses, with the hub as its callback.
use ranking_server.Base.{ℕ, List, [], ◌∷◌, ◌==◌, ◌%◌, ◌^◌}
use ranking_server.Outside.Flat.{FlatBuffers}
use ranking_server.Outside.Json.{JsonLibrary}
use ranking_server.Outside.Redis.{Redis}
use ranking_server.Packet.{
  CustomOverlapped, OperationType, op_default, op_accept, op_recv, op_send, read_header,
}
use ranking_server.Network.State.{Client, Answer}
use ranking_server.Network.Session.{Completion}
use ranking_server.Data.{score_to_json, read_ranking}
use ranking_server.Database.{get_cached_data, ranking_table}
use ranking_server.Protocol.RequestSaveScore
use ranking_server.Hub.{korea_time}
use ranking_server.Protocol.RequestPlayerRanking
use ranking_server.Server.Threads.{Program, stop}
use ranking_server.Server.Threads.Rounds.{
  deliver_program, rearm_program, handle_program, round_program, save_score_program,
  player_ranking_program, hub_read_program,
}
use ranking_server.Server.Threads.Typed.{
  or_fault-Uses, if-Uses, receive_program-Uses, send_to_program-Uses, give_back_program-Uses,
  found_program-Uses, Uses,
}

-- A callback that uses no structure but what it takes itself.
abbrev pub IsTyped : {W : Type 0} → (ℕ → ℕ → ℕ → List ℕ → Program W → Program W) → Type 0
IsTyped {W} program =
    (socket size type : ℕ) (body : List ℕ) (held : List ℕ) (k : Program W)
    → Uses held k
    → Uses held (program socket size type body k)

module _ {W : Type 0} (ntohl : ℕ → ℕ) (program : ℕ → ℕ → ℕ → List ℕ → Program W → Program W)
    (typed : IsTyped program) where
  rearm_program-Uses :
      (c : Completion) (client : Client)
      → Uses (c.pointer ∷ []) (rearm_program ntohl program c client)
  rearm_program-Uses c client =
      receive_program-Uses (c.pointer ∷ []) client c.socket_error c.answer _
        (give_back_program-Uses [] c.pointer stop tt)

  deliver_program-Uses :
      (c : Completion) (o : CustomOverlapped) (held : List ℕ) (k : Program W)
      → Uses held k
      → Uses held (deliver_program ntohl program c o k)
  deliver_program-Uses c o held k h =
      if-Uses held (c.bytes_transferred == 0) _ _ h
        (or_fault-Uses held (read_header o.header.buf) _ λ header. typed _ _ _ o.body.buf held k h)

  handle_program-Uses :
      (c : Completion) (o : CustomOverlapped) (t : OperationType)
      → Uses (c.pointer ∷ []) (handle_program ntohl program c o t)
  handle_program-Uses c o op_accept =
      or_fault-Uses (c.pointer ∷ []) (read_header o.header.buf) _
        λ header. found_program-Uses (c.pointer ∷ []) _ (rearm_program-Uses c)
  handle_program-Uses c o op_recv =
      found_program-Uses (c.pointer ∷ []) _
        λ client. deliver_program-Uses c o (c.pointer ∷ []) _ (rearm_program-Uses c client)
  handle_program-Uses c o op_send = give_back_program-Uses [] c.pointer stop tt
  handle_program-Uses c o op_default = give_back_program-Uses [] c.pointer stop tt

  pub round_program-Uses :
      (c : Completion) (o : CustomOverlapped)
      → Uses (c.pointer ∷ []) (round_program ntohl program c o)
  unfolding round_program
  round_program-Uses c o =
      if-Uses (c.pointer ∷ []) c.succeeded _ _ (handle_program-Uses c o o.operation_type) tt

module _ (fb : FlatBuffers) (js : JsonLibrary) (rd : Redis) (htonl : ℕ → ℕ) (a : Answer) where
  save_score_program-Uses :
      (socket : ℕ) (id : List ℕ) (score date : ℕ) (held : List ℕ) (k : Program rd.Store)
      → Uses held k
      → Uses held (save_score_program fb js rd htonl a socket id score date k)
  save_score_program-Uses socket id score date held k h =
      or_fault-Uses held (js.dump (score_to_json js id score date)) _
        λ json. send_to_program-Uses held htonl _ _ _ _ a k h

  player_ranking_program-Uses :
      (socket : ℕ) (id : List ℕ) (held : List ℕ) (k : Program rd.Store)
      → Uses held k
      → Uses held (player_ranking_program fb js rd htonl a socket id k)
  player_ranking_program-Uses socket id held k h s =
      or_fault-Uses held (get_cached_data js rd ranking_table id s) _ λ json.
        if-Uses held (js.is_blank json) _ _ (send_to_program-Uses held htonl _ _ _ _ a k h) (
          or_fault-Uses held (read_ranking js json) _
            λ r. send_to_program-Uses held htonl _ _ _ _ a k h)

  pub hub_read_program-IsTyped : IsTyped (hub_read_program fb js rd htonl a)
  unfolding hub_read_program
  hub_read_program-IsTyped socket size type body held k h =
      if-Uses held (type % 2 ^ 8 == 3) _ _
        (or_fault-Uses held (RequestPlayerRanking.player_id fb (fb.root body)) _
          λ id. player_ranking_program-Uses socket id held k h)
        (if-Uses held (type % 2 ^ 8 == 1) _ _
          (or_fault-Uses held (RequestSaveScore.player_id fb (fb.root body)) _ λ id.
            or_fault-Uses held (korea_time (RequestSaveScore.last_update fb (fb.root body))) _
              λ date. save_score_program-Uses socket id _ date held k h)
          h)

  -- The program of a session round with the hub as its callback, begun with the completion's
  -- structure alone, looks at, hands over and pushes only structures that it holds then: the
  -- completion's and those it has popped, until it hands them over or pushes them. What it hands
  -- over or pushes has buffers of the right sizes, where what it looks at has.
  pub round-Uses :
      (ntohl : ℕ → ℕ) (c : Completion) (o : CustomOverlapped)
      → Uses (c.pointer ∷ []) (round_program ntohl (hub_read_program fb js rd htonl a) c o)
  round-Uses ntohl c o =
      round_program-Uses ntohl (hub_read_program fb js rd htonl a) hub_read_program-IsTyped c o
