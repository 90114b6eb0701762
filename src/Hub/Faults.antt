-- ===== src/Hub/Faults.antt =====
-- Requests that Hub.cpp does not survive: the message is read without the verifier, the JSON text is
-- made without a handler, and the answer is not measured.
use ranking_server.Base.{
  ◌≤◌, ◌+◌, ◌*◌, ℕ, ◌%◌, ◌^◌, ◌<◌, ◌≡◌, ◌≢◌, ◌⊎◌, inl, inr, refl, ◌∙◌, List, ◌++◌, Option, none,
  some, true, ◌==◌, length, u32, ==_of_ne, ne_of_==, Bool-cases, Option-cases,
}
use ranking_server.Outside.Flat.{FlatBuffers, Slot, IsDistinct, IsNoElement, string_in}
use ranking_server.Outside.Json.{JsonLibrary}
use ranking_server.Outside.Redis.{Redis}
use ranking_server.Packet.{CustomOverlapped, MessageHeader, OperationType, op_recv, buffer_size}
use ranking_server.Ring.Contents.{pop_empty}
use ranking_server.Data.{score_to_json, ranking_to_json}
use ranking_server.Database.{get_cached_data, ranking_table}
use ranking_server.Protocol.RequestSaveScore
use ranking_server.Protocol.ResponseSaveScore
use ranking_server.Protocol.RequestPlayerRanking
use ranking_server.Protocol.RoundTrip.{request_save_score_roundtrip}
use ranking_server.Network.State.{Network, Client, Answer, find, take_overlapped, invalid_socket}
use ranking_server.Network.Client.{send}
use ranking_server.Network.Manager.{send_to}
use ranking_server.Network.Session.{Completion, deliver, handle, round, dequeue, arrived}
use ranking_server.Network.Supply.{IsStocked, supply_lem}
use ranking_server.Network.Wire.{send_overrun}
use ranking_server.Network.Returns.{get_elem?-AllValid}
use ranking_server.Network.Closed.{arrived_as-IsValid}
use ranking_server.Network.Steady.Rounds.{dequeue-Steady}
use ranking_server.Network.Leaks.{arrived_as-type}
use ranking_server.Network.Arrival.{Arrives, deliver_lem}
use ranking_server.Hub.{
  send_buffer, response_save_score, hub_send, hub_read, message_read, nine_hours_later, IsInRange,
  ranked_response, unranked_response,
}
use ranking_server.Hub.Requests.{
  korea_time-IsInRange, korea_time_late, hub_send_save_score, hub_send_ranked, hub_send_unranked,
}

-- A request that does harm, by the table `ss` that it is the buffer of, its contents type and what is
-- in the cache: no name, a time that overflows, a name that makes no JSON text, or an answer longer
-- than BUFFER_SIZE.
pub data Harmful (fb : FlatBuffers) (js : JsonLibrary) (rd : Redis) (type : ℕ) (cache : rd.Store)
    (ss : List Slot) : Type 0 where
  unnamed :
      (type % 2 ^ 8 ≡ 1) ⊎ (type % 2 ^ 8 ≡ 3)
      → IsNoElement ss RequestSaveScore.vt_player_id
      → string_in ss RequestSaveScore.vt_player_id ≡ none
      → Harmful fb js rd type cache ss
  late :
      (id : List ℕ) (score time : ℕ)
      → type % 2 ^ 8 ≡ 1
      → score < 2 ^ 32
      → time < 2 ^ 64
      → ss ≡ RequestSaveScore.create id score time
      → time < 2 ^ 63
      → 2 ^ 63 ≤ time + 9 * 3600
      → Harmful fb js rd type cache ss
  undumpable :
      (id : List ℕ) (score time : ℕ)
      → type % 2 ^ 8 ≡ 1
      → IsInRange score time
      → ss ≡ RequestSaveScore.create id score time
      → js.dump (score_to_json js id score (nine_hours_later time)) ≡ none
      → Harmful fb js rd type cache ss
  long_confirmation :
      (id : List ℕ) (score time : ℕ)
      → type % 2 ^ 8 ≡ 1
      → IsInRange score time
      → ss ≡ RequestSaveScore.create id score time
      → buffer_size < length (fb.finish (ResponseSaveScore.create id true))
      → Harmful fb js rd type cache ss
  long_unranked :
      (id : List ℕ)
      → type % 2 ^ 8 ≡ 3
      → ss ≡ RequestPlayerRanking.create id
      → get_cached_data js rd ranking_table id cache ≡ some js.blank
      → buffer_size < length (unranked_response fb id)
      → Harmful fb js rd type cache ss
  long_ranked :
      (id : List ℕ) (rank score : ℕ)
      → type % 2 ^ 8 ≡ 3
      → ss ≡ RequestPlayerRanking.create id
      → get_cached_data js rd ranking_table id cache ≡ some (ranking_to_json js rank id score)
      → buffer_size
        < length (ranked_response fb id (record { rank = rank; player_id = id; score = score }))
      → Harmful fb js rd type cache ss

send_empty :
    (n : Network) (client : Client) (socket : ℕ) (header : MessageHeader) (buffer : List ℕ)
    (size : ℕ) (a : Answer)
    → client.socket ≡ some socket
    → socket ≢ invalid_socket
    → (n.overlapped_queue.output == n.overlapped_queue.input) ≡ true
    → send client header buffer size a n ≡ none
unfolding send take_overlapped
send_empty n client socket header buffer size a has_socket opened gone =
    rw (has_socket, send, ==_of_ne opened, pop_empty none n.overlapped_queue gone) refl

module _ {W : Type 0} (ntohl : ℕ → ℕ)
    (callback : ℕ → ℕ → ℕ → List ℕ → Network × W → Option (Network × W)) where
  handle_undelivered :
      (c : Completion) (o : CustomOverlapped) (t : OperationType) (s : Network × W)
      (client : Client)
      → t ≡ op_recv
      → find (u32 c.key) s.0.client_map ≡ some client
      → deliver ntohl callback c o s ≡ none
      → handle ntohl callback c o t s ≡ none
  unfolding handle
  handle_undelivered c o t s client recv known fault = rw (recv, handle, known, fault) refl

module _ (fb : FlatBuffers) (js : JsonLibrary) (rd : Redis) (htonl : ℕ → ℕ) (a : Answer) where
  -- An answer longer than BUFFER_SIZE cannot be sent: the structure's buffer is overrun, or there is
  -- no structure.
  send_buffer_overrun :
      (id contents_type : ℕ) (buffer : List ℕ) (s : Network × rd.Store) (client : Client)
      (socket : ℕ)
      → IsStocked s.0
      → find id s.0.client_map ≡ some client
      → client.socket ≡ some socket
      → socket ≢ invalid_socket
      → buffer_size < length buffer
      → send_buffer fb js rd htonl a id contents_type buffer s ≡ none
  unfolding send_buffer send_to
  send_buffer_overrun id contents_type buffer s client socket st known has_socket opened long =
      elim (Bool-cases (s.0.overlapped_queue.output == s.0.overlapped_queue.input)) [
        | inl gone ↦
            let nothing : (header : MessageHeader)
                → send client header buffer (length buffer) a s.0 ≡ none =
              λ header.
                send_empty s.0 client socket header buffer (length buffer) a has_socket opened
                  gone in
            rw (known, send_to, nothing)
        | inr left ↦
            let (p, o, rest, supply, shown) = supply_lem s.0 st (ne_of_== left) in
            let overrun : (header : MessageHeader)
                → send client header buffer (length buffer) a s.0 ≡ none =
              λ header.
                send_overrun s.0 client socket p o (record s.0 { overlapped_queue = rest })
                  has_socket opened supply.result supply.valid header buffer (length buffer) a
                  long in
            rw (known, send_to, overrun)
      ]

  hub_send-Harmful :
      (id type : ℕ) (ss : List Slot) (rest : List ℕ) (s : Network × rd.Store) (client : Client)
      (socket : ℕ)
      → IsStocked s.0
      → find id s.0.client_map ≡ some client
      → client.socket ≡ some socket
      → socket ≢ invalid_socket
      → IsDistinct ss
      → Harmful fb js rd type s.1 ss
      → hub_send fb js rd htonl a id type (fb.finish ss ++ rest) s ≡ none
  unfolding hub_send response_save_score
  hub_send-Harmful id type ss rest s client socket st known has opened d (unnamed (inl t) free e) =
      rw (t, fb.get_string-finish ss rest RequestSaveScore.vt_player_id d free, e) refl
  hub_send-Harmful id type ss rest s client socket st known has opened d (unnamed (inr t) free e) =
      rw (t, fb.get_string-finish ss rest RequestSaveScore.vt_player_id d free, e) refl
  hub_send-Harmful id type ss rest s client socket st known has opened d
        (late name score time t int32 int64 e positive over) =
      let r = request_save_score_roundtrip fb rest name score time int32 int64 in
      rw (e, t, r.0, r.2, korea_time_late time positive over) refl
  hub_send-Harmful id type ss rest s client socket st known has opened d
        (undumpable name score time t fits e bad) =
      let r = request_save_score_roundtrip fb rest name score time fits.0 fits.1 in
      rw (e, t, r.0, r.1, r.2, korea_time-IsInRange score time fits, bad) refl
  hub_send-Harmful id type ss rest s client socket st known has opened d
        (long_confirmation name score time t fits e long) =
      let r = request_save_score_roundtrip fb rest name score time fits.0 fits.1 in
      elim (Option-cases (js.dump (score_to_json js name score (nine_hours_later time)))) [
        | inl bad ↦ rw (e, t, r.0, r.1, r.2, korea_time-IsInRange score time fits, bad) refl
        | inr (json, dumped) ↦ rw e (
            hub_send_save_score fb js rd htonl a id type rest s name score time json t fits dumped
            ∙ send_buffer_overrun id 2 _ _ client socket st known has opened long)
      ]
  hub_send-Harmful id type ss rest s client socket st known has opened d
        (long_unranked name t e cached long) =
      rw e (
        hub_send_unranked fb js rd htonl a id type rest s name t cached
        ∙ send_buffer_overrun id 4 _ s client socket st known has opened long)
  hub_send-Harmful id type ss rest s client socket st known has opened d
        (long_ranked name rank score t e cached long) =
      rw e (
        hub_send_ranked fb js rd htonl a id type rest s name rank score t cached
        ∙ send_buffer_overrun id 4 _ s client socket st known has opened long)

  -- On a stocked network, where a message arrives that is the buffer of a table with no field added
  -- twice, the session round with the hub as its callback is undefined behaviour, or ends in an
  -- exception that nothing catches, if the message is a request with no field at the place of
  -- player_id, a request to save a score whose time with nine hours more overflows, one whose score
  -- cannot be dumped as JSON, or a request whose answer is longer than BUFFER_SIZE bytes: the
  -- confirmation, or the answer to a request for a ranking, whether or not the cache has the player.
  pub serve-Harmful :
      (ntohl : ℕ → ℕ) {c : Completion} {o : CustomOverlapped} {client : Client} {socket : ℕ}
      {h : MessageHeader} (s : Network × rd.Store) (ss : List Slot)
      → IsStocked s.0
      → Arrives s.0 c o client socket h (fb.finish ss)
      → IsDistinct ss
      → Harmful fb js rd (ntohl h.contents_type) s.1 ss
      → round ntohl (hub_read fb js rd htonl a) c s ≡ none
  unfolding round dequeue hub_read message_read
  serve-Harmful ntohl {c} {o} {client} {socket} {h} s ss st r d harm =
      let valid = get_elem?-AllValid s.0.overlapped c.pointer o st.structures r.found in
      let o' = arrived c.received o in
      let n = dequeue c o' s.0 in
      let steady =
        dequeue-Steady c o' s.0 st (arrived_as-IsValid o.operation_type c.received o valid) in
      let delivered =
        deliver_lem ntohl (hub_read fb js rd htonl a) r valid (n, s.1)
        ∙ hub_send-Harmful (u32 c.key) (ntohl h.contents_type) ss _ (n, s.1) client socket
            steady.stocked r.known r.has_socket r.is_open d harm in
      simp (r.found, r.succeeded)
        (handle_undelivered ntohl (hub_read fb js rd htonl a) c o' o'.operation_type (n, s.1) client
          (arrived_as-type o.operation_type c.received o ∙ r.receiving) r.known delivered)
