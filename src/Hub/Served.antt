-- ===== src/Hub/Served.antt =====
-- A request from its bytes at the server to the bytes of the answer: NetworkManager.cpp, Session.cpp,
-- Client.cpp and Hub.cpp together.
use ranking_server.Base.{ℕ, ◌%◌, ◌^◌, ◌≡◌, ◌≤◌, true, List, ◌++◌, some, length, u32}
use ranking_server.Outside.Flat.{FlatBuffers}
use ranking_server.Outside.Json.{JsonLibrary}
use ranking_server.Outside.Redis.{Redis}
use ranking_server.Packet.{CustomOverlapped, MessageHeader, buffer_size}
use ranking_server.Data.{score_to_json, ranking_to_json}
use ranking_server.Database.{set_cached_data, get_cached_data, score_table, ranking_table}
use ranking_server.Protocol.RequestSaveScore
use ranking_server.Protocol.ResponseSaveScore
use ranking_server.Protocol.RequestPlayerRanking
use ranking_server.Network.State.{Network, Client, Answer}
use ranking_server.Network.Session.{Completion, round}
use ranking_server.Network.Supply.{IsStocked}
use ranking_server.Network.Accepts.{free}
use ranking_server.Network.Arrival.{Arrives}
use ranking_server.Hub.{hub_read, nine_hours_later, IsInRange, ranked_response, unranked_response}
use ranking_server.Hub.Requests.{hub_send_save_score, hub_send_ranked, hub_send_unranked}
use ranking_server.Hub.Answered.{Answered, answer_header, round-Answered}

module _ (fb : FlatBuffers) (js : JsonLibrary) (rd : Redis) (htonl ntohl : ℕ → ℕ) (a : Answer) where
  module _ {c : Completion} {o : CustomOverlapped} {client : Client} {socket : ℕ}
      {h : MessageHeader} (s : Network × rd.Store) (stocked : IsStocked s.0) (left : 2 ≤ free s.0)
      (id : List ℕ) where
    -- From the bytes of a request to those of its answer: on a stocked network with two structures
    -- left, where a request to save a score arrives, the low byte of its contents type in host order
    -- is 1, score and time are values of the fields' types, the time with nine hours more does not
    -- overflow, the score can be dumped as JSON and the confirmation fits in BUFFER_SIZE bytes, the
    -- session round with the hub as its callback returns. The cache has been sent the score, with
    -- the time moved by nine hours, for 60 seconds; unless WSASend fails, header and confirmation
    -- are on the wire of the client's socket; the network is stocked, its queue is one structure
    -- shorter, and a structure that was in the queue is sending the answer, if it is not the
    -- request's own and was there once; another receives what comes next.
    pub serve_save_score :
        (score time : ℕ) (json : List ℕ)
        → Arrives s.0 c o client socket h (fb.finish (RequestSaveScore.create id score time))
        → ntohl h.contents_type % 2 ^ 8 ≡ 1
        → IsInRange score time
        → js.dump (score_to_json js id score (nine_hours_later time)) ≡ some json
        → length (fb.finish (ResponseSaveScore.create id true)) ≤ buffer_size
        → let answer = fb.finish (ResponseSaveScore.create id true) in
          (n' : Network) × (round ntohl (hub_read fb js rd htonl a) c s
            ≡ some (n', set_cached_data js rd score_table id json 60 s.1))
          × Answered s.0 n' c.pointer socket
              (answer_header htonl (u32 c.key) 2 answer ++ answer)
              a
              c.answer
    serve_save_score score time json r ty fits d short =
        round-Answered fb js rd htonl ntohl a s stocked left r 2
          (fb.finish (ResponseSaveScore.create id true)) _
          (λ rest n.
            hub_send_save_score fb js rd htonl a (u32 c.key) (ntohl h.contents_type) rest (n, s.1)
              id score time json ty fits d)
          short

    -- The same for a request for a ranking that is in the cache.
    pub serve_ranked :
        (rank score : ℕ)
        → Arrives s.0 c o client socket h (fb.finish (RequestPlayerRanking.create id))
        → ntohl h.contents_type % 2 ^ 8 ≡ 3
        → get_cached_data js rd ranking_table id s.1 ≡ some (ranking_to_json js rank id score)
        → length (ranked_response fb id (record { rank = rank; player_id = id; score = score }))
          ≤ buffer_size
        → let answer =
            ranked_response fb id (record { rank = rank; player_id = id; score = score }) in
          (n' : Network) × (round ntohl (hub_read fb js rd htonl a) c s ≡ some (n', s.1))
          × Answered s.0 n' c.pointer socket
              (answer_header htonl (u32 c.key) 4 answer ++ answer)
              a
              c.answer
    serve_ranked rank score r ty cached short =
        round-Answered fb js rd htonl ntohl a s stocked left r 4
          (ranked_response fb id (record { rank = rank; player_id = id; score = score })) s.1
          (λ rest n.
            hub_send_ranked fb js rd htonl a (u32 c.key) (ntohl h.contents_type) rest (n, s.1) id
              rank score ty cached)
          short

    -- On a stocked network with two structures left, where a request for the ranking of a player who
    -- is not in the cache arrives, with a contents type whose low byte in host order is 3, and where
    -- the answer fits in BUFFER_SIZE bytes, the session round with the hub as its callback returns,
    -- with the cache as it was and the network stocked; unless WSASend fails, header and answer,
    -- that the player has no ranking, are on the wire of the client's socket, the queue is one
    -- structure shorter, and a structure that was in the queue is sending the answer, if it is not
    -- the request's own and was there once; another receives what comes next.
    pub serve_unranked :
        Arrives s.0 c o client socket h (fb.finish (RequestPlayerRanking.create id))
        → ntohl h.contents_type % 2 ^ 8 ≡ 3
        → get_cached_data js rd ranking_table id s.1 ≡ some js.blank
        → length (unranked_response fb id) ≤ buffer_size
        → let answer = unranked_response fb id in
          (n' : Network) × (round ntohl (hub_read fb js rd htonl a) c s ≡ some (n', s.1))
          × Answered s.0 n' c.pointer socket
              (answer_header htonl (u32 c.key) 4 answer ++ answer)
              a
              c.answer
    serve_unranked r ty cached short =
        round-Answered fb js rd htonl ntohl a s stocked left r 4 (unranked_response fb id) s.1
          (λ rest n.
            hub_send_unranked fb js rd htonl a (u32 c.key) (ntohl h.contents_type) rest (n, s.1) id
              ty cached)
          short
