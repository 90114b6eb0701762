-- ===== src/Hub/Requests.antt =====
-- What each request does, by Hub.cpp, to the cache and on the wire.
use ranking_server.Base.{
  inl, inr, none, ◌+◌, ◌*◌, ◌<◌, ◌≤◌, arith, ℕ, ◌%◌, ◌^◌, ◌≡◌, ◌≢◌, List, ◌++◌, some, true,
  ==_of_ne,
}
use ranking_server.Outside.Flat.{FlatBuffers}
use ranking_server.Outside.Json.{JsonLibrary}
use ranking_server.Outside.Redis.{Redis}
use ranking_server.Data.{score_to_json, ranking_to_json, read_ranking-ranking_to_json}
use ranking_server.Database.{set_cached_data, get_cached_data, score_table, ranking_table}
use ranking_server.Protocol.RequestSaveScore
use ranking_server.Protocol.ResponseSaveScore
use ranking_server.Protocol.RequestPlayerRanking
use ranking_server.Protocol.RoundTrip.{
  request_save_score_roundtrip, request_player_ranking_roundtrip,
}
use ranking_server.Network.State.{Network, Answer}
use ranking_server.Hub.{
  send_buffer, response_save_score, response_player_ranking, hub_send, nine_hours_later, korea_time,
  IsInRange, ranked_response, unranked_response,
}

-- Hub::Send can add nine hours to a time in range.
pub korea_time-IsInRange :
    (score time : ℕ) → IsInRange score time → korea_time time ≡ some (nine_hours_later time)
unfolding korea_time
korea_time-IsInRange score time (int32, int64, inl fine) = ground arith
korea_time-IsInRange score time (int32, int64, inr negative) = ground arith

-- The sum overflows for a time too close to the largest.
pub korea_time_late : (time : ℕ) → time < 2 ^ 63 → 2 ^ 63 ≤ time + 9 * 3600 → korea_time time ≡ none
unfolding korea_time
korea_time_late time positive late = ground arith

module _ (fb : FlatBuffers) (js : JsonLibrary) (rd : Redis) (htonl : ℕ → ℕ) (a : Answer)
    (socket type : ℕ) (rest : List ℕ) (s : Network × rd.Store) where
  -- A request to save a score is decoded and dispatched by the low byte of its contents type alone,
  -- whatever follows the message in the buffer: where score and time are values of the fields' types,
  -- the time with nine hours more does not overflow and the score can be dumped as JSON, it is stored
  -- for 60 seconds under the player's name, with the time moved by nine hours, and a confirmation
  -- goes back to the socket.
  pub hub_send_save_score :
      (id : List ℕ) (score time : ℕ) (json : List ℕ)
      → type % 2 ^ 8 ≡ 1
      → IsInRange score time
      → js.dump (score_to_json js id score (nine_hours_later time)) ≡ some json
      → hub_send fb js rd htonl a socket type
          (fb.finish (RequestSaveScore.create id score time) ++ rest)
          s
        ≡ send_buffer fb js rd htonl a socket 2
            (fb.finish (ResponseSaveScore.create id true))
            (s.0, set_cached_data js rd score_table id json 60 s.1)
  unfolding hub_send response_save_score
  hub_send_save_score id score time json t fits d =
      let r = request_save_score_roundtrip fb rest id score time fits.0 fits.1 in
      rw (t, r.0, r.1, r.2, korea_time-IsInRange score time fits, d)

  -- A request for the ranking of a player whose ranking is in the cache is answered on the same
  -- socket with the rank and score found there.
  pub hub_send_ranked :
      (id : List ℕ) (rank score : ℕ)
      → type % 2 ^ 8 ≡ 3
      → get_cached_data js rd ranking_table id s.1 ≡ some (ranking_to_json js rank id score)
      → hub_send fb js rd htonl a socket type (fb.finish (RequestPlayerRanking.create id) ++ rest) s
        ≡ send_buffer fb js rd htonl a socket 4
            (ranked_response fb id (record { rank = rank; player_id = id; score = score }))
            s
  unfolding hub_send response_player_ranking ranking_to_json
  hub_send_ranked id rank score t c = rw (
    t,
    request_player_ranking_roundtrip fb rest id,
    c,
    js.is_blank-object,
    read_ranking-ranking_to_json js rank id score,
  )

  -- A request for the ranking of a player who is not in the cache is answered on the same socket
  -- with no ranking.
  pub hub_send_unranked :
      (id : List ℕ)
      → type % 2 ^ 8 ≡ 3
      → get_cached_data js rd ranking_table id s.1 ≡ some js.blank
      → hub_send fb js rd htonl a socket type (fb.finish (RequestPlayerRanking.create id) ++ rest) s
        ≡ send_buffer fb js rd htonl a socket 4 (unranked_response fb id) s
  unfolding hub_send response_player_ranking
  hub_send_unranked id t c =
      rw (t, request_player_ranking_roundtrip fb rest id, c, js.is_blank-blank)

  -- A message whose contents type has a low byte other than 1 and 3 changes neither the network nor
  -- the cache.
  pub hub_send_other :
      (body : List ℕ)
      → type % 2 ^ 8 ≢ 1
      → type % 2 ^ 8 ≢ 3
      → hub_send fb js rd htonl a socket type body s ≡ some s
  unfolding hub_send
  hub_send_other body h k = rw (==_of_ne h, ==_of_ne k)
