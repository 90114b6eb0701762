-- ===== src/Hub.antt =====
-- RankingServer/src/Hub.cpp and RankingServer/src/RankingSystem.cpp: what a
-- message does, and the loop that saves scores and renews the ranking.
pub mod Requests
pub mod Safety
pub mod Answered
pub mod Served
pub mod Turn
pub mod Renewal
pub mod Handles
pub mod Exchange
pub mod Faults
pub mod Saved
pub mod Settled
pub mod Conversation
use ranking_server.Base.{
  ℕ, ◌<◌, ◌≤◌, ◌⊎◌, zero, suc, ◌+◌, ◌*◌, ◌%◌, ◌^◌, List, [], ◌∷◌, ◌++◌, Option, none, some, ◌>>=◌,
  Bool, true, false, ◌==◌, ltb, not, ◌&&◌, if◌then◌else◌, length, u32,
}
use ranking_server.Outside.Flat.{FlatBuffers}
use ranking_server.Outside.Json.{JsonLibrary}
use ranking_server.Outside.Redis.{Redis}
use ranking_server.Outside.Odbc.{Odbc}
use ranking_server.Outside.Calendar.{Calendar}
use ranking_server.Converter.{Codepages}
use ranking_server.Data.{score_to_json, read_ranking, DataRanking}
use ranking_server.Database.{
  set_cached_data, get_cached_data, score_table, ranking_table, score_data_save, ranking_update,
  ranking_data_load, data_load_in_sql,
}
use ranking_server.Protocol.MessageContent
use ranking_server.Protocol.RequestSaveScore
use ranking_server.Protocol.ResponseSaveScore
use ranking_server.Protocol.RequestPlayerRanking
use ranking_server.Protocol.ResponsePlayerRanking
use ranking_server.Network.State.{Network, Answer, Report}
use ranking_server.Network.Manager.{
  send_to, Platform, Startup, started, initialize_manager, AcceptAnswer, ready_manager,
}

-- The time to live of a score that a client has saved, in seconds.
abbrev pub save_ttl : ℕ
save_ttl = 60

-- `RANKING_UPDATE_INTERVAL_MINUTES` and `SOCKET_MAX` of main.cpp.
abbrev pub update_interval : ℕ
update_interval = 1

abbrev pub socket_max : ℕ
socket_max = 10

-- `RankingSystem::MessageRead`: the body size is not passed on.
unfoldable pub message_read {ℓ} : {S : Type ℓ} → (ℕ → ℕ → List ℕ → S) → ℕ → ℕ → ℕ → List ℕ → S
message_read send_callback socket_id body_size contents_type body =
    send_callback socket_id contents_type body

-- The bit pattern of `unixDate + (9 * 3600)` as a `time_t`, where the sum is one.
abbrev pub nine_hours_later : ℕ → ℕ
nine_hours_later t = (t + 9 * 3600) % 2 ^ 64

-- Whether that signed sum is above the largest `time_t`.
abbrev pub sum_overflows : ℕ → Bool
sum_overflows t = ltb t (2 ^ 63) && not (ltb (t + 9 * 3600) (2 ^ 63))

-- `koreaTime`. The overflow of a signed sum is undefined.
unfoldable pub korea_time : ℕ → Option ℕ
korea_time t = if sum_overflows t then none else some (nine_hours_later t)

-- A score that is an `int32_t`, and a time that is an `int64_t` to which nine hours can be added: one
-- that is not close to the largest, or one below 0.
abbrev pub IsInRange : ℕ → ℕ → Type 0
IsInRange score time =
    (score < 2 ^ 32) × (time < 2 ^ 64) × ((time + 9 * 3600 < 2 ^ 63) ⊎ (2 ^ 63 ≤ time))

-- The response where the player is in the ranking.
unfoldable pub ranked_response : FlatBuffers → List ℕ → DataRanking → List ℕ
ranked_response fb id r = fb.finish (ResponsePlayerRanking.create id r.score r.rank true true)

unfoldable pub unranked_response : FlatBuffers → List ℕ → List ℕ
unranked_response fb id = fb.finish (ResponsePlayerRanking.create id 0 0 false true)

-- `htonl` is the socket library's; `a` is the answer to the WSASend of the response. The state is the
-- network's and the cache's.
module _ (fb : FlatBuffers) (js : JsonLibrary) (rd : Redis) (htonl : ℕ → ℕ) (a : Answer) where
  unfoldable pub send_buffer : ℕ → ℕ → List ℕ → Network × rd.Store → Option (Network × rd.Store)
  send_buffer socket_id contents_type buffer s = do
    (_, n) ← send_to htonl socket_id contents_type buffer (length buffer) a s.0
    some (n, s.1)

  unfoldable pub response_save_score :
      ℕ → List ℕ → ℕ → ℕ → Network × rd.Store → Option (Network × rd.Store)
  response_save_score socket_id id new_score update_date s = do
    json ← js.dump (score_to_json js id new_score update_date)
    send_buffer socket_id MessageContent.response_save_score
        (fb.finish (ResponseSaveScore.create id true))
        (s.0, set_cached_data js rd score_table id json save_ttl s.1)

  unfoldable pub response_player_ranking :
      ℕ → List ℕ → Network × rd.Store → Option (Network × rd.Store)
  response_player_ranking socket_id id s = do
    json ← get_cached_data js rd ranking_table id s.1
    if js.is_blank json
        then send_buffer socket_id MessageContent.response_player_ranking (unranked_response fb id)
            s
        else do
          r ← read_ranking js json
          send_buffer socket_id MessageContent.response_player_ranking (ranked_response fb id r) s

  -- `Hub::Send`. The cast to `MessageContent` keeps the low byte; a null `player_id()` is read through.
  unfoldable pub hub_send : ℕ → ℕ → List ℕ → Network × rd.Store → Option (Network × rd.Store)
  hub_send socket_id request_type body s =
      let message_type = request_type % 2 ^ 8 in
      if message_type == MessageContent.request_player_ranking
      then (do
        id ← RequestPlayerRanking.player_id fb (fb.root body)
        response_player_ranking socket_id id s)
      else if message_type == MessageContent.request_save_score
      then (do
        id ← RequestSaveScore.player_id fb (fb.root body)
        update_date ← korea_time (RequestSaveScore.last_update fb (fb.root body))
        response_save_score socket_id id (RequestSaveScore.score fb (fb.root body)) update_date s)
      else some s

  -- `Hub::Read`, the callback that the sessions are given.
  unfoldable pub hub_read : ℕ → ℕ → ℕ → List ℕ → Network × rd.Store → Option (Network × rd.Store)
  hub_read socket_id body_size contents_type body s =
      message_read hub_send socket_id body_size contents_type body s

module _ (js : JsonLibrary) (rd : Redis) (cp : Codepages) (cal : Calendar) (od : Odbc) where
  -- `Hub::Initialize`, the connections apart: the cache is loaded, and the network made ready.
  unfoldable pub hub_initialize :
      Platform → ℕ → (ℕ → AcceptAnswer) → od.Db → rd.Store → Option (Network × rd.Store)
  hub_initialize p sockets answers db s = do
    s' ← data_load_in_sql js rd cp cal od db s
    (n, _) ← ready_manager p answers (initialize_manager p sockets)
    some (n, s')

  -- One round of `Hub::Work`, which sleeps first. `fuel` bounds the rounds of the SCAN loop; `none`
  -- stands for an exception or for a loop that does not end in them.
  unfoldable pub work_round : ℕ → ℕ → od.Db × rd.Store → Option (od.Db × rd.Store)
  work_round fuel interval (db, s) =
      let s' = rd.elapse (60 * interval) s in
      do
        (ended, db') ← score_data_save js rd cp cal od fuel s' db
        if ended
            then (do
              let db'' = ranking_update js rd cp cal od db'
              s'' ← ranking_data_load js rd cp cal od db'' s'
              some (db'', s''))
            else none
