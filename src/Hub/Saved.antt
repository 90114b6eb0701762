-- ===== src/Hub/Saved.antt =====
-- A score from the bytes of a request to the table Score: Session.cpp, Hub.cpp and `ScoreDataSave` of
-- DatabaseWorker.cpp together.
use ranking_server.Base.{
  ℕ, ◌%◌, ◌^◌, ◌≡◌, ◌≤◌, true, List, [], ◌∷◌, some, length, ltb, if◌then◌else◌, dec_lt, lt→ltb,
  not_lt→ltb, arith, c_str,
}
use ranking_server.Outside.Flat.{FlatBuffers}
use ranking_server.Outside.Json.{JsonLibrary}
use ranking_server.Outside.Redis.{Redis}
use ranking_server.Outside.Odbc.{Odbc}
use ranking_server.Outside.Calendar.{Calendar}
use ranking_server.Converter.{Codepages}
use ranking_server.Packet.{CustomOverlapped, MessageHeader, buffer_size}
use ranking_server.Data.{score_to_json}
use ranking_server.Database.{score_table, cache_key, save_keys}
use ranking_server.Database.Saving.{save_keys_live, save_keys_expired}
use ranking_server.Protocol.RequestSaveScore
use ranking_server.Protocol.ResponseSaveScore
use ranking_server.Network.State.{Network, Client, Answer}
use ranking_server.Network.Session.{Completion, round}
use ranking_server.Network.Supply.{IsStocked}
use ranking_server.Network.Accepts.{free}
use ranking_server.Network.Arrival.{Arrives}
use ranking_server.Hub.{hub_read, nine_hours_later, IsInRange, save_ttl}
use ranking_server.Hub.Served.{serve_save_score}

module _ (fb : FlatBuffers) (js : JsonLibrary) (rd : Redis) (cp : Codepages) (cal : Calendar)
    (od : Odbc) (htonl ntohl : ℕ → ℕ) (a : Answer) where
  -- From the bytes of a request to the table Score: on a stocked network with two structures left,
  -- where a request to save a score arrives, the low byte of its contents type in host order is 1,
  -- score and time are values of the fields' types, the time with nine hours more does not overflow
  -- and is one that gmtime_s takes, the score can be dumped as JSON, the confirmation fits in
  -- BUFFER_SIZE bytes, the cache takes the command and the statement is prepared, the session round
  -- returns. Where ScoreDataSave visits the player's key t seconds later, it merges id, score and
  -- time, moved by nine hours and as text, into the table if t is below 60, and otherwise leaves the
  -- table as it was.
  pub score_reaches_table :
      {c : Completion} {o : CustomOverlapped} {client : Client} {socket : ℕ} {h : MessageHeader}
      (s : Network × rd.Store) (id : List ℕ) (score time : ℕ) (json : List ℕ) (t : ℕ)
      (text : List ℕ) (db : od.Db)
      → IsStocked s.0
      → 2 ≤ free s.0
      → Arrives s.0 c o client socket h (fb.finish (RequestSaveScore.create id score time))
      → ntohl h.contents_type % 2 ^ 8 ≡ 1
      → IsInRange score time
      → js.dump (score_to_json js id score (nine_hours_later time)) ≡ some json
      → length (fb.finish (ResponseSaveScore.create id true)) ≤ buffer_size
      → rd.accepts s.1 (c_str (cache_key score_table id))
      → od.prepares db ≡ true
      → cal.format (nine_hours_later time) ≡ some text
      → (s' : Network × rd.Store) × (round ntohl (hub_read fb js rd htonl a) c s ≡ some s')
        × (save_keys js rd cp cal od (rd.elapse t s'.1) (cache_key score_table id ∷ []) db
            ≡ some (
                if ltb t save_ttl
                then (od.merge db
                    (record { player_id = c_str id; score = score; last_update = c_str text })).0
                else db))
  score_reaches_table s id score time json t text db stocked left r type fits dumped short ok p
        formatted =
      let (n', done, answered) =
        serve_save_score fb js rd htonl ntohl a s stocked left id score time json r type fits dumped
          short in
      (
        _,
        done,
        elim (dec_lt t save_ttl) [
          | yes live ↦ rw (lt→ltb live) (
              save_keys_live js rd cp cal od s.1 id score (nine_hours_later time) json save_ttl t
                text db ok dumped live p formatted)
          | no over ↦
              rw (not_lt→ltb over)
                (save_keys_expired js rd cp cal od s.1 id json save_ttl t db ok (omega arith))
        ],
      )
