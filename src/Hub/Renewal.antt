-- ===== src/Hub/Renewal.antt =====
-- One round of Hub::Work in Hub.cpp, and the requests that come after it: from the table Ranking to
-- the answer.
use ranking_server.Base.{
  ℕ, ◌*◌, ◌%◌, ◌^◌, ◌≡◌, ◌≤◌, ◌<◌, List, ◌∷◌, ◌++◌, some, true, NoZero, length, u32,
}
use ranking_server.Outside.Flat.{FlatBuffers}
use ranking_server.Outside.Json.{JsonLibrary}
use ranking_server.Outside.Redis.{Redis}
use ranking_server.Outside.Odbc.{Odbc, RankingRow}
use ranking_server.Outside.Calendar.{Calendar}
use ranking_server.Converter.{Codepages}
use ranking_server.Packet.{CustomOverlapped, MessageHeader, buffer_size}
use ranking_server.Data.{ranking_to_json}
use ranking_server.Database.{
  ranking_table, load_ttl, get_cached_data, score_data_save, ranking_data_load, ranking_update,
}
use ranking_server.Database.Loading.{row_id, AllDump, IsAbsent, load_rankings_found}
use ranking_server.Protocol.RequestPlayerRanking
use ranking_server.Network.State.{Network, Client, Answer}
use ranking_server.Network.Session.{Completion, round}
use ranking_server.Network.Supply.{IsStocked}
use ranking_server.Network.Accepts.{free}
use ranking_server.Network.Served.{wire_after}
use ranking_server.Network.Arrival.{Arrives}
use ranking_server.Hub.{hub_read, work_round, ranked_response}
use ranking_server.Hub.Served.{serve_ranked}
use ranking_server.Hub.Answered.{answer_header}

module _ (js : JsonLibrary) (rd : Redis) (cp : Codepages) (cal : Calendar) (od : Odbc) where
  -- What the table Ranking has of a player, in its last row of that player.
  pub record Ranked (db : od.Db) (row : RankingRow) : Type 0 where
    pub before : List RankingRow
    pub after : List RankingRow
    pub json : List ℕ
    pub selected : od.select_ranking db ≡ some (before ++ (row ∷ after))
    pub before_dumps : AllDump js rd cp cal before
    pub dumps :
        js.dump (ranking_to_json js row.rank (row_id js rd cp cal row) row.score) ≡ some json
    pub after_dumps : AllDump js rd cp cal after
    pub plain : NoZero (row_id js rd cp cal row)
    pub absent : IsAbsent js rd cp cal (row_id js rd cp cal row) after

  -- The round returns, and what the player's row says stays in the cache for 600 seconds.
  pub work_round_renews :
      (fuel interval : ℕ) (db db' : od.Db) (s : rd.Store) (row : RankingRow) (t : ℕ)
      → ((s' : rd.Store) (key : List ℕ) → rd.accepts s' key)
      → score_data_save js rd cp cal od fuel (rd.elapse (60 * interval) s) db ≡ some (true, db')
      → Ranked (od.update_ranking db').0 row
      → t < load_ttl
      → (s' : rd.Store) × (work_round js rd cp cal od fuel interval (db, s)
          ≡ some ((od.update_ranking db').0, s'))
        × (get_cached_data js rd ranking_table (row_id js rd cp cal row) (rd.elapse t s')
            ≡ some (ranking_to_json js row.rank (row_id js rd cp cal row) row.score))
  unfolding work_round ranking_data_load ranking_update
  work_round_renews fuel interval db db' s row t ok ended r short =
      let (s', e, found) =
        load_rankings_found js rd cp cal r.before row r.after (rd.elapse (60 * interval) s) r.json t
          ok r.before_dumps r.dumps r.after_dumps r.plain r.absent short in
      (s', rw (ended, r.selected, ranking_data_load, e), found)

  module _ (fb : FlatBuffers) (htonl ntohl : ℕ → ℕ) (a : Answer) {c : Completion}
      {o : CustomOverlapped} {client : Client} {socket : ℕ} {h : MessageHeader} where
    -- From the SQL server to the client: where the cache takes every command, the saving of scores
    -- in a round of Hub::Work ends, the table Ranking after its update can be read, each of its rows
    -- can be dumped as JSON and a row is the last of its player, with an id that has no zero byte,
    -- the round returns. A request for that player's ranking that arrives less than 600 seconds
    -- later, with a contents type whose low byte in host order is 3, on a stocked network with two
    -- structures left and with an answer that fits in BUFFER_SIZE bytes, is handled with no fault;
    -- unless WSASend fails, header and answer, with the rank and score of the row, are on the wire
    -- of the client's socket.
    pub serve_renewed :
        (fuel interval : ℕ) (db db' : od.Db) (s : rd.Store) (row : RankingRow) (t : ℕ) (n : Network)
        → ((s' : rd.Store) (key : List ℕ) → rd.accepts s' key)
        → score_data_save js rd cp cal od fuel (rd.elapse (60 * interval) s) db ≡ some (true, db')
        → Ranked (od.update_ranking db').0 row
        → t < load_ttl
        → IsStocked n
        → 2 ≤ free n
        → Arrives n c o client socket h
            (fb.finish (RequestPlayerRanking.create (row_id js rd cp cal row)))
        → ntohl h.contents_type % 2 ^ 8 ≡ 3
        → let id = row_id js rd cp cal row in
          let answer =
            ranked_response fb id (record { rank = row.rank; player_id = id; score = row.score }) in
          length answer ≤ buffer_size
          → (s' : rd.Store) × (n' : Network) × (work_round js rd cp cal od fuel interval (db, s)
              ≡ some ((od.update_ranking db').0, s'))
            × (round ntohl (hub_read fb js rd htonl a) c (n, rd.elapse t s')
                ≡ some (n', rd.elapse t s'))
            × (n'.wire ≡ wire_after n socket (answer_header htonl (u32 c.key) 4 answer ++ answer) a)
    serve_renewed fuel interval db db' s row t n ok ended r short stocked left arrives ty fits =
        let (s', e, found) = work_round_renews fuel interval db db' s row t ok ended r short in
        let (n', served, answered) =
          serve_ranked fb js rd htonl ntohl a (n, rd.elapse t s') stocked left _ row.rank row.score
            arrives ty found fits in
        (s', n', e, served, answered.wire)
