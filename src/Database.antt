-- ===== src/Database.antt =====
-- RankingServer/src/DatabaseWorker.cpp: the tables Score and Ranking of the SQL server, and their cache
-- in Redis. What is written to the log is left out.
pub mod Cache
pub mod Saving
pub mod Loading
use ranking_server.Base.{
  ℕ, zero, suc, ◌+◌, ◌-◌, ◌%◌, ◌^◌, List, [], ◌∷◌, ◌++◌, Option, none, some, ◌>>=◌, Bool, true,
  false, ltb, not, ◌||◌, ◌==◌, if◌then◌else◌, codes, c_str,
}
use ranking_server.Outside.Json.{JsonLibrary}
use ranking_server.Outside.Redis.{Redis, Reply, no_reply, string, other, ScanReply, no_scan, batch}
use ranking_server.Outside.Odbc.{Odbc, ScoreRow, RankingRow, MergeRow, Timestamp}
use ranking_server.Outside.Calendar.{Calendar, Tm}
use ranking_server.Data.{score_to_json, ranking_to_json, read_score, as_text, as_int}
use ranking_server.Converter.{Codepages, wstring_to_utf8}

-- `cacheKey`, as `redisCommand` gets it.
unfoldable pub cache_key : List ℕ → List ℕ → List ℕ
cache_key table key = codes "table:" ++ (table ++ (codes ":" ++ key))

abbrev pub score_table : List ℕ
score_table = codes "Score"

abbrev pub ranking_table : List ℕ
ranking_table = codes "Ranking"

-- The time to live of what is loaded from SQL, in seconds.
abbrev pub load_ttl : ℕ
load_ttl = 600

-- What stops `Initalize`: it returns at the first call that fails.
pub data Connection : Type 0 where
  version_failed handle_failed connect_failed statement_failed connected : Connection

unfoldable pub initalize : Bool → Bool → Bool → Bool → Connection
initalize version_ok handle_ok connect_ok statement_ok =
    if not version_ok
    then version_failed
    else if not handle_ok
    then handle_failed
    else if not connect_ok
    then connect_failed
    else if not statement_ok
    then statement_failed
    else connected

-- `RedisConnect`: whether the context is a null pointer, and whether it has an error.
abbrev pub redis_connect : Bool → Bool → Bool
redis_connect is_null has_error = not (is_null || has_error)

-- `stoi` of a SCAN cursor, which throws if that is no `int`.
abbrev pub stoi : ℕ → Option ℕ
stoi n = if ltb n (2 ^ 31) then some n else none

-- The fields of a timestamp as `std::tm` wants them.
unfoldable pub to_tm : Timestamp → Tm
to_tm t = record {
  sec = t.second;
  min = t.minute;
  hour = t.hour;
  mday = t.day;
  mon = (t.month + 2 ^ 32 - 1) % 2 ^ 32;
  year = (t.year + 2 ^ 32 - 1900) % 2 ^ 32;
}

module _ (js : JsonLibrary) (rd : Redis) where
  unfoldable pub set_cached_data : List ℕ → List ℕ → List ℕ → ℕ → rd.Store → rd.Store
  set_cached_data table key json ttl s = rd.set s (c_str (cache_key table key)) (c_str json) ttl

  -- Without a string reply the result is the JSON of the empty string. `parse` may throw.
  unfoldable pub get_cached_data : List ℕ → List ℕ → rd.Store → Option js.Json
  get_cached_data table key s = elim (rd.get s (c_str (cache_key table key))) [
    | string t ↦ js.parse (c_str t)
    | _ ↦ some js.blank
  ]

  module _ (cp : Codepages) (cal : Calendar) where
    -- One round of the loop of `ScoreDataLoad`.
    unfoldable pub load_score : ScoreRow → rd.Store → Option rd.Store
    load_score row s =
        let id = wstring_to_utf8 cp (c_str row.id) in
        let utc_time = cal.mkgmtime (cal.mktime (to_tm row.last_update)) in
        do
          json ← js.dump (score_to_json js id row.score utc_time)
          some (set_cached_data score_table id json load_ttl s)

    unfoldable pub load_scores : List ScoreRow → rd.Store → Option rd.Store
    load_scores [] s = some s
    load_scores (row ∷ rows) s = do s' ← load_score row s; load_scores rows s'

    -- One round of the loop of `RankingDataLoad`.
    unfoldable pub load_ranking : RankingRow → rd.Store → Option rd.Store
    load_ranking row s =
        let id = wstring_to_utf8 cp (c_str row.id) in
        do
          json ← js.dump (ranking_to_json js row.rank id row.score)
          some (set_cached_data ranking_table id json load_ttl s)

    unfoldable pub load_rankings : List RankingRow → rd.Store → Option rd.Store
    load_rankings [] s = some s
    load_rankings (row ∷ rows) s = do s' ← load_ranking row s; load_rankings rows s'

    module _ (od : Odbc) where
      unfoldable pub score_data_load : od.Db → rd.Store → Option rd.Store
      score_data_load db s = elim (od.select_score db) [
        | none ↦ some s
        | some rows ↦ load_scores rows s
      ]

      unfoldable pub ranking_data_load : od.Db → rd.Store → Option rd.Store
      ranking_data_load db s = elim (od.select_ranking db) [
        | none ↦ some s
        | some rows ↦ load_rankings rows s
      ]

      -- The list of tables is only logged.
      unfoldable pub data_load_in_sql : od.Db → rd.Store → Option rd.Store
      data_load_in_sql db s = do s' ← score_data_load db s; ranking_data_load db s'

      unfoldable pub ranking_update : od.Db → od.Db
      ranking_update db = (od.update_ranking db).0

      -- The statement for one key with a string reply. A failed SQLExecute is only logged.
      unfoldable pub save_score : List ℕ → od.Db → Option od.Db
      save_score reply db = do
        json ← js.parse (c_str reply)
        id ← js.field json "player_id" >>= as_text
        score ← js.field json "score" >>= as_int
        last_update ← js.field json "last_update" >>= as_int
        timestamp ← cal.format last_update
        some
            (od.merge db
              (record { player_id = c_str id; score = score; last_update = c_str timestamp })).0

      -- The loop over the keys of one SCAN reply; where SQLPrepare fails, `break` leaves it.
      unfoldable pub save_keys : rd.Store → List (List ℕ) → od.Db → Option od.Db
      save_keys s [] db = some db
      save_keys s (key ∷ keys) db = elim (rd.get s (c_str key)) [
        | string reply ↦
            if od.prepares db then (do db' ← save_score reply db; save_keys s keys db') else some db
        | _ ↦ save_keys s keys db
      ]

      -- The `do ... while (cursor != 0)` of `ScoreDataSave`, on fuel: `false` where the fuel runs out.
      unfoldable pub save_scan : rd.Store → ℕ → ℕ → od.Db → Option (Bool × od.Db)
      save_scan s zero cursor db = some (false, db)
      save_scan s (suc fuel) cursor db =
          elim (rd.scan s cursor (codes "table:" ++ (score_table ++ codes ":*"))) [
            | no_scan ↦ some (true, db)
            | batch next keys ↦ do
              cursor' ← stoi next
              db' ← save_keys s keys db
              elim (cursor' == 0) [ true ↦ some (true, db') | false ↦ save_scan s fuel cursor' db' ]
          ]

      unfoldable pub score_data_save : ℕ → rd.Store → od.Db → Option (Bool × od.Db)
      score_data_save fuel s db = save_scan s fuel 0 db
