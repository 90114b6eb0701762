-- ===== src/Database/Saving.antt =====
-- ScoreDataSave of DatabaseWorker.cpp: the scores in the cache go to the table Score.
use ranking_server.Base.{ℕ, ◌≡◌, ◌≤◌, ◌<◌, List, [], ◌∷◌, some, true, c_str, c_str-NoZero}
use ranking_server.Outside.Json.{JsonLibrary}
use ranking_server.Outside.Redis.{Redis}
use ranking_server.Outside.Odbc.{Odbc}
use ranking_server.Outside.Calendar.{Calendar}
use ranking_server.Converter.{Codepages}
use ranking_server.Data.{score_to_json}
use ranking_server.Database.{cache_key, score_table, set_cached_data, save_score, save_keys}

module _ (js : JsonLibrary) (rd : Redis) (cp : Codepages) (cal : Calendar) (od : Odbc) where
  -- A score in the cache that is visited before it expires, where the cache took it, the score was
  -- dumped as JSON, the statement is prepared and the time has a text, is merged into the table.
  pub save_keys_live :
      (s : rd.Store) (id : List ℕ) (score time : ℕ) (json : List ℕ) (ttl t : ℕ) (text : List ℕ)
      (db : od.Db)
      → rd.accepts s (c_str (cache_key score_table id))
      → js.dump (score_to_json js id score time) ≡ some json
      → t < ttl
      → od.prepares db ≡ true
      → cal.format time ≡ some text
      → save_keys js rd cp cal od
          (rd.elapse t (set_cached_data js rd score_table id json ttl s))
          (cache_key score_table id ∷ [])
          db
        ≡ some
            (od.merge db
              (record { player_id = c_str id; score = score; last_update = c_str text })).0
  unfolding save_keys save_score set_cached_data score_to_json
  save_keys_live s id score time json ttl t text db ok d live p formatted =
      let json_plain = c_str-NoZero json (js.dump-NoZero _ json d) in
      let stored =
        rd.get-set_live s (c_str (cache_key score_table id)) (c_str json) ttl t ok live in
      rw (stored, save_keys, p, json_plain, json_plain, js.parse-dump _ json d)
        (simp (js.field-object, formatted))

  -- A score in the cache that is visited after its time to live, where the cache took it, is not
  -- merged: the table stays as it was.
  pub save_keys_expired :
      (s : rd.Store) (id json : List ℕ) (ttl t : ℕ) (db : od.Db)
      → rd.accepts s (c_str (cache_key score_table id))
      → ttl ≤ t
      → save_keys js rd cp cal od
          (rd.elapse t (set_cached_data js rd score_table id json ttl s))
          (cache_key score_table id ∷ [])
          db
        ≡ some db
  unfolding save_keys set_cached_data
  save_keys_expired s id json ttl t db ok over = rw (
    rd.get-set_expired s (c_str (cache_key score_table id)) (c_str json) ttl t ok over,
    save_keys,
  )
