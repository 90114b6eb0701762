-- ===== src/Database/Loading.antt =====
-- RankingDataLoad of DatabaseWorker.cpp: the table Ranking goes to the cache.
use ranking_server.Base.{
  ℕ, ◌≡◌, ◌≢◌, ◌<◌, refl, ◌∙◌, List, [], ◌∷◌, ◌++◌, some, NoZero, c_str, arith,
}
use ranking_server.Outside.Json.{JsonLibrary}
use ranking_server.Outside.Redis.{Redis}
use ranking_server.Outside.Odbc.{RankingRow}
use ranking_server.Outside.Calendar.{Calendar}
use ranking_server.Converter.{Codepages, wstring_to_utf8}
use ranking_server.Data.{ranking_to_json}
use ranking_server.Database.{
  ranking_table, load_ttl, set_cached_data, get_cached_data, load_ranking, load_rankings,
}
use ranking_server.Database.Cache.{get-set_cached, get-elapse-set_cached_ne}

ranking_table-NoZero : NoZero ranking_table
ranking_table-NoZero = omega arith

module _ (js : JsonLibrary) (rd : Redis) (cp : Codepages) (cal : Calendar) where
  -- The player's id in a row, as it is stored.
  abbrev pub row_id : RankingRow → List ℕ
  row_id row = wstring_to_utf8 cp (c_str row.id)

  -- Each row is dumped as JSON, and is of another player than `id`.
  abbrev pub AllDump : List RankingRow → Type 0
  AllDump [] = Unit
  AllDump (row ∷ rows) =
      ((json : List ℕ) × (js.dump (ranking_to_json js row.rank (row_id row) row.score) ≡ some json))
      × AllDump rows

  abbrev pub IsAbsent : List ℕ → List RankingRow → Type 0
  IsAbsent id [] = Unit
  IsAbsent id (row ∷ rows) = NoZero (row_id row) × (row_id row ≢ id) × IsAbsent id rows

  -- The rows of other players leave what a player's key will find.
  load_rankings_ne :
      (rows : List RankingRow) (s : rd.Store) (id : List ℕ) (t : ℕ)
      → NoZero id
      → AllDump rows
      → IsAbsent id rows
      → (s' : rd.Store) × (load_rankings js rd cp cal rows s ≡ some s')
        × (get_cached_data js rd ranking_table id (rd.elapse t s')
            ≡ get_cached_data js rd ranking_table id (rd.elapse t s))
  unfolding load_rankings load_ranking
  load_rankings_ne [] s id t z d ab = (s, refl, refl)
  load_rankings_ne (row ∷ rows) s id t z ((json, d), ds) (plain, ne, ab) =
      let s₁ = set_cached_data js rd ranking_table (row_id row) json load_ttl s in
      let (s', e, found) = load_rankings_ne rows s₁ id t z ds ab in
      (
        s',
        rw d e,
        found
            ∙ get-elapse-set_cached_ne js rd ranking_table (row_id row) json s id load_ttl t
                ranking_table-NoZero plain z ne,
      )

  -- Where the cache takes every command, each row can be dumped as JSON and no id involved has a
  -- zero byte, loading the rows of the table Ranking returns, and for less than 600 seconds the
  -- cache gives for a player what the last row of that player says, whatever the other rows are.
  pub load_rankings_found :
      (before : List RankingRow) (row : RankingRow) (after : List RankingRow) (s : rd.Store)
      (json : List ℕ) (t : ℕ)
      → ((s' : rd.Store) (key : List ℕ) → rd.accepts s' key)
      → AllDump before
      → js.dump (ranking_to_json js row.rank (row_id row) row.score) ≡ some json
      → AllDump after
      → NoZero (row_id row)
      → IsAbsent (row_id row) after
      → t < load_ttl
      → (s' : rd.Store) × (load_rankings js rd cp cal (before ++ (row ∷ after)) s ≡ some s')
        × (get_cached_data js rd ranking_table (row_id row) (rd.elapse t s')
            ≡ some (ranking_to_json js row.rank (row_id row) row.score))
  unfolding load_rankings load_ranking
  load_rankings_found [] row after s json t ok ds d ds' z ab short =
      let s₁ = set_cached_data js rd ranking_table (row_id row) json load_ttl s in
      let (s', e, found) = load_rankings_ne after s₁ (row_id row) t z ds' ab in
      (
        s',
        rw d e,
        found
            ∙ get-set_cached js rd ranking_table (row_id row) json s _ load_ttl t (ok _ _) d short,
      )
  load_rankings_found (first ∷ before) row after s json t ok ((text, d₁), ds) d ds' z ab short =
      let s₁ = set_cached_data js rd ranking_table (row_id first) text load_ttl s in
      let (s', e, found) = load_rankings_found before row after s₁ json t ok ds d ds' z ab short in
      (s', rw d₁ e, found)
