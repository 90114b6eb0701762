-- ===== src/Outside/Odbc.antt =====
-- The SQL statements that DatabaseWorker.cpp runs through ODBC.
use ranking_server.Base.{ℕ, List, Option, Bool}

-- `TIMESTAMP_STRUCT`
pub record Timestamp : Type 0 where
  pub year : ℕ
  pub month : ℕ
  pub day : ℕ
  pub hour : ℕ
  pub minute : ℕ
  pub second : ℕ

-- A row of the table Score as the driver hands it out, and one of Ranking; an id is a wide string.
pub record ScoreRow : Type 0 where
  pub id : List ℕ
  pub score : ℕ
  pub last_update : Timestamp

pub record RankingRow : Type 0 where
  pub rank : ℕ
  pub id : List ℕ
  pub score : ℕ

-- The parameters of the MERGE statement: `last_update` is the text of a time.
pub record MergeRow : Type 0 where
  pub player_id : List ℕ
  pub score : ℕ
  pub last_update : List ℕ

-- A SELECT gives the rows up to the first fetch that does not return SQL_SUCCESS, or `none` where the
-- statement fails. `prepares` says whether SQLPrepare succeeds, the `Bool` of a statement whether it
-- has succeeded.
pub record Odbc : Type 1 where
  pub Db : Type 0
  pub select_score : Db → Option (List ScoreRow)
  pub select_ranking : Db → Option (List RankingRow)
  pub prepares : Db → Bool
  pub merge : Db → MergeRow → Db × Bool
  pub update_ranking : Db → Db × Bool
