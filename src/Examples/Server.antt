-- ===== src/Examples/Server.antt =====
-- What lies outside of DatabaseWorker.cpp, at concrete inputs.
use ranking_server.Base.{List, [], ◌∷◌, none, some, true, ltb, if◌then◌else◌}
use ranking_server.Outside.Odbc.{Odbc, MergeRow}
use ranking_server.Outside.Calendar.{Calendar}
use ranking_server.Converter.{Codepages}

abbrev pub latin : Codepages
latin = record { to_wide = λ page t. some t; from_wide = λ page t. some t }

-- The table of scores as the list of the rows that were merged into it.
abbrev pub merged : Odbc
merged = record {
  Db = List MergeRow;
  select_score = λ db. some [];
  select_ranking = λ db. none;
  prepares = λ db. true;
  merge = λ db row. (row ∷ db, true);
  update_ranking = λ db. (db, true);
}

abbrev pub clock : Calendar
clock = record {
  mktime = λ t. t;
  mkgmtime = λ t. t.sec;
  format = λ t. if ltb t 32535215999 then some (84 ∷ t ∷ []) else none;
}
