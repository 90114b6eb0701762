-- ===== src/Hub/Handles.antt =====
-- The ODBC statement handles of RankingServer/src/DatabaseWorker.cpp over the rounds of Hub::Work. Every
-- SQLAllocHandle succeeds here; the program does not look at its result after `Initalize`.
pub mod Leak
use ranking_server.Base.{
  ℕ, zero, suc, ◌+◌, ◌*◌, List, [], ◌∷◌, ◌++◌, Option, none, some, ◌>>=◌, Bool, true, false, ◌==◌,
  if◌then◌else◌, codes, c_str,
}
use ranking_server.Outside.Json.{JsonLibrary}
use ranking_server.Outside.Redis.{Redis, string, no_scan, batch}
use ranking_server.Outside.Odbc.{Odbc}
use ranking_server.Outside.Calendar.{Calendar}
use ranking_server.Converter.{Codepages}
use ranking_server.Database.{stoi, score_table, save_score, ranking_update, ranking_data_load}
use ranking_server.Hub.{work_round}

-- `mHstmt`, the handles that are allocated, and the next that SQLAllocHandle gives.
pub record Handles : Type 0 where
  pub statement : ℕ
  pub allocated : List ℕ
  pub next : ℕ

abbrev pub remove : ℕ → List ℕ → List ℕ
remove x [] = []
remove x (y ∷ ys) = if y == x then ys else y ∷ remove x ys

-- `SQLAllocHandle(SQL_HANDLE_STMT, mHdbc, &mHstmt)` and `SQLFreeHandle(SQL_HANDLE_STMT, mHstmt)`.
unfoldable pub alloc_statement : Handles → Handles
alloc_statement h = record {
  statement = h.next;
  allocated = h.next ∷ h.allocated;
  next = suc h.next;
}

unfoldable pub free_statement : Handles → Handles
free_statement h = record h { allocated = remove h.statement h.allocated }

-- After `Initalize` has come to its end.
abbrev pub connected : Handles
connected = record { statement = 0; allocated = 0 ∷ []; next = 1 }

module _ (js : JsonLibrary) (rd : Redis) (cp : Codepages) (cal : Calendar) (od : Odbc) where
  -- The loops of `ScoreDataSave` with the handles.
  unfoldable pub save_keys_on :
      rd.Store → List (List ℕ) → od.Db × Handles → Option (od.Db × Handles)
  save_keys_on s [] w = some w
  save_keys_on s (key ∷ keys) (db, h) = elim (rd.get s (c_str key)) [
    | string reply ↦
        let h' = alloc_statement (free_statement h) in
        if od.prepares db
        then (do db' ← save_score js rd cp cal od reply db; save_keys_on s keys (db', h'))
        else some (db, h')
    | _ ↦ save_keys_on s keys (db, h)
  ]

  unfoldable pub save_scan_on :
      rd.Store → ℕ → ℕ → od.Db × Handles → Option ((Bool × od.Db) × Handles)
  save_scan_on s zero cursor (db, h) = some ((false, db), h)
  save_scan_on s (suc fuel) cursor (db, h) =
      elim (rd.scan s cursor (codes "table:" ++ (score_table ++ codes ":*"))) [
        | no_scan ↦ some ((true, db), h)
        | batch next keys ↦ do
          cursor' ← stoi next
          (db', h') ← save_keys_on s keys (db, h)
          elim (cursor' == 0) [
            | true ↦ some ((true, db'), h')
            | false ↦ save_scan_on s fuel cursor' (db', h')
          ]
      ]

  unfoldable pub ranking_update_on : od.Db × Handles → od.Db × Handles
  ranking_update_on (db, h) = (ranking_update js rd cp cal od db, alloc_statement h)

  -- One round of `Hub::Work`, and `k` of them.
  unfoldable pub work_round_on :
      ℕ → ℕ → (od.Db × rd.Store) × Handles → Option ((od.Db × rd.Store) × Handles)
  work_round_on fuel interval ((db, s), h) =
      let s' = rd.elapse (60 * interval) s in
      do
        ((ended, db'), h') ← save_scan_on s' fuel 0 (db, h)
        if ended
            then (do
              let (db'', h'') = ranking_update_on (db', h')
              s'' ← ranking_data_load js rd cp cal od db'' s'
              some ((db'', s''), h''))
            else none

  unfoldable pub work_on :
      ℕ → ℕ → ℕ → (od.Db × rd.Store) × Handles → Option ((od.Db × rd.Store) × Handles)
  work_on zero fuel interval w = some w
  work_on (suc k) fuel interval w = do
    w' ← work_round_on fuel interval w
    work_on k fuel interval w'

  -- The rounds without the handles.
  unfoldable pub work : ℕ → ℕ → ℕ → od.Db × rd.Store → Option (od.Db × rd.Store)
  work zero fuel interval w = some w
  work (suc k) fuel interval w = do
    w' ← work_round js rd cp cal od fuel interval w
    work k fuel interval w'
