-- ===== src/Examples/Renewal.antt =====
-- Rankings on their way from the SQL server to a client, at concrete inputs.
use ranking_server.Base.{
  ℕ, ◌≡◌, ◌≤◌, refl, List, [], ◌∷◌, ◌++◌, some, none, true, arith, length, NoZero,
}
use ranking_server.Outside.Instances.Slots.{slot_buffers}
use ranking_server.Outside.Instances.Members.{member_documents}
use ranking_server.Outside.Instances.Entries.{entry_store, Entries}
use ranking_server.Outside.Odbc.{Odbc, RankingRow}
use ranking_server.Converter.{wstring_to_utf8}
use ranking_server.Data.{ranking_to_json}
use ranking_server.Database.{
  ranking_table, get_cached_data, load_rankings, score_data_save, save_scan, save_keys,
}
use ranking_server.Database.Loading.{row_id, AllDump, IsAbsent, load_rankings_found}
use ranking_server.Protocol.RequestPlayerRanking
use ranking_server.Network.State.{Network}
use ranking_server.Network.Client.{receive_ready, accept_ready, send}
use ranking_server.Network.Session.{round}
use ranking_server.Network.Served.{wire_after}
use ranking_server.Network.Starved.{calls_starved}
use ranking_server.Hub.{hub_read, ranked_response, work_round}
use ranking_server.Hub.Answered.{answer_header}
use ranking_server.Hub.Renewal.{Ranked, serve_renewed}
use ranking_server.Examples.Setting.{accepted, client}
use ranking_server.Examples.Server.{latin, clock}
use ranking_server.Examples.Whole.{ready, ready-IsStocked, asking, comes, comes-Arrives}

-- The SQL server as its table Ranking.
abbrev board : Odbc
board = record {
  Db = List RankingRow;
  select_score = λ db. some [];
  select_ranking = λ db. some db;
  prepares = λ db. true;
  merge = λ db row. (db, true);
  update_ranking = λ db. (db, true);
}

abbrev stale : RankingRow
stale = record { rank = 2; id = 65 ∷ []; score = 9 }

abbrev row : RankingRow
row = record { rank = 1; id = 65 ∷ []; score = 10 }

abbrev behind : RankingRow
behind = record { rank = 2; id = 66 ∷ []; score = 5 }

abbrev rows : List RankingRow
rows = stale ∷ row ∷ behind ∷ []

abbrev id : List ℕ
id = row_id member_documents entry_store latin clock row

stale-AllDump : AllDump member_documents entry_store latin clock (stale ∷ [])
unfolding wstring_to_utf8 ranking_to_json
stale-AllDump = ((2 ∷ 3 ∷ 10 ∷ 66 ∷ [], refl), tt)

behind-AllDump : AllDump member_documents entry_store latin clock (behind ∷ [])
unfolding wstring_to_utf8 ranking_to_json
behind-AllDump = ((2 ∷ 3 ∷ 6 ∷ 67 ∷ [], refl), tt)

row_dumps :
    member_documents.dump (ranking_to_json member_documents 1 id 10) ≡ some (2 ∷ 2 ∷ 11 ∷ 66 ∷ [])
unfolding wstring_to_utf8 ranking_to_json
row_dumps = refl

id-NoZero : NoZero id
unfolding wstring_to_utf8
id-NoZero = omega arith

behind-IsAbsent : IsAbsent member_documents entry_store latin clock id (behind ∷ [])
unfolding wstring_to_utf8
behind-IsAbsent = (omega arith, grind arith, tt)

load_rankings_found_example :
    (s' : Entries) × (load_rankings member_documents entry_store latin clock rows (100, [])
      ≡ some s')
    × (get_cached_data member_documents entry_store ranking_table id (entry_store.elapse 599 s')
        ≡ some (ranking_to_json member_documents 1 id 10))
load_rankings_found_example =
    load_rankings_found member_documents entry_store latin clock (stale ∷ []) row (behind ∷ [])
      (100, []) (2 ∷ 2 ∷ 11 ∷ 66 ∷ []) 599 (λ s k. tt) stale-AllDump row_dumps behind-AllDump
      id-NoZero behind-IsAbsent (omega arith)

rows-Ranked : Ranked member_documents entry_store latin clock board rows row
rows-Ranked = record {
  before = stale ∷ [];
  after = behind ∷ [];
  json = 2 ∷ 2 ∷ 11 ∷ 66 ∷ [];
  selected = refl;
  before_dumps = stale-AllDump;
  dumps = row_dumps;
  after_dumps = behind-AllDump;
  plain = id-NoZero;
  absent = behind-IsAbsent;
}

saves :
    score_data_save member_documents entry_store latin clock board 1
      (entry_store.elapse 60 (100, []))
      rows
    ≡ some (true, rows)
unfolding score_data_save save_scan save_keys
saves = refl

abbrev question : List ℕ
question = slot_buffers.finish (RequestPlayerRanking.create id)

question_fits : length question ≤ 1024
unfolding wstring_to_utf8
question_fits = omega arith

abbrev reply : List ℕ
reply = ranked_response slot_buffers id (record { rank = 1; player_id = id; score = 10 })

reply_fits : length reply ≤ 1024
unfolding wstring_to_utf8 ranked_response
reply_fits = omega arith

serve_renewed_example :
    (s' : Entries) × (n' : Network) × (work_round member_documents entry_store latin clock board 1 1
        (rows, (100, []))
      ≡ some (rows, s'))
    × (round
          (λ x. x)
          (hub_read slot_buffers member_documents entry_store (λ x. x) accepted)
          (comes 3 question)
          (ready, entry_store.elapse 30 s')
        ≡ some (n', entry_store.elapse 30 s'))
    × (n'.wire ≡ wire_after ready 500 (answer_header (λ x. x) 1 4 reply ++ reply) accepted)
serve_renewed_example =
    serve_renewed member_documents entry_store latin clock board slot_buffers (λ x. x) (λ x. x)
      accepted 1 1 rows rows (100, []) row 30 ready (λ s k. tt) saves rows-Ranked (omega arith)
      ready-IsStocked (omega arith) (comes-Arrives 3 question (omega arith) question_fits) refl
      reply_fits

-- `ready` with nothing left in its queue.
abbrev starved : Network
starved = record ready { overlapped_queue = record ready.overlapped_queue { input = 0 } }

calls_starved_example :
    (receive_ready client 0 accepted starved ≡ none)
    × (accept_ready client 0 true 0 none starved ≡ none)
    × (send client (asking 1) (5 ∷ []) 1 accepted starved ≡ none)
calls_starved_example =
    calls_starved starved client 500 accepted true 0 none (asking 1) (5 ∷ []) 1 refl refl
      (omega arith)
