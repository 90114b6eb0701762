-- ===== src/Examples/Handles.antt =====
-- Hub::Work with the statement handles, at concrete inputs.
use ranking_server.Base.{◌≡◌, refl, [], ◌∷◌, List, some, ℕ_discrete, dec_lt}
use ranking_server.Outside.Instances.Members.{member_documents}
use ranking_server.Outside.Instances.Entries.{entry_store, Entries, key_discrete}
use ranking_server.Outside.Odbc.{MergeRow}
use ranking_server.Database.{cache_key, score_table, save_score, ranking_update, ranking_data_load}
use ranking_server.Hub.Handles.{
  connected, work, work_on, work_round_on, save_scan_on, save_keys_on, ranking_update_on,
  alloc_statement, free_statement,
}
use ranking_server.Hub.Handles.Leak.{IsCurrent, Agrees, work_leaks}
use ranking_server.Examples.Server.{latin, merged, clock}

-- A score of the player "A" that stays in the cache.
abbrev stored : List MergeRow × Entries
stored = ([], (100, (cache_key score_table (65 ∷ []), (1 ∷ 11 ∷ 21 ∷ 66 ∷ []), 1000) ∷ []))

connected-IsCurrent : IsCurrent connected
connected-IsCurrent = ([], refl)

work_leaks_example :
    Agrees
      (work member_documents entry_store latin clock merged 2 1 1 stored)
      (work_on member_documents entry_store latin clock merged 2 1 1 (stored, connected))
      3
work_leaks_example =
    work_leaks member_documents entry_store latin clock merged 2 1 1 stored connected
      connected-IsCurrent

-- One round merges the score, frees the first handle, and leaves two others.
one_round :
    work_round_on member_documents entry_store latin clock merged 1 1 (stored, connected)
    ≡ some (
      (
        record { player_id = 65 ∷ []; score = 10; last_update = 84 ∷ 20 ∷ [] } ∷ [],
        (160, stored.1.1),
      ),
      record { statement = 2; allocated = 2 ∷ 1 ∷ []; next = 3 },
    )
unfolding work_round_on save_scan_on save_keys_on save_score ranking_update_on ranking_update
    ranking_data_load alloc_statement free_statement cache_key key_discrete ℕ_discrete dec_lt
one_round = refl
