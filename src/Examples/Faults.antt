-- ===== src/Examples/Faults.antt =====
-- Requests that do harm, and the way of a score to the table, at concrete inputs.
use ranking_server.Base.{
  ◌≤◌, ◌+◌, ◌*◌, ◌^◌, ◌≡◌, ◌++◌, ℕ, length, ◌<◌, ◌⊎◌, ◌∷◌, [], refl, inl, arith, none, some, ltb,
  if◌then◌else◌, c_str, List, true,
}
use ranking_server.Outside.Flat.{Slot}
use ranking_server.Outside.Instances.Slots.{slot_buffers}
use ranking_server.Outside.Instances.Members.{member_documents}
use ranking_server.Outside.Instances.Entries.{entry_store}
use ranking_server.Database.{score_table, cache_key, save_keys, set_cached_data}
use ranking_server.Protocol.RequestSaveScore
use ranking_server.Network.State.{Network}
use ranking_server.Network.Session.{round}
use ranking_server.Hub.{hub_read, nine_hours_later, save_ttl}
use ranking_server.Hub.Faults.{unnamed, serve-Harmful}
use ranking_server.Hub.Settled.{save_score_settled}
use ranking_server.Hub.Answered.{Answered, answer_header}
use ranking_server.Data.{score_to_json}
use ranking_server.Protocol.ResponseSaveScore
use ranking_server.Hub.Saved.{score_reaches_table}
use ranking_server.Examples.Setting.{accepted}
use ranking_server.Examples.Server.{latin, merged, clock}
use ranking_server.Examples.Whole.{
  ready, ready-IsStocked, comes, comes-Arrives, saving, saved_json, dump-saved, saving_range,
}

-- A request to save a score that names no player.
abbrev nameless : List Slot
nameless = RequestSaveScore.create_direct none 10 20

serve-Harmful_example :
    round
      (λ x. x)
      (hub_read slot_buffers member_documents entry_store (λ x. x) accepted)
      (comes 1 (slot_buffers.finish nameless))
      (ready, (100, []))
    ≡ none
serve-Harmful_example =
    serve-Harmful slot_buffers member_documents entry_store (λ x. x) accepted (λ x. x)
      (ready, (100, [])) nameless ready-IsStocked
      (comes-Arrives 1 (slot_buffers.finish nameless) (omega arith) (omega arith)) (omega arith)
      (unnamed (inl refl) (omega arith) refl)

score_reaches_table_example :
    (s' : Network × entry_store.Store) × (round
        (λ x. x)
        (hub_read slot_buffers member_documents entry_store (λ x. x) accepted)
        (comes 257 saving)
        (ready, (100, []))
      ≡ some s')
    × (save_keys member_documents entry_store latin clock merged
          (entry_store.elapse 30 s'.1)
          (cache_key score_table (65 ∷ []) ∷ [])
          []
        ≡ some (
            if ltb 30 save_ttl
            then (merged.merge [] (record {
              player_id = c_str (65 ∷ []);
              score = 10;
              last_update = c_str (84 ∷ 32420 ∷ []);
            })).0
            else []))
score_reaches_table_example =
    score_reaches_table slot_buffers member_documents entry_store latin clock merged (λ x. x)
      (λ x. x) accepted (ready, (100, [])) (65 ∷ []) 10 20 saved_json 30 (84 ∷ 32420 ∷ []) []
      ready-IsStocked (omega arith) (comes-Arrives 257 saving (omega arith) (omega arith)) refl
      saving_range dump-saved (omega arith) tt refl refl

save_score_settled_example :
    let answer = slot_buffers.finish (ResponseSaveScore.create (65 ∷ []) true) in
    ((((20 < 2 ^ 63) × (2 ^ 63 ≤ 20 + 9 * 3600))
        ⊎ (member_documents.dump (score_to_json member_documents (65 ∷ []) 10 (nine_hours_later 20))
            ≡ none)
        ⊎ (1024 < length answer))
      × (round
            (λ x. x)
            (hub_read slot_buffers member_documents entry_store (λ x. x) accepted)
            (comes 257 saving)
            (ready, (100, []))
          ≡ none))
    ⊎ ((json : List ℕ) × (n' : Network) × (member_documents.dump
            (score_to_json member_documents (65 ∷ []) 10 (nine_hours_later 20))
          ≡ some json)
        × (round
              (λ x. x)
              (hub_read slot_buffers member_documents entry_store (λ x. x) accepted)
              (comes 257 saving)
              (ready, (100, []))
            ≡ some (
              n',
              set_cached_data member_documents entry_store score_table (65 ∷ []) json 60 (100, []),
            ))
        × Answered ready n' 0 500 (answer_header (λ x. x) 1 2 answer ++ answer) accepted accepted)
save_score_settled_example =
    save_score_settled slot_buffers member_documents entry_store (λ x. x) (λ x. x) accepted
      (ready, (100, [])) (65 ∷ []) 10 20 ready-IsStocked (omega arith)
      (comes-Arrives 257 saving (omega arith) (omega arith)) refl (omega arith) (omega arith)
