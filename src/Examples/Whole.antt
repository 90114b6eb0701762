-- ===== src/Examples/Whole.antt =====
-- main.cpp and the way of a request through the server, at concrete inputs.
use ranking_server.Base.{
  inl, ℕ, ◌≡◌, ◌≤◌, ◌<◌, ◌^◌, refl, List, [], ◌∷◌, ◌++◌, none, some, true, false, arith, length,
}
use ranking_server.Outside.Instances.Slots.{slot_buffers}
use ranking_server.Outside.Instances.Members.{member_documents}
use ranking_server.Outside.Instances.Entries.{entry_store}
use ranking_server.Packet.{MessageHeader, op_recv, header_bytes}
use ranking_server.Data.{score_to_json}
use ranking_server.Database.{
  score_table, ranking_table, set_cached_data, get_cached_data, data_load_in_sql, score_data_load,
  ranking_data_load, load_scores, score_data_save, save_scan, save_keys, ranking_update,
}
use ranking_server.Protocol.RequestSaveScore
use ranking_server.Protocol.ResponseSaveScore
use ranking_server.Protocol.RequestPlayerRanking
use ranking_server.Network.State.{Network, find}
use ranking_server.Network.Manager.{AcceptAnswer}
use ranking_server.Network.Session.{Completion, round}
use ranking_server.Network.Supply.{IsStocked}
use ranking_server.Network.Accepts.{free}
use ranking_server.Network.Arrival.{Arrives}
use ranking_server.Hub.{
  hub_read, nine_hours_later, IsInRange, unranked_response, work_round, update_interval,
}
use ranking_server.Hub.Served.{serve_save_score, serve_unranked}
use ranking_server.Hub.Answered.{Answered, answer_header}
use ranking_server.Server.{Server, sleeps, main_start}
use ranking_server.Server.Work.{work_round-Reach}
use ranking_server.Server.Starts.{IsSound}
use ranking_server.Server.Sound.{server_IsSound}
use ranking_server.Server.Returns.{IsWorking, main_start_returns}
use ranking_server.Examples.Setting.{fresh, accepted, client, typed-IsValid, fresh-IsValid}
use ranking_server.Examples.Startup.{machine}
use ranking_server.Examples.Server.{latin, merged, clock}

machine-IsWorking : IsWorking machine
machine-IsWorking = record {
  wsa_startup = refl;
  socket = refl;
  bind = refl;
  listen = refl;
  port = refl;
  attach = refl;
  ioctl = refl;
  cells = λ i. (refl, refl);
}

abbrev accepting : ℕ → AcceptAnswer
accepting i = record { socket_error = 0; result = false; last_error = 997; end_value = some true }

loads :
    data_load_in_sql member_documents entry_store latin clock merged [] (100, []) ≡ some (100, [])
unfolding data_load_in_sql score_data_load ranking_data_load load_scores
loads = refl

main_start_returns_example :
    (n : Network) × (main_start slot_buffers member_documents entry_store latin clock merged
        (λ x. x)
        (λ x. x)
        machine
        accepting
        []
        (100, [])
      ≡ some (record { network = n; cache = (100, []); db = []; phase = sleeps; slept = 0 }))
    × (189 ≤ free n)
    × IsStocked n
main_start_returns_example =
    main_start_returns slot_buffers member_documents entry_store latin clock merged (λ x. x)
      (λ x. x) machine accepting [] (100, []) (100, []) machine-IsWorking (λ id. (true, refl)) loads

-- The server of `main` as it begins.
started :
    (n : Network) × (main_start slot_buffers member_documents entry_store latin clock merged
        (λ x. x)
        (λ x. x)
        machine
        accepting
        []
        (100, [])
      ≡ some (record { network = n; cache = (100, []); db = []; phase = sleeps; slept = 0 }))
    × (189 ≤ free n)
    × IsStocked n
started =
    main_start_returns slot_buffers member_documents entry_store latin clock merged (λ x. x)
      (λ x. x) machine accepting [] (100, []) (100, []) machine-IsWorking (λ id. (true, refl)) loads

abbrev begun : Server entry_store merged
begun = record { network = started.0; cache = (100, []); db = []; phase = sleeps; slept = 0 }

abbrev later : Server entry_store merged
later = record begun { cache = (160, []) }

works :
    work_round member_documents entry_store latin clock merged 1 update_interval ([], (100, []))
    ≡ some ([], (160, []))
unfolding work_round score_data_save save_scan save_keys ranking_update ranking_data_load
works = refl

server_IsSound_example :
    IsSound later.network × (later.network.client_map ≡ begun.network.client_map)
server_IsSound_example =
    server_IsSound slot_buffers member_documents entry_store latin clock merged (λ x. x) (λ x. x)
      machine accepting [] (100, []) begun later (λ i. (refl, refl)) started.1
      (work_round-Reach slot_buffers member_documents entry_store latin clock merged (λ x. x)
        (λ x. x) 1 started.0 ([], (100, [])) ([], (160, [])) works)

-- Structure 0 is receiving for the client with id 1, structures 1 and 2 are free.
abbrev pub ready : Network
ready = record {
  overlapped = record fresh { operation_type = op_recv } ∷ fresh ∷ fresh ∷ [];
  overlapped_queue = record {
    max_size = 4;
    input = 2;
    output = 0;
    buffer = some 1 ∷ some 2 ∷ none ∷ none ∷ [];
  };
  client_map = (1, client) ∷ [];
  in_flight = 0 ∷ [];
  wire = [];
}

pub ready-IsStocked : IsStocked ready
ready-IsStocked = record {
  queue = omega arith;
  structures = (typed-IsValid op_recv, (fresh-IsValid, (fresh-IsValid, tt)));
  free = omega arith;
}

abbrev pub asking : ℕ → MessageHeader
asking type = record { socket_id = 1; body_size = 9; contents_type = type }

abbrev pub comes : ℕ → List ℕ → Completion
comes type message = record {
  succeeded = true;
  bytes_transferred = 21;
  key = 1;
  pointer = 0;
  received = header_bytes (asking type) ++ message;
  socket_error = 0;
  answer = accepted;
}

pub comes-Arrives :
    (type : ℕ) (message : List ℕ)
    → type < 2 ^ 32
    → length message ≤ 1024
    → Arrives ready
        (comes type message)
        (record fresh { operation_type = op_recv })
        client
        500
        (asking type)
        message
unfolding find
comes-Arrives type message h k = record {
  found = refl;
  receiving = refl;
  succeeded = refl;
  not_closed = refl;
  no_error = refl;
  known = refl;
  has_socket = refl;
  is_open = omega arith;
  bytes = refl;
  short = k;
  id_word = omega arith;
  size_word = omega arith;
  type_word = h;
}

abbrev pub saving : List ℕ
saving = slot_buffers.finish (RequestSaveScore.create (65 ∷ []) 10 20)

abbrev ranking : List ℕ
ranking = slot_buffers.finish (RequestPlayerRanking.create (65 ∷ []))

abbrev pub saved_json : List ℕ
saved_json = 1 ∷ 11 ∷ 32421 ∷ 66 ∷ []

pub dump-saved :
    member_documents.dump (score_to_json member_documents (65 ∷ []) 10 (nine_hours_later 20))
    ≡ some saved_json
unfolding score_to_json
dump-saved = refl

pub saving_range : IsInRange 10 20
saving_range = (omega arith, omega arith, inl (omega arith))

serve_save_score_example :
    let answer = slot_buffers.finish (ResponseSaveScore.create (65 ∷ []) true) in
    (n' : Network) × (round
        (λ x. x)
        (hub_read slot_buffers member_documents entry_store (λ x. x) accepted)
        (comes 257 saving)
        (ready, (100, []))
      ≡ some (
        n',
        set_cached_data member_documents entry_store score_table (65 ∷ []) saved_json 60 (100, []),
      ))
    × Answered ready n' 0 500 (answer_header (λ x. x) 1 2 answer ++ answer) accepted accepted
serve_save_score_example =
    serve_save_score slot_buffers member_documents entry_store (λ x. x) (λ x. x) accepted
      (ready, (100, [])) ready-IsStocked (omega arith) (65 ∷ []) 10 20 saved_json
      (comes-Arrives 257 saving (omega arith) (omega arith)) refl saving_range dump-saved
      (omega arith)

get-unranked :
    get_cached_data member_documents entry_store ranking_table (65 ∷ []) (100, [])
    ≡ some member_documents.blank
unfolding get_cached_data
get-unranked = refl

unranked_fits : length (unranked_response slot_buffers (65 ∷ [])) ≤ 1024
unfolding unranked_response
unranked_fits = omega arith

serve_unranked_example :
    let answer = unranked_response slot_buffers (65 ∷ []) in
    (n' : Network) × (round
        (λ x. x)
        (hub_read slot_buffers member_documents entry_store (λ x. x) accepted)
        (comes 3 ranking)
        (ready, (100, []))
      ≡ some (n', (100, [])))
    × Answered ready n' 0 500 (answer_header (λ x. x) 1 4 answer ++ answer) accepted accepted
serve_unranked_example =
    serve_unranked slot_buffers member_documents entry_store (λ x. x) (λ x. x) accepted
      (ready, (100, [])) ready-IsStocked (omega arith) (65 ∷ [])
      (comes-Arrives 3 ranking (omega arith) (omega arith)) refl get-unranked unranked_fits

pub ready-IsSound : IsSound ready
ready-IsSound = record { stocked = ready-IsStocked; unique = λ p. ground arith }
