-- ===== src/Examples/Threads.antt =====
-- Session threads beside each other, at concrete inputs.
use ranking_server.Base.{ℕ, ◌≡◌, ◌≢◌, ◌⊎◌, ◌>>=◌, refl, [], ◌∷◌, ◌++◌, some, true, arith, get_elem?}
use ranking_server.Outside.Instances.Slots.{slot_buffers}
use ranking_server.Outside.Instances.Members.{member_documents}
use ranking_server.Outside.Instances.Entries.{entry_store}
use ranking_server.Packet.{op_recv, op_send}
use ranking_server.Database.{score_table, set_cached_data}
use ranking_server.Protocol.ResponseSaveScore
use ranking_server.Network.State.{Network}
use ranking_server.Network.Session.{Completion, round, dequeue, arrived}
use ranking_server.Network.Ownership.{owners}
use ranking_server.Hub.{hub_read}
use ranking_server.Hub.Served.{serve_save_score}
use ranking_server.Hub.Answered.{Answered, answer_header}
use ranking_server.Server.{Server, sleeps}
use ranking_server.Server
use ranking_server.Server.Starts.{IsSound}
use ranking_server.Server.Threads.{Program, stop, access, run}
use ranking_server.Server.Threads.Rounds.{round_program, hub_read_program, give_back_program}
use ranking_server.Server.Threads.Equal.Rounds.{round-interleaved}
use ranking_server.Server.Threads.Typed.{Uses}
use ranking_server.Server.Threads.Typed.Rounds.{round-Uses}
use ranking_server.Server.Threads.Steps.{Threads, Step, Reach}
use ranking_server.Server.Threads.Advance.{Ends}
use ranking_server.Server.Threads.Coarse.{threads_of, CacheMove, rounds_interleave}
use ranking_server.Server.Threads.Safe.{Touches}
use ranking_server.Server.Threads.Apart.{threads_apart, threads_advance}
use ranking_server.Examples.Setting.{fresh, accepted, typed-IsValid, fresh-IsValid}
use ranking_server.Examples.Server.{latin, merged, clock}
use ranking_server.Examples.Whole.{
  ready, ready-IsStocked, comes, comes-Arrives, saving, saved_json, dump-saved, saving_range,
}

round-Uses_example : Uses (0 ∷ []) (
    round_program
      (λ x. x)
      (hub_read_program slot_buffers member_documents entry_store (λ x. x) accepted)
      (comes 257 saving)
      (record fresh { operation_type = op_recv }))
round-Uses_example =
    round-Uses slot_buffers member_documents entry_store (λ x. x) accepted (λ x. x)
      (comes 257 saving) (record fresh { operation_type = op_recv })

round-interleaved_example :
    round
      (λ x. x)
      (hub_read slot_buffers member_documents entry_store (λ x. x) accepted)
      (comes 257 saving)
      (ready, (100, []))
    ≡ (get_elem? ready.overlapped 0 >>= λ o.
        run
          (round_program
            (λ x. x)
            (hub_read_program slot_buffers member_documents entry_store (λ x. x) accepted)
            (comes 257 saving)
            (arrived (comes 257 saving).received o))
          (dequeue (comes 257 saving) (arrived (comes 257 saving).received o) ready, (100, [])))
round-interleaved_example =
    round-interleaved slot_buffers member_documents entry_store (λ x. x) accepted (λ x. x)
      (comes 257 saving) (ready, (100, []))

-- A client saves a score.
saves :
    let answer = slot_buffers.finish (ResponseSaveScore.create (65 ∷ []) true) in
    (n' : Network) × (round
        (λ x. x)
        (hub_read slot_buffers member_documents entry_store (λ x. x) accepted)
        (comes 257 saving)
        (ready, (100, []))
      ≡ some (
        n',
        set_cached_data member_documents entry_store score_table (65 ∷ []) saved_json 60 (100, []),
      ))
    × Answered ready n' 0 500 (answer_header (λ x. x) 1 2 answer ++ answer) accepted accepted
saves =
    serve_save_score slot_buffers member_documents entry_store (λ x. x) (λ x. x) accepted
      (ready, (100, [])) ready-IsStocked (omega arith) (65 ∷ []) 10 20 saved_json
      (comes-Arrives 257 saving (omega arith) (omega arith)) refl saving_range dump-saved
      (omega arith)

abbrev before : Server entry_store merged
before = record { network = ready; cache = (100, []); db = []; phase = sleeps; slept = 0 }

abbrev after : Server entry_store merged
after = record {
  network = saves.0;
  cache =
      set_cached_data member_documents entry_store score_table (65 ∷ []) saved_json 60 (100, []);
  db = [];
  phase = sleeps;
  slept = 0;
}

rounds_interleave_example :
    Reach
      (λ x. x)
      (hub_read_program slot_buffers member_documents entry_store (λ x. x))
      (CacheMove member_documents entry_store latin clock merged)
      (threads_of 1 before)
      (threads_of 1 after)
rounds_interleave_example =
    rounds_interleave slot_buffers member_documents entry_store (λ x. x) (λ x. x) latin clock merged
      0 before after
      (Server.Reach.next Server.Reach.here
        (Server.Step.completed (comes 257 saving) accepted _ (omega arith) saves.1 refl))

-- Structure 0 has been sent.
abbrev pub sent : Server entry_store merged
sent = record {
  network = record ready {
    overlapped = record fresh { operation_type = op_send } ∷ fresh ∷ fresh ∷ [];
  };
  cache = (100, []);
  db = [];
  phase = sleeps;
  slept = 0;
}

sent-IsSound : IsSound sent.network
sent-IsSound = record {
  stocked = record {
    queue = omega arith;
    structures = (typed-IsValid op_send, (fresh-IsValid, (fresh-IsValid, tt)));
    free = omega arith;
  };
  unique = λ p. ground arith;
}

abbrev goes : Completion
goes = record {
  succeeded = true;
  bytes_transferred = 21;
  key = 1;
  pointer = 0;
  received = [];
  socket_error = 0;
  answer = accepted;
}

-- One of two threads is about to clear structure 0.
abbrev pub clearing : Threads entry_store.Store
clearing = record {
  network = dequeue goes (arrived [] (record fresh { operation_type = op_send })) sent.network;
  world = (100, []);
  programs = give_back_program 0 stop ∷ stop ∷ [];
}

pub clearing-Reach :
    Reach
      (λ x. x)
      (hub_read_program slot_buffers member_documents entry_store (λ x. x))
      (λ w w'. w ≡ w')
      (threads_of 2 sent)
      clearing
unfolding round_program
clearing-Reach = Reach.next Reach.here (
    Step.begins 0 goes accepted (record fresh { operation_type = op_send }) refl (omega arith) refl
      refl)

threads_apart_example :
    (owners 0 clearing.network ≡ 0)
    × ((j : ℕ) (t' : Program entry_store.Store)
        → j ≢ 0
        → get_elem? clearing.programs j ≡ some t'
        → ¬ Touches 0 t')
threads_apart_example =
    threads_apart slot_buffers member_documents entry_store merged (λ x. x) (λ x. x) 2 sent
      sent-IsSound clearing (λ w w'. w ≡ w') clearing-Reach 0 0 (give_back_program 0 stop) refl refl

threads_advance_example :
    Ends (give_back_program {W = entry_store.Store} 0 stop) clearing.network
    ⊎ ((r : Program entry_store.Store × Network × entry_store.Store) × (access
            (give_back_program 0 stop)
            (clearing.network, clearing.world)
          ≡ some r))
threads_advance_example =
    threads_advance slot_buffers member_documents entry_store merged (λ x. x) (λ x. x) 2 sent
      sent-IsSound clearing (λ w w'. w ≡ w') clearing-Reach 0 (give_back_program 0 stop) refl
