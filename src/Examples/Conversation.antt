-- ===== src/Examples/Conversation.antt =====
-- A conversation of two requests, at concrete inputs.
use ranking_server.Base.{ℕ, ◌≡◌, refl, List, [], ◌∷◌, ◌++◌, some, arith, length}
use ranking_server.Outside.Instances.Slots.{slot_buffers}
use ranking_server.Outside.Instances.Members.{member_documents}
use ranking_server.Outside.Instances.Entries.{entry_store}
use ranking_server.Packet.{op_recv}
use ranking_server.Network.State.{Network, find}
use ranking_server.Network.Session.{process}
use ranking_server.Network.Accepts.{free}
use ranking_server.Hub.{hub_read}
use ranking_server.Hub.Conversation.{played, all_stored, all_on_wire, conversation}
use ranking_server.Hub.Turn.{Saving, Listens, IsFine, IsOpen}
use ranking_server.Examples.Setting.{fresh, accepted, client}
use ranking_server.Examples.Whole.{
  ready, ready-IsSound, asking, saved_json, dump-saved, saving_range,
}

abbrev saving : Saving
saving = record { header = asking 1; id = 65 ∷ []; score = 10; time = 20; json = saved_json }

abbrev savings : List Saving
savings = saving ∷ saving ∷ []

saving-IsFine :
    IsFine slot_buffers member_documents entry_store (λ x. x) (λ x. x) accepted 1 client 500 saving
saving-IsFine = record {
  type = refl;
  range = saving_range;
  dumps = dump-saved;
  fits = omega arith;
  short = omega arith;
  id_word = omega arith;
  size_word = omega arith;
  type_word = omega arith;
}

ready-IsOpen :
    IsOpen slot_buffers member_documents entry_store (λ x. x) (λ x. x) accepted 1 client 500 ready
unfolding find
ready-IsOpen = record { known = refl; has_socket = refl; opened = omega arith; accepted = refl }

ready-Listens : Listens ready 0
ready-Listens = record {
  sound = ready-IsSound;
  room = omega arith;
  flying = omega arith;
  structure = record fresh { operation_type = op_recv };
  found = refl;
  receiving = refl;
}

conversation_example :
    (ps : List (ℕ × ℕ)) × (n' : Network) × (q : ℕ) × (length ps ≡ 2)
    × (process
          (λ x. x)
          (hub_read slot_buffers member_documents entry_store (λ x. x) accepted)
          (played slot_buffers member_documents entry_store
            (λ x. x)
            (λ x. x)
            accepted
            1
            client
            500
            savings
            ps)
          (ready, (100, []))
        ≡ some (
          n',
          all_stored slot_buffers member_documents entry_store
              (λ x. x)
              (λ x. x)
              accepted
              1
              client
              500
              savings
              (100, []),
        ))
    × Listens n' q
    × (n'.wire
        ≡ []
          ++ all_on_wire slot_buffers member_documents entry_store
              (λ x. x)
              (λ x. x)
              accepted
              1
              client
              500
              savings)
    × (free n' ≡ 2)
conversation_example =
    conversation slot_buffers member_documents entry_store (λ x. x) (λ x. x) accepted 1 client 500
      savings ready 0 (100, []) (saving-IsFine, (saving-IsFine, tt)) ready-IsOpen ready-Listens
