-- ===== src/Examples/Heap.antt =====
-- MyPacket.h over a heap at concrete inputs.
use ranking_server.Base.{ℕ, ◌≡◌, ◌<◌, sym, subst, refl, List, [], ◌∷◌, none, some, arith, replicate}
use ranking_server.Packet.{MessageHeader, header_bytes}
use ranking_server.Packet
use ranking_server.Packet.Buffers.{IsValid, create-IsValid}
use ranking_server.Packet.Heap.{
  Block, Heap, Structure, chars, construct, destroy, copy, set_header, refill_all, set_body, clear,
}
use ranking_server.Packet.Heap.Refine.{Owns, Refines, value, construct-Owns, structure-Refines}
use ranking_server.Packet.Heap.Reuse.{Gives, refill_all_leaks}
use ranking_server.Packet.Heap.Ownership.{copy_destroyed_twice, destroy_sent}

-- A new structure on a heap with nothing else.
abbrev made : Structure × Heap
made = construct (replicate 12 7) (replicate 1024 7) []

abbrev header : Block
header = record { form = chars; bytes = replicate 12 7 }

abbrev body : Block
body = record { form = chars; bytes = replicate 1024 7 }

made-Owns : Owns made.1 made.0 header body
made-Owns = (construct-Owns (replicate 12 7) (replicate 1024 7) []).0

made-IsValid : IsValid (value made.0 header body)
made-IsValid =
    subst IsValid (sym (construct-Owns (replicate 12 7) (replicate 1024 7) []).1)
      (create-IsValid (replicate 12 7) (replicate 1024 7) refl refl)

made_len : 0 < made.0.header_len
unfolding construct
made_len = omega arith

abbrev hello : MessageHeader
hello = record { socket_id = 1; body_size = 2; contents_type = 3 }

structure-Refines_example :
    ((m : MessageHeader)
      → Refines (set_header m made.0 made.1) (Packet.set_header m (value made.0 header body)))
    × ((source : List ℕ) (n : ℕ)
        → Refines
            (set_body source n made.0 made.1)
            (Packet.set_body source n (value made.0 header body)))
    × Refines (clear made.0 made.1) (Packet.clear (value made.0 header body))
structure-Refines_example = structure-Refines made-Owns

refill_all_leaks_example :
    Gives (refill_all ((hello, 1 ∷ []) ∷ (hello, 2 ∷ []) ∷ []) made.0 made.1) made.1 2
refill_all_leaks_example =
    refill_all_leaks ((hello, 1 ∷ []) ∷ (hello, 2 ∷ []) ∷ []) made.0 made.1
      (record { header = header; body = body; owns = made-Owns; valid = made-IsValid })
      (omega arith, (omega arith, tt))

copy_destroyed_twice_example :
    (h' : Heap) × (destroy made.0 made.1 ≡ some h') × (destroy (copy none made.0) h' ≡ none)
copy_destroyed_twice_example =
    copy_destroyed_twice none made.0 made.1 header body made-Owns refl refl made_len

destroy_sent_example :
    (o' : Structure) × (h' : Heap) × (set_header hello made.0 made.1 ≡ some (o', h'))
    × (destroy o' h' ≡ none)
destroy_sent_example = destroy_sent hello made.0 made.1 header body made-Owns made-IsValid
