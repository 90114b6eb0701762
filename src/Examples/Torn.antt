-- ===== src/Examples/Torn.antt =====
-- Session threads within the calls of the queue, at concrete inputs.
use ranking_server.Base.{ℕ, ◌≡◌, ◌∷◌, [], arith}
use ranking_server.Server.Threads.{Program, stop}
use ranking_server.Server.Threads.Safe.{Touches}
use ranking_server.Server.Threads.Torn.{Threads, Reach, outside, waiting, pops_share}
use ranking_server.Outside.Instances.Slots.{slot_buffers}
use ranking_server.Outside.Instances.Members.{member_documents}
use ranking_server.Outside.Instances.Entries.{entry_store}
use ranking_server.Server.Threads.Rounds.{hub_read_program}
use ranking_server.Server.Threads.Coarse.{threads_of}
use ranking_server.Server.Threads.Torn.Whole.{torn, whole_calls}
use ranking_server.Examples.Threads.{sent, clearing, clearing-Reach}
use ranking_server.Examples.Whole.{ready, ready-IsStocked}

pops_share_example :
    (p : ℕ) × (u : Threads ℕ) × (t : Program ℕ) × (t' : Program ℕ) × Reach
      (λ x. x)
      (λ a socket size type body k. k)
      (λ w w'. w ≡ w')
      (waiting ready 0 (λ p o. stop) (λ p o. stop))
      u
    × (u.programs ≡ (t, outside) ∷ (t', outside) ∷ [])
    × Touches p t
    × Touches p t'
pops_share_example =
    pops_share (λ x. x) (λ a socket size type body k. k) (λ w w'. w ≡ w') ready 0 (λ p o. stop)
      (λ p o. stop) ready-IsStocked (omega arith)

whole_calls_example :
    Reach
      (λ x. x)
      (hub_read_program slot_buffers member_documents entry_store (λ x. x))
      (λ w w'. w ≡ w')
      (torn (threads_of 2 sent))
      (torn clearing)
whole_calls_example =
    whole_calls (λ x. x) (hub_read_program slot_buffers member_documents entry_store (λ x. x))
      (λ w w'. w ≡ w') (threads_of 2 sent) clearing clearing-Reach
