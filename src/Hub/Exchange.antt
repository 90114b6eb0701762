-- ===== src/Hub/Exchange.antt =====
-- The completion of an answer, in Session.cpp: what the queue has lost, it gets back.
use ranking_server.Base.{
  ◌≢◌, sym, get_elem?-set_ne, ℕ, ◌+◌, ◌≡◌, ◌≤◌, ◌<◌, subst, ◌∙◌, List, Option, none, some, true,
  arith, length-set, get_elem?,
}
use ranking_server.Ring.{printed}
use ranking_server.Packet.{CustomOverlapped, op_send}
use ranking_server.Network.State.{Network, Answer}
use ranking_server.Network.Session.{remove_first, Completion, dequeue, handle, round}
use ranking_server.Network.Supply.{IsStocked}
use ranking_server.Network.Ownership.{count, count_free}
use ranking_server.Network.Accepts.{free}
use ranking_server.Network.Returns.{dequeue-IsStocked, get_elem?-AllValid, get_elem?-in_range}
use ranking_server.Network.Passed.{give_back-Back}
use ranking_server.Hub.Answered.{Answered}
use ranking_server.Server.Starts.{IsSound}

-- A send has come to its end: its structure is free again.
pub record Finished (n n' : Network) (p : ℕ) : Type 0 where
  pub stocked : IsStocked n'
  pub more : free n' ≡ free n + 1
  pub wire : n'.wire ≡ n.wire
  pub flying : n'.in_flight ≡ remove_first p n.in_flight
  pub others : (r : ℕ) → r ≢ p → get_elem? n'.overlapped r ≡ get_elem? n.overlapped r

module _ {W : Type 0} (ntohl : ℕ → ℕ)
    (callback : ℕ → ℕ → ℕ → List ℕ → Network × W → Option (Network × W)) (d : Completion)
    (o : CustomOverlapped) (s : Network × W) where
  -- The round of a send that has come to its end, where the queue is not full, adds one structure to
  -- the queue.
  pub round_sent_returns :
      IsStocked s.0
      → d.succeeded ≡ true
      → get_elem? s.0.overlapped d.pointer ≡ some o
      → o.operation_type ≡ op_send
      → free s.0 + 1 < s.0.overlapped_queue.max_size
      → (n' : Network) × (round ntohl callback d s ≡ some (n', s.1)) × Finished s.0 n' d.pointer
  unfolding round handle dequeue
  round_sent_returns stocked good found sent room =
      let valid = get_elem?-AllValid s.0.overlapped d.pointer o stocked.structures found in
      let (n', back, b) =
        give_back-Back (dequeue d o s.0) d.pointer (dequeue-IsStocked d o s.0 stocked valid)
          (rw (length-set s.0.overlapped d.pointer o)
            (get_elem?-in_range s.0.overlapped d.pointer o found))
          room in
      (
        n',
        simp (found, good, sent, back),
        record {
          stocked = b.stocked;
          more = b.more;
          wire = b.wire;
          flying = b.flying;
          others = λ r ne.
              b.others r ne ∙ get_elem?-set_ne s.0.overlapped d.pointer r o (λ e. ne (sym e));
        },
      )

-- The answer's structure is another than the request's, which is in flight.
pub answer_is_sent :
    {n n' : Network} {p socket : ℕ} {bytes : List ℕ} {a b : Answer}
    → IsSound n
    → 1 ≤ count p n.in_flight
    → (r : Answered n n' p socket bytes a b)
    → (o : CustomOverlapped) × (get_elem? n'.overlapped r.pointer ≡ some o)
      × (o.operation_type ≡ op_send)
answer_is_sent {n} {n'} {p} sound flying r =
    r.sending
      (λ e. omega (
        arith,
        sound.unique p,
        flying,
        subst (λ q. 1 ≤ count_free q (printed none n.overlapped_queue)) e r.was_free,
      ))
      (omega (arith, sound.unique r.pointer))
