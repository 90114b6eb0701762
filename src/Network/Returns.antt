-- ===== src/Network/Returns.antt =====
-- Session.cpp where a send completes.
use ranking_server.Base.{
  ℕ, zero, suc, ◌<◌, ◌≡◌, refl, inl, inr, List, [], ◌∷◌, ◌++◌, Option, none, some, true, ◌==◌,
  arith, get_elem?, set, length, length-set, Bool-cases, ne_of_==, subst, sym,
}
use ranking_server.Ring.{Ring, push, printed, next_index}
use ranking_server.Ring.Bounds.{IsValid, push-IsValid}
use ranking_server.Ring.Contents.{push_full, push_room, printed-stored}
use ranking_server.Packet.{CustomOverlapped, op_send}
use ranking_server.Packet.Buffers
use ranking_server.Packet.Buffers.{clear_lem, cleared}
use ranking_server.Network.State.{Network, give_back}
use ranking_server.Network.Session.{Completion, dequeue, handle, round}
use ranking_server.Network.Supply.{AllValid, InRange, IsStocked, AllValid-get_elem?, AllValid-set}

InRange-append :
    (m p : ℕ) (ps : List (Option ℕ)) → InRange m ps → p < m → InRange m (ps ++ (some p ∷ []))
InRange-append m p [] h k = (k, tt)
InRange-append m p (none ∷ ps) h k = absurd (omega arith)
InRange-append m p (some q ∷ ps) h k = (h.0, InRange-append m p ps h.1 k)

pub push-InRange :
    (m p : ℕ) (r : Ring (Option ℕ))
    → IsValid r
    → InRange m (printed none r)
    → p < m
    → InRange m (printed none (push r (some p)).1)
push-InRange m p r v h k = elim (Bool-cases (next_index r r.input == r.output)) [
  | inl full ↦ rw (push_full r (some p) full) h
  | inr room ↦ rw (push_room r (some p) room) (
      subst (InRange m) (sym (printed-stored none r (some p) v (ne_of_== room)))
        (InRange-append m p (printed none r) h k))
]

-- To give a structure of the store back to a stocked network is no fault, and it is stocked after.
pub give_back-IsStocked :
    (n : Network) (p : ℕ)
    → IsStocked n
    → p < length n.overlapped
    → (n' : Network) × (give_back p n ≡ some n') × IsStocked n'
unfolding give_back
give_back-IsStocked n p s h =
    let (o, found, fine) = AllValid-get_elem? n.overlapped p s.structures h in
    let (clears, valid) = clear_lem o fine in
    let n' = record n {
      overlapped = set n.overlapped p (cleared o);
      overlapped_queue = (push n.overlapped_queue (some p)).1;
    } in
    (
      n',
      rw (found, clears) refl,
      record {
        queue = push-IsValid n.overlapped_queue (some p) s.queue;
        structures = AllValid-set n.overlapped p (cleared o) s.structures valid;
        free =
            rw (length-set n.overlapped p (cleared o))
              (push-InRange (length n.overlapped) p n.overlapped_queue s.queue s.free h);
      },
    )

pub dequeue-IsStocked :
    (c : Completion) (o : CustomOverlapped) (n : Network)
    → IsStocked n
    → Buffers.IsValid o
    → IsStocked (dequeue c o n)
unfolding dequeue
dequeue-IsStocked c o n s v = record {
  queue = s.queue;
  structures = AllValid-set n.overlapped c.pointer o s.structures v;
  free = rw (length-set n.overlapped c.pointer o) s.free;
}

pub get_elem?-in_range :
    {A : Type 0} (xs : List A) (i : ℕ) (x : A) → get_elem? xs i ≡ some x → i < length xs
get_elem?-in_range [] i x h = cc
get_elem?-in_range (y ∷ xs) zero x h = omega arith
get_elem?-in_range (y ∷ xs) (suc i) x h = omega (arith, get_elem?-in_range xs i x h)

pub get_elem?-AllValid :
    (os : List CustomOverlapped) (p : ℕ) (o : CustomOverlapped)
    → AllValid os
    → get_elem? os p ≡ some o
    → Buffers.IsValid o
get_elem?-AllValid os p o v h =
    let (o', found, fine) = AllValid-get_elem? os p v (get_elem?-in_range os p o h) in
    let same : o' ≡ o = cc (found, h) in subst Buffers.IsValid same fine

module _ {W : Type 0} (ntohl : ℕ → ℕ)
    (callback : ℕ → ℕ → ℕ → List ℕ → Network × W → Option (Network × W)) (c : Completion)
    (o : CustomOverlapped) (s : Network × W) where
  -- On a stocked network the round of a completion that succeeded, of a structure that sends,
  -- returns: it changes nothing outside the network, and the network is stocked again.
  pub round_send_returns :
      IsStocked s.0
      → c.succeeded ≡ true
      → get_elem? s.0.overlapped c.pointer ≡ some o
      → o.operation_type ≡ op_send
      → (n' : Network) × (round ntohl callback c s ≡ some (n', s.1)) × IsStocked n'
  unfolding round handle dequeue
  round_send_returns stocked good found sent =
      let valid = get_elem?-AllValid s.0.overlapped c.pointer o stocked.structures found in
      let n = dequeue c o s.0 in
      let (n', back, done) =
        give_back-IsStocked n c.pointer (dequeue-IsStocked c o s.0 stocked valid) (
          rw (length-set s.0.overlapped c.pointer o)
            (get_elem?-in_range s.0.overlapped c.pointer o found)) in
      (n', simp (found, good, sent, back), done)
