-- ===== src/Network/Passed.antt =====
-- Session.cpp on a network with structures left: what a round leaves behind.
use ranking_server.Base.{
  Bool, sym, ==_iff, get_elem?-set_ne, ℕ, ◌+◌, ◌≤◌, ◌<◌, ◌≡◌, ◌≢◌, refl, ap, ◌∙◌, List, [], ◌∷◌,
  Option, none, some, true, false, not, ◌==◌, arith, subst, length, get_elem?, set, u32, ==_of_ne,
  ne_of_==, length-append,
}
use ranking_server.Ring.{printed, next_index}
use ranking_server.Ring.Bounds.{size-lt}
use ranking_server.Ring.Contents.{length-printed, full-size, push_room, printed-stored}
use ranking_server.Packet.{CustomOverlapped, OperationType, op_recv}
use ranking_server.Packet.Buffers.{clear_lem, cleared}
use ranking_server.Network.State.{Network, Client, find, give_back}
use ranking_server.Network.Client.{receive_ready, is_failed, report}
use ranking_server.Network.Session.{Completion, dequeue, arrived, deliver, rearm, handle, round}
use ranking_server.Network.Ownership.{count_free}
use ranking_server.Network.Supply.{IsStocked, AllValid-get_elem?}
use ranking_server.Network.Leaks.{arrived_as-type}
use ranking_server.Network.Returns.{give_back-IsStocked, get_elem?-in_range}
use ranking_server.Network.Accepts.{free}
use ranking_server.Network.Served.{Used, receive_ready-Used}

-- The structure that is given back is free, and nothing else has changed.
pub record Back (n n' : Network) (p : ℕ) : Type 0 where
  pub stocked : IsStocked n'
  pub more : free n' ≡ free n + 1
  pub wire : n'.wire ≡ n.wire
  pub cells : n'.overlapped_queue.max_size ≡ n.overlapped_queue.max_size
  pub others : (r : ℕ) → r ≢ p → get_elem? n'.overlapped r ≡ get_elem? n.overlapped r
  pub flying : n'.in_flight ≡ n.in_flight

pub give_back-Back :
    (n : Network) (p : ℕ)
    → IsStocked n
    → p < length n.overlapped
    → free n + 1 < n.overlapped_queue.max_size
    → (n' : Network) × (give_back p n ≡ some n') × Back n n' p
unfolding give_back
give_back-Back n p s h room =
    let (o, found, fine) = AllValid-get_elem? n.overlapped p s.structures h in
    let (clears, valid) = clear_lem o fine in
    let q = n.overlapped_queue in
    let left : (next_index q q.input == q.output) ≡ false =
      full-size none q s.queue ∙ ==_of_ne (λ e. omega (arith, e, length-printed none q, room)) in
    let n' = record n {
      overlapped = set n.overlapped p (cleared o);
      overlapped_queue = record q {
        buffer = set q.buffer q.input (some p);
        input = next_index q q.input;
      };
    } in
    let e : give_back p n ≡ some n' = rw (found, clears, push_room q (some p) left) refl in
    let (m, back, done) = give_back-IsStocked n p s h in
    let same : m ≡ n' = cc (back, e) in
    (
      n',
      e,
      record {
        stocked = subst IsStocked same done;
        more =
            ap length (printed-stored none q (some p) s.queue (ne_of_== left))
            ∙ length-append (printed none q) (some p ∷ []);
        wire = refl;
        cells = refl;
        flying = refl;
        others = λ r ne. get_elem?-set_ne n.overlapped p r (cleared o) (λ e. ne (sym e));
      },
    )

-- The queue holds fewer structures than it has cells.
pub free-lt : (n : Network) → IsStocked n → free n < n.overlapped_queue.max_size
free-lt n s =
    omega (arith, size-lt n.overlapped_queue s.queue, length-printed none n.overlapped_queue)

-- What a round does to the network that its delivery leaves: one structure is taken and one is given
-- back.
pub record Passed (n n' : Network) (p : ℕ) (accepted : Bool) : Type 0 where
  pub between : Network
  pub taken : Used n between op_recv accepted
  pub back : Back between n' p
  pub stocked : IsStocked n'
  pub equal : free n' ≡ free n
  pub wire : n'.wire ≡ n.wire
  pub cells : n'.overlapped_queue.max_size ≡ n.overlapped_queue.max_size
  pub others :
      (r : ℕ)
      → r ≢ p
      → count_free r (printed none n.overlapped_queue) ≡ 0
      → get_elem? n'.overlapped r ≡ get_elem? n.overlapped r

-- The structure that is taken was in the queue once more than after.
pub count_free-front :
    (n k : Network) {t : OperationType} {accepted : Bool} (used : Used n k t accepted) (r : ℕ)
    → r ≡ used.pointer
    → count_free r (printed none n.overlapped_queue)
      ≡ count_free r (printed none k.overlapped_queue) + 1
count_free-front n k used r e =
    ap (count_free r) used.shown ∙ rw ((==_iff used.pointer r).1 (sym e)) (omega arith)

pub count_free-rest :
    (n k : Network) {t : OperationType} {accepted : Bool} (used : Used n k t accepted) (r : ℕ)
    → count_free r (printed none k.overlapped_queue)
      ≤ count_free r (printed none n.overlapped_queue)
count_free-rest n k used r = omega (arith, ap (count_free r) used.shown)

module _ {W : Type 0} (ntohl : ℕ → ℕ)
    (callback : ℕ → ℕ → ℕ → List ℕ → Network × W → Option (Network × W)) (c : Completion)
    (o : CustomOverlapped) (s : Network × W) (client : Client) (socket : ℕ) where
  handle_delivered :
      (o' : CustomOverlapped) (t : OperationType) (s' : Network × W) (m k n' : Network) (w : W)
      → t ≡ op_recv
      → c.socket_error ≡ 0
      → find (u32 c.key) s'.0.client_map ≡ some client
      → deliver ntohl callback c o' s' ≡ some (m, w)
      → receive_ready client 0 c.answer m ≡ some (report c.answer, k)
      → give_back c.pointer k ≡ some n'
      → handle ntohl callback c o' t s' ≡ some (n', w)
  unfolding handle rearm
  handle_delivered o' t s' m k n' w recv fine known done ready back =
      let answered : receive_ready client c.socket_error c.answer m ≡ some (report c.answer, k) =
        ap (λ e. receive_ready client e c.answer m) fine ∙ ready in
      rw (recv, handle, known, done, answered, back)

  -- Where a message has come in for a client that is known, and its delivery returns and leaves a
  -- structure, the round returns: it adds nothing to the wire, and leaves the structures that are not
  -- its own and not in the queue.
  pub round_delivered_returns :
      (m : Network) (w : W)
      → get_elem? s.0.overlapped c.pointer ≡ some o
      → o.operation_type ≡ op_recv
      → c.succeeded ≡ true
      → c.socket_error ≡ 0
      → find (u32 c.key) s.0.client_map ≡ some client
      → client.socket ≡ some socket
      → deliver ntohl callback c (arrived c.received o) (dequeue c (arrived c.received o) s.0, s.1)
        ≡ some (m, w)
      → IsStocked m
      → length m.overlapped ≡ length s.0.overlapped
      → 1 ≤ free m
      → (n' : Network) × (round ntohl callback c s ≡ some (n', w))
        × Passed m n' c.pointer (not (is_failed c.answer))
  unfolding round dequeue
  round_delivered_returns m w found recv good fine known has_socket done stocked same h =
      let (k, ready, used, wire) =
        receive_ready-Used m stocked h client socket has_socket c.answer in
      let (n', back, b) =
        give_back-Back k c.pointer used.stocked
          (omega (arith, used.same, same, get_elem?-in_range s.0.overlapped c.pointer o found))
          (omega (arith, used.used, used.cells, free-lt m stocked)) in
      (
        n',
        simp (found, good)
            (handle_delivered (arrived c.received o) (arrived c.received o).operation_type
              (dequeue c (arrived c.received o) s.0, s.1) m k n' w
              (arrived_as-type o.operation_type c.received o ∙ recv) fine known
              (unfold dequeue in done) ready back),
        record {
          between = k;
          taken = used;
          back = b;
          stocked = b.stocked;
          equal = omega (arith, used.used, b.more);
          wire = b.wire ∙ wire;
          cells = b.cells ∙ used.cells;
          others = λ r ne absent.
              b.others r ne
              ∙ used.others r (λ e. omega (arith, count_free-front m k used r e, absent));
        },
      )
