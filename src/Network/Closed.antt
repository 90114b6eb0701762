-- ===== src/Network/Closed.antt =====
-- Session.cpp where a receive completes with no bytes.
use ranking_server.Base.{
  ℕ, suc, ◌≡◌, ◌≢◌, refl, ◌∙◌, ap, subst, List, [], ◌∷◌, Option, none, some, true, not, ◌==◌, arith,
  get_elem?, length, length-set, After, After-then, After-if, After->>=, drop, u32, ==_iff,
}
use ranking_server.Ring.{pop}
use ranking_server.Packet.{
  CustomOverlapped, OperationType, op_recv, op_default, op_accept, op_send, clear, header_size,
}
use ranking_server.Packet.Buffers
use ranking_server.Network.State.{Network, Client, Answer, find, take_overlapped, start, give_back}
use ranking_server.Network.Client.{receive_ready, report}
use ranking_server.Network.Session.{
  Completion, overwrite, scatter, arrived, arrived_as, dequeue, deliver, rearm, handle, round,
}
use ranking_server.Network.Supply.{IsStocked, receive_ready_returns}
use ranking_server.Network.Leaks.{arrived_as-type}
use ranking_server.Network.Returns.{
  dequeue-IsStocked, give_back-IsStocked, get_elem?-in_range, get_elem?-AllValid,
}

length-overwrite : (xs cells : List ℕ) → length (overwrite xs cells) ≡ length cells
length-overwrite [] cells = refl
length-overwrite (x ∷ xs) [] = refl
length-overwrite (x ∷ xs) (c ∷ cells) = ap suc (length-overwrite xs cells)

scatter-IsValid :
    (received : List ℕ) (o : CustomOverlapped)
    → Buffers.IsValid o
    → Buffers.IsValid (scatter received o)
unfolding scatter
scatter-IsValid received o v = record {
  header_cells = length-overwrite received o.header.buf ∙ v.header_cells;
  header_len = v.header_len;
  body_cells = length-overwrite (drop header_size received) o.body.buf ∙ v.body_cells;
  body_len = v.body_len;
}

pub arrived_as-IsValid :
    (t : OperationType) (received : List ℕ) (o : CustomOverlapped)
    → Buffers.IsValid o
    → Buffers.IsValid (arrived_as t received o)
arrived_as-IsValid op_recv received o v = scatter-IsValid received o v
arrived_as-IsValid op_default received o v = v
arrived_as-IsValid op_accept received o v = v
arrived_as-IsValid op_send received o v = v

take_overlapped-overlapped :
    (n : Network) → After (λ t. length t.2.overlapped ≡ length n.overlapped) (take_overlapped n)
unfolding take_overlapped
take_overlapped-overlapped n = After-then _ (pop none n.overlapped_queue).0 _ λ pointer.
    After-then _ (get_elem? n.overlapped pointer) _ λ o. After-then _ (clear o) _ λ o'. refl

receive_ready-overlapped :
    (c : Client) (error : ℕ) (a : Answer) (n : Network)
    → After (λ r. length r.1.overlapped ≡ length n.overlapped) (receive_ready c error a n)
unfolding receive_ready start
receive_ready-overlapped c error a n = After-then _ c.socket _ λ socket.
    After-if _ (not (error == 0)) _ _ refl (
      After->>= _ _ (take_overlapped n) _ (take_overlapped-overlapped n)
        λ t k. length-set t.2.overlapped t.0 _ ∙ k)

module _ {W : Type 0} (ntohl : ℕ → ℕ)
    (callback : ℕ → ℕ → ℕ → List ℕ → Network × W → Option (Network × W)) (c : Completion)
    (o : CustomOverlapped) (s : Network × W) (client : Client) (socket : ℕ) where
  handle_closed :
      (o' : CustomOverlapped) (t : OperationType) (n m n' : Network) (w : W)
      → t ≡ op_recv
      → c.bytes_transferred ≡ 0
      → find (u32 c.key) n.client_map ≡ some client
      → receive_ready client c.socket_error c.answer n ≡ some (report c.answer, m)
      → give_back c.pointer m ≡ some n'
      → handle ntohl callback c o' t (n, w) ≡ some (n', w)
  unfolding handle deliver rearm
  handle_closed o' t n m n' w recv closed known ready back =
      rw (recv, handle, known, (==_iff _ _).1 closed, ready, back)

  -- On a stocked network with a structure left, the round of a completion that succeeded, of a
  -- receive of no bytes, where the client is known, its socket not null and not in error, returns
  -- whatever the next receive is answered: it calls no callback and changes nothing outside the
  -- network, and the network is stocked again.
  pub round_closed_returns :
      IsStocked s.0
      → s.0.overlapped_queue.output ≢ s.0.overlapped_queue.input
      → get_elem? s.0.overlapped c.pointer ≡ some o
      → o.operation_type ≡ op_recv
      → c.succeeded ≡ true
      → c.bytes_transferred ≡ 0
      → c.socket_error ≡ 0
      → find (u32 c.key) s.0.client_map ≡ some client
      → client.socket ≡ some socket
      → (n' : Network) × (round ntohl callback c s ≡ some (n', s.1)) × IsStocked n'
  unfolding round dequeue
  round_closed_returns stocked left found recv good closed fine known has_socket =
      let valid = get_elem?-AllValid s.0.overlapped c.pointer o stocked.structures found in
      let o' = arrived c.received o in
      let n = dequeue c o' s.0 in
      let stocked' =
        dequeue-IsStocked c o' s.0 stocked
          (arrived_as-IsValid o.operation_type c.received o valid) in
      let (m, ready, shown, again) =
        receive_ready_returns n stocked' left client socket has_socket c.answer in
      let same : length m.overlapped ≡ length n.overlapped =
        subst (After (λ r. length r.1.overlapped ≡ length n.overlapped)) ready
          (receive_ready-overlapped client 0 c.answer n) in
      let (n', back, done) = give_back-IsStocked m c.pointer again (
        omega (
          arith,
          same,
          length-set s.0.overlapped c.pointer o',
          get_elem?-in_range s.0.overlapped c.pointer o found,
        )) in
      let answered : receive_ready client c.socket_error c.answer n ≡ some (report c.answer, m) =
        ap (λ e. receive_ready client e c.answer n) fine ∙ ready in
      (
        n',
        simp (found, good)
            (handle_closed o' o'.operation_type n m n' s.1
              (arrived_as-type o.operation_type c.received o ∙ recv) closed known answered back),
        done,
      )
