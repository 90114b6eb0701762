-- ===== src/Network/Manager/Pool.antt =====
-- How many of the overlapped structures and sessions that NetworkManager.cpp makes it can use.
use ranking_server.Base.{
  ℕ, zero, suc, ◌+◌, ◌-◌, ◌^◌, ◌<◌, ◌≡◌, refl, sym, ap, subst, ◌∙◌, nil_of_length, List, [], ◌∷◌,
  ◌++◌, append-nil, append_assoc, Option, none, some, arith, length, length-append,
}
use ranking_server.Ring.{Ring, construct, push, printed}
use ranking_server.Ring.Bounds.{
  IsValid, construct-IsValid, push-IsValid, max_size-push, max_size-construct,
}
use ranking_server.Ring.Contents.{length-printed}
use ranking_server.Ring.Refine.{printed-push_room, printed-push_full}
use ranking_server.Packet.{CustomOverlapped}
use ranking_server.Packet
use ranking_server.Network.Manager.{
  make_overlapped, start_sessions, Platform, initialize_manager, started, overlapped_count,
  make_network,
}
use ranking_server.Network.State.{Network}

-- The pointers `i`, `i + 1`, and so on, `k` of them.
abbrev pub pointers : ℕ → ℕ → List (Option ℕ)
pointers i zero = []
pointers i (suc k) = some i ∷ pointers (i + 1) k

pub length-pointers : (i k : ℕ) → length (pointers i k) ≡ k
length-pointers i zero = refl
length-pointers i (suc k) = ap suc (length-pointers (i + 1) k)

-- The two loops push the same pointers.
make_overlapped-queue :
    (cells : ℕ → List ℕ × List ℕ) (k i : ℕ) (q : Ring (Option ℕ)) (store : List CustomOverlapped)
    → (make_overlapped cells k i (q, store)).0 ≡ start_sessions k i q
unfolding make_overlapped start_sessions
make_overlapped-queue cells zero i q store = refl
make_overlapped-queue cells (suc k) i q store = make_overlapped-queue cells k (i + 1) _ _

length-make_overlapped :
    (cells : ℕ → List ℕ × List ℕ) (k i : ℕ) (q : Ring (Option ℕ)) (store : List CustomOverlapped)
    → length (make_overlapped cells k i (q, store)).1 ≡ length store + k
unfolding make_overlapped
length-make_overlapped cells zero i q store = omega arith
length-make_overlapped cells (suc k) i q store = omega (
  arith,
  length-make_overlapped cells k (i + 1) (push q (some i)).1
      (store ++ (Packet.create (cells i).0 (cells i).1 ∷ [])),
  length-append store (Packet.create (cells i).0 (cells i).1 ∷ []),
)

-- With room for `k` more the loop adds `k` pointers, in order.
pub start_sessions_room :
    (k i : ℕ) (q : Ring (Option ℕ))
    → IsValid q
    → length (printed none q) + k < q.max_size
    → (printed none (start_sessions k i q) ≡ printed none q ++ pointers i k)
      × IsValid (start_sessions k i q)
      × ((start_sessions k i q).max_size ≡ q.max_size)
unfolding start_sessions
start_sessions_room zero i q v h = (sym (append-nil _), v, refl)
start_sessions_room (suc k) i q v h =
    let q' = (push q (some i)).1 in
    let e : printed none q' ≡ printed none q ++ (some i ∷ []) =
      printed-push_room none q (some i) v (omega arith) in
    let m = max_size-push q (some i) in
    let ih =
      start_sessions_room k (i + 1) q' (push-IsValid q (some i) v)
        (omega (arith, m, ap length e, length-append (printed none q) (some i ∷ []))) in
    (
      ih.0
          ∙ ap (λ l. l ++ pointers (i + 1) k) e
          ∙ append_assoc (printed none q) (some i ∷ []) (pointers (i + 1) k),
      ih.1,
      ih.2 ∙ m,
    )

start_sessions-suc :
    (k i : ℕ) (q : Ring (Option ℕ))
    → start_sessions (suc k) i q ≡ (push (start_sessions k i q) (some (i + k))).1
unfolding start_sessions
start_sessions-suc zero i q = ap (λ j. (push q (some j)).1) (omega arith)
start_sessions-suc (suc k) i q =
    start_sessions-suc k (i + 1) (push q (some i)).1
    ∙ ap (λ j. (push (start_sessions k (i + 1) (push q (some i)).1) (some j)).1) (omega arith)

fresh : (n : ℕ) → 0 < n → n < 2 ^ 31 → IsValid (construct (let p : Option ℕ = none in p) n)
fresh n h k = (construct-IsValid none n h k).0

fresh-empty :
    (n : ℕ) → 0 < n → n < 2 ^ 31 → printed none (construct (let p : Option ℕ = none in p) n) ≡ []
fresh-empty n h k =
    let e : length (printed none (construct (let p : Option ℕ = none in p) n)) ≡ 0 =
      length-printed none _ ∙ (construct-IsValid none n h k).1 in
    nil_of_length _ e

fresh-max_size : (n : ℕ) → (construct (let p : Option ℕ = none in p) n).max_size ≡ n
fresh-max_size n = max_size-construct none n

module _ (n : ℕ) (small : suc n < 2 ^ 31) where
  -- The loop that starts n session threads leaves all n sessions, in order, in the queue of n + 1
  -- cells, for n + 1 < 2^31.
  pub sessions_all_kept : printed none (start_sessions n 0 (construct none (suc n))) ≡ pointers 0 n
  sessions_all_kept =
      let q = construct (let p : Option ℕ = none in p) (suc n) in
      let e = fresh-empty (suc n) (omega arith) small in
      (start_sessions_room n 0 q (fresh (suc n) (omega arith) small)
        (omega (arith, ap length e, fresh-max_size (suc n)))).0
      ∙ ap (λ l. l ++ pointers 0 n) e

  -- The overlapped structures: of `n + 1` that are made, the queue of `n + 1` cells takes the first
  -- `n`, and the pointer of the last is lost.
  pub overlapped_last_lost :
      (cells : ℕ → List ℕ × List ℕ)
      → let (q, store) = make_overlapped cells (suc n) 0 (construct none (suc n), []) in
        (length store ≡ suc n) × (printed none q ≡ pointers 0 n) × IsValid q
  overlapped_last_lost cells =
      let q = construct (let p : Option ℕ = none in p) (suc n) in
      let e = fresh-empty (suc n) (omega arith) small in
      let m = fresh-max_size (suc n) in
      let kept =
        start_sessions_room n 0 q (fresh (suc n) (omega arith) small)
          (omega (arith, ap length e, m)) in
      let same : (make_overlapped cells (suc n) 0 (q, [])).0
          ≡ (push (start_sessions n 0 q) (some (0 + n))).1 =
        make_overlapped-queue cells (suc n) 0 q [] ∙ start_sessions-suc n 0 q in
      (
        omega (arith, length-make_overlapped cells (suc n) 0 q []),
        ap (printed none) same
            ∙ printed-push_full none (start_sessions n 0 q) (some (0 + n)) kept.1
                (omega (arith, ap length sessions_all_kept, length-pointers 0 n, kept.2, m))
            ∙ sessions_all_kept,
        subst IsValid (sym same) (push-IsValid (start_sessions n 0 q) (some (0 + n)) kept.1),
      )

-- A manager that has been initialised owns 200 overlapped structures, of which its queue, well
-- formed, holds the first 199 in order: the pointer of the last is lost.
pub initialize_loses_last :
    (p : Platform) (socket_max : ℕ) (n : Network)
    → initialize_manager p socket_max ≡ started n
    → (length n.overlapped ≡ overlapped_count)
      × (printed none n.overlapped_queue ≡ pointers 0 (overlapped_count - 1))
      × IsValid n.overlapped_queue
unfolding initialize_manager
initialize_loses_last p socket_max n e =
    let h : make_network p socket_max ≡ n = ground arith in
    subst
      (λ m.
        (length m.overlapped ≡ overlapped_count)
        × (printed none m.overlapped_queue ≡ pointers 0 (overlapped_count - 1))
        × IsValid m.overlapped_queue)
      h (overlapped_last_lost 199 (omega arith) p.cells)
