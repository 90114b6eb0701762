-- ===== src/Network/Manager/Stock.antt =====
-- The overlapped structures that NetworkManager.cpp makes.
use ranking_server.Base.{
  ℕ, zero, suc, ◌+◌, ◌≤◌, ◌≡◌, sym, subst, List, [], ◌∷◌, ◌++◌, Option, none, some, arith, length,
}
use ranking_server.Ring.{Ring, construct, push}
use ranking_server.Packet.{CustomOverlapped, header_size, buffer_size}
use ranking_server.Packet
use ranking_server.Packet.Buffers.{create-IsValid}
use ranking_server.Network.State.{Network}
use ranking_server.Network.Manager.{
  make_overlapped, Platform, initialize_manager, started, overlapped_count, make_network,
}
use ranking_server.Network.Manager.Pool.{pointers, initialize_loses_last}
use ranking_server.Network.Supply.{AllValid, InRange, IsStocked}

AllValid-append : (os ps : List CustomOverlapped) → AllValid os → AllValid ps → AllValid (os ++ ps)
AllValid-append [] ps v w = w
AllValid-append (o ∷ os) ps v w = (v.0, AllValid-append os ps v.1 w)

InRange-pointers : (m k i : ℕ) → i + k ≤ m → InRange m (pointers i k)
InRange-pointers m zero i h = tt
InRange-pointers m (suc k) i h = (omega arith, InRange-pointers m k (i + 1) (omega arith))

module _ (cells : ℕ → List ℕ × List ℕ)
    (sized : (i : ℕ)
      → (length (cells i).0 ≡ header_size) × (length (cells i).1 ≡ buffer_size)) where
  make_overlapped-AllValid :
      (k i : ℕ) (q : Ring (Option ℕ)) (store : List CustomOverlapped)
      → AllValid store
      → AllValid (make_overlapped cells k i (q, store)).1
  unfolding make_overlapped
  make_overlapped-AllValid zero i q store v = v
  make_overlapped-AllValid (suc k) i q store v =
      make_overlapped-AllValid k (i + 1) (push q (some i)).1
        (store ++ (Packet.create (cells i).0 (cells i).1 ∷ []))
        (AllValid-append store (Packet.create (cells i).0 (cells i).1 ∷ []) v
          (create-IsValid (cells i).0 (cells i).1 (sized i).0 (sized i).1, tt))

-- A manager that has been initialised, where new gives arrays of the sizes asked for, is stocked:
-- each of its structures has buffers of the right sizes, and each pointer in its queue is one of
-- them.
pub initialize_manager-IsStocked :
    (p : Platform) (socket_max : ℕ) (n : Network)
    → ((i : ℕ) → (length (p.cells i).0 ≡ header_size) × (length (p.cells i).1 ≡ buffer_size))
    → initialize_manager p socket_max ≡ started n
    → IsStocked n
unfolding initialize_manager
initialize_manager-IsStocked p socket_max n sized e =
    let (made, shown, valid) = initialize_loses_last p socket_max n e in
    let h : make_network p socket_max ≡ n = ground arith in
    record {
      queue = valid;
      structures =
          subst (λ m. AllValid m.overlapped) h
            (make_overlapped-AllValid p.cells sized overlapped_count 0
              (construct none overlapped_count) [] tt);
      free =
          subst (InRange (length n.overlapped)) (sym shown)
            (InRange-pointers (length n.overlapped) 199 0 (omega (arith, made)));
    }
