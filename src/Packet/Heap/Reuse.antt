-- ===== src/Packet/Heap/Reuse.antt =====
-- One structure of MyPacket.h that sends message after message: what stays allocated.
use ranking_server.Base.{
  ℕ, ◌+◌, ◌≤◌, ◌≡◌, refl, sym, List, [], ◌∷◌, Option, none, some, arith, length, subst, After,
  After-mono,
}
use ranking_server.Packet.{CustomOverlapped, MessageHeader, buffer_size, op_send}
use ranking_server.Packet.Buffers.{IsValid, clear_lem, set_header_lem, set_body_lem}
use ranking_server.Packet.Heap.{
  Block, Heap, Structure, set_header, set_body, clear, refill, refill_all,
}
use ranking_server.Packet.Heap.Refine.{Owns, value, Refines, structure-Refines}
use ranking_server.Packet.Heap.Ownership.{live, clear-live, set_header-live, set_body-live}

-- The structure owns two blocks of the right sizes.
pub record Holds (h : Heap) (o : Structure) : Type 0 where
  pub header : Block
  pub body : Block
  pub owns : Owns h o header body
  pub valid : IsValid (value o header body)

-- A call gives a structure that holds its blocks, with k more blocks allocated.
abbrev pub Gives : Option (Structure × Heap) → Heap → ℕ → Type 0
Gives m h k =
    (o' : Structure) × (h' : Heap) × (m ≡ some (o', h')) × Holds h' o' × (live h' ≡ live h + k)

Gives-of_Refines :
    (m : Option (Structure × Heap)) (h : Heap) (k : ℕ) (p : CustomOverlapped)
    (q : Option CustomOverlapped)
    → Refines m q
    → (q ≡ some p) × IsValid p
    → After (λ r. live r.1 ≡ live h + k) m
    → Gives m h k
Gives-of_Refines none h k p none f (e, v) l = cc
Gives-of_Refines none h k p (some q) f e l = absurd f
Gives-of_Refines (some (o, h')) h k p none f e l = absurd f
Gives-of_Refines (some (o, h')) h k p (some q) (header, body, owns, same) (e, v) l =
    let same' : value o header body ≡ p = cc in
    (
      o,
      h',
      refl,
      record { header = header; body = body; owns = owns; valid = subst IsValid (sym same') v },
      l,
    )

module _ {h : Heap} {o : Structure} (k : Holds h o) where
  clear-Gives : Gives (clear o h) h 0
  clear-Gives =
      Gives-of_Refines (clear o h) h 0 _ _ (structure-Refines k.owns).2 (clear_lem _ k.valid)
        (After-mono _ _ (clear o h) (clear-live o h) λ r e. omega (arith, e))

  set_header-Gives : (m : MessageHeader) → Gives (set_header m o h) h 1
  set_header-Gives m =
      Gives-of_Refines (set_header m o h) h 1 _ _ ((structure-Refines k.owns).0 m)
        (set_header_lem _ k.valid m) (set_header-live o h m)

  set_body-Gives :
      (source : List ℕ)
      → length source ≤ buffer_size
      → Gives (set_body source (length source) o h) h 0
  set_body-Gives source short =
      Gives-of_Refines (set_body source (length source) o h) h 0 _ _
        ((structure-Refines k.owns).1 source (length source))
        (set_body_lem _ k.valid source (length source) short (omega arith))
        (After-mono _ _ (set_body source (length source) o h)
          (set_body-live o h source (length source)) λ r e. omega (arith, e))

Holds-sending :
    {h : Heap} {o : Structure} → Holds h o → Holds h (record o { operation_type = op_send })
Holds-sending k = record {
  header = k.header;
  body = k.body;
  owns = record {
    header_here = k.owns.header_here;
    body_here = k.owns.body_here;
    apart = k.owns.apart;
  };
  valid = record {
    header_cells = k.valid.header_cells;
    header_len = k.valid.header_len;
    body_cells = k.valid.body_cells;
    body_len = k.valid.body_len;
  };
}

refill-Gives :
    (m : MessageHeader) (body : List ℕ) (o : Structure) (h : Heap)
    → Holds h o
    → length body ≤ buffer_size
    → Gives (refill (m, body) o h) h 1
unfolding refill
refill-Gives m body o h k short =
    let (o₁, h₁, e₁, k₁, l₁) = clear-Gives k in
    let (o₂, h₂, e₂, k₂, l₂) = set_header-Gives (Holds-sending k₁) m in
    let (o₃, h₃, e₃, k₃, l₃) = set_body-Gives k₂ body short in
    (o₃, h₃, rw (e₁, e₂, e₃), k₃, omega (arith, l₁, l₂, l₃))

abbrev pub AllShort : List (MessageHeader × List ℕ) → Type 0
AllShort [] = Unit
AllShort ((m, body) ∷ ms) = (length body ≤ buffer_size) × AllShort ms

-- A structure with two blocks of the right sizes that Client::Send fills for k messages one after
-- the other, with bodies of at most BUFFER_SIZE bytes, keeps two such blocks with no fault, and k
-- more blocks are allocated than before.
pub refill_all_leaks :
    (ms : List (MessageHeader × List ℕ)) (o : Structure) (h : Heap)
    → Holds h o
    → AllShort ms
    → Gives (refill_all ms o h) h (length ms)
unfolding refill_all
refill_all_leaks [] o h k short = (o, h, refl, k, omega arith)
refill_all_leaks ((m, body) ∷ ms) o h k (short, rest) =
    let (o₁, h₁, e₁, k₁, l₁) = refill-Gives m body o h k short in
    let (o₂, h₂, e₂, k₂, l₂) = refill_all_leaks ms o₁ h₁ k₁ rest in
    (o₂, h₂, rw (e₁, e₂), k₂, omega (arith, l₁, l₂))
