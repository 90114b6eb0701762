-- ===== src/Packet/Heap/Cells.antt =====
-- Loads, stores and allocations on the heap of MyPacket.h.
use ranking_server.Base.{
  ℕ, ◌≡◌, ◌≢◌, refl, ap, [], ◌∷◌, Option, none, some, length, get_elem?, >>=-eq-some,
  get_elem?-set_self, get_elem?-set_ne, get_elem?-append_left, get_elem?-append_end,
  get_elem?-length,
}
use ranking_server.Packet.Heap.{Block, Heap, load, store, allocate}

pub load-store_self :
    (p : Option ℕ) (b c : Block) (h : Heap) → load p h ≡ some c → load p (store p b h) ≡ some b
load-store_self none b c h e = cc
load-store_self (some p) b c h e =
    let (x, found, same) = >>=-eq-some (get_elem? h p) (λ b. b) e in
    rw (get_elem?-set_self h p (some b) x found)

pub load-store_ne :
    (p q : Option ℕ) (b : Block) (h : Heap) → p ≢ q → load q (store p b h) ≡ load q h
load-store_ne none q b h ne = refl
load-store_ne (some p) none b h ne = refl
load-store_ne (some p) (some q) b h ne = rw (get_elem?-set_ne h p q (some b) (λ e. ne (ap some e)))

pub load-allocate :
    (p : Option ℕ) (b c : Block) (h : Heap) → load p h ≡ some c → load p (allocate b h) ≡ some c
load-allocate none b c h e = cc
load-allocate (some p) b c h e =
    let (x, found, same) = >>=-eq-some (get_elem? h p) (λ b. b) e in
    rw (get_elem?-append_left h (some b ∷ []) p x found) same

pub load-allocate_new : (b : Block) (h : Heap) → load (some (length h)) (allocate b h) ≡ some b
load-allocate_new b h = rw (get_elem?-append_end h (some b))

-- The next address is nobody's yet.
pub next-ne : (p : Option ℕ) (b : Block) (h : Heap) → load p h ≡ some b → some (length h) ≢ p
next-ne p b h e same =
    let gone : load (some (length h)) h ≡ none = rw (get_elem?-length h) in
    cc (ap (λ q. load q h) same)
