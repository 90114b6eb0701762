-- ===== src/Packet/Heap/Ownership.antt =====
-- The blocks that MyPacket.h allocates: which are never freed, and which would be freed twice.
use ranking_server.Base.{
  ℕ, zero, suc, ◌+◌, ◌<◌, ◌≡◌, ◌≢◌, refl, sym, ap, ◌∙◌, inl, inr, List, [], ◌∷◌, ◌++◌, Option, none,
  some, ltb, arith, length, get_elem?, set, fill_zero, copy_in, fill_zero-some, replicate, drop,
  Option-cases, >>=-eq-some, After, After-then, After-if, After->>=, lt→ltb, get_elem?-set_self,
  get_elem?-set_ne,
}
use ranking_server.Packet.{CustomOverlapped, MessageHeader, buffer_size, header_size, header_bytes}
use ranking_server.Packet
use ranking_server.Packet.Buffers.{IsValid}
use ranking_server.Packet.Heap.{
  chars, object, Block, Heap, load, store, allocate, memset, memcpy, delete_chars, Structure,
  destroy, copy, set_header, set_body, clear,
}
use ranking_server.Packet.Heap.Cells.{load-allocate_new}
use ranking_server.Packet.Heap.Refine.{Owns, value}

-- How many blocks are allocated.
abbrev pub live : Heap → ℕ
live [] = 0
live (none ∷ h) = live h
live (some b ∷ h) = suc (live h)

live-allocate : (b : Block) (h : Heap) → live (allocate b h) ≡ live h + 1
live-allocate b [] = refl
live-allocate b (none ∷ h) = live-allocate b h
live-allocate b (some c ∷ h) = omega (arith, live-allocate b h)

live-set :
    (h : Heap) (p : ℕ) (b c : Block)
    → get_elem? h p ≡ some (some c)
    → live (set h p (some b)) ≡ live h
live-set [] p b c e = refl
live-set (none ∷ h) zero b c e = cc
live-set (some d ∷ h) zero b c e = refl
live-set (none ∷ h) (suc p) b c e = live-set h p b c e
live-set (some d ∷ h) (suc p) b c e = ap suc (live-set h p b c e)

live-store :
    (p : Option ℕ) (b c : Block) (h : Heap) → load p h ≡ some c → live (store p b h) ≡ live h
live-store none b c h e = refl
live-store (some p) b c h e =
    let (x, found, same) = >>=-eq-some (get_elem? h p) (λ b. b) e in
    live-set h p b c (found ∙ ap some same)

memset-live : (p : Option ℕ) (n : ℕ) (h : Heap) → After (λ h'. live h' ≡ live h) (memset p n h)
unfolding memset
memset-live p n h = elim (Option-cases (load p h)) [
  | inl e ↦ rw e tt
  | inr (b, e) ↦ rw e (After-then _ (fill_zero n b.bytes) _ λ z. live-store p _ b h e)
]

memcpy-live :
    (p : Option ℕ) (source : List ℕ) (n : ℕ) (h : Heap)
    → After (λ h'. live h' ≡ live h) (memcpy p source n h)
unfolding memcpy
memcpy-live p source n h = elim (Option-cases (load p h)) [
  | inl e ↦ rw e tt
  | inr (b, e) ↦ rw e (After-then _ (copy_in source n b.bytes) _ λ z. live-store p _ b h e)
]

module _ (o : Structure) (h : Heap) where
  pub clear-live : After (λ r. live r.1 ≡ live h) (clear o h)
  unfolding clear
  clear-live = After->>= _ _ (memset o.header_buf _ h) _ (memset-live o.header_buf _ h) λ h' e.
      After->>= _ _ (memset o.body_buf o.body_len h') _ (memset-live o.body_buf o.body_len h')
        λ h'' e'. e' ∙ e

  pub set_header-live : (m : MessageHeader) → After (λ r. live r.1 ≡ live h + 1) (set_header m o h)
  unfolding set_header
  set_header-live m =
      After->>= _ _ (memset o.header_buf o.header_len h) _ (memset-live o.header_buf o.header_len h)
        λ h' e.
          omega
            (arith, e, live-allocate (record { form = object; bytes = Packet.header_bytes m }) h')

  pub set_body-live :
      (source : List ℕ) (n : ℕ) → After (λ r. live r.1 ≡ live h) (set_body source n o h)
  unfolding set_body
  set_body-live source n =
      After->>= _ _ (memset o.body_buf n h) _ (memset-live o.body_buf n h) λ h' e.
        After-if _ (ltb buffer_size n) _ _ e (
          After->>= _ _ (memcpy o.body_buf source n h') _ (memcpy-live o.body_buf source n h')
            λ h'' e'. e' ∙ e)

abbrev dropped : Option ℕ → Heap → Heap
dropped none h = h
dropped (some p) h = set h p none

delete_chars-allocated :
    (p : Option ℕ) (h : Heap) (b : Block)
    → load p h ≡ some b
    → b.form ≡ chars
    → (delete_chars p h ≡ some (dropped p h)) × (load p (dropped p h) ≡ none)
unfolding delete_chars
delete_chars-allocated none h b e f = cc
delete_chars-allocated (some p) h b e f =
    let (x, found, same) = >>=-eq-some (get_elem? h p) (λ c. c) e in
    (rw (e, f), rw (get_elem?-set_self h p none x found))

delete_chars-freed :
    (p : Option ℕ) (h h' : Heap) (b : Block)
    → load p h ≡ some b
    → load p h' ≡ none
    → delete_chars p h' ≡ none
unfolding delete_chars
delete_chars-freed none h h' b e g = cc
delete_chars-freed (some p) h h' b e g = rw g

load-dropped_ne : (p q : Option ℕ) (h : Heap) → p ≢ q → load q (dropped p h) ≡ load q h
load-dropped_ne none q h ne = refl
load-dropped_ne (some p) none h ne = refl
load-dropped_ne (some p) (some q) h ne = rw (get_elem?-set_ne h p q none (λ e. ne (ap some e)))

delete_chars-object :
    (p : Option ℕ) (h : Heap) (b : Block)
    → load p h ≡ some b
    → b.form ≡ object
    → delete_chars p h ≡ none
unfolding delete_chars
delete_chars-object none h b e f = cc
delete_chars-object (some p) h b e f = rw (e, f)

-- Where a structure has two different blocks of new char[] and a header length above zero, its
-- destruction is fine, and that of a copy of it afterwards is undefined behaviour, as the copy has
-- the same pointers.
pub copy_destroyed_twice :
    (garbage : Option ℕ) (o : Structure) (h : Heap) (header body : Block)
    → Owns h o header body
    → header.form ≡ chars
    → body.form ≡ chars
    → 0 < o.header_len
    → (h' : Heap) × (destroy o h ≡ some h') × (destroy (copy garbage o) h' ≡ none)
unfolding destroy copy
copy_destroyed_twice garbage o h header body v fh fb long =
    let (first, gone) = delete_chars-allocated o.header_buf h header v.header_here fh in
    let h₁ = dropped o.header_buf h in
    let body_here = load-dropped_ne o.header_buf o.body_buf h v.apart ∙ v.body_here in
    let (second, _) = delete_chars-allocated o.body_buf h₁ body body_here fb in
    let h₂ = dropped o.body_buf h₁ in
    let gone₂ = load-dropped_ne o.body_buf o.header_buf h₁ (λ e. v.apart (sym e)) ∙ gone in
    let third = delete_chars-freed o.header_buf h h₂ header v.header_here gone₂ in
    (h₂, rw first second, rw (lt→ltb long, third))

-- SetHeader of a structure with two different blocks of the right sizes succeeds, and the destructor
-- of what it leaves is undefined behaviour: it calls delete[] for the MessageHeader that SetHeader
-- has made with new.
pub destroy_sent :
    (m : MessageHeader) (o : Structure) (h : Heap) (header body : Block)
    → Owns h o header body
    → IsValid (value o header body)
    → (o' : Structure) × (h' : Heap) × (set_header m o h ≡ some (o', h')) × (destroy o' h' ≡ none)
unfolding set_header memset destroy
destroy_sent m o h header body v valid =
    let cells =
      fill_zero-some o.header_len header.bytes
        (omega (arith, valid.header_cells, valid.header_len)) in
    let new : Block = record { form = object; bytes = header_bytes m } in
    let h' =
      store o.header_buf
        (record header { bytes = replicate o.header_len 0 ++ drop o.header_len header.bytes }) h in
    let undefined =
      delete_chars-object (some (length h')) (allocate new h') new (load-allocate_new new h')
        refl in
    (
      record o { header_buf = some (length h'); header_len = header_size },
      allocate new h',
      rw (v.header_here, cells),
      rw undefined,
    )
