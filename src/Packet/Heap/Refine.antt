-- ===== src/Packet/Heap/Refine.antt =====
-- MyPacket.h over a heap against the structures whose buffers are lists of bytes.
use ranking_server.Base.{
  ℕ, ◌≡◌, ◌≢◌, refl, sym, ◌∙◌, inl, inr, List, Option, none, some, ltb, length, fill_zero, copy_in,
  Option-cases, Bool-cases,
}
use ranking_server.Packet.{
  CustomOverlapped, MessageHeader, Wsabuf, op_default, header_bytes, header_size, buffer_size,
}
use ranking_server.Packet
use ranking_server.Packet.Heap.{
  chars, object, Block, Heap, load, store, allocate, memset, memcpy, Structure, construct,
  set_header, set_body, clear,
}
use ranking_server.Packet.Heap.Cells.{
  load-store_self, load-store_ne, load-allocate, load-allocate_new, next-ne,
}

-- The structure with the contents of its two blocks in place of the pointers.
abbrev pub value : Structure → Block → Block → CustomOverlapped
value o header body = record {
  header = record { buf = header.bytes; len = o.header_len };
  body = record { buf = body.bytes; len = o.body_len };
  socket_ptr = o.socket_ptr;
  operation_type = o.operation_type;
  event = o.event;
}

-- The two pointers lead to two blocks.
pub record Owns (h : Heap) (o : Structure) (header body : Block) : Type 0 where
  pub header_here : load o.header_buf h ≡ some header
  pub body_here : load o.body_buf h ≡ some body
  pub apart : o.header_buf ≢ o.body_buf

-- Both fail, or both give the same structure.
abbrev pub Refines : Option (Structure × Heap) → Option CustomOverlapped → Type 0
Refines none none = Unit {0}
Refines none (some p) = ⊥
Refines (some (o, h)) none = ⊥
Refines (some (o, h)) (some p) =
    (header : Block) × (body : Block) × Owns h o header body × (p ≡ value o header body)

pub construct-Owns :
    (header_cells body_cells : List ℕ) (h : Heap)
    → let (o, h') = construct header_cells body_cells h in
      let header : Block = record { form = chars; bytes = header_cells } in
      let body : Block = record { form = chars; bytes = body_cells } in
      Owns h' o header body × (value o header body ≡ Packet.create header_cells body_cells)
unfolding construct Packet.create
construct-Owns header_cells body_cells h =
    let header : Block = record { form = chars; bytes = header_cells } in
    let body : Block = record { form = chars; bytes = body_cells } in
    let here = load-allocate_new header h in
    (
      record {
        header_here = load-allocate (some (length h)) body header (allocate header h) here;
        body_here = load-allocate_new body (allocate header h);
        apart = λ e. next-ne (some (length h)) header (allocate header h) here (sym e);
      },
      refl,
    )

-- Stores to one block leave the other alone.
Owns-body :
    {h : Heap} {o : Structure} {header body : Block} (v : Owns h o header body) (b : Block)
    → Owns (store o.body_buf b h) o header b
Owns-body {h} {o} v b = record {
  header_here = load-store_ne o.body_buf o.header_buf b h (λ e. v.apart (sym e)) ∙ v.header_here;
  body_here = load-store_self o.body_buf b _ h v.body_here;
  apart = v.apart;
}

Owns-header :
    {h : Heap} {o : Structure} {header body : Block} (v : Owns h o header body) (b : Block)
    → Owns (store o.header_buf b h) o b body
Owns-header {h} {o} v b = record {
  header_here = load-store_self o.header_buf b _ h v.header_here;
  body_here = load-store_ne o.header_buf o.body_buf b h v.apart ∙ v.body_here;
  apart = v.apart;
}

module _ {h : Heap} {o : Structure} {header body : Block} (v : Owns h o header body) where
  set_header-Refines :
      (m : MessageHeader) → Refines (set_header m o h) (Packet.set_header m (value o header body))
  unfolding set_header Packet.set_header memset
  set_header-Refines m = elim (Option-cases (fill_zero o.header_len header.bytes)) [
    | inl e ↦ rw (v.header_here, e) tt
    | inr (z, e) ↦
        let h' = store o.header_buf (record header { bytes = z }) h in
        let new : Block = record { form = object; bytes = header_bytes m } in
        let body_here =
          load-store_ne o.header_buf o.body_buf (record header { bytes = z }) h v.apart
          ∙ v.body_here in
        rw (v.header_here, e)
          (
            new,
            body,
            record {
              header_here = load-allocate_new new h';
              body_here = load-allocate o.body_buf new body h' body_here;
              apart = next-ne o.body_buf body h' body_here;
            },
            refl,
          )
  ]

  set_body-Refines :
      (source : List ℕ) (n : ℕ)
      → Refines (set_body source n o h) (Packet.set_body source n (value o header body))
  unfolding set_body Packet.set_body memset memcpy
  set_body-Refines source n = elim (Option-cases (fill_zero n body.bytes)) [
    | inl e ↦ rw (v.body_here, e) tt
    | inr (z, e) ↦
        let zeroed : Block = record body { bytes = z } in
        let w = Owns-body v zeroed in
        elim (Bool-cases (ltb buffer_size n)) [
          | inl long ↦ rw (v.body_here, e, long) (header, zeroed, w, refl)
          | inr short ↦ elim (Option-cases (copy_in source n z)) [
            | inl f ↦ rw (v.body_here, e, short, w.body_here, f) tt
            | inr (y, f) ↦
                let filled : Block = record body { bytes = y } in
                let u = Owns-body w filled in
                rw (v.body_here, e, short, w.body_here, f)
                  (
                    header,
                    filled,
                    record {
                      header_here = u.header_here;
                      body_here = u.body_here;
                      apart = u.apart;
                    },
                    refl,
                  )
          ]
        ]
  ]

  clear-Refines : Refines (clear o h) (Packet.clear (value o header body))
  unfolding clear Packet.clear memset
  clear-Refines = elim (Option-cases (fill_zero header_size header.bytes)) [
    | inl e ↦ rw (v.header_here, e) tt
    | inr (z, e) ↦
        let zeroed : Block = record header { bytes = z } in
        let w = Owns-header v zeroed in
        elim (Option-cases (fill_zero o.body_len body.bytes)) [
          | inl f ↦ rw (v.header_here, e, w.body_here, f) tt
          | inr (y, f) ↦
              let blank : Block = record body { bytes = y } in
              let u = Owns-body w blank in
              rw (v.header_here, e, w.body_here, f)
                (
                  zeroed,
                  blank,
                  record { header_here = u.header_here; body_here = u.body_here; apart = u.apart },
                  refl,
                )
        ]
  ]

  -- Where its two pointers lead to two different blocks, SetHeader, SetBody and Clear of a structure
  -- on the heap fault exactly where they do on the structure with two lists of bytes in place of the
  -- pointers, and leave the same structure, with pointers that again lead to two different blocks.
  pub structure-Refines :
      ((m : MessageHeader) → Refines (set_header m o h) (Packet.set_header m (value o header body)))
      × ((source : List ℕ) (n : ℕ)
          → Refines (set_body source n o h) (Packet.set_body source n (value o header body)))
      × Refines (clear o h) (Packet.clear (value o header body))
  structure-Refines = (set_header-Refines, set_body-Refines, clear-Refines)
