-- ===== src/Packet/Buffers.antt =====
-- The buffers of a CustomOverlapped of MyPacket.h.
use ranking_server.Base.{
  ℕ, ◌<◌, ◌≤◌, ◌≡◌, ◌^◌, List, ◌++◌, none, some, arith, length, take, drop, replicate,
  fill_zero-some, fill_zero-none, copy_in-some, copy_in-none, length-zeroed, length-copied,
  drop-zeroed, bytes_word-word_bytes,
}
use ranking_server.Packet.{
  CustomOverlapped, MessageHeader, op_default, create, header_bytes, read_header, set_header,
  set_body, clear, header_size, buffer_size,
}

-- The two allocations have their sizes, and the lengths handed to the sockets stay within them.
pub record IsValid (o : CustomOverlapped) : Type 0 where
  pub header_cells : length o.header.buf ≡ header_size
  pub header_len : o.header.len ≡ header_size
  pub body_cells : length o.body.buf ≡ buffer_size
  pub body_len : o.body.len ≤ buffer_size

pub create-IsValid :
    (h b : List ℕ) → length h ≡ header_size → length b ≡ buffer_size → IsValid (create h b)
unfolding create
create-IsValid h b p q = ground arith

-- What `Clear` makes of a structure.
abbrev pub cleared : CustomOverlapped → CustomOverlapped
cleared o = record o {
  header = record {
    buf = replicate header_size 0 ++ drop header_size o.header.buf;
    len = header_size;
  };
  body = record { buf = replicate o.body.len 0 ++ drop o.body.len o.body.buf; len = buffer_size };
  operation_type = op_default;
  event = 0;
}

module _ (o : CustomOverlapped) (v : IsValid o) where
  -- Clear of a valid structure writes inside the two buffers, makes the whole body writable again,
  -- and leaves the structure valid.
  pub clear_lem : (clear o ≡ some (cleared o)) × IsValid (cleared o)
  unfolding clear
  clear_lem = ground (
    arith,
    fill_zero-some header_size o.header.buf,
    fill_zero-some o.body.len o.body.buf,
    length-zeroed header_size o.header.buf,
    length-zeroed o.body.len o.body.buf,
  )

  -- `SetHeader` makes the header buffer hold the header's bytes.
  pub set_header_lem :
      (h : MessageHeader)
      → let o' = record o { header = record { buf = header_bytes h; len = header_size } } in
        (set_header h o ≡ some o') × IsValid o'
  unfolding set_header
  set_header_lem h = ground (arith, fill_zero-some o.header.len o.header.buf)

  -- A body that fits is copied to the front of the buffer, and its length is what will be sent; the
  -- rest of the buffer stays.
  pub set_body_lem :
      (source : List ℕ) (n : ℕ)
      → n ≤ buffer_size
      → n ≤ length source
      → let o' = record o { body = record { buf = take n source ++ drop n o.body.buf; len = n } } in
        (set_body source n o ≡ some o') × IsValid o'
  unfolding set_body
  set_body_lem source n h k = ground (
    arith,
    fill_zero-some n o.body.buf,
    length-zeroed n o.body.buf,
    copy_in-some source n (replicate n 0 ++ drop n o.body.buf),
    drop-zeroed n o.body.buf,
    length-copied source n o.body.buf,
  )

  -- A body longer than BUFFER_SIZE is undefined behaviour, whatever the bytes: the `memset` writes
  -- outside the buffer before the test is reached.
  pub set_body_overrun : (source : List ℕ) (n : ℕ) → buffer_size < n → set_body source n o ≡ none
  unfolding set_body
  set_body_overrun source n h = rw (fill_zero-none n o.body.buf (omega (arith, v.body_cells)))

  -- A body longer than its source is read beyond its end.
  pub set_body_lacking :
      (source : List ℕ) (n : ℕ) → n ≤ buffer_size → length source < n → set_body source n o ≡ none
  unfolding set_body
  set_body_lacking source n h k = ground (
    arith,
    fill_zero-some n o.body.buf,
    copy_in-none source n (replicate n 0 ++ drop n o.body.buf),
  )

-- The header that is read from a header buffer is the header whose bytes were put there, for fields
-- below 2^32 and whatever follows.
pub read_header-header_bytes :
    (h : MessageHeader) (rest : List ℕ)
    → h.socket_id < 2 ^ 32
    → h.body_size < 2 ^ 32
    → h.contents_type < 2 ^ 32
    → read_header (header_bytes h ++ rest) ≡ some h
unfolding read_header
read_header-header_bytes h rest a b c = ground (
  arith,
  bytes_word-word_bytes h.socket_id a,
  bytes_word-word_bytes h.body_size b,
  bytes_word-word_bytes h.contents_type c,
)
