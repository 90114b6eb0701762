-- ===== src/Packet.antt =====
-- RankingServer/include/MyPacket.h. A buffer is the list of the bytes of its allocation, so the list's
-- length is what may be written. Packet/Heap has the same functions over a heap of allocations.
pub mod Buffers
pub mod Heap
use ranking_server.Base.{
  ℕ, ◌<◌, ◌≤◌, ◌≡◌, List, [], ◌∷◌, ◌++◌, Option, none, some, ◌>>=◌, ltb, if◌then◌else◌, length,
  take, fill_zero, copy_in, word_bytes, bytes_word,
}

pub data OperationType : Type 0 where
  op_default op_accept op_recv op_send : OperationType

-- Three `uint32_t`s.
pub record MessageHeader : Type 0 where
  pub socket_id : ℕ
  pub body_size : ℕ
  pub contents_type : ℕ

-- `WSABUF`
pub record Wsabuf : Type 0 where
  pub buf : List ℕ
  pub len : ℕ

-- `header` and `body` are `mWsabuf[0]` and `mWsabuf[1]`; `event` is `hEvent` of the base, 0 for NULL.
pub record CustomOverlapped : Type 0 where
  pub header : Wsabuf
  pub body : Wsabuf
  pub socket_ptr : Option ℕ
  pub operation_type : OperationType
  pub event : ℕ

-- `sizeof(MessageHeader)`
abbrev pub header_size : ℕ
header_size = 12

-- `BUFFER_SIZE`
abbrev pub buffer_size : ℕ
buffer_size = 1024

-- The constructor, given the two arrays as `new char[...]` leaves them.
pub create : List ℕ → List ℕ → CustomOverlapped
create header_cells body_cells = record {
  header = record { buf = header_cells; len = header_size };
  body = record { buf = body_cells; len = buffer_size };
  socket_ptr = none;
  operation_type = op_default;
  event = 0;
}

-- A `MessageHeader` as the bytes of the object.
abbrev pub header_bytes : MessageHeader → List ℕ
header_bytes h = word_bytes h.socket_id ++ (word_bytes h.body_size ++ word_bytes h.contents_type)

-- `reinterpret_cast<MessageHeader*>(buf)`: `none` if the array is shorter than the object.
pub read_header : List ℕ → Option MessageHeader
read_header (a ∷ b ∷ c ∷ d ∷ e ∷ f ∷ g ∷ h ∷ i ∷ j ∷ k ∷ l ∷ rest) = some (record {
  socket_id = bytes_word a b c d;
  body_size = bytes_word e f g h;
  contents_type = bytes_word i j k l;
})
read_header _ = none

pub set_header : MessageHeader → CustomOverlapped → Option CustomOverlapped
set_header h o = do
  _ ← fill_zero o.header.len o.header.buf
  some (record o { header = record { buf = header_bytes h; len = header_size } })

-- The test comes after the `memset`.
pub set_body : List ℕ → ℕ → CustomOverlapped → Option CustomOverlapped
set_body source n o = do
  zeroed ← fill_zero n o.body.buf
  if ltb buffer_size n
      then some (record o { body = record { buf = zeroed; len = o.body.len } })
      else do
        filled ← copy_in source n zeroed
        some (record o { body = record { buf = filled; len = n } })

unfoldable pub set_operation_type : OperationType → CustomOverlapped → CustomOverlapped
set_operation_type t o = record o { operation_type = t }

pub clear : CustomOverlapped → Option CustomOverlapped
clear o = do
  header_cells ← fill_zero header_size o.header.buf
  body_cells ← fill_zero o.body.len o.body.buf
  some (record o {
    header = record { buf = header_cells; len = header_size };
    body = record { buf = body_cells; len = buffer_size };
    operation_type = op_default;
    event = 0;
  })

-- The bytes that a send of the two buffers puts on the wire.
abbrev pub transmitted : CustomOverlapped → List ℕ
transmitted o = take o.header.len o.header.buf ++ take o.body.len o.body.buf
