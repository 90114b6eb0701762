-- ===== src/Packet/Heap.antt =====
-- CustomOverlapped of RankingServer/include/MyPacket.h over a heap: what its functions allocate and
-- free, and the pointers that they leave behind. `none` is undefined behaviour.
pub mod Cells
pub mod Refine
pub mod Ownership
pub mod Reuse
use ranking_server.Base.{
  ℕ, List, [], ◌∷◌, ◌++◌, Option, none, some, ◌>>=◌, Bool, true, false, ltb, if◌then◌else◌, length,
  get_elem?, set, fill_zero, copy_in,
}
use ranking_server.Packet.{
  MessageHeader, OperationType, op_default, op_send, header_bytes, header_size, buffer_size,
}

-- How a block was allocated: by `new char[n]`, or by `new MessageHeader`.
pub data Form : Type 0 where
  chars object : Form

pub record Block : Type 0 where
  pub form : Form
  pub bytes : List ℕ

-- The blocks by address, `none` for one that has been freed. A pointer is `none` for null.
abbrev pub Heap : Type 0
Heap = List (Option Block)

abbrev pub load : Option ℕ → Heap → Option Block
load none h = none
load (some p) h = get_elem? h p >>= λ b. b

abbrev pub store : Option ℕ → Block → Heap → Heap
store none b h = h
store (some p) b h = set h p (some b)

-- `memset(p, 0, n)` and `memcpy(p, source, n)`.
unfoldable pub memset : Option ℕ → ℕ → Heap → Option Heap
memset p n h = do
  b ← load p h
  bytes ← fill_zero n b.bytes
  some (store p (record b { bytes = bytes }) h)

unfoldable pub memcpy : Option ℕ → List ℕ → ℕ → Heap → Option Heap
memcpy p source n h = do
  b ← load p h
  bytes ← copy_in source n b.bytes
  some (store p (record b { bytes = bytes }) h)

abbrev pub allocate : Block → Heap → Heap
allocate b h = h ++ (some b ∷ [])

-- `delete[] p` on a `char*`: undefined for a block that `new[]` did not make or that is freed already.
unfoldable pub delete_chars : Option ℕ → Heap → Option Heap
delete_chars none h = some h
delete_chars (some p) h = do
  b ← load (some p) h
  elim b.form [ chars ↦ some (set h p none) | object ↦ none ]

-- The members, with the two `buf`s as pointers.
pub record Structure : Type 0 where
  pub header_buf : Option ℕ
  pub header_len : ℕ
  pub body_buf : Option ℕ
  pub body_len : ℕ
  pub socket_ptr : Option ℕ
  pub operation_type : OperationType
  pub event : ℕ

-- The constructor, given what `new char[...]` leaves in the two arrays.
unfoldable pub construct : List ℕ → List ℕ → Heap → Structure × Heap
construct header_cells body_cells h =
    let h' = allocate (record { form = chars; bytes = header_cells }) h in
    (
      record {
        header_buf = some (length h);
        header_len = header_size;
        body_buf = some (length h');
        body_len = buffer_size;
        socket_ptr = none;
        operation_type = op_default;
        event = 0;
      },
      allocate (record { form = chars; bytes = body_cells }) h',
    )

-- The destructor.
unfoldable pub destroy : Structure → Heap → Option Heap
destroy o h = do h' ← delete_chars o.header_buf h; delete_chars o.body_buf h'

-- The copy constructor, which leaves `mSocketPtr` as the memory of the new structure has it.
unfoldable pub copy : Option ℕ → Structure → Structure
copy garbage other = record {
  header_buf = if ltb 0 other.header_len then other.header_buf else none;
  header_len = if ltb 0 other.header_len then other.header_len else 0;
  body_buf = if ltb 0 other.body_len then other.body_buf else none;
  body_len = if ltb 0 other.body_len then other.body_len else 0;
  socket_ptr = garbage;
  operation_type = other.operation_type;
  event = other.event;
}

unfoldable pub set_header : MessageHeader → Structure → Heap → Option (Structure × Heap)
set_header header o h = do
  h' ← memset o.header_buf o.header_len h
  some (
    record o { header_buf = some (length h'); header_len = header_size },
    allocate (record { form = object; bytes = header_bytes header }) h',
  )

unfoldable pub set_body : List ℕ → ℕ → Structure → Heap → Option (Structure × Heap)
set_body source n o h = do
  h' ← memset o.body_buf n h
  if ltb buffer_size n
      then some (o, h')
      else do h'' ← memcpy o.body_buf source n h'; some (record o { body_len = n }, h'')

unfoldable pub clear : Structure → Heap → Option (Structure × Heap)
clear o h = do
  h' ← memset o.header_buf header_size h
  h'' ← memset o.body_buf o.body_len h'
  some (
    record o {
      header_len = header_size;
      body_len = buffer_size;
      operation_type = op_default;
      event = 0;
    },
    h'',
  )

-- What `Client::Send` does to the structure that it has popped, for a body of `length body` bytes.
unfoldable pub refill : MessageHeader × List ℕ → Structure → Heap → Option (Structure × Heap)
refill (header, body) o h = do
  (o', h') ← clear o h
  (o'', h'') ← set_header header (record o' { operation_type = op_send }) h'
  set_body body (length body) o'' h''

-- A structure that is given back after each message, and taken for the next.
unfoldable pub refill_all :
    List (MessageHeader × List ℕ) → Structure → Heap → Option (Structure × Heap)
refill_all [] o h = some (o, h)
refill_all (m ∷ ms) o h = do (o', h') ← refill m o h; refill_all ms o' h'
