-- ===== src/Outside/Verifier.antt =====
-- The calls of the FlatBuffers verifier, and of nested tables, that RANKING_PROTOCOL_generated.h makes.
use ranking_server.Base.{ℕ, List, Option, Bool}
use ranking_server.Outside.Flat.{FlatBuffers}

-- A check gives the verifier's next state, or `none` where it fails. `string` is VerifyString of the
-- string in a field. `get_table` is GetPointer to a table, `none` for a null pointer.
pub record Verifier (fb : FlatBuffers) : Type 1 where
  pub State : Type 0
  pub get_table : fb.Table → ℕ → Option fb.Table
  pub table_start : fb.Table → State → Option State
  pub offset : fb.Table → ℕ → State → Option State
  pub string : fb.Table → ℕ → State → Option State
  pub field : fb.Table → ℕ → ℕ → State → Option State
  pub end_table : State → Option State

-- What RANKING_PROTOCOL_generated.h calls on whole buffers. The verifier is given the buffer where it is
-- made; a check of it with an identifier, or without one, comes to the check of the root table.
pub record Roots (fb : FlatBuffers) (v : Verifier fb) : Type 1 where
  pub Builder : Type 0
  pub Offset : Type 0
  pub size_prefixed_root : List ℕ → fb.Table
  pub verify_buffer :
      (fb.Table → v.State → Option v.State) → Option (List ℕ) → List ℕ → v.State → Bool
  pub verify_size_prefixed_buffer :
      (fb.Table → v.State → Option v.State) → Option (List ℕ) → List ℕ → v.State → Bool
  pub finish : Builder → Offset → Builder
  pub finish_size_prefixed : Builder → Offset → Builder
