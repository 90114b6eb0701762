-- ===== src/Outside/Flat.antt =====
-- The calls of the FlatBuffers library that the generated code of RANKING_PROTOCOL_generated.h makes.
use ranking_server.Base.{
  ℕ, ◌≡◌, ◌≢◌, ◌<◌, ◌^◌, List, [], ◌∷◌, ◌++◌, Option, none, some, ◌==◌, if◌then◌else◌,
}

-- A call of the builder between StartTable and EndTable, by the offset of the field in the vtable:
-- AddElement with the width of its type in bits and the bit pattern of the value and of the default,
-- and AddOffset of a string that CreateString has made.
pub data Slot : Type 0 where
  element : ℕ → ℕ → ℕ → ℕ → Slot
  offset : ℕ → List ℕ → Slot

abbrev pub slot_field : Slot → ℕ
slot_field (element w vt x d) = vt
slot_field (offset vt t) = vt

-- No field is added twice.
abbrev pub IsAbsent : ℕ → List Slot → Type 0
IsAbsent vt [] = Unit {0}
IsAbsent vt (s ∷ ss) = (slot_field s ≢ vt) × IsAbsent vt ss

abbrev pub IsDistinct : List Slot → Type 0
IsDistinct [] = Unit {0}
IsDistinct (s ∷ ss) = IsAbsent (slot_field s) ss × IsDistinct ss

-- What a table made by these calls holds in a field.
abbrev pub element_in : List Slot → ℕ → ℕ → ℕ
element_in [] vt d = d
element_in (element w k x e ∷ ss) vt d = if k == vt then x else element_in ss vt d
element_in (offset k t ∷ ss) vt d = element_in ss vt d

abbrev pub string_in : List Slot → ℕ → Option (List ℕ)
string_in [] vt = none
string_in (element w k x e ∷ ss) vt = string_in ss vt
string_in (offset k t ∷ ss) vt = if k == vt then some t else string_in ss vt

-- A field is read with the type and the default it was added with, and the value is one of that type.
abbrev pub IsReadAs : List Slot → ℕ → ℕ → ℕ → Type 0
IsReadAs [] w vt d = Unit {0}
IsReadAs (element v k x e ∷ ss) w vt d =
    (k ≡ vt → (v ≡ w) × (e ≡ d) × (x < 2 ^ w)) × IsReadAs ss w vt d
IsReadAs (offset k t ∷ ss) w vt d = (k ≢ vt) × IsReadAs ss w vt d

-- No scalar was added as the field.
abbrev pub IsNoElement : List Slot → ℕ → Type 0
IsNoElement [] vt = Unit {0}
IsNoElement (element w k x e ∷ ss) vt = (k ≢ vt) × IsNoElement ss vt
IsNoElement (offset k t ∷ ss) vt = IsNoElement ss vt

-- `finish` is the buffer after Finish, `root` is GetRoot, `get_field` is GetField at a type of
-- that many bits, with a default, and `get_string` is GetPointer to a string, `none` for a null
-- pointer; of a field that holds a scalar it says nothing. A buffer may be followed by other bytes.
pub record FlatBuffers : Type 1 where
  pub Table : Type 0
  pub finish : List Slot → List ℕ
  pub root : List ℕ → Table
  pub get_field : Table → ℕ → ℕ → ℕ → ℕ
  pub get_string : Table → ℕ → Option (List ℕ)
  pub get_field-finish :
      (ss : List Slot) (rest : List ℕ) (w vt d : ℕ)
      → IsDistinct ss
      → IsReadAs ss w vt d
      → get_field (root (finish ss ++ rest)) w vt d ≡ element_in ss vt d
  pub get_string-finish :
      (ss : List Slot) (rest : List ℕ) (vt : ℕ)
      → IsDistinct ss
      → IsNoElement ss vt
      → get_string (root (finish ss ++ rest)) vt ≡ string_in ss vt
