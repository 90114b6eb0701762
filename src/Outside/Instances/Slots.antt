-- ===== src/Outside/Instances/Slots.antt =====
-- FlatBuffers as the list of the builder's calls, one after the other.
use ranking_server.Base.{
  ℕ, zero, suc, ◌≡◌, refl, ap, ap₂, ◌∙◌, List, [], ◌∷◌, ◌++◌, append_assoc, length, take, drop,
  take-append, drop-append,
}
use ranking_server.Outside.Flat.{Slot, element, offset, FlatBuffers, element_in, string_in}

abbrev write_slot : Slot → List ℕ
write_slot (element w vt x d) = 0 ∷ w ∷ vt ∷ x ∷ d ∷ []
write_slot (offset vt t) = 1 ∷ vt ∷ length t ∷ t

abbrev write_slots : List Slot → List ℕ
write_slots [] = []
write_slots (s ∷ ss) = write_slot s ++ write_slots ss

abbrev read_slots : ℕ → List ℕ → List Slot
read_slots zero bytes = []
read_slots (suc n) (zero ∷ w ∷ vt ∷ x ∷ d ∷ bytes) = element w vt x d ∷ read_slots n bytes
read_slots (suc n) (suc k ∷ vt ∷ m ∷ bytes) = offset vt (take m bytes) ∷ read_slots n (drop m bytes)
read_slots (suc n) _ = []

abbrev read_table : List ℕ → List Slot
read_table [] = []
read_table (n ∷ bytes) = read_slots n bytes

read_slots-write_slots :
    (ss : List Slot) (rest : List ℕ) → read_slots (length ss) (write_slots ss ++ rest) ≡ ss
read_slots-write_slots [] rest = refl
read_slots-write_slots (element w vt x d ∷ ss) rest =
    ap (λ l. element w vt x d ∷ l) (read_slots-write_slots ss rest)
read_slots-write_slots (offset vt t ∷ ss) rest =
    let e = append_assoc t (write_slots ss) rest in
    ap₂ (λ u l. offset vt u ∷ l) (ap (take (length t)) e ∙ take-append t (write_slots ss ++ rest))
      (ap (λ b. read_slots (length ss) (drop (length t) b)) e
        ∙ ap (read_slots (length ss)) (drop-append t (write_slots ss ++ rest))
        ∙ read_slots-write_slots ss rest)

abbrev write_table : List Slot → List ℕ
write_table ss = length ss ∷ write_slots ss

pub read_element :
    (ss : List Slot) (rest : List ℕ) (vt d : ℕ)
    → element_in (read_table (write_table ss ++ rest)) vt d ≡ element_in ss vt d
read_element ss rest vt d = ap (λ t. element_in t vt d) (read_slots-write_slots ss rest)

pub read_string :
    (ss : List Slot) (rest : List ℕ) (vt : ℕ)
    → string_in (read_table (write_table ss ++ rest)) vt ≡ string_in ss vt
read_string ss rest vt = ap (λ t. string_in t vt) (read_slots-write_slots ss rest)

abbrev pub slot_buffers : FlatBuffers
slot_buffers = record {
  Table = List Slot;
  finish = write_table;
  root = read_table;
  get_field = λ t w vt d. element_in t vt d;
  get_string = string_in;
  get_field-finish = λ ss rest w vt d _ _. read_element ss rest vt d;
  get_string-finish = λ ss rest vt _ _. read_string ss rest vt;
}
