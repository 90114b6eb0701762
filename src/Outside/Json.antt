-- ===== src/Outside/Json.antt =====
-- The calls of nlohmann::json that DataStructure.h, DatabaseWorker.cpp and Hub.cpp make.
use ranking_server.Base.{ℕ, ◌≡◌, List, [], ◌∷◌, Option, none, some, Bool, true, false}
use Prim.Native.String.{String}
use text.Mathlib.Text.{◌==◌ as str_eq}
use ranking_server.Base.{if◌then◌else◌, NoZero}

-- The values that the program puts into an object: strings as bytes, numbers as bit patterns.
pub data Value : Type 0 where
  str : List ℕ → Value
  int : ℕ → Value

-- `operator[]` of an object given as its list of members.
abbrev pub member : String → List (String × Value) → Option Value
member k [] = none
member k ((j, v) ∷ m) = if str_eq j k then some v else member k m

-- `object` is the initializer list, `field` is `operator[]` with the conversion that takes it, `none`
-- where the key is missing or the type is another. `dump` throws on text that is not UTF-8, `parse` on
-- text that is no JSON. `is_blank` is the comparison with "".
pub record JsonLibrary : Type 1 where
  pub Json : Type 0
  pub object : List (String × Value) → Json
  pub blank : Json
  pub field : Json → String → Option Value
  pub dump : Json → Option (List ℕ)
  pub parse : List ℕ → Option Json
  pub is_blank : Json → Bool
  pub is_blank-blank : is_blank blank ≡ true
  pub is_blank-object : (m : List (String × Value)) → is_blank (object m) ≡ false
  pub field-object : (m : List (String × Value)) (k : String) → field (object m) k ≡ member k m
  pub parse-dump : (j : Json) (t : List ℕ) → dump j ≡ some t → parse t ≡ some j
  -- A text that `dump` makes has no zero byte in it: `dump` escapes control characters.
  pub dump-NoZero : (j : Json) (t : List ℕ) → dump j ≡ some t → NoZero t
