-- ===== src/Outside/Instances/Members.antt =====
-- JSON as the list of an object's members. Only the two kinds of object that the program makes can be
-- dumped; every number of the text is one more than what it stands for, so that none is zero.
use Prim.Native.Nat.{pred}
use Prim.Native.String.{String}
use text.Mathlib.Text.{◌==◌ as str_eq}
use text.Mathlib.TextEquality.{eq_iff}
use ranking_server.Base.{
  ℕ, zero, suc, ◌≡◌, refl, ap, ap₂, List, [], ◌∷◌, Option, none, some, Bool, true, false, ◌&&◌,
  if◌then◌else◌, arith, NoZero, ◌∙◌,
}
use mathlib.Core.Path.{subst}
use ranking_server.Outside.Json.{Value, str, int, member, JsonLibrary}

pub data Document : Type 0 where
  object : List (String × Value) → Document
  blank : Document

abbrev pub field : Document → String → Option Value
field (object m) k = member k m
field blank k = none

abbrev pub raise : List ℕ → List ℕ
raise [] = []
raise (x ∷ xs) = suc x ∷ raise xs

abbrev pub lower : List ℕ → List ℕ
lower [] = []
lower (x ∷ xs) = pred x ∷ lower xs

abbrev pub score_object : List ℕ → ℕ → ℕ → Document
score_object id score time =
    object (("player_id", str id) ∷ ("score", int score) ∷ ("last_update", int time) ∷ [])

abbrev pub ranking_object : ℕ → List ℕ → ℕ → Document
ranking_object rank id score =
    object (("rank", int rank) ∷ ("player_id", str id) ∷ ("score", int score) ∷ [])

abbrev pub dump : Document → Option (List ℕ)
dump (object ((a, str id) ∷ (b, int x) ∷ (c, int y) ∷ [])) =
    if str_eq a "player_id" && (str_eq b "score" && str_eq c "last_update")
    then some (1 ∷ suc x ∷ suc y ∷ raise id)
    else none
dump (object ((a, int x) ∷ (b, str id) ∷ (c, int y) ∷ [])) =
    if str_eq a "rank" && (str_eq b "player_id" && str_eq c "score")
    then some (2 ∷ suc x ∷ suc y ∷ raise id)
    else none
dump _ = none

abbrev pub parse : List ℕ → Option Document
parse (suc zero ∷ suc x ∷ suc y ∷ id) = some (score_object (lower id) x y)
parse (suc (suc zero) ∷ suc x ∷ suc y ∷ id) = some (ranking_object x (lower id) y)
parse _ = none

abbrev pub is_blank : Document → Bool
is_blank (object m) = false
is_blank blank = true

lower-raise : (xs : List ℕ) → lower (raise xs) ≡ xs
lower-raise [] = refl
lower-raise (x ∷ xs) = ap₂ ◌∷◌ (omega arith) (lower-raise xs)

raise-NoZero : (xs : List ℕ) → NoZero (raise xs)
raise-NoZero [] = tt
raise-NoZero (x ∷ xs) = (omega arith, raise-NoZero xs)

-- What the tests of `dump` say.
three_tests :
    (p q r : Bool) (t u : List ℕ)
    → (if p && (q && r) then some u else none) ≡ some t
    → (p ≡ true) × (q ≡ true) × (r ≡ true) × (u ≡ t)
three_tests true true true t u h = (refl, refl, refl, cc)
three_tests false q r t u h = cc
three_tests true false r t u h = cc
three_tests true true false t u h = cc

names-eq :
    (a b c : String) (a' b' c' : String) (f : String → String → String → Document)
    → str_eq a a' ≡ true
    → str_eq b b' ≡ true
    → str_eq c c' ≡ true
    → f a' b' c' ≡ f a b c
names-eq a b c a' b' c' f p q r = rw ((eq_iff a a').0 p, (eq_iff b b').0 q, (eq_iff c c').0 r)

pub parse-dump : (j : Document) (t : List ℕ) → dump j ≡ some t → parse t ≡ some j
parse-dump (object ((a, str id) ∷ (b, int x) ∷ (c, int y) ∷ [])) t h =
    let (p, q, r, e) =
      three_tests (str_eq a "player_id") (str_eq b "score") (str_eq c "last_update") t _ h in
    rw (← e) (
      ap some (
        ap (λ i. score_object i x y) (lower-raise id)
        ∙ names-eq a b c "player_id" "score" "last_update"
            (λ k l m. object ((k, str id) ∷ (l, int x) ∷ (m, int y) ∷ [])) p q r))
parse-dump (object ((a, int x) ∷ (b, str id) ∷ (c, int y) ∷ [])) t h =
    let (p, q, r, e) =
      three_tests (str_eq a "rank") (str_eq b "player_id") (str_eq c "score") t _ h in
    rw (← e) (
      ap some (
        ap (λ i. ranking_object x i y) (lower-raise id)
        ∙ names-eq a b c "rank" "player_id" "score"
            (λ k l m. object ((k, int x) ∷ (l, str id) ∷ (m, int y) ∷ [])) p q r))
parse-dump _ t h = cc

pub dump-NoZero : (j : Document) (t : List ℕ) → dump j ≡ some t → NoZero t
dump-NoZero (object ((a, str id) ∷ (b, int x) ∷ (c, int y) ∷ [])) t h =
    let (p, q, r, e) =
      three_tests (str_eq a "player_id") (str_eq b "score") (str_eq c "last_update") t _ h in
    subst NoZero e (omega arith, (omega arith, (omega arith, raise-NoZero id)))
dump-NoZero (object ((a, int x) ∷ (b, str id) ∷ (c, int y) ∷ [])) t h =
    let (p, q, r, e) =
      three_tests (str_eq a "rank") (str_eq b "player_id") (str_eq c "score") t _ h in
    subst NoZero e (omega arith, (omega arith, (omega arith, raise-NoZero id)))
dump-NoZero _ t h = cc

abbrev pub member_documents : JsonLibrary
member_documents = record {
  Json = Document;
  object = object;
  blank = blank;
  field = field;
  dump = dump;
  parse = parse;
  is_blank = is_blank;
  is_blank-blank = refl;
  is_blank-object = λ m. refl;
  field-object = λ m k. refl;
  parse-dump = parse-dump;
  dump-NoZero = dump-NoZero;
}
