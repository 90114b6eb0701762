-- ===== src/Converter.antt =====
-- RankingServer/include/Converter.h. A string is its bytes, a wide string its 16-bit units.
use ranking_server.Base.{ℕ, ◌%◌, List, [], ◌∷◌, ◌++◌, Option, none, some, c_str}

-- MultiByteToWideChar and WideCharToMultiByte on a text without a zero: `none` where they return 0.
pub record Codepages : Type 0 where
  pub to_wide : ℕ → List ℕ → Option (List ℕ)
  pub from_wide : ℕ → List ℕ → Option (List ℕ)

-- `CP_UTF8`, and the code page of EUC-KR.
abbrev pub cp_utf8 : ℕ
cp_utf8 = 65001

abbrev pub cp_euc_kr : ℕ
cp_euc_kr = 949

-- A conversion called with length -1 works on the text up to its zero, and counts the zero.
abbrev pub with_zero : Option (List ℕ) → List ℕ
with_zero none = []
with_zero (some t) = t ++ (0 ∷ [])

abbrev pub or_empty : Option (List ℕ) → List ℕ
or_empty none = []
or_empty (some t) = t

module _ (cp : Codepages) where
  unfoldable pub convert_euc_kr_to_utf8 : List ℕ → List ℕ
  convert_euc_kr_to_utf8 s = elim (cp.to_wide cp_euc_kr (c_str s)) [
    | none ↦ []
    | some w ↦ with_zero (cp.from_wide cp_utf8 (c_str (w ++ (0 ∷ []))))
  ]

  unfoldable pub convert_utf8_to_euc_kr : List ℕ → List ℕ
  convert_utf8_to_euc_kr s =
      with_zero (cp.from_wide cp_euc_kr (c_str (with_zero (cp.to_wide cp_utf8 (c_str s)))))

  unfoldable pub wstring_to_utf8 : List ℕ → List ℕ
  wstring_to_utf8 [] = []
  wstring_to_utf8 (u ∷ us) = or_empty (cp.from_wide cp_utf8 (u ∷ us))

  unfoldable pub convert_to_sqlwchar : List ℕ → List ℕ
  convert_to_sqlwchar s = with_zero (cp.to_wide cp_utf8 (c_str s))

-- Each unit is cut to a `char`.
unfoldable pub string_convert : List ℕ → List ℕ
string_convert [] = []
string_convert (u ∷ us) = u % 256 ∷ string_convert us
