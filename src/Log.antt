-- ===== src/Log.antt =====
-- RankingServer/include/Log.h
use ranking_server.Base.{ℕ, List, ◌++◌, codes}

-- `Debug`, by what has been written to the standard output before and after it.
abbrev pub debug : List ℕ → List ℕ → List ℕ → List ℕ → List ℕ
debug space object value output =
    let result =
      codes "[" ++ (space ++ (codes "] [" ++ (object ++ (codes "] " ++ (value ++ codes "\n"))))) in
    output ++ result
