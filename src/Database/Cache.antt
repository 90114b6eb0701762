-- ===== src/Database/Cache.antt =====
-- The cache of DatabaseWorker.cpp: what SetCachedData stores and GetCachedData finds.
use ranking_server.Base.{
  ℕ, ◌≡◌, ◌≢◌, ◌≤◌, ◌<◌, sym, ◌∙◌, List, ◌++◌, some, NoZero, c_str, c_str-NoZero, NoZero-append,
  codes, arith,
}
use mathlib.Core.List.{append_cancel_left}
use ranking_server.Outside.Json.{JsonLibrary}
use ranking_server.Outside.Redis.{Redis}
use ranking_server.Database.{cache_key, set_cached_data, get_cached_data}

-- Within a table different players have different keys.
pub cache_key-injective : (table j k : List ℕ) → cache_key table j ≡ cache_key table k → j ≡ k
unfolding cache_key
cache_key-injective table j k e = append_cancel_left (codes ":") j k (
    append_cancel_left table (codes ":" ++ j) (codes ":" ++ k) (
      append_cancel_left (codes "table:") (table ++ (codes ":" ++ j)) (table ++ (codes ":" ++ k))
        e))

cache_key-NoZero : (table key : List ℕ) → NoZero table → NoZero key → NoZero (cache_key table key)
unfolding cache_key
cache_key-NoZero table key h k =
    NoZero-append (codes "table:") (table ++ (codes ":" ++ key)) (omega arith)
      (NoZero-append table (codes ":" ++ key) h (NoZero-append (codes ":") key (omega arith) k))

-- Also as the C strings that the commands get.
cache_key_ne :
    (table j k : List ℕ)
    → NoZero table
    → NoZero j
    → NoZero k
    → j ≢ k
    → c_str (cache_key table j) ≢ c_str (cache_key table k)
cache_key_ne table j k a b c ne e = ne (
    cache_key-injective table j k (
      sym (c_str-NoZero _ (cache_key-NoZero table j a b))
      ∙ e
      ∙ c_str-NoZero _ (cache_key-NoZero table k a c)))

module _ (js : JsonLibrary) (rd : Redis) (table key text : List ℕ) (s : rd.Store) where
  -- What was stored with a time to live, where the cache takes the command, is read back as the same
  -- JSON until that time is over.
  pub get-set_cached :
      (j : js.Json) (ttl t : ℕ)
      → rd.accepts s (c_str (cache_key table key))
      → js.dump j ≡ some text
      → t < ttl
      → get_cached_data js rd table key (rd.elapse t (set_cached_data js rd table key text ttl s))
        ≡ some j
  unfolding get_cached_data set_cached_data
  get-set_cached j ttl t ok d h =
      let plain = c_str-NoZero text (js.dump-NoZero j text d) in
      let stored = rd.get-set_live s (c_str (cache_key table key)) (c_str text) ttl t ok h in
      rw (stored, get_cached_data, plain, plain) (js.parse-dump j text d)

  -- From then on it is the JSON of the empty string.
  pub get-set_cached_expired :
      (ttl t : ℕ)
      → rd.accepts s (c_str (cache_key table key))
      → ttl ≤ t
      → get_cached_data js rd table key (rd.elapse t (set_cached_data js rd table key text ttl s))
        ≡ some js.blank
  unfolding get_cached_data set_cached_data
  get-set_cached_expired ttl t ok h =
      rw (
        rd.get-set_expired s (c_str (cache_key table key)) (c_str text) ttl t ok h,
        get_cached_data,
      )

  -- Storing for one player leaves what another player's key finds in the same table, if the table's
  -- name and the two keys have no zero byte.
  pub get-set_cached_ne :
      (other_key : List ℕ) (ttl : ℕ)
      → NoZero table
      → NoZero key
      → NoZero other_key
      → key ≢ other_key
      → get_cached_data js rd table other_key (set_cached_data js rd table key text ttl s)
        ≡ get_cached_data js rd table other_key s
  unfolding get_cached_data set_cached_data
  get-set_cached_ne other_key ttl a b c ne =
      let kept =
        rd.get-set_ne s (c_str (cache_key table key)) (c_str (cache_key table other_key))
          (c_str text) ttl (cache_key_ne table key other_key a b c ne) in
      rw (kept, get_cached_data)

  -- Storing for one player leaves what another player's key will find.
  pub get-elapse-set_cached_ne :
      (other_key : List ℕ) (ttl t : ℕ)
      → NoZero table
      → NoZero key
      → NoZero other_key
      → key ≢ other_key
      → get_cached_data js rd table other_key
          (rd.elapse t (set_cached_data js rd table key text ttl s))
        ≡ get_cached_data js rd table other_key (rd.elapse t s)
  unfolding get_cached_data set_cached_data
  get-elapse-set_cached_ne other_key ttl t a b c ne =
      let kept =
        rd.get-elapse-set_ne s (c_str (cache_key table key)) (c_str (cache_key table other_key))
          (c_str text) ttl t (cache_key_ne table key other_key a b c ne) in
      rw (kept, get_cached_data)
