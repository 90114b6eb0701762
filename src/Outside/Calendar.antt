-- ===== src/Outside/Calendar.antt =====
-- The C library's calendar, as DatabaseWorker.cpp uses it.
use ranking_server.Base.{ℕ, List, Option}

-- `std::tm`: `mon` counts from 0, `year` from 1900, as 32-bit patterns.
pub record Tm : Type 0 where
  pub sec : ℕ
  pub min : ℕ
  pub hour : ℕ
  pub mday : ℕ
  pub mon : ℕ
  pub year : ℕ

-- `mktime` brings its argument into range, in local time. `mkgmtime` is `_mkgmtime`. `format` is
-- `gmtime_s` and then `put_time` with "%Y-%m-%d %H:%M:%S", `none` where `gmtime_s` fails: it leaves a
-- `tm` that `put_time` must not be given.
pub record Calendar : Type 0 where
  pub mktime : Tm → Tm
  pub mkgmtime : Tm → ℕ
  pub format : ℕ → Option (List ℕ)
