-- ===== src/Types/IntervalUnit.antt =====
-- src/types.rs: `IntervalUnit` and its conversion from a C discriminant.
use clickhouse_c_rs.Base.{◌≡◌, refl, ◌↔◌, Option, some, List, [], ◌∷◌}
use clickhouse_c_rs.Base.Arms.{match_arms, match_names, match_arms_iff}
use clickhouse_c_rs.Base.Int.{ℤ}
use clickhouse_c_rs.Sys
use clickhouse_c_rs.Sys.Ranks.{interval_unit_rank, interval_unit_rank-Injective}

pub data IntervalUnit : Type 0 where
  nanosecond microsecond millisecond second minute hour day week month quarter year : IntervalUnit

-- The constant that a variant is defined by; `as i32` gives its value.
abbrev pub discriminant : IntervalUnit → Sys.ChcIntervalUnit
discriminant nanosecond = Sys.chc_interval_nanosecond
discriminant microsecond = Sys.chc_interval_microsecond
discriminant millisecond = Sys.chc_interval_millisecond
discriminant second = Sys.chc_interval_second
discriminant minute = Sys.chc_interval_minute
discriminant hour = Sys.chc_interval_hour
discriminant day = Sys.chc_interval_day
discriminant week = Sys.chc_interval_week
discriminant month = Sys.chc_interval_month
discriminant quarter = Sys.chc_interval_quarter
discriminant year = Sys.chc_interval_year

-- The arms of the `match` in `from_raw`.
abbrev pub arms : List (Sys.ChcIntervalUnit × IntervalUnit)
arms =
    (Sys.chc_interval_nanosecond, nanosecond)
    ∷ (Sys.chc_interval_microsecond, microsecond)
    ∷ (Sys.chc_interval_millisecond, millisecond)
    ∷ (Sys.chc_interval_second, second)
    ∷ (Sys.chc_interval_minute, minute)
    ∷ (Sys.chc_interval_hour, hour)
    ∷ (Sys.chc_interval_day, day)
    ∷ (Sys.chc_interval_week, week)
    ∷ (Sys.chc_interval_month, month)
    ∷ (Sys.chc_interval_quarter, quarter)
    ∷ (Sys.chc_interval_year, year)
    ∷ []

unfoldable pub from_raw : Sys.Header → ℤ → Option IntervalUnit
from_raw h k = match_arms h.interval_unit arms k

arms_cover : (v : IntervalUnit) → match_names interval_unit_rank arms (discriminant v) ≡ some v
arms_cover nanosecond = refl
arms_cover _ = refl

-- With the header's constants distinct, an interval unit converts to a variant exactly when its value is that of the constant that the variant is defined by.
pub interval_unit-discriminant :
    (h : Sys.Header)
    → Sys.IsHeader h
    → (k : ℤ) (v : IntervalUnit) → (from_raw h k ≡ some v) ↔ (h.interval_unit (discriminant v) ≡ k)
unfolding from_raw
interval_unit-discriminant h valid k v =
    match_arms_iff h.interval_unit interval_unit_rank discriminant arms
      valid.interval_unit-Injective interval_unit_rank-Injective refl arms_cover k v
