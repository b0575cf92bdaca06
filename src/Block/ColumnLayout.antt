-- ===== src/Block/ColumnLayout.antt =====
-- src/block.rs: `ColumnLayout` and its conversion from a C discriminant.
use clickhouse_c_rs.Base.{◌≡◌, refl, ◌↔◌, Option, some, List, [], ◌∷◌}
use clickhouse_c_rs.Base.Arms.{match_arms, match_names, match_arms_iff}
use clickhouse_c_rs.Base.Int.{ℤ}
use clickhouse_c_rs.Sys
use clickhouse_c_rs.Sys.Ranks.{col_kind_rank, col_kind_rank-Injective}

pub data ColumnLayout : Type 0 where
  fixed string nullable array tuple low_cardinality nothing : ColumnLayout

-- The constant that a variant is defined by; `as i32` gives its value.
abbrev pub discriminant : ColumnLayout → Sys.ChcColKind
discriminant fixed = Sys.chc_col_fixed
discriminant string = Sys.chc_col_string
discriminant nullable = Sys.chc_col_nullable
discriminant array = Sys.chc_col_array
discriminant tuple = Sys.chc_col_tuple
discriminant low_cardinality = Sys.chc_col_low_cardinality
discriminant nothing = Sys.chc_col_nothing

-- The arms of the `match` in `from_raw`.
abbrev pub arms : List (Sys.ChcColKind × ColumnLayout)
arms =
    (Sys.chc_col_fixed, fixed)
    ∷ (Sys.chc_col_string, string)
    ∷ (Sys.chc_col_nullable, nullable)
    ∷ (Sys.chc_col_array, array)
    ∷ (Sys.chc_col_tuple, tuple)
    ∷ (Sys.chc_col_low_cardinality, low_cardinality)
    ∷ (Sys.chc_col_nothing, nothing)
    ∷ []

unfoldable pub from_raw : Sys.Header → ℤ → Option ColumnLayout
from_raw h k = match_arms h.col_kind arms k

arms_cover : (v : ColumnLayout) → match_names col_kind_rank arms (discriminant v) ≡ some v
arms_cover fixed = refl
arms_cover _ = refl

-- With the header's constants distinct, a column layout converts to a variant exactly when its value is that of the constant that the variant is defined by.
pub col_kind-discriminant :
    (h : Sys.Header)
    → Sys.IsHeader h
    → (k : ℤ) (v : ColumnLayout) → (from_raw h k ≡ some v) ↔ (h.col_kind (discriminant v) ≡ k)
unfolding from_raw
col_kind-discriminant h valid k v =
    match_arms_iff h.col_kind col_kind_rank discriminant arms valid.col_kind-Injective
      col_kind_rank-Injective refl arms_cover k v
