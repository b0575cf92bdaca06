-- ===== src/Types/Variants.antt =====
-- The four Rust enums whose variants are defined by C constants: `Kind` and `IntervalUnit` of
-- src/types.rs, `ColumnLayout` of src/block.rs, `PacketKind` of src/client.rs.
use clickhouse_c_rs.Base.{◌≡◌, ◌≢◌, ◌↔◌, refl, sym, ◌∙◌, Option, none, some}
use mathlib.Core.Equiv.{IsEquiv, Iso, iso_to_equiv}
use mathlib.Core.HLevel.{Σ_prop_path, ¬_prop}
use mathlib.Core.Option.{some-injective}
use clickhouse_c_rs.Base.Int.{ℤ}
use clickhouse_c_rs.Sys
use clickhouse_c_rs.Types.Kind
use clickhouse_c_rs.Types.IntervalUnit
use clickhouse_c_rs.Block.ColumnLayout
use clickhouse_c_rs.Client.PacketKind

module _ {V : Type 0} (value : V → ℤ) (from_raw : ℤ → Option V)
    (variant : (k : ℤ) (v : V) → (from_raw k ≡ some v) ↔ (value v ≡ k)) where
  -- The C integers that `from_raw` has a variant for.
  abbrev pub Accepted : Type 0
  Accepted = (k : ℤ) × (from_raw k ≢ none)

  pub value_accepted : (v : V) → from_raw (value v) ≢ none
  value_accepted v e = cc (sym e ∙ (variant (value v) v).1 refl)

  -- `as i32`.
  abbrev pub as_raw : V → Accepted
  as_raw v = (value v, value_accepted v)

  found : (o : Option V) → o ≢ none → (v : V) × (o ≡ some v)
  found none some_variant = absurd (some_variant refl)
  found (some v) some_variant = (v, refl)

  as_raw_iso : Iso V Accepted
  unfolding found
  as_raw_iso = record {
    fun = as_raw;
    inv = λ (k, accepted). (found (from_raw k) accepted).0;
    rinv = λ (k, accepted).
        let (v, is) = found (from_raw k) accepted in Σ_prop_path (λ k. ¬_prop) ((variant k v).0 is);
    linv = λ v.
        let (v', is) = found (from_raw (value v)) (value_accepted v) in
        some-injective v' v (sym is ∙ (variant (value v) v).1 refl);
  }

  as_raw-IsEquiv : IsEquiv as_raw
  unfolding as_raw_iso
  as_raw-IsEquiv = (iso_to_equiv as_raw_iso).1

module _ (h : Sys.Header) (valid : Sys.IsHeader h) where
  -- With distinct constants, `as i32` is an equivalence from each of the four Rust enums to the C
  -- integers that its `from_raw` accepts: no two variants share a value, and each accepted integer is
  -- the value of the one variant that `from_raw` gives.
  pub as_raw-IsEquiv_all :
      IsEquiv (
        as_raw
          (λ v. h.kind (Kind.discriminant v))
          (Kind.from_raw h)
          (Kind.kind-discriminant h valid))
      × IsEquiv (
          as_raw
            (λ v. h.interval_unit (IntervalUnit.discriminant v))
            (IntervalUnit.from_raw h)
            (IntervalUnit.interval_unit-discriminant h valid))
      × IsEquiv (
          as_raw
            (λ v. h.col_kind (ColumnLayout.discriminant v))
            (ColumnLayout.from_raw h)
            (ColumnLayout.col_kind-discriminant h valid))
      × IsEquiv (
          as_raw
            (λ v. h.packet_kind (PacketKind.discriminant v))
            (PacketKind.from_raw h)
            (PacketKind.packet_kind-discriminant h valid))
  as_raw-IsEquiv_all = (
    as_raw-IsEquiv _ _ (Kind.kind-discriminant h valid),
    as_raw-IsEquiv _ _ (IntervalUnit.interval_unit-discriminant h valid),
    as_raw-IsEquiv _ _ (ColumnLayout.col_kind-discriminant h valid),
    as_raw-IsEquiv _ _ (PacketKind.packet_kind-discriminant h valid),
  )
