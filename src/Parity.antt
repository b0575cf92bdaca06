-- ===== src/Parity.antt =====
-- src/parity.rs: the checks of the bindings against the inventories that build.rs generates.
pub mod Covered
use clickhouse_c_rs.Base.{
  ℕ, ◌-◌, ◌%◌, ◌^◌, ltb, Bool, true, false, ◌&&◌, ◌||◌, not, List, [], ◌∷◌, is_some, if◌then◌else◌,
}
use clickhouse_c_rs.Base.Int.{ℤ, pos, negsuc, ◌==ℤ◌}
use clickhouse_c_rs.Sys
use clickhouse_c_rs.BuildScript.Text.{Text, codes, text_eq, ends_with}
use clickhouse_c_rs.BuildScript.Inventory.{Enumerator}
use clickhouse_c_rs.Types.Kind
use clickhouse_c_rs.Types.IntervalUnit
use clickhouse_c_rs.Block.ColumnLayout
use clickhouse_c_rs.Client.PacketKind

unfoldable pub is_sentinel : Text → Bool
is_sentinel name = ends_with (codes "_COUNT") name || ends_with (codes "_LAST") name

-- `HEADER_ENUMERATORS` is the list.
unfoldable pub enumerators : List Enumerator → Text → List (Text × ℤ)
enumerators [] tag = []
enumerators ((t, name, value) ∷ rest) tag =
    if text_eq t tag && not (is_sentinel name)
    then (name, value) ∷ enumerators rest tag
    else enumerators rest tag

abbrev pub contains : List Text → Text → Bool
contains [] name = false
contains (n ∷ ns) name = text_eq n name || contains ns name

-- `UNDECLARED` without its reasons.
abbrev pub undeclared : List Text
undeclared = codes "chc_err_reset" ∷ []

abbrev pub crate_shims : List Text
crate_shims =
    codes "chc_rs_in_destroy"
    ∷ codes "chc_rs_in_new"
    ∷ codes "chc_rs_in_new_ioless"
    ∷ codes "chc_rs_monotonic_us"
    ∷ []

-- Every name of the one list is in one of the two others.
abbrev pub covered : List Text → List Text → List Text → Bool
covered [] names others = true
covered (f ∷ fs) names others = (contains names f || contains others f) && covered fs names others

-- The tests, as whether they pass.
unfoldable pub sys_declares_every_public_header_function : List Text → List Text → Bool
sys_declares_every_public_header_function header_functions sys_functions =
    covered header_functions sys_functions undeclared

unfoldable pub sys_declares_nothing_upstream_dropped : List Text → List Text → Bool
sys_declares_nothing_upstream_dropped header_functions sys_functions =
    covered sys_functions header_functions crate_shims

unfoldable pub undeclared_list_stays_current : List Text → Bool
undeclared_list_stays_current header_functions = covered undeclared header_functions []

-- `value as c_int` of an `i64`, which keeps the low 32 bits.
abbrev pub signed : ℕ → ℤ
signed m = if ltb m (2 ^ 31) then pos m else negsuc (2 ^ 32 - 1 - m)

unfoldable pub as_c_int : ℤ → ℤ
as_c_int (pos n) = signed (n % 2 ^ 32)
as_c_int (negsuc n) = signed (2 ^ 32 - 1 - n % 2 ^ 32)

-- Every value passes the test.
abbrev pub all_values : (Text → ℤ → Bool) → List (Text × ℤ) → Bool
all_values p [] = true
all_values p ((name, value) ∷ rest) = p name value && all_values p rest

module _ (h : Sys.Header) (header_enumerators : List Enumerator) where
  unfoldable pub every_type_kind_maps_to_a_variant : Bool
  every_type_kind_maps_to_a_variant =
      all_values (λ name value. is_some (Kind.from_raw h (as_c_int value)))
        (enumerators header_enumerators (codes "chc_kind"))

  unfoldable pub every_interval_unit_maps_to_a_variant : Bool
  every_interval_unit_maps_to_a_variant =
      all_values
        (λ name value. value ==ℤ pos 0 || is_some (IntervalUnit.from_raw h (as_c_int value)))
        (enumerators header_enumerators (codes "chc_interval_unit"))

  unfoldable pub every_column_layout_maps_to_a_variant : Bool
  every_column_layout_maps_to_a_variant =
      all_values (λ name value. is_some (ColumnLayout.from_raw h (as_c_int value)))
        (enumerators header_enumerators (codes "chc_col_kind"))

  -- `CLIENT_ONLY_PACKETS` is one name.
  unfoldable pub every_server_packet_kind_maps_to_a_variant : Bool
  every_server_packet_kind_maps_to_a_variant =
      all_values
        (λ name value.
          text_eq (codes "CHC_PKT_HELLO") name || is_some (PacketKind.from_raw h (as_c_int value)))
        (enumerators header_enumerators (codes "chc_packet_kind"))

abbrev pub some_item : List (Text × ℤ) → Bool
some_item [] = false
some_item (v ∷ vs) = true

unfoldable pub header_enumerators_cover_the_generated_constants : List Enumerator → Bool
header_enumerators_cover_the_generated_constants header_enumerators =
    some_item (enumerators header_enumerators (codes "chc_kind"))
    && some_item (enumerators header_enumerators (codes "chc_packet_kind"))
