-- ===== src/Tests/Parity.antt =====
-- The parity checks at one header.
use clickhouse_c_rs.Base.{arith, ◌≡◌, refl, List, [], ◌∷◌, inl, inr, true, some}
use clickhouse_c_rs.Base.Int.{pos}
use clickhouse_c_rs.BuildScript.Text.{
  Text, codes, as_bytes, ends_with, is_ascii_alphabetic, is_ascii_whitespace, is_ident_byte,
  is_whitespace, span, split, split_once, starts_with, strip_prefix, text_eq, trim,
  trim_end_matches, trim_start_matches,
}
use clickhouse_c_rs.BuildScript.Text.Suffix.{IsSentinel, ends_with-IsSentinel}
use clickhouse_c_rs.BuildScript.Comments.{strip_comments, strip}
use clickhouse_c_rs.BuildScript.Declarations.{
  before_first, declarations_of, scan_declared_functions, scan_functions,
}
use clickhouse_c_rs.BuildScript.Enums.{
  EnumBlock, extract_enums, scan, enum_at, tag_of, body_of, parse_enum_body, read_variants,
  read_variant, add_one,
}
use clickhouse_c_rs.BuildScript.Inventory.{
  Enumerator, dedup, enumerator_eq, enumerator_lt, insert_sorted, inventory, sort, sorted_inventory,
  tagged_variants, text_lt,
}
use clickhouse_c_rs.Parity.{as_c_int, is_sentinel, enumerators, every_type_kind_maps_to_a_variant}
use clickhouse_c_rs.Parity.Covered.{kind, HasVariant, sorted_inventory-HasVariant}
use clickhouse_c_rs.Types.Kind
use clickhouse_c_rs.Tests.Fixtures.{header, header-IsHeader}

abbrev kinds : Text
kinds = codes "enum chc_kind { CHC_VOID, CHC_INT8, CHC_COUNT }; int chc_a(void);"

abbrev blocks : List EnumBlock
blocks =
    (
      some (codes "chc_kind"),
      (codes "CHC_VOID", pos 0) ∷ (codes "CHC_INT8", pos 1) ∷ (codes "CHC_COUNT", pos 2) ∷ [],
    )
    ∷ []

abbrev sorted : List Text × List Enumerator
sorted = (
  codes "chc_a" ∷ [],
  (codes "chc_kind", codes "CHC_COUNT", pos 2)
      ∷ (codes "chc_kind", codes "CHC_INT8", pos 1)
      ∷ (codes "chc_kind", codes "CHC_VOID", pos 0)
      ∷ [],
)

kinds_found : sorted_inventory true (kinds ∷ []) ≡ some sorted
unfolding sorted_inventory inventory sort insert_sorted dedup text_lt text_eq enumerator_lt
    enumerator_eq tagged_variants scan_declared_functions scan_functions declarations_of
    before_first starts_with extract_enums scan strip_comments strip as_bytes enum_at strip_prefix
    is_ident_byte tag_of span is_ascii_whitespace is_ascii_alphabetic body_of parse_enum_body
    read_variants read_variant split trim trim_end_matches trim_start_matches is_whitespace add_one
    split_once
kinds_found = refl

kinds_blocks : extract_enums true (declarations_of kinds) ≡ some blocks
unfolding sorted_inventory inventory sort insert_sorted dedup text_lt text_eq enumerator_lt
    enumerator_eq tagged_variants scan_declared_functions scan_functions declarations_of
    before_first starts_with extract_enums scan strip_comments strip as_bytes enum_at strip_prefix
    is_ident_byte tag_of span is_ascii_whitespace is_ascii_alphabetic body_of parse_enum_body
    read_variants read_variant split trim trim_end_matches trim_start_matches is_whitespace add_one
    split_once
kinds_blocks = refl

kinds_pass : every_type_kind_maps_to_a_variant header sorted.1 ≡ true
unfolding every_type_kind_maps_to_a_variant enumerators is_sentinel ends_with text_eq Kind.from_raw
    as_c_int
kinds_pass = refl

int8_real : IsSentinel (codes "CHC_INT8") → ⊥
unfolding ends_with text_eq
int8_real is = cc ((ends_with-IsSentinel (codes "CHC_INT8")).1 is)

sorted_inventory-HasVariant_example : HasVariant header kind (codes "CHC_INT8") (pos 1)
unfolding tagged_variants
sorted_inventory-HasVariant_example =
    sorted_inventory-HasVariant header header-IsHeader true (kinds ∷ []) sorted kind kinds_found
      kinds_pass kinds blocks (codes "CHC_INT8") (pos 1) (inl refl) kinds_blocks (inr (inl refl))
      int8_real (omega arith)
