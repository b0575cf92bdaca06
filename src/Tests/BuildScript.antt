-- ===== src/Tests/BuildScript.antt =====
-- Tests of the build script (build.rs).
use clickhouse_c_rs.Base.{◌≡◌, ◌↔◌, ◌⊎◌, refl, none, some, List, [], ◌∷◌, true, false}
use clickhouse_c_rs.Base.Int.{pos, negsuc}
use clickhouse_c_rs.BuildScript.Text.{
  Text, codes, as_bytes, text_eq, starts_with, is_ascii_alphabetic, is_ascii_whitespace,
  is_ident_byte, is_whitespace, span, split, split_once, strip_prefix, trim, trim_end_matches,
  trim_start_matches,
}
use clickhouse_c_rs.BuildScript.Declarations.{
  scan_declared_functions, scan_functions, declarations_of, before_first,
}
use clickhouse_c_rs.BuildScript.Inventory.{
  Enumerator, inventory, sorted_inventory, sort, insert_sorted, dedup, text_lt, enumerator_lt,
  enumerator_eq, tagged_variants,
}
use clickhouse_c_rs.BuildScript.Sorted.{In, Increasing}
use clickhouse_c_rs.BuildScript.Orders.{sorted_inventory_lem}
use clickhouse_c_rs.BuildScript.Comments.{strip, strip_comments}
use clickhouse_c_rs.BuildScript.Comments.Pieces
use clickhouse_c_rs.BuildScript.Comments.Pieces.{
  Piece, plain, line_comment, block_comment, strip_comments-render,
}
use clickhouse_c_rs.BuildScript.CInteger.Grammar.{hex, value, spelled, lower_u}
use clickhouse_c_rs.BuildScript.CInteger.Literal.{parse_c_integer-literal}
use clickhouse_c_rs.BuildScript.Enums.Entries.{Entry, blank, implicit, explicit}
use clickhouse_c_rs.BuildScript.Enums.Items.{Item, other, anonymous, tagged}
use clickhouse_c_rs.BuildScript.CInteger.{
  parse_c_integer, from_str_radix, is_suffix, read_digits, strip_hex, to_digit, to_i64,
}
use clickhouse_c_rs.BuildScript.Enums.{
  extract_enums, scan, add_one, body_of, enum_at, parse_enum_body, read_variant, read_variants,
  tag_of,
}

enums_lem :
    extract_enums true (
      codes
        "// enum x { A }\ntypedef enum chc_k { A, B = 0x10u, /* , */ C, } chc_k; enum { Z = -1 };")
    ≡ some (
        (some (codes "chc_k"), (codes "A", pos 0) ∷ (codes "B", pos 16) ∷ (codes "C", pos 17) ∷ [])
        ∷ (none, (codes "Z", negsuc 0) ∷ [])
        ∷ [])
unfolding extract_enums scan strip_comments strip as_bytes enum_at strip_prefix is_ident_byte tag_of
    span is_ascii_whitespace is_ascii_alphabetic body_of parse_enum_body read_variants read_variant
    split trim trim_end_matches trim_start_matches is_whitespace from_str_radix is_suffix
    parse_c_integer read_digits strip_hex to_digit to_i64 add_one split_once
enums_lem = refl

-- `kind` and its two kinds of comments.
abbrev pieces : List Piece
pieces =
    line_comment (codes " enum x { A }")
    ∷ plain (codes "typedef enum k { A, B = 0x10u, ")
    ∷ block_comment (codes " , **")
    ∷ plain (codes "C, } k; enum { Z = -1 };")
    ∷ []

strip_comments-render_example : strip_comments (Pieces.render pieces []) ≡ Pieces.kept pieces
strip_comments-render_example = strip_comments-render pieces refl

parse_c_integer-literal_example :
    parse_c_integer (codes " 0xfFu\n") ≡ value (hex false) (spelled 16 0 (15 ∷ 15 ∷ []))
unfolding is_whitespace is_suffix parse_c_integer trim trim_start_matches trim_end_matches
    from_str_radix strip_hex read_digits strip_prefix to_digit
parse_c_integer-literal_example =
    parse_c_integer-literal (hex false) false 15 (15 ∷ []) (lower_u ∷ []) (codes " ") (codes "\n")
      refl refl refl

abbrev entry_a : Entry
entry_a = implicit (codes " ") (codes "A") []

abbrev entry_b : Entry
entry_b = explicit (codes " ") (codes "B") (codes " ") (codes " ") (codes "0x10u") [] (pos 16)

abbrev entry_c : Entry
entry_c = implicit (codes " ") (codes "C") []

abbrev entry_z : Entry
entry_z =
    explicit (codes " ") (codes "Z") (codes " ") (codes " ") (codes "-1") (codes " ") (negsuc 0)

abbrev items : List Item
items =
    other (codes "\ntypedef ")
    ∷ tagged (codes " ") (codes "k") (codes " ") entry_a
        (entry_b ∷ entry_c ∷ blank (codes " ") ∷ [])
    ∷ other (codes " k; ")
    ∷ anonymous (codes " ") entry_z []
    ∷ other (codes ";")
    ∷ []

-- Two headers that share an enumerator and a function.
abbrev headers : List Text
headers =
    codes "enum k { B, A }; int chc_b(void); int chc_a (int x);"
    ∷ codes "enum k { B }; int chc_a(int x); int chc__c(void);"
    ∷ []

sorted_inventory_example :
    ((inventory true headers ≡ none) × (sorted_inventory true headers ≡ none))
    ⊎ ((found : List Text × List Enumerator) × (sorted : List Text × List Enumerator) × (inventory
            true headers
          ≡ some found)
        × (sorted_inventory true headers ≡ some sorted)
        × Increasing text_lt sorted.0
        × Increasing enumerator_lt sorted.1
        × ((f : Text) → In f sorted.0 ↔ In f found.0)
        × ((e : Enumerator) → In e sorted.1 ↔ In e found.1))
sorted_inventory_example = sorted_inventory_lem true headers

sorted_headers :
    sorted_inventory true headers
    ≡ some (
      codes "chc_a" ∷ codes "chc_b" ∷ [],
      (codes "k", codes "A", pos 1) ∷ (codes "k", codes "B", pos 0) ∷ [],
    )
unfolding sorted_inventory inventory sort insert_sorted dedup text_lt text_eq enumerator_lt
    enumerator_eq tagged_variants scan_declared_functions scan_functions declarations_of
    before_first starts_with extract_enums scan strip_comments strip as_bytes enum_at strip_prefix
    is_ident_byte tag_of span is_ascii_whitespace is_ascii_alphabetic body_of parse_enum_body
    read_variants read_variant split trim trim_end_matches trim_start_matches is_whitespace add_one
    split_once
sorted_headers = refl
