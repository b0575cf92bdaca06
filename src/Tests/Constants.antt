-- ===== src/Tests/Constants.antt =====
-- The constants file of three small headers.
use clickhouse_c_rs.Base.{
  ℕ, ◌≡◌, ◌≢◌, refl, sym, ◌∙◌, ap, inl, inr, true, false, ◌&&◌, some, none, [], ◌∷◌, ◌++◌, arith,
  take, drop, zero, suc,
}
use mathlib.Core.Option.{some-injective}
use clickhouse_c_rs.Base.Int.{pos, negsuc}
use clickhouse_c_rs.BuildScript.Text.{
  Text, codes, all, is_whitespace, split, trim, trim_end_matches, trim_start_matches,
}
use clickhouse_c_rs.BuildScript.Text.Split.{both}
use clickhouse_c_rs.BuildScript.CInteger.Grammar.{unsigned}
use clickhouse_c_rs.BuildScript.Declarations.{lines}
use clickhouse_c_rs.BuildScript.Enums.Items.{header_text, enums_of}
use clickhouse_c_rs.BuildScript.Emit.Macros.{Mentions, DefinedAs}
use clickhouse_c_rs.BuildScript.Emit.Stated.{First}
use clickhouse_c_rs.BuildScript.Emit.FromHeaders.{States}
use clickhouse_c_rs.Tests.Headers.{core_items, comp_items, client_items}

-- A line that does not begin with a hash sign mentions no macro.
quiet : (name l : Text) (c : ℕ) (t : Text) → trim l ≡ c ∷ t → c ≢ b'#' → Mentions name l → ⊥
quiet name l c t is differs (gap, rest, white, mentions) = differs (cc (sym is ∙ mentions))

no_blank : is_whitespace b'C' ≡ false
unfolding is_whitespace
no_blank = refl

abbrev nth : ℕ → Text → ℕ
nth n [] = 0
nth zero (c ∷ cs) = c
nth (suc n) (c ∷ cs) = nth n cs

abbrev server_line : Text
server_line = codes "#define CHC_SERVER_MIN_REVISION 1"

server_line-trim : trim server_line ≡ server_line
unfolding trim trim_end_matches trim_start_matches is_whitespace
server_line-trim = refl

-- The line of one macro does not mention the other.
other_macro :
    (gap rest : Text)
    → all is_whitespace gap ≡ true
    → server_line ≢ codes "#define" ++ (gap ++ (codes "CHC_CLIENT_REVISION" ++ rest))
other_macro [] rest white is = omega (arith, ap (nth 7) is)
other_macro (x ∷ []) rest white is = omega (arith, ap (nth 12) is)
other_macro (x ∷ y ∷ gap) rest white is =
    let (wx, more) = both (is_whitespace x) (is_whitespace y && all is_whitespace gap) white in
    let (wy, others) = both (is_whitespace y) (all is_whitespace gap) more in
    cc (sym wy ∙ ap (λ t. is_whitespace (nth 8 t)) (sym is) ∙ no_blank)

quiet_server : Mentions (codes "CHC_CLIENT_REVISION") server_line → ⊥
quiet_server (gap, rest, white, is) = other_macro gap rest white (sym server_line-trim ∙ is)

abbrev core_line : Text
core_line =
    codes "enum { CHC_OK, CHC_ERR_IO = -1 }; enum chc_kind { CHC_VOID, CHC_COUNT }; "
    ++ codes "enum chc_col_kind { CHC_COL_FIXED}; enum chc_interval_unit { CHC_SECOND};"

abbrev client_line : Text
client_line = codes "enum chc_packet_kind { CHC_PKT_HELLO};"

quiet_core : Mentions (codes "CHC_ERR_MSG_LEN") core_line → ⊥
unfolding trim trim_end_matches trim_start_matches is_whitespace
quiet_core = quiet (codes "CHC_ERR_MSG_LEN") core_line b'e' (drop 1 core_line) refl (omega arith)

quiet_client : (name : Text) → Mentions name client_line → ⊥
unfolding trim trim_end_matches trim_start_matches is_whitespace
quiet_client name = quiet name client_line b'e' (drop 1 client_line) refl (omega arith)

msg_len-DefinedAs : DefinedAs (codes "CHC_ERR_MSG_LEN") (pos 512) (header_text core_items)
unfolding lines split is_whitespace
msg_len-DefinedAs = (
  core_line ∷ [],
  codes "#define CHC_ERR_MSG_LEN 512",
  [],
  refl,
  (quiet_core, tt),
  (
    [],
    codes " ",
    b' ',
    [],
    codes "512",
    [],
    refl,
    refl,
    refl,
    refl,
    (unsigned, false, 5, 1 ∷ 2 ∷ [], [], refl, inl (omega arith), refl, refl),
    refl,
    refl,
  ),
)

server-DefinedAs : DefinedAs (codes "CHC_SERVER_MIN_REVISION") (pos 1) (header_text client_items)
unfolding lines split is_whitespace
server-DefinedAs = (
  client_line ∷ [],
  server_line,
  codes "#define CHC_CLIENT_REVISION 2" ∷ [],
  refl,
  (quiet_client (codes "CHC_SERVER_MIN_REVISION"), tt),
  (
    [],
    codes " ",
    b' ',
    [],
    codes "1",
    [],
    refl,
    refl,
    refl,
    refl,
    (unsigned, false, 1, [], [], refl, inr refl, refl, refl),
    refl,
    refl,
  ),
)

client-DefinedAs : DefinedAs (codes "CHC_CLIENT_REVISION") (pos 2) (header_text client_items)
unfolding lines split is_whitespace
client-DefinedAs = (
  client_line ∷ server_line ∷ [],
  codes "#define CHC_CLIENT_REVISION 2",
  [],
  refl,
  (quiet_client (codes "CHC_CLIENT_REVISION"), (quiet_server, tt)),
  (
    [],
    codes " ",
    b' ',
    [],
    codes "2",
    [],
    refl,
    refl,
    refl,
    refl,
    (unsigned, false, 2, [], [], refl, inr refl, refl, refl),
    refl,
    refl,
  ),
)

untagged : (t : Text) → none ≢ some t
untagged t e = cc e

apart : (s t : Text) → nth 4 s ≢ nth 4 t → some s ≢ some t
apart s t differ e = differ (ap (nth 4) (some-injective s t e))

kind-First :
    First
      (some (codes "chc_kind"))
      (enums_of core_items)
      ((codes "CHC_VOID", pos 0) ∷ (codes "CHC_COUNT", pos 1) ∷ [])
kind-First = (
  take 1 (enums_of core_items),
  drop 2 (enums_of core_items),
  refl,
  (untagged (codes "chc_kind"), tt),
)

col_kind-First :
    First (some (codes "chc_col_kind")) (enums_of core_items) ((codes "CHC_COL_FIXED", pos 0) ∷ [])
col_kind-First = (
  take 2 (enums_of core_items),
  drop 3 (enums_of core_items),
  refl,
  (
    untagged (codes "chc_col_kind"),
    (apart (codes "chc_kind") (codes "chc_col_kind") (omega arith), tt),
  ),
)

interval_unit-First :
    First
      (some (codes "chc_interval_unit"))
      (enums_of core_items)
      ((codes "CHC_SECOND", pos 0) ∷ [])
interval_unit-First = (
  take 3 (enums_of core_items),
  drop 4 (enums_of core_items),
  refl,
  (
    untagged (codes "chc_interval_unit"),
    (
      apart (codes "chc_kind") (codes "chc_interval_unit") (omega arith),
      (apart (codes "chc_col_kind") (codes "chc_interval_unit") (omega arith), tt),
    ),
  ),
)

abbrev states : States core_items comp_items client_items
states = record {
  errors = (codes "CHC_OK", pos 0) ∷ (codes "CHC_ERR_IO", negsuc 0) ∷ [];
  kind = (codes "CHC_VOID", pos 0) ∷ (codes "CHC_COUNT", pos 1) ∷ [];
  col_kind = (codes "CHC_COL_FIXED", pos 0) ∷ [];
  interval_unit = (codes "CHC_SECOND", pos 0) ∷ [];
  compression = (codes "CHC_COMP_NONE", pos 0) ∷ [];
  packet_kind = (codes "CHC_PKT_HELLO", pos 0) ∷ [];
  msg_len = pos 512;
  server = pos 1;
  client = pos 2;
  is_errors = ([], drop 1 (enums_of core_items), refl, tt);
  is_kind = kind-First;
  is_col_kind = col_kind-First;
  is_interval_unit = interval_unit-First;
  is_compression = ([], [], refl, tt);
  is_packet_kind = ([], [], refl, tt);
  is_msg_len = msg_len-DefinedAs;
  is_server = server-DefinedAs;
  is_client = client-DefinedAs;
}
