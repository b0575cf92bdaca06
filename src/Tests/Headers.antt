-- ===== src/Tests/Headers.antt =====
-- Three small headers.
use clickhouse_c_rs.Base.{refl, inr, false, List, [], ◌∷◌}
use clickhouse_c_rs.Base.Int.{negsuc}
use clickhouse_c_rs.BuildScript.Text.{
  codes, as_bytes, is_ascii_alphabetic, is_ascii_whitespace, is_ident_byte, is_whitespace,
  strip_prefix,
}
use clickhouse_c_rs.BuildScript.Comments.Pieces.{plain}
use clickhouse_c_rs.BuildScript.CInteger.Grammar.{minus, IsLiteral}
use clickhouse_c_rs.BuildScript.Enums.Entries.{implicit, explicit}
use clickhouse_c_rs.BuildScript.Enums.Items.{Item, other, anonymous, tagged, header_text}
use clickhouse_c_rs.BuildScript.Emit.Stated.{IsSource}

abbrev pub core_items : List Item
core_items =
    anonymous (codes " ") (implicit (codes " ") (codes "CHC_OK") []) (
      explicit (codes " ") (codes "CHC_ERR_IO") (codes " ") (codes " ") (codes "-1") (codes " ")
        (negsuc 0)
      ∷ [])
    ∷ other (codes "; ")
    ∷ tagged (codes " ") (codes "chc_kind") (codes " ") (implicit (codes " ") (codes "CHC_VOID") [])
        (implicit (codes " ") (codes "CHC_COUNT") (codes " ") ∷ [])
    ∷ other (codes "; ")
    ∷ tagged (codes " ") (codes "chc_col_kind") (codes " ")
        (implicit (codes " ") (codes "CHC_COL_FIXED") []) []
    ∷ other (codes "; ")
    ∷ tagged (codes " ") (codes "chc_interval_unit") (codes " ")
        (implicit (codes " ") (codes "CHC_SECOND") []) []
    ∷ other (codes ";\n#define CHC_ERR_MSG_LEN 512\n")
    ∷ []

abbrev pub comp_items : List Item
comp_items =
    tagged (codes " ") (codes "chc_compression") (codes " ")
      (implicit (codes " ") (codes "CHC_COMP_NONE") []) []
    ∷ other (codes ";\n")
    ∷ []

abbrev pub client_items : List Item
client_items =
    tagged (codes " ") (codes "chc_packet_kind") (codes " ")
      (implicit (codes " ") (codes "CHC_PKT_HELLO") []) []
    ∷ other (codes ";\n#define CHC_SERVER_MIN_REVISION 1\n#define CHC_CLIENT_REVISION 2\n")
    ∷ []

minus_one : IsLiteral (codes "-1") (negsuc 0)
minus_one = (minus, false, 1, [], [], refl, inr refl, refl, refl)

pub core-IsSource : IsSource (header_text core_items) core_items
unfolding as_bytes is_whitespace is_ident_byte is_ascii_alphabetic is_ascii_whitespace strip_prefix
core-IsSource = record {
  pieces = plain (header_text core_items) ∷ [];
  made = refl;
  formed = refl;
  kept = refl;
  are_items = (
    (refl, ((refl, refl, refl), ((refl, refl, refl, refl, refl, refl, refl, minus_one), tt)), refl),
    (
      (refl, refl),
      (
        (refl, (λ e. cc e), refl, refl, ((refl, refl, refl), ((refl, refl, refl), tt)), refl),
        (
          (refl, refl),
          (
            (refl, (λ e. cc e), refl, refl, ((refl, refl, refl), tt), refl),
            (
              (refl, refl),
              ((refl, (λ e. cc e), refl, refl, ((refl, refl, refl), tt), refl), ((refl, refl), tt)),
            ),
          ),
        ),
      ),
    ),
  );
}

pub comp-IsSource : IsSource (header_text comp_items) comp_items
unfolding as_bytes is_whitespace is_ident_byte is_ascii_alphabetic is_ascii_whitespace strip_prefix
comp-IsSource = record {
  pieces = plain (header_text comp_items) ∷ [];
  made = refl;
  formed = refl;
  kept = refl;
  are_items = ((refl, (λ e. cc e), refl, refl, ((refl, refl, refl), tt), refl), ((refl, refl), tt));
}

pub client-IsSource : IsSource (header_text client_items) client_items
unfolding as_bytes is_whitespace is_ident_byte is_ascii_alphabetic is_ascii_whitespace strip_prefix
client-IsSource = record {
  pieces = plain (header_text client_items) ∷ [];
  made = refl;
  formed = refl;
  kept = refl;
  are_items = ((refl, (λ e. cc e), refl, refl, ((refl, refl, refl), tt), refl), ((refl, refl), tt));
}
