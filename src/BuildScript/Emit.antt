-- ===== src/BuildScript/Emit.antt =====
-- The Rust sources that build.rs writes (build.rs): the constants of `sys_constants.rs`.
-- A failed `expect` or a panic is `none`.
pub mod Decimal
pub mod ReadBack
pub mod Sections
pub mod Macros
pub mod Constants
pub mod Stated
pub mod FromHeaders
use clickhouse_c_rs.Base.{
  ℕ, zero, suc, ◌+◌, ◌/◌, ◌%◌, Bool, true, false, ◌||◌, String, Option, none, some, List, [], ◌∷◌,
  ◌++◌, ltb, if◌then◌else◌,
}
use mathlib.Core.Option
use clickhouse_c_rs.Base.Int.{ℤ, pos, negsuc}
use clickhouse_c_rs.BuildScript.Text.{Text, codes, text_eq, ends_with}
use clickhouse_c_rs.BuildScript.Enums.{Variant, EnumBlock, extract_enums}
use clickhouse_c_rs.BuildScript.Declarations.{extract_define}

infixl 5 ◌>>=◌
abbrev pub ◌>>=◌ {ℓ κ} : {A : Type ℓ} {B : Type κ} → Option A → (A → Option B) → Option B
none >>= f = none
some a >>= f = f a

-- `{}` of an integer: at most as many digits as the number counts, behind the text `acc`.
unfoldable pub decimal : ℕ → ℕ → Text → Text
decimal zero n acc = acc
decimal (suc fuel) n acc =
    let shown = (b'0' + n % 10) ∷ acc in
    let more = decimal fuel (n / 10) shown in if ltb n 10 then shown else more

unfoldable pub display : ℤ → Text
display (pos n) = decimal (suc n) n []
display (negsuc n) = b'-' ∷ decimal (suc (suc n)) (suc n) []

-- Count sentinels are no wire values.
unfoldable pub is_sentinel : Text → Bool
is_sentinel name = ends_with (codes "_COUNT") name || ends_with (codes "_LAST") name

unfoldable pub emit_enum : List Variant → Text → Text
emit_enum [] rust_type = []
emit_enum ((name, value) ∷ variants) rust_type =
    let line =
      codes "pub const "
      ++ (name ++ (codes ": " ++ (rust_type ++ (codes " = " ++ (display value ++ codes ";\n"))))) in
    (if is_sentinel name then [] else line) ++ emit_enum variants rust_type

-- `find` by a tag: `none` looks for the enum without one.
abbrev pub same_tag : Option Text → Option Text → Bool
same_tag none none = true
same_tag (some s) (some t) = text_eq s t
same_tag _ _ = false

unfoldable pub find_enum : Option Text → List EnumBlock → Option (List Variant)
find_enum tag [] = none
find_enum tag ((n, variants) ∷ enums) =
    if same_tag n tag then some variants else find_enum tag enums

unfoldable pub emit_named : List EnumBlock → Text → Text → Text → Option Text
emit_named enums enum_name rust_type source_header =
    Option.map
      (λ variants.
        codes "\n// "
        ++ (source_header
            ++ (codes ": enum " ++ (enum_name ++ (codes "\n" ++ emit_enum variants rust_type)))))
      (find_enum (some enum_name) enums)

-- An enum of a header whose Rust type has its name.
abbrev pub named_like : List EnumBlock → String → String → Option Text
named_like enums name header = emit_named enums (codes name) (codes name) (codes header)

abbrev pub define_const : String → String → String → ℤ → Text
define_const header name rust_type value =
    codes "\n// "
    ++ (codes header
        ++ (codes ": #define "
            ++ (codes name
                ++ (codes "\npub const "
                    ++ (codes name
                        ++ (codes ": "
                            ++ (codes rust_type
                                ++ (codes " = " ++ (display value ++ codes ";\n")))))))))

-- The text of `sys_constants.rs`.
unfoldable pub generate_constants : Bool → Text → Text → Text → Option Text
generate_constants checks core_src comp_src client_src = do
  core_enums ← extract_enums checks core_src
  errors ← find_enum none core_enums
  kind ← named_like core_enums "chc_kind" "clickhouse.h"
  col_kind ← named_like core_enums "chc_col_kind" "clickhouse.h"
  interval_unit ← named_like core_enums "chc_interval_unit" "clickhouse.h"
  comp_enums ← extract_enums checks comp_src
  compression ← named_like comp_enums "chc_compression" "clickhouse-compression.h"
  client_enums ← extract_enums checks client_src
  packet_kind ← named_like client_enums "chc_packet_kind" "clickhouse-client.h"
  msg_len ← extract_define core_src (codes "CHC_ERR_MSG_LEN")
  server ← extract_define client_src (codes "CHC_SERVER_MIN_REVISION")
  client ← extract_define client_src (codes "CHC_CLIENT_REVISION")
  some (
      codes "// Generated by build.rs from bundled clickhouse-c headers\n\n"
      ++ (codes "// clickhouse.h: error codes (anonymous enum)\n"
          ++ (emit_enum errors (codes "core::ffi::c_int")
              ++ (kind
                  ++ (col_kind
                      ++ (interval_unit
                          ++ (compression
                              ++ (packet_kind
                                  ++ (define_const "clickhouse.h" "CHC_ERR_MSG_LEN" "usize" msg_len
                                      ++ (define_const "clickhouse-client.h"
                                            "CHC_SERVER_MIN_REVISION" "u64" server
                                          ++ define_const "clickhouse-client.h"
                                              "CHC_CLIENT_REVISION" "u64" client))))))))))
