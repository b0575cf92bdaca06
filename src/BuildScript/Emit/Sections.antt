-- ===== src/BuildScript/Emit/Sections.antt =====
-- The parts of `sys_constants.rs` (build.rs), read again.
use clickhouse_c_rs.Base.{
  ◌≡◌, refl, ap, ◌∙◌, true, List, [], ◌∷◌, ◌++◌, ◌==◌, sym, append_assoc, append-nil, String,
}
use clickhouse_c_rs.Base.Int.{ℤ}
use clickhouse_c_rs.BuildScript.Text.{Text, codes, no_char, strip_prefix, split, is_ident_byte}
use clickhouse_c_rs.BuildScript.Text.Split.{no_char-append}
use clickhouse_c_rs.BuildScript.Enums.{Variant}
use clickhouse_c_rs.BuildScript.Emit.{emit_enum, define_const}
use clickhouse_c_rs.BuildScript.Emit.ReadBack.{
  Constant, constants_of, constants, IsName, AllNamed, emit_line, constants_of-skip,
  constants_of-emit_line, constants_of-emit_enum,
}

abbrev OneLine : Text → Type 0
OneLine t = no_char (λ c. c == b'\n') t ≡ true

-- The comment above an enum.
constants_of-emit_named :
    (name header : Text) (vs : List Variant) (t : Text)
    → OneLine name
    → OneLine header
    → no_char (λ c. c == b' ') name ≡ true
    → AllNamed vs
    → constants_of (
        (codes "\n// "
          ++ (header ++ (codes ": enum " ++ (name ++ (codes "\n" ++ emit_enum vs name)))))
        ++ t)
      ≡ constants vs name ++ constants_of t
unfolding strip_prefix
constants_of-emit_named name header vs t is_name is_header one_word named =
    let comment : Text = codes "// " ++ (header ++ (codes ": enum " ++ name)) in
    let parts : (codes "\n// "
            ++ (header ++ (codes ": enum " ++ (name ++ (codes "\n" ++ emit_enum vs name)))))
          ++ t
        ≡ b'\n' ∷ (comment ++ b'\n' ∷ (emit_enum vs name ++ t)) =
      simp append_assoc in
    ap constants_of parts
    ∙ constants_of-skip [] (comment ++ b'\n' ∷ (emit_enum vs name ++ t)) refl refl
    ∙ constants_of-skip comment (emit_enum vs name ++ t)
        (no_char-append (λ c. c == b'\n') header (codes ": enum " ++ name) is_header is_name) refl
    ∙ constants_of-emit_enum name is_name one_word vs t named

constants_of-define_const :
    (header name rust_type : String) (value : ℤ) (t : Text)
    → OneLine (codes header)
    → IsName (codes name)
    → OneLine (codes name)
    → OneLine (codes rust_type)
    → no_char (λ c. c == b' ') (codes rust_type) ≡ true
    → constants_of (define_const header name rust_type value ++ t)
      ≡ (codes name, (codes rust_type, value)) ∷ constants_of t
unfolding strip_prefix
constants_of-define_const header name rust_type value t is_header is_name name_line one_line
      one_word =
    let comment : Text = codes "// " ++ (codes header ++ (codes ": #define " ++ codes name)) in
    let line : Text = emit_line (codes rust_type) one_line one_word (codes name) value in
    let parts : define_const header name rust_type value ++ t
        ≡ b'\n' ∷ (comment ++ b'\n' ∷ (line ++ t)) =
      simp append_assoc in
    ap constants_of parts
    ∙ constants_of-skip [] (comment ++ b'\n' ∷ (line ++ t)) refl refl
    ∙ constants_of-skip comment (line ++ t)
        (no_char-append (λ c. c == b'\n') (codes header) (codes ": #define " ++ codes name)
          is_header name_line)
        refl
    ∙ constants_of-emit_line (codes rust_type) one_line one_word (codes name) value t is_name

-- The text of an enum that `emit_named` finds.
abbrev pub named_text : String → String → List Variant → Text
named_text name header vs =
    codes "\n// "
    ++ (codes header
        ++ (codes ": enum " ++ (codes name ++ (codes "\n" ++ emit_enum vs (codes name)))))

-- Comments come first.
pub constants_of-opening :
    (t : Text)
    → constants_of (
        codes "// Generated by build.rs from bundled clickhouse-c headers\n\n"
        ++ (codes "// clickhouse.h: error codes (anonymous enum)\n" ++ t))
      ≡ constants_of t
unfolding strip_prefix
constants_of-opening t =
    let error_codes : Text = codes "// clickhouse.h: error codes (anonymous enum)" in
    constants_of-skip (codes "// Generated by build.rs from bundled clickhouse-c headers")
      (b'\n' ∷ (error_codes ++ b'\n' ∷ t)) refl refl
    ∙ constants_of-skip [] (error_codes ++ b'\n' ∷ t) refl refl
    ∙ constants_of-skip error_codes t refl refl

pub constants_of-defines :
    (msg_len server client : ℤ)
    → constants_of (
        define_const "clickhouse.h" "CHC_ERR_MSG_LEN" "usize" msg_len
        ++ (define_const "clickhouse-client.h" "CHC_SERVER_MIN_REVISION" "u64" server
            ++ define_const "clickhouse-client.h" "CHC_CLIENT_REVISION" "u64" client))
      ≡ (codes "CHC_ERR_MSG_LEN", (codes "usize", msg_len))
        ∷ (codes "CHC_SERVER_MIN_REVISION", (codes "u64", server))
        ∷ (codes "CHC_CLIENT_REVISION", (codes "u64", client))
        ∷ []
unfolding split strip_prefix is_ident_byte
constants_of-defines msg_len server client =
    let last : Text = define_const "clickhouse-client.h" "CHC_CLIENT_REVISION" "u64" client in
    let then_last : Text =
      define_const "clickhouse-client.h" "CHC_SERVER_MIN_REVISION" "u64" server ++ last in
    constants_of-define_const "clickhouse.h" "CHC_ERR_MSG_LEN" "usize" msg_len then_last refl refl
      refl refl refl
    ∙ ap (◌∷◌ (codes "CHC_ERR_MSG_LEN", (codes "usize", msg_len))) (
        constants_of-define_const "clickhouse-client.h" "CHC_SERVER_MIN_REVISION" "u64" server last
          refl refl refl refl refl
        ∙ ap (◌∷◌ (codes "CHC_SERVER_MIN_REVISION", (codes "u64", server))) (
            ap constants_of (sym (append-nil last))
            ∙ constants_of-define_const "clickhouse-client.h" "CHC_CLIENT_REVISION" "u64" client []
                refl refl refl refl refl))

-- The text of an enum in the file, before the rest of it.
constants_of-named_text :
    (name header : String) (vs : List Variant) (t : Text) (later : List Constant)
    → OneLine (codes name)
    → OneLine (codes header)
    → no_char (λ c. c == b' ') (codes name) ≡ true
    → AllNamed vs
    → constants_of t ≡ later
    → constants_of (named_text name header vs ++ t) ≡ constants vs (codes name) ++ later
constants_of-named_text name header vs t later is_name is_header one_word named rest =
    constants_of-emit_named (codes name) (codes header) vs t is_name is_header one_word named
    ∙ ap (◌++◌ (constants vs (codes name))) rest

-- The six enums of the file, before the rest of it.
pub constants_of-enums :
    (errors kind col_kind interval_unit compression packet_kind : List Variant) (t : Text)
    (later : List Constant)
    → AllNamed errors
    → AllNamed kind
    → AllNamed col_kind
    → AllNamed interval_unit
    → AllNamed compression
    → AllNamed packet_kind
    → constants_of t ≡ later
    → constants_of (
        emit_enum errors (codes "core::ffi::c_int")
        ++ (named_text "chc_kind" "clickhouse.h" kind
            ++ (named_text "chc_col_kind" "clickhouse.h" col_kind
                ++ (named_text "chc_interval_unit" "clickhouse.h" interval_unit
                    ++ (named_text "chc_compression" "clickhouse-compression.h" compression
                        ++ (named_text "chc_packet_kind" "clickhouse-client.h" packet_kind
                            ++ t))))))
      ≡ constants errors (codes "core::ffi::c_int")
        ++ (constants kind (codes "chc_kind")
            ++ (constants col_kind (codes "chc_col_kind")
                ++ (constants interval_unit (codes "chc_interval_unit")
                    ++ (constants compression (codes "chc_compression")
                        ++ (constants packet_kind (codes "chc_packet_kind") ++ later)))))
constants_of-enums errors kind col_kind interval_unit compression packet_kind t later e k c i z p
      rest =
    constants_of-emit_enum (codes "core::ffi::c_int") refl refl errors _ e
    ∙ ap (◌++◌ (constants errors (codes "core::ffi::c_int"))) (
        constants_of-named_text "chc_kind" "clickhouse.h" kind _ _ refl refl refl k (
          constants_of-named_text "chc_col_kind" "clickhouse.h" col_kind _ _ refl refl refl c (
            constants_of-named_text "chc_interval_unit" "clickhouse.h" interval_unit _ _ refl refl
              refl i
              (constants_of-named_text "chc_compression" "clickhouse-compression.h" compression _ _
                refl refl refl z
                (constants_of-named_text "chc_packet_kind" "clickhouse-client.h" packet_kind t later
                  refl refl refl p rest)))))
