-- ===== src/BuildScript/Emit/Constants.antt =====
-- The whole text of `sys_constants.rs` (build.rs), of what the parsers give.
use clickhouse_c_rs.Base.{
  ◌≡◌, refl, ap, ◌∙◌, Bool, Option, none, some, List, [], ◌∷◌, ◌++◌, arith, Bool-cases,
  Option-cases, String, inl, inr,
}
use mathlib.Core.Option
use mathlib.Core.Path.{subst}
use clickhouse_c_rs.BuildScript.Text.{Text, codes}
use clickhouse_c_rs.BuildScript.Enums.{Variant, EnumBlock, extract_enums}
use clickhouse_c_rs.BuildScript.Declarations.{extract_define}
use clickhouse_c_rs.BuildScript.Emit.{
  ◌>>=◌, same_tag, find_enum, emit_named, named_like, generate_constants,
}
use clickhouse_c_rs.BuildScript.Emit.ReadBack.{Constant, constants_of, constants, AllNamed}
use clickhouse_c_rs.BuildScript.Emit.Sections.{
  named_text, constants_of-opening, constants_of-defines, constants_of-enums,
}

-- The constants of what the script's parsers give, in the order of the file.
abbrev pub read_constants : Bool → Text → Text → Text → Option (List Constant)
read_constants checks core_src comp_src client_src = do
  core_enums ← extract_enums checks core_src
  errors ← find_enum none core_enums
  kind ← find_enum (some (codes "chc_kind")) core_enums
  col_kind ← find_enum (some (codes "chc_col_kind")) core_enums
  interval_unit ← find_enum (some (codes "chc_interval_unit")) core_enums
  comp_enums ← extract_enums checks comp_src
  compression ← find_enum (some (codes "chc_compression")) comp_enums
  client_enums ← extract_enums checks client_src
  packet_kind ← find_enum (some (codes "chc_packet_kind")) client_enums
  msg_len ← extract_define core_src (codes "CHC_ERR_MSG_LEN")
  server ← extract_define client_src (codes "CHC_SERVER_MIN_REVISION")
  client ← extract_define client_src (codes "CHC_CLIENT_REVISION")
  some (
      constants errors (codes "core::ffi::c_int")
      ++ (constants kind (codes "chc_kind")
          ++ (constants col_kind (codes "chc_col_kind")
              ++ (constants interval_unit (codes "chc_interval_unit")
                  ++ (constants compression (codes "chc_compression")
                      ++ (constants packet_kind (codes "chc_packet_kind")
                          ++ ((codes "CHC_ERR_MSG_LEN", (codes "usize", msg_len))
                              ∷ (codes "CHC_SERVER_MIN_REVISION", (codes "u64", server))
                              ∷ (codes "CHC_CLIENT_REVISION", (codes "u64", client))
                              ∷ [])))))))

-- Every enumerator that the script finds in a header is an identifier.
abbrev pub BlocksNamed : List EnumBlock → Type 0
BlocksNamed [] = Unit {0}
BlocksNamed ((tag, variants) ∷ blocks) = AllNamed variants × BlocksNamed blocks

abbrev pub HeaderNamed : Bool → Text → Type 0
HeaderNamed checks src =
    (enums : List EnumBlock) → extract_enums checks src ≡ some enums → BlocksNamed enums

find_enum-AllNamed :
    (tag : Option Text) (enums : List EnumBlock) (vs : List Variant)
    → BlocksNamed enums
    → find_enum tag enums ≡ some vs
    → AllNamed vs
unfolding find_enum
find_enum-AllNamed tag [] vs named e = cc e
find_enum-AllNamed tag ((n, variants) ∷ enums) vs (first, named) e =
    elim (Bool-cases (same_tag n tag)) [
      | inl here ↦ let same : variants ≡ vs = ground arith in subst AllNamed same first
      | inr later ↦ find_enum-AllNamed tag enums vs named (ground arith)
    ]

module _ {A B C : Type 0} (k : B → C) where
  map-bind :
      (m : Option A) (f : A → Option B) (g : A → Option C)
      → ((a : A) → m ≡ some a → Option.map k (f a) ≡ g a)
      → Option.map k (m >>= f) ≡ (m >>= g)
  map-bind none f g each = refl
  map-bind (some a) f g each = each a refl

module _ (name : String) (header : String) (enums : List EnumBlock) where
  map-emit_named :
      {B C : Type 0} (k : B → C) (f : Text → Option B) (g : List Variant → Option C)
      → ((vs : List Variant)
          → find_enum (some (codes name)) enums ≡ some vs
          → Option.map k (f (named_text name header vs)) ≡ g vs)
      → Option.map k (named_like enums name header >>= f)
        ≡ (find_enum (some (codes name)) enums >>= g)
  unfolding emit_named
  map-emit_named k f g each = elim (Option-cases (find_enum (some (codes name)) enums)) [
    | inl absent ↦ rw absent refl
    | inr (vs, found) ↦ rw found (each vs found)
  ]

pub constants_of-generate_constants :
    (checks : Bool) (core_src comp_src client_src : Text)
    → HeaderNamed checks core_src
    → HeaderNamed checks comp_src
    → HeaderNamed checks client_src
    → Option.map constants_of (generate_constants checks core_src comp_src client_src)
      ≡ read_constants checks core_src comp_src client_src
unfolding generate_constants
constants_of-generate_constants checks core_src comp_src client_src core_named comp_named
      client_named =
    map-bind constants_of (extract_enums checks core_src) _ _ (λ core is_core.
      let named : (tag : Option Text) (vs : List Variant)
          → find_enum tag core ≡ some vs
          → AllNamed vs =
        λ tag vs. find_enum-AllNamed tag core vs (core_named core is_core) in
      map-bind constants_of (find_enum none core) _ _ (λ errors is_errors.
        map-emit_named "chc_kind" "clickhouse.h" core constants_of _ _ (λ kind is_kind.
          map-emit_named "chc_col_kind" "clickhouse.h" core constants_of _ _
            (λ col_kind is_col_kind.
              map-emit_named "chc_interval_unit" "clickhouse.h" core constants_of _ _
                (λ interval_unit is_interval_unit.
                  map-bind constants_of (extract_enums checks comp_src) _ _ (λ comp is_comp.
                    map-emit_named "chc_compression" "clickhouse-compression.h" comp constants_of _
                      _
                      (λ compression is_compression.
                        map-bind constants_of (extract_enums checks client_src) _ _
                          (λ client is_client.
                            map-emit_named "chc_packet_kind" "clickhouse-client.h" client
                              constants_of _ _
                              (λ packet_kind is_packet_kind.
                                map-bind constants_of
                                  (extract_define core_src (codes "CHC_ERR_MSG_LEN")) _ _
                                  (λ msg_len is_len.
                                    map-bind constants_of
                                      (extract_define client_src (codes "CHC_SERVER_MIN_REVISION"))
                                      _ _
                                      (λ server is_server.
                                        map-bind constants_of
                                          (extract_define client_src (codes "CHC_CLIENT_REVISION"))
                                          _ _
                                          (λ revision is_revision. ap some (
                                            constants_of-opening _
                                            ∙ constants_of-enums errors kind col_kind interval_unit
                                                compression packet_kind _ _
                                                (named none errors is_errors)
                                                (named (some (codes "chc_kind")) kind is_kind)
                                                (named (some (codes "chc_col_kind")) col_kind
                                                  is_col_kind)
                                                (named (some (codes "chc_interval_unit"))
                                                  interval_unit is_interval_unit)
                                                (find_enum-AllNamed (some (codes "chc_compression"))
                                                  comp compression (comp_named comp is_comp)
                                                  is_compression)
                                                (find_enum-AllNamed (some (codes "chc_packet_kind"))
                                                  client packet_kind (client_named client is_client)
                                                  is_packet_kind)
                                                (constants_of-defines msg_len server
                                                  revision))))))))))))))
