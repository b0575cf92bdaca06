-- ===== src/BuildScript/Inventory.antt =====
-- The inventories of `parity.rs` that build.rs generates (build.rs). `{:?}` of a `str` is Rust's
-- standard library's, and a parameter.
use clickhouse_c_rs.Base.{
  Bool, true, false, ◌&&◌, ◌||◌, Option, none, some, List, [], ◌∷◌, ◌++◌, ltb, ◌==◌, if◌then◌else◌,
  map,
}
use clickhouse_c_rs.Base.Int.{ℤ, pos, negsuc, ◌==ℤ◌}
use clickhouse_c_rs.BuildScript.Text.{Text, codes, text_eq}
use clickhouse_c_rs.BuildScript.Enums.{EnumBlock, extract_enums}
use clickhouse_c_rs.BuildScript.Declarations.{
  declarations_of, scan_declared_functions, scan_rust_items,
}
use clickhouse_c_rs.BuildScript.Emit.{◌>>=◌, display}

-- The order of `str` is that of its characters.
unfoldable pub text_lt : Text → Text → Bool
text_lt [] [] = false
text_lt [] (d ∷ t) = true
text_lt (c ∷ s) [] = false
text_lt (c ∷ s) (d ∷ t) = ltb c d || (c == d && text_lt s t)

abbrev pub int_lt : ℤ → ℤ → Bool
int_lt (pos a) (pos b) = ltb a b
int_lt (pos a) (negsuc b) = false
int_lt (negsuc a) (pos b) = true
int_lt (negsuc a) (negsuc b) = ltb b a

abbrev pub Enumerator : Type 0
Enumerator = Text × Text × ℤ

unfoldable pub enumerator_lt : Enumerator → Enumerator → Bool
enumerator_lt (tag, name, v) (tag', name', v') =
    text_lt tag tag'
    || (text_eq tag tag' && (text_lt name name' || (text_eq name name' && int_lt v v')))

unfoldable pub enumerator_eq : Enumerator → Enumerator → Bool
enumerator_eq (tag, name, v) (tag', name', v') = text_eq tag tag' && text_eq name name' && v ==ℤ v'

module _ {A : Type 0} where
  -- `sort` is stable, so it is insertion from the back.
  unfoldable pub insert_sorted : (A → A → Bool) → A → List A → List A
  insert_sorted lt a [] = a ∷ []
  insert_sorted lt a (b ∷ bs) =
      let later = b ∷ insert_sorted lt a bs in if lt b a then later else a ∷ b ∷ bs

  unfoldable pub sort : (A → A → Bool) → List A → List A
  sort lt [] = []
  sort lt (a ∷ as') = insert_sorted lt a (sort lt as')

  -- `dedup` keeps the first of equal neighbours.
  abbrev pub keep_first : (A → A → Bool) → A → List A → List A
  keep_first eq a [] = a ∷ []
  keep_first eq a (b ∷ bs) = if eq a b then a ∷ bs else a ∷ b ∷ bs

  unfoldable pub dedup : (A → A → Bool) → List A → List A
  dedup eq [] = []
  dedup eq (a ∷ as') = keep_first eq a (dedup eq as')

abbrev pub tag_or_anonymous : Option Text → Text
tag_or_anonymous none = codes "(anonymous)"
tag_or_anonymous (some tag) = tag

unfoldable pub tagged_variants : List EnumBlock → List Enumerator
tagged_variants [] = []
tagged_variants ((tag, variants) ∷ blocks) =
    map (λ v. (tag_or_anonymous tag, v.0, v.1)) variants ++ tagged_variants blocks

-- The functions and the enumerators of the covered headers, before they are sorted.
unfoldable pub inventory : Bool → List Text → Option (List Text × List Enumerator)
inventory checks [] = some ([], [])
inventory checks (src ∷ srcs) = do
  fns ← scan_declared_functions (declarations_of src)
  enums ← extract_enums checks (declarations_of src)
  later ← inventory checks srcs
  some (fns ++ later.0, tagged_variants enums ++ later.1)

unfoldable pub sorted_inventory : Bool → List Text → Option (List Text × List Enumerator)
sorted_inventory checks headers = do
  found ← inventory checks headers
  some (dedup text_eq (sort text_lt found.0), dedup enumerator_eq (sort enumerator_lt found.1))

unfoldable pub sys_functions : Text → List Text
sys_functions sys_src = sort text_lt (scan_rust_items sys_src (codes "pub fn ") (codes "chc_"))

module _ (debug : Text → Text) where
  abbrev pub str_lines : List Text → Text
  str_lines [] = []
  str_lines (item ∷ items) = codes "    " ++ (debug item ++ (codes ",\n" ++ str_lines items))

  unfoldable pub emit_str_slice : Text → List Text → Text
  emit_str_slice name items =
      codes "pub const "
      ++ (name ++ (codes ": &[&str] = &[\n" ++ (str_lines items ++ codes "];\n\n")))

  abbrev pub enumerator_lines : List Enumerator → Text
  enumerator_lines [] = []
  enumerator_lines ((tag, name, value) ∷ rest) =
      codes "    ("
      ++ (debug tag
          ++ (codes ", "
              ++ (debug name
                  ++ (codes ", " ++ (display value ++ (codes "),\n" ++ enumerator_lines rest))))))

  -- The text of `parity.rs`.
  unfoldable pub generate_parity_inventory : Bool → List Text → Text → Option Text
  generate_parity_inventory checks headers sys_src = do
    found ← sorted_inventory checks headers
    some (
        codes "// Generated by build.rs from bundled clickhouse-c headers\n\n"
        ++ (emit_str_slice (codes "HEADER_FUNCTIONS") found.0
            ++ (emit_str_slice (codes "SYS_FUNCTIONS") (sys_functions sys_src)
                ++ (codes "/// Enum tag, enumerator, and value from represented headers.\n"
                    ++ (codes "pub const HEADER_ENUMERATORS: &[(&str, &str, i64)] = &[\n"
                        ++ (enumerator_lines found.1 ++ codes "];\n"))))))
