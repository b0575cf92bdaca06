-- ===== src/Parity/Covered.antt =====
-- What the tests of src/parity.rs show of the headers that build.rs reads.
use clickhouse_c_rs.Base.{
  ◌<◌, ◌^◌, ◌≡◌, ◌⊎◌, inl, inr, refl, ap, sym, ◌∙◌, Bool, true, false, ◌&&◌, ◌||◌, not, List, [],
  ◌∷◌, ◌++◌, Option, none, some, is_some, Bool-cases, arith,
}
use clickhouse_c_rs.Base.Int.{ℤ, pos, negsuc, ==ℤ_iff}
use clickhouse_c_rs.Sys
use clickhouse_c_rs.BuildScript.Text.{Text, codes, text_eq}
use clickhouse_c_rs.BuildScript.Text.Suffix.{IsSentinel, ends_with-IsSentinel}
use clickhouse_c_rs.BuildScript.Declarations.{declarations_of, scan_declared_functions}
use clickhouse_c_rs.BuildScript.Enums.{EnumBlock, extract_enums}
use clickhouse_c_rs.BuildScript.Emit.{◌>>=◌}
use mathlib.Core.Option.{some-injective}
use mathlib.Core.Path.{subst}
use clickhouse_c_rs.BuildScript.Inventory.{Enumerator, tagged_variants, inventory, sorted_inventory}
use clickhouse_c_rs.BuildScript.Sorted.{In}
use clickhouse_c_rs.BuildScript.Orders.{text_eq_iff, sorted_inventory_lem}
use clickhouse_c_rs.Types.Kind
use clickhouse_c_rs.Types.IntervalUnit
use clickhouse_c_rs.Block.ColumnLayout
use clickhouse_c_rs.Client.PacketKind
use clickhouse_c_rs.Parity.{
  as_c_int, is_sentinel, enumerators, all_values, every_type_kind_maps_to_a_variant,
  every_interval_unit_maps_to_a_variant, every_column_layout_maps_to_a_variant,
  every_server_packet_kind_maps_to_a_variant,
}

module _ {A : Type 0} where
  In-append : (a : A) (xs ys : List A) → In a xs ⊎ In a ys → In a (xs ++ ys)
  In-append a [] ys (inl h) = elim h [ ]
  In-append a [] ys (inr later) = later
  In-append a (x ∷ xs) ys (inl (inl same)) = inl same
  In-append a (x ∷ xs) ys (inl (inr first)) = inr (In-append a xs ys (inl first))
  In-append a (x ∷ xs) ys (inr later) = inr (In-append a xs ys (inr later))

bound-some :
    {A B : Type 0} (m : Option A) (f : A → Option B) {b : B}
    → (m >>= f) ≡ some b
    → (a : A) × (m ≡ some a) × (f a ≡ some b)
bound-some (some a) f e = (a, refl, e)
bound-some none f e = cc

and_left : (a b : Bool) → (a && b) ≡ true → a ≡ true
and_left true b e = refl
and_left false b e = e

or-cases : (a b : Bool) → (a || b) ≡ true → (a ≡ true) ⊎ (b ≡ true)
or-cases true b e = inl refl
or-cases false b e = inr e

abbrev Found : Type 0
Found = List Text × List Enumerator

-- An enumerator of a header is in the inventory.
inventory-In :
    (checks : Bool) (headers : List Text) (found : Found)
    → inventory checks headers ≡ some found
    → (src : Text) (blocks : List EnumBlock) (e : Enumerator) → In src headers
    → extract_enums checks (declarations_of src) ≡ some blocks
    → In e (tagged_variants blocks)
    → In e found.1
unfolding inventory
inventory-In checks [] found is src blocks e at extracted found_in = elim at [ ]
inventory-In checks (header ∷ headers) found is src blocks e at extracted found_in =
    let (fns, is_fns, then_enums) =
      bound-some (scan_declared_functions (declarations_of header)) _ is in
    let (enums, is_enums, then_later) =
      bound-some (extract_enums checks (declarations_of header)) _ then_enums in
    let (later, is_later, made) = bound-some (inventory checks headers) _ then_later in
    let parts : found.1 ≡ tagged_variants enums ++ later.1 = cc made in
    rw parts (
      In-append e (tagged_variants enums) later.1 (elim at [
        | inl same ↦
            let here : enums ≡ blocks = some-injective enums blocks (
              sym is_enums
              ∙ ap (λ t. extract_enums checks (declarations_of t)) (sym same)
              ∙ extracted) in
            inl (rw here found_in)
        | inr there ↦
            inr (inventory-In checks headers later is_later src blocks e there extracted found_in)
      ]))

enumerators-In :
    (enums : List Enumerator) (tag name : Text) (value : ℤ)
    → In (tag, name, value) enums
    → is_sentinel name ≡ false
    → In (name, value) (enumerators enums tag)
unfolding enumerators
enumerators-In [] tag name value at real = elim at [ ]
enumerators-In ((t, n, v) ∷ rest) tag name value (inl same) real =
    let is_tag : text_eq t tag ≡ true = (text_eq_iff t tag).1 (cc same) in
    let same_name : n ≡ name = cc same in
    let is_real : is_sentinel n ≡ false = ap is_sentinel same_name ∙ real in
    rw (is_tag, is_real) (inl (cc same))
enumerators-In ((t, n, v) ∷ rest) tag name value (inr there) real =
    let later = enumerators-In rest tag name value there real in
    elim (Bool-cases (text_eq t tag && not (is_sentinel n))) [
      | inl kept ↦ rw kept (inr later)
      | inr dropped ↦ rw dropped later
    ]

all_values-In :
    (p : Text → ℤ → Bool) (values : List (Text × ℤ)) (name : Text) (value : ℤ)
    → all_values p values ≡ true
    → In (name, value) values
    → p name value ≡ true
all_values-In p [] name value all at = elim at [ ]
all_values-In p ((n, v) ∷ rest) name value all (inl same) =
    let same_name : n ≡ name = cc same in
    let same_value : v ≡ value = cc same in
    rw (sym same_name, sym same_value) (and_left (p n v) _ all)
all_values-In p ((n, v) ∷ rest) name value all (inr there) =
    all_values-In p rest name value (ground arith) there

-- The four enums that the tests compare.
pub data Enum : Type 0 where
  kind interval_unit column_layout packet_kind : Enum

abbrev pub tag_of : Enum → Text
tag_of kind = codes "chc_kind"
tag_of interval_unit = codes "chc_interval_unit"
tag_of column_layout = codes "chc_col_kind"
tag_of packet_kind = codes "chc_packet_kind"

-- The range of `c_int`, in which C keeps the enumerators.
abbrev pub FitsCInt : ℤ → Type 0
FitsCInt (pos n) = n < 2 ^ 31
FitsCInt (negsuc n) = n < 2 ^ 31

as_c_int-FitsCInt : (v : ℤ) → FitsCInt v → as_c_int v ≡ v
unfolding as_c_int
as_c_int-FitsCInt (pos n) fits = ground arith
as_c_int-FitsCInt (negsuc n) fits = ground arith

module _ (h : Sys.Header) where
  -- The test of the enum passes.
  abbrev pub Passes : Enum → List Enumerator → Type 0
  Passes kind enums = every_type_kind_maps_to_a_variant h enums ≡ true
  Passes interval_unit enums = every_interval_unit_maps_to_a_variant h enums ≡ true
  Passes column_layout enums = every_column_layout_maps_to_a_variant h enums ≡ true
  Passes packet_kind enums = every_server_packet_kind_maps_to_a_variant h enums ≡ true

  -- A variant of the Rust enum is defined by a constant with the value, but for the values that the
  -- test leaves out.
  abbrev pub HasVariant : Enum → Text → ℤ → Type 0
  HasVariant kind name value = (v : Kind.Kind) × (h.kind (Kind.discriminant v) ≡ value)
  HasVariant interval_unit name value =
      (value ≡ pos 0)
      ⊎ ((v : IntervalUnit.IntervalUnit) × (h.interval_unit (IntervalUnit.discriminant v) ≡ value))
  HasVariant column_layout name value =
      (v : ColumnLayout.ColumnLayout) × (h.col_kind (ColumnLayout.discriminant v) ≡ value)
  HasVariant packet_kind name value =
      (name ≡ codes "CHC_PKT_HELLO")
      ⊎ ((v : PacketKind.PacketKind) × (h.packet_kind (PacketKind.discriminant v) ≡ value))

  from_some : {V : Type 0} (o : Option V) → is_some o ≡ true → (v : V) × (o ≡ some v)
  from_some (some v) e = (v, refl)
  from_some none e = cc

  Passes-HasVariant :
      Sys.IsHeader h
      → (which : Enum) (enums : List Enumerator) (name : Text) (value : ℤ) → Passes which enums
      → FitsCInt value
      → In (name, value) (enumerators enums (tag_of which))
      → HasVariant which name value
  unfolding every_type_kind_maps_to_a_variant every_interval_unit_maps_to_a_variant
      every_column_layout_maps_to_a_variant every_server_packet_kind_maps_to_a_variant
  Passes-HasVariant valid kind enums name value passes fits at =
      let (v, is) =
        from_some (Kind.from_raw h (as_c_int value)) (all_values-In _ _ name value passes at) in
      (v, (Kind.kind-discriminant h valid (as_c_int value) v).0 is ∙ as_c_int-FitsCInt value fits)
  Passes-HasVariant valid interval_unit enums name value passes fits at =
      elim (or-cases _ _ (all_values-In _ _ name value passes at)) [
        | inl zero_value ↦ inl ((==ℤ_iff value (pos 0)).0 zero_value)
        | inr is_variant ↦
            let (v, is) = from_some (IntervalUnit.from_raw h (as_c_int value)) is_variant in
            inr (
              v,
              (IntervalUnit.interval_unit-discriminant h valid (as_c_int value) v).0 is
                  ∙ as_c_int-FitsCInt value fits,
            )
      ]
  Passes-HasVariant valid column_layout enums name value passes fits at =
      let (v, is) =
        from_some (ColumnLayout.from_raw h (as_c_int value))
          (all_values-In _ _ name value passes at) in
      (
        v,
        (ColumnLayout.col_kind-discriminant h valid (as_c_int value) v).0 is
            ∙ as_c_int-FitsCInt value fits,
      )
  Passes-HasVariant valid packet_kind enums name value passes fits at =
      elim (or-cases _ _ (all_values-In _ _ name value passes at)) [
        | inl hello ↦ inl (sym ((text_eq_iff (codes "CHC_PKT_HELLO") name).0 hello))
        | inr is_variant ↦
            let (v, is) = from_some (PacketKind.from_raw h (as_c_int value)) is_variant in
            inr (
              v,
              (PacketKind.packet_kind-discriminant h valid (as_c_int value) v).0 is
                  ∙ as_c_int-FitsCInt value fits,
            )
      ]

real : (name : Text) → (IsSentinel name → ⊥) → is_sentinel name ≡ false
unfolding is_sentinel
real name no_sentinel = elim (Bool-cases (is_sentinel name)) [
  | inl sentinel ↦ elim (no_sentinel ((ends_with-IsSentinel name).0 sentinel)) [ ]
  | inr other ↦ other
]

-- If the headers' inventory that build.rs writes passes the test of one of the four enums, then each
-- enumerator that the script finds under its tag in one of the headers, other than a sentinel and
-- with a value in the range of `c_int`, has a variant of the Rust enum: one that is defined by a
-- constant with the enumerator's value. Left out are the interval unit 0 and the client's hello packet.
pub sorted_inventory-HasVariant :
    (h : Sys.Header)
    → Sys.IsHeader h
    → (checks : Bool) (headers : List Text) (sorted : Found) (which : Enum)
    → sorted_inventory checks headers ≡ some sorted
    → Passes h which sorted.1
    → (src : Text) (blocks : List EnumBlock) (name : Text) (value : ℤ) → In src headers
    → extract_enums checks (declarations_of src) ≡ some blocks
    → In (tag_of which, name, value) (tagged_variants blocks)
    → (IsSentinel name → ⊥)
    → FitsCInt value
    → HasVariant h which name value
sorted_inventory-HasVariant h valid checks headers sorted which is passes src blocks name value at
      extracted found_in no_sentinel fits =
    elim (sorted_inventory_lem checks headers) [
      | inl (no_found, no_sorted) ↦ cc
      | inr
            (
              found, sorted', is_found, is_sorted, fns_in_order, enums_in_order, fns_same,
              enums_same,
            ) ↦
          let same : sorted' ≡ sorted = cc in
          Passes-HasVariant h valid which sorted.1 name value passes fits (
            enumerators-In sorted.1 (tag_of which) name value
              (subst (λ s. In (tag_of which, name, value) s.1) same
                ((enums_same (tag_of which, name, value)).1 (
                  inventory-In checks headers found is_found src blocks (tag_of which, name, value)
                    at extracted found_in)))
              (real name no_sentinel))
    ]
