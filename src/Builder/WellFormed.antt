-- ===== src/Builder/WellFormed.antt =====
-- Every column tree that `ColumnBuilder` hands out is well formed, however it was put together.
use clickhouse_c_rs.Base.{
  ℕ, ◌*◌, ◌≤◌, ◌<◌, ◌≡◌, ◌≢◌, ◌⊎◌, inl, inr, refl, sym, ◌∙◌, List, [], ◌∷◌, length, map, Bytes,
  Option, some, arith,
}
use mathlib.Core.Path.{subst}
use clickhouse_c_rs.Base.Int.{ℤ}
use clickhouse_c_rs.Error.{>>=-eq-ok, ok}
use clickhouse_c_rs.Builder.{
  Target, Column, Columns, nil, cons, n_rows, of_list, Nodes, validate_low_cardinality_keys,
}
use clickhouse_c_rs.Builder.Build
use clickhouse_c_rs.Builder.Fixed.{fixed_iff, array_iff, string-valid, nullable-valid}
use clickhouse_c_rs.Builder.Keys.{key_at, WireWidth, validate_low_cardinality_keys_iff}
use clickhouse_c_rs.Builder.Offsets.{Rising, last_or}
use clickhouse_c_rs.Builder.Tuple.{AllRows, SameRows, tuple_iff}

-- What the C builders leave in a node, as `src/sys.rs` lays it out: their arguments, with the row
-- count of a nullable column's inner column and that of a tuple's children.
pub record IsNodes (c : Nodes) : Type 0 where
  pub fixed_node : (d : Bytes) (e n : ℕ) → c.chc_build_fixed d e n ≡ Column.fixed n e d
  pub string_node :
      (o : List ℕ) (d : Bytes) (n : ℕ) → c.chc_build_string o d n ≡ Column.string n o d
  pub nullable_node :
      (m : Bytes) (i : Column) → c.chc_build_nullable m i ≡ Column.nullable (n_rows i) m i
  pub array_node : (o : List ℕ) (n : ℕ) (v : Column) → c.chc_build_array o n v ≡ Column.array n o v
  pub tuple_node :
      (first : Column) (others : List Column)
      → SameRows (first ∷ others)
      → c.chc_build_tuple (map some (first ∷ others))
        ≡ Column.tuple (n_rows first) (of_list (first ∷ others))
  pub lc_node :
      (k : ℤ) (ks : Bytes) (n : ℕ) (d : Column)
      → c.chc_build_lc k ks n d ≡ Column.low_cardinality n k ks d

-- A column whose data, offsets, null map and keys agree with its rows and its children, all the way
-- down: what C may read through it lies inside what it borrows.
mutual
  pub data IsColumn (t : Target) : Column → Type 0 where
    fixed : (n e : ℕ) (d : Bytes) → 0 < e → n * e ≤ length d → IsColumn t (Column.fixed n e d)
    string :
        (n : ℕ) (o : List ℕ) (d : Bytes)
        → length o ≡ n
        → Rising 0 o
        → last_or 0 o ≤ length d
        → IsColumn t (Column.string n o d)
    nullable :
        (n : ℕ) (m : Bytes) (i : Column)
        → length m ≡ n
        → n ≡ n_rows i
        → IsColumn t i
        → IsColumn t (Column.nullable n m i)
    array :
        (n : ℕ) (o : List ℕ) (v : Column)
        → length o ≡ n
        → Rising 0 o
        → last_or 0 o ≡ n_rows v
        → IsColumn t v
        → IsColumn t (Column.array n o v)
    tuple : (n : ℕ) (cs : Columns) → cs ≢ nil → AreColumns t n cs → IsColumn t (Column.tuple n cs)
    low_cardinality :
        (n : ℕ) (k : ℤ) (ks : Bytes) (d : Column) (w : ℕ)
        → WireWidth k w
        → length ks ≡ n * w
        → ((i : ℕ) → i < n → key_at t w ks i < n_rows d)
        → IsColumn t d
        → IsColumn t (Column.low_cardinality n k ks d)

  pub data AreColumns (t : Target) : ℕ → Columns → Type 0 where
    no_more : (n : ℕ) → AreColumns t n nil
    and_one :
        (n : ℕ) (c : Column) (cs : Columns)
        → n_rows c ≡ n
        → IsColumn t c
        → AreColumns t n cs
        → AreColumns t n (cons c cs)

-- The column trees that a caller can get: each constructor is a call that succeeded, over slices
-- shorter than `usize` can count, as Rust's slices are.
mutual
  pub data Built (t : Target) (c : Nodes) : Column → Type 0 where
    by_fixed :
        (d : Bytes) (e n : ℕ) (col : Column)
        → length d < t.usize_max
        → Build.fixed t c d e n ≡ ok col
        → Built t c col
    by_string :
        (o : List ℕ) (d : Bytes) (n : ℕ) (col : Column)
        → length d < t.usize_max
        → length o < t.usize_max
        → Build.string t c o d n ≡ ok col
        → Built t c col
    by_nullable :
        (i : Column) (m : Bytes) (col : Column)
        → Built t c i
        → Build.nullable t c i m ≡ ok col
        → Built t c col
    by_array :
        (v : Column) (o : List ℕ) (n : ℕ) (col : Column)
        → Built t c v
        → length o < t.usize_max
        → Build.array t c v o n ≡ ok col
        → Built t c col
    by_tuple :
        (cs : List Column) (ptrs : List (Option Column)) (col : Column)
        → AllBuilt t c cs
        → Build.tuple t c cs ptrs ≡ ok col
        → Built t c col
    by_low_cardinality :
        (d : Column) (k : ℤ) (ks : Bytes) (n : ℕ) (col : Column)
        → Built t c d
        → length ks < t.usize_max
        → Build.low_cardinality t c d k ks n ≡ ok col
        → Built t c col

  pub data AllBuilt (t : Target) (c : Nodes) : List Column → Type 0 where
    none_left : AllBuilt t c []
    one_more :
        (col : Column) (cs : List Column)
        → Built t c col
        → AllBuilt t c cs
        → AllBuilt t c (col ∷ cs)

-- Well formed, with a row count below what `usize` can count.
abbrev Sound : Target → Column → Type 0
Sound t col = IsColumn t col × (n_rows col < t.usize_max)

abbrev AllSound : Target → List Column → Type 0
AllSound t [] = Unit {0}
AllSound t (c ∷ cs) = Sound t c × AllSound t cs

AreColumns-AllRows :
    (t : Target) (n : ℕ) (cs : List Column)
    → AllSound t cs
    → AllRows n cs
    → AreColumns t n (of_list cs)
AreColumns-AllRows t n [] sound same = no_more n
AreColumns-AllRows t n (c ∷ cs) sound same =
    and_one n c (of_list cs) same.0 sound.0.0 (AreColumns-AllRows t n cs sound.1 same.1)

few_rows :
    (n w keys top : ℕ) → (w ≡ 1) ⊎ (w ≡ 2) ⊎ (w ≡ 4) ⊎ (w ≡ 8) → keys ≡ n * w → keys < top → n < top
few_rows n w keys top (inl one) fits small = let e = rw one at fits in omega arith
few_rows n w keys top (inr (inl two)) fits small = let e = rw two at fits in omega arith
few_rows n w keys top (inr (inr (inl four))) fits small = let e = rw four at fits in omega arith
few_rows n w keys top (inr (inr (inr eight))) fits small = let e = rw eight at fits in omega arith

module _ (t : Target) (c : Nodes) (laws : IsNodes c) where
  fixed-Sound :
      (d : Bytes) (e n : ℕ) (col : Column)
      → length d < t.usize_max
      → Build.fixed t c d e n ≡ ok col
      → Sound t col
  fixed-Sound d e n col small made =
      let (wide, covered, is) = (fixed_iff t c d e n col (omega arith)).0 made in
      subst (Sound t) (sym (is ∙ laws.fixed_node d e n)) (fixed n e d wide covered, grind arith)

  string-Sound :
      (o : List ℕ) (d : Bytes) (n : ℕ) (col : Column)
      → length d < t.usize_max
      → length o < t.usize_max
      → Build.string t c o d n ≡ ok col
      → Sound t col
  string-Sound o d n col small few made =
      let (fits, up, covered, is) = string-valid t c o d n col small made in
      subst (Sound t) (sym (is ∙ laws.string_node o d n))
        (string n o d fits up covered, omega arith)

  nullable-Sound :
      (i : Column) (m : Bytes) (col : Column)
      → Sound t i
      → Build.nullable t c i m ≡ ok col
      → Sound t col
  nullable-Sound i m col inner made =
      let (fits, is) = nullable-valid t c i m col made in
      subst (Sound t) (sym (is ∙ laws.nullable_node m i))
        (nullable (n_rows i) m i fits refl inner.0, inner.1)

  array-Sound :
      (v : Column) (o : List ℕ) (n : ℕ) (col : Column)
      → Sound t v
      → length o < t.usize_max
      → Build.array t c v o n ≡ ok col
      → Sound t col
  array-Sound v o n col values few made =
      let (fits, up, last, is) = (array_iff t c v o n col values.1).0 made in
      subst (Sound t) (sym (is ∙ laws.array_node o n v))
        (array n o v fits up last values.0, omega arith)

  low_cardinality-Sound :
      (d : Column) (k : ℤ) (ks : Bytes) (n : ℕ) (col : Column)
      → Sound t d
      → length ks < t.usize_max
      → Build.low_cardinality t c d k ks n ≡ ok col
      → Sound t col
  unfolding Build.low_cardinality
  low_cardinality-Sound d k ks n col dict small made =
      let (u, valid, done) = >>=-eq-ok (validate_low_cardinality_keys t ks k n (n_rows d)) _ made in
      let (w, wide, fits, all) =
        (validate_low_cardinality_keys_iff t ks k n (n_rows d) (omega arith)).0 valid in
      let is : c.chc_build_lc k ks n d ≡ col = cc done in
      subst (Sound t) (sym (laws.lc_node k ks n d) ∙ is) (
        low_cardinality n k ks d w wide fits all dict.0,
        few_rows n w (length ks) t.usize_max wide.1 fits small,
      )

  tuple-Sound :
      (cs : List Column) (ptrs : List (Option Column)) (col : Column)
      → AllSound t cs
      → Build.tuple t c cs ptrs ≡ ok col
      → Sound t col
  tuple-Sound [] ptrs col sound made = absurd (((tuple_iff t c [] ptrs col).0 made).0 refl)
  tuple-Sound (first ∷ others) ptrs col sound made =
      let (ne, fits, same, is) = (tuple_iff t c (first ∷ others) ptrs col).0 made in
      subst (Sound t) (sym (is ∙ laws.tuple_node first others same)) (
        tuple (n_rows first) (of_list (first ∷ others)) (λ e. cc)
            (AreColumns-AllRows t (n_rows first) (first ∷ others) sound (refl, same)),
        sound.0.1,
      )

  mutual
    Built-Sound : (col : Column) → Built t c col → Sound t col
    Built-Sound col (by_fixed d e n _ small made) = fixed-Sound d e n col small made
    Built-Sound col (by_string o d n _ small few made) = string-Sound o d n col small few made
    Built-Sound col (by_nullable i m _ inner made) =
        nullable-Sound i m col (Built-Sound i inner) made
    Built-Sound col (by_array v o n _ values few made) =
        array-Sound v o n col (Built-Sound v values) few made
    Built-Sound col (by_tuple cs ptrs _ all made) =
        tuple-Sound cs ptrs col (AllBuilt-AllSound cs all) made
    Built-Sound col (by_low_cardinality d k ks n _ dict small made) =
        low_cardinality-Sound d k ks n col (Built-Sound d dict) small made

    AllBuilt-AllSound : (cs : List Column) → AllBuilt t c cs → AllSound t cs
    AllBuilt-AllSound cs none_left = tt
    AllBuilt-AllSound cs (one_more col rest b all) = (Built-Sound col b, AllBuilt-AllSound rest all)

  -- Where the C builders store their arguments, every column that any sequence of successful
  -- constructor calls makes, over slices that `usize` can count, is well formed at every level.
  pub Built-IsColumn : (col : Column) → Built t c col → IsColumn t col
  Built-IsColumn col b = (Built-Sound col b).0
