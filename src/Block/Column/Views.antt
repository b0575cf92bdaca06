-- ===== src/Block/Column/Views.antt =====
-- Every view of a column stays inside the memory that C published.
use clickhouse_c_rs.Base.{
  ℕ, zero, suc, ◌*◌, ◌%◌, ◌+◌, ◌≤◌, ◌<◌, ◌≡◌, refl, sym, List, Bytes, Option, none, some, length,
  take, min, leb, ◌==◌, arith, length-take, Bool-cases, inl, inr, ==_iff,
}
use clickhouse_c_rs.Base.Int.{ℤ, pos, negsuc}
use clickhouse_c_rs.Sys
use clickhouse_c_rs.Block.ColumnLayout.{ColumnLayout}
use clickhouse_c_rs.Block.Column.{
  RawColumn, LowCardinalityView, slice_or_none, try_some, checked_mul, wrapped, positive, if_fixed,
  if_string, if_nullable, if_array, if_low_cardinality, layout, data_of, fixed, string, null_map,
  array_offsets, low_cardinality,
}
use clickhouse_c_rs.Builder.{Target}
use clickhouse_c_rs.Builder.Offsets.{last_or}

-- Memory holds at least `n` elements, unless the pointer is null.
abbrev pub Holds : {A : Type 0} → ℕ → Option (List A) → Type 0
Holds n none = Unit {0}
Holds n (some memory) = n ≤ length memory

-- The bytes of the keys, where the key size is positive.
abbrev pub keys_bytes : ℕ → ℤ → ℕ
keys_bytes rows (pos k) = rows * k
keys_bytes rows (negsuc k) = 0

-- What C promises of a column's memory.
pub record Published {P : Type 0} (c : RawColumn P) : Type 0 where
  pub fixed_holds : Holds (c.n_rows * c.elem_size) c.fixed_data
  pub offsets_hold : Holds c.n_rows c.string_offsets
  pub data_holds : Holds c.str_bytes c.string_data
  pub map_holds : Holds c.n_rows c.null_map
  pub array_holds : Holds c.n_rows c.array_offsets
  pub keys_hold : Holds (keys_bytes c.n_rows c.lc_key_size) c.lc_keys

-- A slice that is there has the length `n`.
abbrev pub HasLength : {A : Type 0} → ℕ → Option (List A) → Type 0
HasLength n none = Unit {0}
HasLength n (some slice) = length slice ≡ n

abbrev pub FixedView : ℕ → ℕ → Option (ℕ × Bytes) → Type 0
FixedView rows size none = Unit {0}
FixedView rows size (some (e, bytes)) = (e ≡ size) × (length bytes ≡ rows * size)

-- The data reaches to the last offset, and never past what is allocated.
abbrev pub StringView : ℕ → ℕ → ℕ → Option (List ℕ × Bytes) → Type 0
StringView top rows capacity none = Unit {0}
StringView top rows capacity (some (offsets, bytes)) =
    (length offsets ≡ rows)
    × (length bytes ≡ min (last_or 0 offsets % (top + 1)) capacity)
    × (length bytes ≤ capacity)

abbrev pub KeysView : {P : Type 0} → ℕ → ℤ → Option (LowCardinalityView P) → Type 0
KeysView rows size none = Unit {0}
KeysView rows size (some view) =
    (0 < view.key_size) × (size ≡ pos view.key_size) × (length view.keys ≡ rows * view.key_size)

slice-HasLength :
    {A : Type 0} (p : Option (List A)) (n m : ℕ)
    → Holds m p
    → n ≤ m
    → HasLength n (slice_or_none p n)
slice-HasLength none n m holds within = tt
slice-HasLength (some memory) n m holds within = omega (arith, length-take n memory)

fixed_slice :
    (p : Option Bytes) (rows size : ℕ)
    → Holds (rows * size) p
    → FixedView rows size (try_some (slice_or_none p (rows * size)) (λ bytes. some (size, bytes)))
fixed_slice none rows size holds = tt
fixed_slice (some memory) rows size holds = (refl, omega (arith, length-take (rows * size) memory))

data_slice :
    (p : Option Bytes) (n capacity : ℕ)
    → n ≤ capacity
    → Holds capacity p
    → HasLength n (data_of p n)
data_slice p n capacity within holds = elim (Bool-cases (n == 0)) [
  | inl e ↦ rw e (sym ((==_iff n 0).0 e))
  | inr e ↦ rw e (slice-HasLength p n capacity holds within)
]

string_parts :
    (top rows capacity : ℕ) (offsets : List ℕ) (p : Option Bytes)
    → length offsets ≡ rows
    → HasLength (min (last_or 0 offsets % (top + 1)) capacity) p
    → StringView top rows capacity (try_some p (λ bytes. some (offsets, bytes)))
string_parts top rows capacity offsets none few held = tt
string_parts top rows capacity offsets (some bytes) few held = (few, held, omega arith)

string_slices :
    (t : Target) (rows capacity : ℕ) (os : Option (List ℕ)) (p : Option Bytes)
    → Holds rows os
    → Holds capacity p
    → StringView t.usize_max rows capacity (
        try_some (slice_or_none os rows) (λ offsets.
          try_some
            (data_of p (min (wrapped t (last_or 0 offsets)) capacity))
            (λ bytes. some (offsets, bytes))))
string_slices t rows capacity none p few holds = tt
string_slices t rows capacity (some memory) p few holds =
    let offsets = take rows memory in
    let n = min (wrapped t (last_or 0 offsets)) capacity in
    string_parts t.usize_max rows capacity offsets (data_of p n)
      (omega (arith, length-take rows memory)) (data_slice p n capacity (omega arith) holds)

keys_slice :
    {P : Type 0} (p : Option Bytes) (rows k : ℕ) (dict : P)
    → Holds (rows * suc k) p
    → KeysView rows (pos (suc k)) (
        try_some
          (slice_or_none p (rows * suc k))
          (λ keys. some (record { key_size = suc k; keys = keys; dict = dict })))
keys_slice none rows k dict holds = tt
keys_slice (some memory) rows k dict holds =
    (omega arith, refl, omega (arith, length-take (rows * suc k) memory))

keys_parts :
    {P : Type 0} (t : Target) (p : Option Bytes) (rows : ℕ) (size : ℤ) (d : Option P)
    → Holds (keys_bytes rows size) p
    → KeysView rows size (
        try_some (positive size) (λ key_size. try_some d (λ dict.
          try_some (checked_mul t rows key_size) (λ keys_len.
            try_some
              (slice_or_none p keys_len)
              (λ keys. some (record { key_size = key_size; keys = keys; dict = dict }))))))
keys_parts t p rows (pos zero) d holds = tt
keys_parts t p rows (negsuc k) d holds = tt
keys_parts t p rows (pos (suc k)) none holds = tt
keys_parts t p rows (pos (suc k)) (some dict) holds =
    elim (Bool-cases (leb (rows * suc k) t.usize_max)) [
      | inl e ↦ rw e (keys_slice p rows k dict holds)
      | inr e ↦ rw e tt
    ]

module _ (h : Sys.Header) (t : Target) {P : Type 0} where
  fixed_view :
      (c : RawColumn P) (l : Option ColumnLayout)
      → Published c
      → FixedView c.n_rows c.elem_size (
          if_fixed l (
            try_some
              (checked_mul t c.n_rows c.elem_size)
              (λ n. try_some (slice_or_none c.fixed_data n) (λ bytes. some (c.elem_size, bytes)))))
  fixed_view c none holds = tt
  fixed_view c (some ColumnLayout.fixed) holds =
      elim (Bool-cases (leb (c.n_rows * c.elem_size) t.usize_max)) [
        | inl e ↦ rw e (fixed_slice c.fixed_data c.n_rows c.elem_size holds.fixed_holds)
        | inr e ↦ rw e tt
      ]
  fixed_view c (some _) holds = tt

  string_view :
      (c : RawColumn P) (l : Option ColumnLayout) (v : Option (List ℕ × Bytes))
      → StringView t.usize_max c.n_rows c.str_bytes v
      → StringView t.usize_max c.n_rows c.str_bytes (if_string l v)
  string_view c none v held = tt
  string_view c (some ColumnLayout.string) v held = held
  string_view c (some _) v held = tt

  null_map_view :
      (c : RawColumn P) (l : Option ColumnLayout) (v : Option Bytes)
      → HasLength c.n_rows v
      → HasLength c.n_rows (if_nullable l v)
  null_map_view c none v held = tt
  null_map_view c (some ColumnLayout.nullable) v held = held
  null_map_view c (some _) v held = tt

  array_view :
      (c : RawColumn P) (l : Option ColumnLayout) (v : Option (List ℕ))
      → HasLength c.n_rows v
      → HasLength c.n_rows (if_array l v)
  array_view c none v held = tt
  array_view c (some ColumnLayout.array) v held = held
  array_view c (some _) v held = tt

  keys_view :
      (c : RawColumn P) (l : Option ColumnLayout) (v : Option (LowCardinalityView P))
      → KeysView c.n_rows c.lc_key_size v
      → KeysView c.n_rows c.lc_key_size (if_low_cardinality l v)
  keys_view c none v held = tt
  keys_view c (some ColumnLayout.low_cardinality) v held = held
  keys_view c (some _) v held = tt

  -- Where C's memory is as large as it promises, every view that is there lies inside it and has the
  -- right length: fixed data its rows times its width, null maps and array offsets one element for
  -- each row, keys their rows times a positive width, and strings one offset for each row, with data
  -- up to the last offset but never past what C allocated, whatever the offsets say.
  pub column_views :
      (c : RawColumn P)
      → Published c
      → FixedView c.n_rows c.elem_size (fixed h t c)
        × StringView t.usize_max c.n_rows c.str_bytes (string h t c)
        × HasLength c.n_rows (null_map h t c)
        × HasLength c.n_rows (array_offsets h t c)
        × KeysView c.n_rows c.lc_key_size (low_cardinality h t c)
  unfolding fixed string null_map array_offsets low_cardinality
  column_views c holds =
      let l = layout h t c in
      (
        fixed_view c l holds,
        string_view c l _ (
            string_slices t c.n_rows c.str_bytes c.string_offsets c.string_data holds.offsets_hold
              holds.data_holds),
        null_map_view c l _
            (slice-HasLength c.null_map c.n_rows c.n_rows holds.map_holds (omega arith)),
        array_view c l _
            (slice-HasLength c.array_offsets c.n_rows c.n_rows holds.array_holds (omega arith)),
        keys_view c l _ (keys_parts t c.lc_keys c.n_rows c.lc_key_size c.lc_dict holds.keys_hold),
      )
