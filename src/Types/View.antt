-- ===== src/Types/View.antt =====
-- src/types.rs: `TypeAst` and `TypeRef`, the views of a parsed type. The C functions that they call
-- are a parameter; a null pointer is `none`.
use clickhouse_c_rs.Base.{
  ℕ, ◌+◌, ◌-◌, ◌^◌, ◌<◌, ◌≡◌, refl, ap, ◌∙◌, Option, none, some, [], ◌∷◌, ◌++◌, Bytes, length, take,
  drop, replicate, min, leb, if◌then◌else◌, arith, length-replicate, take-append,
}
use mathlib.Core.Option
use clickhouse_c_rs.Base.Int.{ℤ}
use clickhouse_c_rs.Base.Utf8.{from_utf8_lossy}
use clickhouse_c_rs.Sys
use clickhouse_c_rs.Error.{Result, ok, err, check}
use clickhouse_c_rs.Types.Kind
use clickhouse_c_rs.Types.Kind.{Kind}
use clickhouse_c_rs.Types.IntervalUnit
use clickhouse_c_rs.Types.IntervalUnit.{IntervalUnit}

-- What a call of `chc_type_parse` leaves: its return code, the type, and the message array.
pub record Parsed (T : Type 0) : Type 0 where
  pub rc : ℤ
  pub out : Option T
  pub msg : Bytes

-- `chc_type *` and the accessors on it. `chc_type_format` fills the buffer that it is given, and
-- returns the length of the name; a null buffer of no bytes is `[]`.
pub record TypeCalls : Type 1 where
  pub T : Type 0
  pub chc_type_parse : Bytes → Parsed T
  pub chc_type_kind : T → ℤ
  pub chc_type_n_children : T → ℕ
  pub chc_type_child : T → ℕ → Option T
  pub chc_type_fixed_size : T → ℤ
  pub chc_type_elem_size : T → ℕ
  pub chc_type_decimal_precision : T → ℤ
  pub chc_type_decimal_scale : T → ℤ
  pub chc_type_datetime64_scale : T → ℤ
  pub chc_type_interval_unit : T → ℤ
  pub chc_type_qbit_dimension : T → ℕ
  pub chc_type_qbit_element_size : T → ℕ
  pub chc_type_timezone : T → Option Bytes
  pub chc_type_name : T → Option Bytes
  pub chc_type_enum_count : T → ℕ
  pub chc_type_enum_at : T → ℕ → Option Bytes × ℤ
  pub chc_type_tuple_field_name : T → ℕ → Option Bytes
  pub chc_type_agg_function : T → Option Bytes
  pub chc_type_format : T → Bytes → ℕ × Bytes

-- Drop of `TypeAst`, over the C heap.
unfoldable drop_type : {W T : Type 0} → (W → T → W) → W → T → W
drop_type chc_type_destroy w raw = chc_type_destroy w raw

module _ (c : TypeCalls) where
  open c use {T}

  -- `expect` of a type behind CHC_OK: `none` is a panic.
  abbrev pub parsed_type : Result (Unit {0}) → Option T → Option (Result T)
  parsed_type (err e) out = some (err e)
  parsed_type (ok u) none = none
  parsed_type (ok u) (some t) = some (ok t)

  unfoldable pub parse : Sys.Header → Bytes → Option (Result T)
  parse h name = let p = c.chc_type_parse name in parsed_type (check h p.rc p.msg) p.out

  unfoldable pub kind : Sys.Header → T → Option Kind
  kind h t = Kind.from_raw h (c.chc_type_kind t)

  unfoldable pub n_children : T → ℕ
  n_children t = c.chc_type_n_children t

  unfoldable pub child : T → ℕ → Option T
  child t i = c.chc_type_child t i

  unfoldable pub fixed_size : T → ℤ
  fixed_size t = c.chc_type_fixed_size t

  unfoldable pub elem_size : T → ℕ
  elem_size t = c.chc_type_elem_size t

  unfoldable pub decimal_precision : T → ℤ
  decimal_precision t = c.chc_type_decimal_precision t

  unfoldable pub decimal_scale : T → ℤ
  decimal_scale t = c.chc_type_decimal_scale t

  unfoldable pub datetime64_scale : T → ℤ
  datetime64_scale t = c.chc_type_datetime64_scale t

  unfoldable pub interval_unit : Sys.Header → T → Option IntervalUnit
  interval_unit h t = IntervalUnit.from_raw h (c.chc_type_interval_unit t)

  unfoldable pub qbit_dimension : T → ℕ
  qbit_dimension t = c.chc_type_qbit_dimension t

  unfoldable pub qbit_element_size : T → ℕ
  qbit_element_size t = c.chc_type_qbit_element_size t

  unfoldable pub timezone : T → Option Bytes
  timezone t = c.chc_type_timezone t

  unfoldable pub name : T → Option Bytes
  name t = c.chc_type_name t

  unfoldable pub enum_count : T → ℕ
  enum_count t = c.chc_type_enum_count t

  unfoldable pub enum_at : T → ℕ → Option (Bytes × ℤ)
  unfolding enum_count
  enum_at t i =
      let (entry, value) = c.chc_type_enum_at t i in
      if leb (enum_count t) i then none else Option.map (λ n. (n, value)) entry

  unfoldable pub tuple_field_name : T → ℕ → Option Bytes
  tuple_field_name t i = c.chc_type_tuple_field_name t i

  unfoldable pub agg_function : T → Option Bytes
  agg_function t = c.chc_type_agg_function t

  -- `needed.saturating_add(1)` zero bytes; then `truncate` and a lossy conversion.
  unfoldable pub format : T → Bytes
  format t =
      let needed = (c.chc_type_format t []).0 in
      let buf = replicate (min (needed + 1) (2 ^ 64 - 1)) 0 in
      from_utf8_lossy (take needed (c.chc_type_format t buf).1)

  -- What C does with the buffer: it returns the length of the type's name, and fills a buffer that has
  -- room for it and for a NUL byte.
  pub record IsFormat (text : T → Bytes) : Type 0 where
    pub needs : (t : T) (buf : Bytes) → (c.chc_type_format t buf).0 ≡ length (text t)
    pub fills :
        (t : T) (buf : Bytes)
        → length (text t) < length buf
        → (c.chc_type_format t buf).1 ≡ text t ++ 0 ∷ drop (length (text t) + 1) buf

  -- With a C formatter that fills a buffer with room for the name and a NUL byte, and a name shorter
  -- than the address space, `format` gives the whole name, with what is not UTF-8 replaced.
  pub format_lem :
      (text : T → Bytes)
      → IsFormat text
      → (t : T) → length (text t) + 1 < 2 ^ 64
      → format t ≡ from_utf8_lossy (text t)
  unfolding format
  format_lem text is t fits =
      let buf : Bytes = replicate (min (length (text t) + 1) (2 ^ 64 - 1)) 0 in
      let room : length (text t) < length buf =
        omega (arith, length-replicate {A = ℕ} (min (length (text t) + 1) (2 ^ 64 - 1)) 0) in
      ap
        (λ n.
          from_utf8_lossy (take n (c.chc_type_format t (replicate (min (n + 1) (2 ^ 64 - 1)) 0)).1))
        (is.needs t [])
      ∙ ap (λ b. from_utf8_lossy (take (length (text t)) b)) (is.fills t buf room)
      ∙ ap from_utf8_lossy
          (take-append (length (text t)) (text t) (0 ∷ drop (length (text t) + 1) buf) refl)
