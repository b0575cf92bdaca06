-- ===== src/Alloc.antt =====
-- The allocator that clickhouse-c calls back (src/alloc.rs): the functions of `vtable` over a Rust
-- `GlobalAlloc`, which is a parameter. Pointers are numbers, and 0 is the null pointer.
pub mod Global
pub mod Blocks
pub mod Refines
pub mod Session
use clickhouse_c_rs.Base.{
  ℕ, ◌-◌, ◌^◌, ◌≡◌, Bool, true, false, Option, none, some, max, leb, ◌==◌, if◌then◌else◌,
}

-- `core::alloc::Layout`: the size and the alignment.
pub record Layout : Type 0 where
  pub size : ℕ
  pub align : ℕ

-- `GlobalAlloc`, with its allocated blocks. `none` is undefined behaviour.
pub record GlobalAlloc : Type 1 where
  pub State : Type 0
  pub live : State → ℕ → Option Layout
  pub alloc : Layout → State → Option (ℕ × State)
  pub dealloc : ℕ → Layout → State → Option State
  pub realloc : ℕ → Layout → ℕ → State → Option (ℕ × State)

-- `align_of::<u128>()`.
abbrev pub alignment : ℕ
alignment = 16

-- The largest size that `Layout::from_size_align` accepts at this alignment: rounded up to it, the
-- size is at most `isize::MAX`.
abbrev pub max_size : ℕ
max_size = 2 ^ 63 - 16

abbrev pub block_layout : ℕ → Layout
block_layout bytes = record { size = max bytes 1; align = alignment }

unfoldable pub layout : ℕ → Option Layout
layout bytes = if leb (max bytes 1) max_size then some (block_layout bytes) else none

module _ (g : GlobalAlloc) where
  open g use {State}

  unfoldable pub alloc : ℕ → State → Option (ℕ × State)
  alloc bytes s = elim (layout bytes) [ none ↦ some (0, s) | some l ↦ g.alloc l s ]

  -- After the block is given back the null pointer is returned.
  abbrev pub returning_null : Option State → Option (ℕ × State)
  returning_null none = none
  returning_null (some s) = some (0, s)

  unfoldable pub realloc : ℕ → ℕ → ℕ → State → Option (ℕ × State)
  realloc p old_bytes new_bytes s = if p == 0 then alloc new_bytes s else elim (layout old_bytes) [
    | none ↦ some (0, s)
    | some old_layout ↦
        if new_bytes == 0
        then returning_null (g.dealloc p old_layout s)
        else g.realloc p old_layout new_bytes s
  ]

  unfoldable pub free : ℕ → ℕ → State → Option State
  free p bytes s =
      if p == 0 then some s else elim (layout bytes) [ none ↦ some s | some l ↦ g.dealloc p l s ]
