-- ===== src/Alloc/Blocks.antt =====
-- The blocks that clickhouse-c holds, and what the allocator of src/alloc.rs promises it of them.
use clickhouse_c_rs.Base.{ℕ, ◌≤◌, ◌≡◌, ◌⊎◌, Option, none, some, ◌==◌, if◌then◌else◌}
use mathlib.Core.Option
use mathlib.Core.Option.{some-injective}
use clickhouse_c_rs.Alloc.{
  GlobalAlloc, max_size, block_layout, alloc, realloc, free, returning_null,
}

-- The size that C asked for, of each block that it holds.
abbrev pub Blocks : Type 0
Blocks = ℕ → Option ℕ

pub data Request : Type 0 where
  allocate : ℕ → Request
  reallocate : ℕ → ℕ → ℕ → Request
  release : ℕ → ℕ → Request

-- C gives back blocks that it holds, with their sizes. A block is made larger within `max_size`.
abbrev pub Allowed : Blocks → Request → Type 0
Allowed m (allocate bytes) = Unit {0}
Allowed m (reallocate p old_bytes new_bytes) =
    (p ≡ 0) ⊎ ((m p ≡ some old_bytes) × (new_bytes ≤ max_size))
Allowed m (release p bytes) = (p ≡ 0) ⊎ (m p ≡ some bytes)

-- The function of the table that a request calls; `free` returns nothing.
unfoldable pub serve : (g : GlobalAlloc) → Request → g.State → Option (ℕ × g.State)
serve g (allocate bytes) s = alloc g bytes s
serve g (reallocate p old_bytes new_bytes) s = realloc g p old_bytes new_bytes s
serve g (release p bytes) s = returning_null g (free g p bytes s)

abbrev pub with_block : Blocks → ℕ → Option ℕ → Blocks
with_block m p v q = if q == p then v else m q

-- The blocks that C holds after an answer.
abbrev pub granted : Blocks → ℕ → ℕ → Blocks
granted m bytes p = if p == 0 then m else with_block m p (some bytes)

abbrev pub answered : Blocks → Request → ℕ → Blocks
answered m (allocate bytes) p = granted m bytes p
answered m (reallocate p old_bytes new_bytes) q =
    if p == 0
    then granted m new_bytes q
    else if new_bytes == 0
    then with_block m p none
    else if q == 0
    then m
    else with_block (with_block m p none) q (some new_bytes)
answered m (release p bytes) q = if p == 0 then m else with_block m p none

-- A block that is handed out overlaps none that C holds: its address is that of no other block.
abbrev pub Fresh : Blocks → Request → ℕ → Type 0
Fresh m (allocate bytes) p = (p ≡ 0) ⊎ (m p ≡ none)
Fresh m (reallocate p old_bytes new_bytes) q = (q ≡ 0) ⊎ (q ≡ p) ⊎ (m q ≡ none)
Fresh m (release p bytes) q = q ≡ 0

-- Rust's blocks are those that C holds, each with the layout that the table gives back.
pub record Refines (g : GlobalAlloc) (m : Blocks) (s : g.State) : Type 0 where
  pub same_blocks : (q : ℕ) → g.live s q ≡ Option.map block_layout (m q)
  pub representable : (q bytes : ℕ) → m q ≡ some bytes → bytes ≤ max_size
