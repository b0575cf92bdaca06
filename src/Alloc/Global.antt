-- ===== src/Alloc/Global.antt =====
-- What Rust documents of a `GlobalAlloc`.
use clickhouse_c_rs.Base.{ℕ, ◌≤◌, ◌<◌, ◌≡◌, ◌≢◌, ◌⊎◌, Option, none, some, ◌==◌, if◌then◌else◌}
use clickhouse_c_rs.Alloc.{Layout, GlobalAlloc, max_size, alignment}

-- The map `m'` is `m` with `p` set to `v`.
abbrev pub Updates : {V : Type 0} → (ℕ → Option V) → (ℕ → Option V) → ℕ → Option V → Type 0
Updates m m' p v = (q : ℕ) → m' q ≡ (if q == p then v else m q)

abbrev pub Same : {V : Type 0} → (ℕ → Option V) → (ℕ → Option V) → Type 0
Same m m' = (q : ℕ) → m' q ≡ m q

-- A request for a block is refused by a null pointer, or granted at an address that no block has.
abbrev pub Granted : {V : Type 0} → (ℕ → Option V) → (ℕ → Option V) → ℕ → V → Type 0
Granted m m' p v = ((p ≡ 0) × Same m m') ⊎ ((p ≢ 0) × (m p ≡ none) × Updates m m' p (some v))

-- A moved block leaves its address free, also for the block that it becomes.
abbrev pub Moved : {V : Type 0} → (ℕ → Option V) → (ℕ → Option V) → ℕ → ℕ → V → Type 0
Moved m m' p q v =
    ((q ≡ 0) × Same m m')
    ⊎ ((q ≢ 0)
        × ((if q == p then none else m q) ≡ none)
        × ((r : ℕ) → m' r ≡ (if r == q then some v else if r == p then none else m r)))

pub record IsGlobalAlloc (g : GlobalAlloc) : Type 0 where
  pub alloc_grants :
      (l : Layout) (s : g.State)
      → 0 < l.size
      → (p : ℕ) × (s' : g.State) × (g.alloc l s ≡ some (p, s')) × Granted (g.live s) (g.live s') p l
  pub dealloc_frees :
      (p : ℕ) (l : Layout) (s : g.State)
      → g.live s p ≡ some l
      → (s' : g.State) × (g.dealloc p l s ≡ some s') × Updates (g.live s) (g.live s') p none
  pub realloc_moves :
      (p : ℕ) (l : Layout) (size : ℕ) (s : g.State)
      → g.live s p ≡ some l
      → l.align ≡ alignment
      → 0 < size
      → size ≤ max_size
      → (q : ℕ) × (s' : g.State) × (g.realloc p l size s ≡ some (q, s'))
        × Moved (g.live s) (g.live s') p q (record { size = size; align = l.align })
  -- A new size that exceeds `isize::MAX` when it is rounded up is undefined behaviour.
  pub realloc_too_large :
      (p : ℕ) (l : Layout) (size : ℕ) (s : g.State)
      → l.align ≡ alignment
      → max_size < size
      → g.realloc p l size s ≡ none
