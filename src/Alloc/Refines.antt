-- ===== src/Alloc/Refines.antt =====
-- The allocator of src/alloc.rs implements what clickhouse-c holds of its blocks.
use clickhouse_c_rs.Base.{
  ℕ, ◌≤◌, ◌<◌, ◌≡◌, ◌≢◌, ◌⊎◌, inl, inr, refl, ap, sym, ◌∙◌, Option, none, some, true, false, max,
  leb, ◌==◌, if◌then◌else◌, arith, Bool-cases, ==_iff,
}
use mathlib.Core.Option
use mathlib.Core.Option.{some-injective}
use clickhouse_c_rs.Alloc.{
  Layout, GlobalAlloc, max_size, alignment, block_layout, layout, alloc, realloc, free,
  returning_null,
}
use clickhouse_c_rs.Alloc.Global.{Updates, Same, IsGlobalAlloc}
use clickhouse_c_rs.Alloc.Blocks.{Blocks, with_block, granted, Refines}

layout_fits : (bytes : ℕ) → bytes ≤ max_size → layout bytes ≡ some (block_layout bytes)
unfolding layout
layout_fits bytes h = ground arith

layout_too_large : (bytes : ℕ) → max_size < bytes → layout bytes ≡ none
unfolding layout
layout_too_large bytes h = ground arith

map-with_block :
    (m : Blocks) (p q : ℕ) (v : Option ℕ)
    → Option.map block_layout (with_block m p v q)
      ≡ (if q == p then Option.map block_layout v else Option.map block_layout (m q))
map-with_block m p q v = elim (Bool-cases (q == p)) [ inl e ↦ rw e refl | inr e ↦ rw e refl ]

-- A new size that is no block's is representable.
with_block_sizes :
    (m : Blocks) (p : ℕ) (v : Option ℕ)
    → ((q b : ℕ) → m q ≡ some b → b ≤ max_size)
    → ((b : ℕ) → v ≡ some b → b ≤ max_size)
    → (q b : ℕ) → with_block m p v q ≡ some b
    → b ≤ max_size
with_block_sizes m p v old new q b e = elim (Bool-cases (q == p)) [
  | inl same ↦ new b (rw same at e)
  | inr other ↦ old q b (rw other at e)
]

-- The layouts of the blocks, as they change with them.
Laid : (ℕ → Option Layout) → Blocks → Type 0
Laid live m = (q : ℕ) → live q ≡ Option.map block_layout (m q)

Laid-with_block :
    (live live' : ℕ → Option Layout) (m : Blocks) (p : ℕ) (v : Option ℕ)
    → Laid live m
    → Updates live live' p (Option.map block_layout v)
    → Laid live' (with_block m p v)
unfolding Laid
Laid-with_block live live' m p v laid up q =
    up q
    ∙ ap (λ o. if q == p then Option.map block_layout v else o) (laid q)
    ∙ sym (map-with_block m p q v)

map-none : (o : Option ℕ) → Option.map block_layout o ≡ none → o ≡ none
map-none none e = refl
map-none (some b) e = cc

-- What holds of the new sizes of a request that C may make.
some-le : (n : ℕ) → n ≤ max_size → (b : ℕ) → some n ≡ some b → b ≤ max_size
some-le n h b e = ground arith

none-le : (b : ℕ) → none ≡ some b → b ≤ max_size
none-le b e = cc

resized : (n : ℕ) → 0 < n → record { size = n; align = alignment } ≡ block_layout n
resized n h = ap (λ k. record { size = k; align = alignment }) {x = n} {y = max n 1} (omega arith)

pub null_test : (p : ℕ) → p ≡ 0 → (p == 0) ≡ true
null_test p e = ground arith

pub ne_test : (p : ℕ) → p ≢ 0 → (p == 0) ≡ false
ne_test p ne = ground arith

module _ (g : GlobalAlloc) (s : g.State) where
  alloc-fits : (bytes : ℕ) → bytes ≤ max_size → alloc g bytes s ≡ g.alloc (block_layout bytes) s
  unfolding alloc
  alloc-fits bytes le = rw (layout_fits bytes le, alloc) refl

  pub alloc-too_large : (bytes : ℕ) → max_size < bytes → alloc g bytes s ≡ some (0, s)
  unfolding alloc
  alloc-too_large bytes lt = rw (layout_too_large bytes lt, alloc) refl

  pub realloc-null : (p old n : ℕ) → p ≡ 0 → realloc g p old n s ≡ alloc g n s
  unfolding realloc
  realloc-null p old n e = rw (null_test p e, realloc) refl

  module _ (p old : ℕ) (ne : p ≢ 0) (le : old ≤ max_size) where
    free-held : free g p old s ≡ g.dealloc p (block_layout old) s
    unfolding free
    free-held = rw (ne_test p ne, layout_fits old le, free) refl

    realloc-to_zero : realloc g p old 0 s ≡ returning_null g (g.dealloc p (block_layout old) s)
    unfolding realloc
    realloc-to_zero = rw (ne_test p ne, layout_fits old le, realloc) refl

    -- The new size is handed on unchecked.
    pub realloc-held : (n : ℕ) → 0 < n → realloc g p old n s ≡ g.realloc p (block_layout old) n s
    unfolding realloc
    realloc-held n pos =
        rw (ne_test p ne, layout_fits old le, ne_test n (λ e. absurd (omega arith)), realloc) refl

-- An address is free but for the block that moves.
at_hand :
    (p q : ℕ) (m : Blocks) (live : ℕ → Option Layout)
    → (live q ≡ none → m q ≡ none)
    → (if q == p then none else live q) ≡ none
    → (q ≡ p) ⊎ (m q ≡ none)
at_hand p q m live held e = elim (Bool-cases (q == p)) [
  | inl same ↦ inl ((==_iff q p).0 same)
  | inr other ↦ inr (held (rw other at e))
]

module _ (g : GlobalAlloc) (laws : IsGlobalAlloc g) (m : Blocks) (s : g.State)
    (r : Refines g m s) where
  open g use {State}

  Refines-Same : (s' : State) → Same (g.live s) (g.live s') → Refines g m s'
  Refines-Same s' same = record {
    same_blocks = λ q. same q ∙ r.same_blocks q;
    representable = r.representable;
  }

  Refines-Updates :
      (s' : State) (p : ℕ) (v : Option ℕ)
      → Updates (g.live s) (g.live s') p (Option.map block_layout v)
      → ((b : ℕ) → v ≡ some b → b ≤ max_size)
      → Refines g (with_block m p v) s'
  unfolding Laid
  Refines-Updates s' p v up fits = record {
    same_blocks = Laid-with_block (g.live s) (g.live s') m p v r.same_blocks up;
    representable = with_block_sizes m p v r.representable fits;
  }

  held_none : (p : ℕ) → g.live s p ≡ none → m p ≡ none
  held_none p e = map-none (m p) (sym (r.same_blocks p) ∙ e)

  held_some : (p bytes : ℕ) → m p ≡ some bytes → g.live s p ≡ some (block_layout bytes)
  held_some p bytes e = r.same_blocks p ∙ ap (Option.map block_layout) e

  -- Of a pointer that is not null the blocks are those that the equations say.
  pub alloc-Refines :
      (bytes : ℕ)
      → (p : ℕ) × (s' : State) × (alloc g bytes s ≡ some (p, s'))
        × ((p ≡ 0) ⊎ (m p ≡ none))
        × Refines g (granted m bytes p) s'
  alloc-Refines bytes = elim (Bool-cases (leb bytes max_size)) [
    | inl fits ↦
        let le : bytes ≤ max_size = ground arith in
        let (p, s', e, answer) = laws.alloc_grants (block_layout bytes) s (omega arith) in
        elim answer [
          | inl (null, same) ↦ (
            p,
            s',
            alloc-fits g s bytes le ∙ e,
            inl null,
            rw (null_test p null) (Refines-Same s' same),
          )
          | inr (ne, free_there, up) ↦ (
            p,
            s',
            alloc-fits g s bytes le ∙ e,
            inr (held_none p free_there),
            rw (ne_test p ne) (Refines-Updates s' p (some bytes) up (some-le bytes le)),
          )
        ]
    | inr large ↦ (0, s, alloc-too_large g s bytes (ground arith), inl refl, r)
  ]

  module _ (p old : ℕ) (ne : p ≢ 0) (held : m p ≡ some old) where
    fits : old ≤ max_size
    fits = r.representable p old held

    pub free-Refines :
        (s' : State) × (free g p old s ≡ some s') × Refines g (with_block m p none) s'
    free-Refines =
        let (s', e, up) = laws.dealloc_frees p (block_layout old) s (held_some p old held) in
        (s', free-held g s p old ne fits ∙ e, Refines-Updates s' p none up none-le)

    pub realloc-Refines_zero :
        (s' : State) × (realloc g p old 0 s ≡ some (0, s')) × Refines g (with_block m p none) s'
    realloc-Refines_zero =
        let (s', e, up) = laws.dealloc_frees p (block_layout old) s (held_some p old held) in
        (
          s',
          realloc-to_zero g s p old ne fits ∙ ap (returning_null g) e,
          Refines-Updates s' p none up none-le,
        )

    Refines-Moved :
        (q n : ℕ) (s' : State)
        → 0 < n
        → n ≤ max_size
        → ((k : ℕ)
            → g.live s' k ≡ (
                if k == q
                then some (record { size = n; align = alignment })
                else if k == p
                then none
                else g.live s k))
        → Refines g (with_block (with_block m p none) q (some n)) s'
    unfolding Laid
    Refines-Moved q n s' pos le up = record {
      same_blocks =
          Laid-with_block (λ k. if k == p then none else g.live s k) (g.live s')
            (with_block m p none) q (some n)
            (Laid-with_block (g.live s) (λ k. if k == p then none else g.live s k) m p none
              r.same_blocks (λ k. refl))
            (λ k.
              up k
              ∙ ap (λ l. if k == q then some l else if k == p then none else g.live s k)
                  (resized n pos));
      representable =
          with_block_sizes (with_block m p none) q (some n)
            (with_block_sizes m p none r.representable none-le) (some-le n le);
    }

    pub realloc-Refines :
        (n : ℕ)
        → 0 < n
        → n ≤ max_size
        → (q : ℕ) × (s' : State) × (realloc g p old n s ≡ some (q, s'))
          × ((q ≡ 0) ⊎ (q ≡ p) ⊎ (m q ≡ none))
          × Refines g (if q == 0 then m else with_block (with_block m p none) q (some n)) s'
    realloc-Refines n pos le =
        let (q, s', e, answer) =
          laws.realloc_moves p (block_layout old) n s (held_some p old held) refl pos le in
        let done = realloc-held g s p old ne fits n pos ∙ e in
        elim answer [
          | inl (null, same) ↦ (q, s', done, inl null, rw (null_test q null) (Refines-Same s' same))
          | inr (there, free_there, up) ↦ (
            q,
            s',
            done,
            inr (at_hand p q m (g.live s) (held_none q) free_there),
            rw (ne_test q there) (Refines-Moved q n s' pos le up),
          )
        ]
