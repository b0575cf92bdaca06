-- ===== src/Alloc/Session.antt =====
-- A session of clickhouse-c with the allocator of src/alloc.rs.
use clickhouse_c_rs.Base.{
  ℕ, ◌≤◌, ◌<◌, ◌≡◌, ◌≢◌, ◌⊎◌, inl, inr, refl, ap, sym, ◌∙◌, Option, none, some, ◌==◌, arith,
  Bool-cases, ==_iff,
}
use mathlib.Core.Path.{subst}
use mathlib.Core.Option.{some-injective}
use clickhouse_c_rs.Alloc.{
  GlobalAlloc, max_size, block_layout, alloc, realloc, free, returning_null,
}
use clickhouse_c_rs.Alloc.Global.{IsGlobalAlloc}
use clickhouse_c_rs.Alloc.Blocks.{
  Blocks, Request, allocate, reallocate, release, Allowed, serve, answered, Fresh, Refines,
}
use clickhouse_c_rs.Alloc.Refines.{
  alloc-Refines, free-Refines, realloc-Refines_zero, realloc-Refines, realloc-null, realloc-held,
  alloc-too_large, null_test, ne_test,
}

-- The requests of C, each allowed by the blocks that it holds then, and the answers to them.
pub data Session (g : GlobalAlloc) (m₀ : Blocks) (s₀ : g.State) : Blocks → g.State → Type 0 where
  start : Session g m₀ s₀ m₀ s₀
  next :
      {m : Blocks} {s s' : g.State} {q : ℕ}
      → Session g m₀ s₀ m s
      → (r : Request) → Allowed m r
      → serve g r s ≡ some (q, s')
      → Session g m₀ s₀ (answered m r q) s'

-- The request is answered, with a fresh block if with one, and the blocks agree again.
abbrev pub Served : (g : GlobalAlloc) → Blocks → g.State → Request → Type 0
Served g m s r =
    (q : ℕ) × (s' : g.State) × (serve g r s ≡ some (q, s'))
    × Fresh m r q
    × Refines g (answered m r q) s'

free-null : (g : GlobalAlloc) (p bytes : ℕ) (s : g.State) → p ≡ 0 → free g p bytes s ≡ some s
unfolding free
free-null g p bytes s e = rw (null_test p e, free) refl

widen : {A B C : Type 0} → A ⊎ C → A ⊎ B ⊎ C
widen (inl a) = inl a
widen (inr c) = inr (inr c)

zero-or : (p : ℕ) → (p ≡ 0) ⊎ (p ≢ 0)
zero-or p = elim (Bool-cases (p == 0)) [
  | inl e ↦ inl ((==_iff p 0).0 e)
  | inr e ↦ inr (λ same. cc (sym e ∙ null_test p same))
]

module _ (g : GlobalAlloc) (laws : IsGlobalAlloc g) (m : Blocks) (s : g.State)
    (r : Refines g m s) where
  serve-null : (p old n : ℕ) → p ≡ 0 → Served g m s (reallocate p old n)
  unfolding serve
  serve-null p old n e =
      let (q, s', done, fresh, after) = alloc-Refines g laws m s r n in
      (q, s', realloc-null g s p old n e ∙ done, widen fresh, rw (null_test p e) after)

  release-null : (p bytes : ℕ) → p ≡ 0 → Served g m s (release p bytes)
  unfolding serve free
  release-null p bytes e =
      (0, s, ap (returning_null g) (free-null g p bytes s e), refl, rw (null_test p e) r)

  serve-held :
      (p old n : ℕ) → p ≢ 0 → m p ≡ some old → n ≤ max_size → Served g m s (reallocate p old n)
  unfolding serve
  serve-held p old n ne held le = elim (zero-or n) [
    | inl to_zero ↦
        subst (λ k. Served g m s (reallocate p old k)) (sym to_zero)
          (let (s', done, after) = realloc-Refines_zero g laws m s r p old ne held in
            (0, s', done, inl refl, rw (ne_test p ne) after))
    | inr grows ↦
        let (q, s', done, fresh, after) =
          realloc-Refines g laws m s r p old ne held n (omega arith) le in
        (q, s', done, fresh, rw (ne_test p ne, ne_test n grows) after)
  ]

  serve-Refines : (q : Request) → Allowed m q → Served g m s q
  unfolding serve
  serve-Refines (allocate bytes) h = alloc-Refines g laws m s r bytes
  serve-Refines (reallocate p old n) (inl e) = serve-null p old n e
  serve-Refines (reallocate p old n) (inr (held, le)) = elim (zero-or p) [
    | inl e ↦ serve-null p old n e
    | inr ne ↦ serve-held p old n ne held le
  ]
  serve-Refines (release p bytes) (inl e) = release-null p bytes e
  serve-Refines (release p bytes) (inr held) = elim (zero-or p) [
    | inl e ↦ release-null p bytes e
    | inr ne ↦
        let (s', done, after) = free-Refines g laws m s r p bytes ne held in
        (0, s', ap (returning_null g) done, refl, rw (ne_test p ne) after)
  ]

same-state :
    (g : GlobalAlloc) (m : Blocks) (r : Request) {q q' : ℕ} {s s' : g.State}
    → ◌≡◌ {A = Option (ℕ × g.State)} (some (q, s)) (some (q', s'))
    → Refines g (answered m r q) s
    → Refines g (answered m r q') s'
same-state g m r {q} {q'} {s} {s'} e =
    subst (λ (a : ℕ × g.State). Refines g (answered m r a.0) a.1) (some-injective (q, s) (q', s') e)

module _ (g : GlobalAlloc) (laws : IsGlobalAlloc g) {m₀ : Blocks} {s₀ : g.State}
    (r₀ : Refines g m₀ s₀) where
  Session-Refines : {m : Blocks} {s : g.State} → Session g m₀ s₀ m s → Refines g m s
  Session-Refines start = r₀
  Session-Refines (next {m} {s} {s'} {q} before r h done) =
      let (q', s'', done', fresh, after) = serve-Refines g laws m s (Session-Refines before) r h in
      same-state g m r (sym done' ∙ done) after

  -- From states that agree, and through any requests that C may make of the blocks it holds, Rust's
  -- allocator holds exactly C's blocks, each with the layout that belongs to its size. The next request
  -- that C may make does not run into undefined behaviour; a block that it answers with has the
  -- address of no block that C keeps, and the states agree again.
  pub serve-Session :
      {m : Blocks} {s : g.State}
      → Session g m₀ s₀ m s
      → (r : Request) → Allowed m r
      → Refines g m s × Served g m s r
  serve-Session {m} {s} session r h =
      let agree = Session-Refines session in (agree, serve-Refines g laws m s agree r h)

-- A block that C holds, asked to grow beyond what a `Layout` can hold, is undefined behaviour:
-- `realloc` hands the new size on unchecked. A block of this size is refused by `alloc`.
pub realloc-too_large :
    (g : GlobalAlloc) (laws : IsGlobalAlloc g) (s : g.State) (p old n : ℕ)
    → p ≢ 0
    → old ≤ max_size
    → max_size < n
    → (realloc g p old n s ≡ none) × (alloc g n s ≡ some (0, s))
realloc-too_large g laws s p old n ne fits large = (
  realloc-held g s p old ne fits n (omega arith)
      ∙ laws.realloc_too_large p (block_layout old) n s refl large,
  alloc-too_large g s n large,
)
