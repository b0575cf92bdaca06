-- ===== src/Tests/Alloc.antt =====
-- A concrete `GlobalAlloc`, and the theorems on the allocator (src/alloc.rs) with it.
use clickhouse_c_rs.Base.{
  ℕ, suc, ◌+◌, ◌-◌, ◌^◌, ◌≤◌, ◌<◌, ◌≡◌, inl, inr, refl, ap, Bool, true, false, ◌&&◌, Option, none,
  some, List, [], ◌∷◌, leb, ◌==◌, if◌then◌else◌, arith, Bool-cases,
}
use mathlib.Core.Option.{some-injective}
use clickhouse_c_rs.Alloc.{Layout, GlobalAlloc, max_size, alloc, realloc, free, layout}
use clickhouse_c_rs.Alloc.Global.{Updates, Granted, Moved, IsGlobalAlloc}
use clickhouse_c_rs.Alloc.Blocks.{Blocks, allocate, reallocate, release, serve, answered, Refines}
use clickhouse_c_rs.Alloc.Session.{Session, start, next, Served, serve-Session, realloc-too_large}

-- The blocks with their addresses. A new one stands above all others.
abbrev Heap : Type 0
Heap = List (ℕ × Layout)

abbrev find : Heap → ℕ → Option Layout
find [] q = none
find ((p, l) ∷ h) q = if q == p then some l else find h q

abbrev remove : ℕ → Heap → Heap
remove p [] = []
remove p ((q, l) ∷ h) = if q == p then remove p h else (q, l) ∷ remove p h

abbrev top : Heap → ℕ
top [] = 1
top ((p, l) ∷ h) = suc p + top h

abbrev same_layout : Option Layout → Layout → Bool
same_layout none l = false
same_layout (some k) l = k.size == l.size && k.align == l.align

-- The null pointer is no block.
abbrev held : Heap → ℕ → Option Layout
held h q = if q == 0 then none else find h q

abbrev bump : GlobalAlloc
bump = record {
  State = Heap;
  live = held;
  alloc = λ l h. some (top h, (top h, l) ∷ h);
  dealloc = λ p l h. if same_layout (held h p) l then some (remove p h) else none;
  realloc = λ p l n h.
      if same_layout (held h p) l && leb n max_size
      then some (top h, (top h, record { size = n; align = l.align }) ∷ remove p h)
      else none;
}

find-top : (h : Heap) (q : ℕ) → top h ≤ q → find h q ≡ none
find-top [] q le = refl
find-top ((p, l) ∷ h) q le = ground (arith, find-top h q)

top-pos : (h : Heap) → 0 < top h
top-pos [] = omega arith
top-pos ((p, l) ∷ h) = omega arith

find-remove : (p : ℕ) (h : Heap) (q : ℕ) → find (remove p h) q ≡ (if q == p then none else find h q)
find-remove p [] q = ground arith
find-remove p ((k, l) ∷ h) q = ground (arith, find-remove p h q)

same_layout_lem : (o : Option Layout) (l : Layout) → o ≡ some l → same_layout o l ≡ true
same_layout_lem none l e = cc
same_layout_lem (some k) l e =
    ground (arith, ap Layout.size (some-injective k l e), ap Layout.align (some-injective k l e))

grants : (l : Layout) (h : Heap) → Granted (held h) (held ((top h, l) ∷ h)) (top h) l
grants l h = inr (
  (λ e. absurd (omega (arith, top-pos h))),
  ground (arith, find-top h (top h)),
  (λ q. ground (arith, top-pos h)),
)

frees : (p : ℕ) (h : Heap) → Updates (held h) (held (remove p h)) p none
frees p h q = ground (arith, find-remove p h q)

moves :
    (p : ℕ) (l : Layout) (h : Heap) → Moved (held h) (held ((top h, l) ∷ remove p h)) p (top h) l
moves p l h = inr (
  (λ e. absurd (omega (arith, top-pos h))),
  ground (arith, find-top h (top h)),
  (λ q. ground (arith, top-pos h, find-remove p h q)),
)

granted_again :
    (p : ℕ) (l : Layout) (n : ℕ) (h : Heap)
    → held h p ≡ some l
    → n ≤ max_size
    → bump.realloc p l n h
      ≡ some (top h, (top h, record { size = n; align = l.align }) ∷ remove p h)
granted_again p l n h e le =
    let room : leb n max_size ≡ true = ground arith in
    rw (same_layout_lem (held h p) l e) (rw room refl)

refused : (p : ℕ) (l : Layout) (n : ℕ) (h : Heap) → max_size < n → bump.realloc p l n h ≡ none
refused p l n h large = elim (Bool-cases (same_layout (held h p) l)) [
  | inl e ↦ let none_left : leb n max_size ≡ false = ground arith in rw e (rw none_left refl)
  | inr e ↦ rw e refl
]

bump-IsGlobalAlloc : IsGlobalAlloc bump
bump-IsGlobalAlloc = record {
  alloc_grants = λ l s pos. (top s, (top s, l) ∷ s, refl, grants l s);
  dealloc_frees = λ p l s e. (remove p s, rw (same_layout_lem (held s p) l e) refl, frees p s);
  realloc_moves = λ p l n s e a pos le. (
    top s,
    (top s, record { size = n; align = l.align }) ∷ remove p s,
    granted_again p l n s e le,
    moves p (record { size = n; align = l.align }) s,
  );
  realloc_too_large = λ p l n s a large. refused p l n s large;
}

abbrev no_blocks : Blocks
no_blocks q = none

empty-Refines : Refines bump no_blocks []
empty-Refines = record { same_blocks = λ q. ground arith; representable = λ q b e. cc }

-- C asks for five bytes, then for twenty in their place, and gives them back.
abbrev grown : Blocks
grown = answered (answered no_blocks (allocate 5) 1) (reallocate 1 5 20) 3

abbrev grown_heap : Heap
grown_heap = (3, record { size = 20; align = 16 }) ∷ []

grown_session : Session bump no_blocks [] grown grown_heap
unfolding serve alloc realloc free layout
grown_session =
    next
      (next start (allocate 5) tt (
        let e : serve bump (allocate 5) [] ≡ some (1, (1, record { size = 5; align = 16 }) ∷ []) =
          refl in
        e))
      (reallocate 1 5 20) (inr (refl, omega arith)) refl

serve-Session_example : Refines bump grown grown_heap × Served bump grown grown_heap (release 3 20)
serve-Session_example =
    serve-Session bump bump-IsGlobalAlloc empty-Refines grown_session (release 3 20) (inr refl)

-- What the realloc of a block of five bytes makes of a size just beyond the limit.
realloc-too_large_example :
    (realloc bump 1 5 (2 ^ 63 - 15) grown_heap ≡ none)
    × (alloc bump (2 ^ 63 - 15) grown_heap ≡ some (0, grown_heap))
realloc-too_large_example =
    realloc-too_large bump bump-IsGlobalAlloc grown_heap 1 5 (2 ^ 63 - 15) (omega arith)
      (omega arith) (omega arith)
