-- ===== src/Builder/Tuple.antt =====
-- Tuples: the scratch array ends up holding the children, in order.
use clickhouse_c_rs.Base.{
  ℕ, ◌+◌, ◌≡◌, ◌≢◌, ◌↔◌, refl, ap, sym, ◌∙◌, inl, inr, List, [], ◌∷◌, ◌++◌, length, set, map,
  Option, some, arith, ◌==◌, ==_iff, Bool-cases, append_assoc, length-append,
}
use clickhouse_c_rs.Error.{>>=-eq-ok, ok}
use clickhouse_c_rs.Builder.{Target, Column, n_rows, Nodes}
use clickhouse_c_rs.Builder.Build.{tuple_from, tuple}

abbrev pub AllRows : ℕ → List Column → Type 0
AllRows rows [] = Unit {0}
AllRows rows (c ∷ cs) = (n_rows c ≡ rows) × AllRows rows cs

-- All children have the row count of the first.
abbrev pub SameRows : List Column → Type 0
SameRows [] = Unit {0}
SameRows (first ∷ others) = AllRows (n_rows first) others

set-append :
    (before after : List (Option Column)) (old new : Option Column)
    → set (before ++ old ∷ after) (length before) new ≡ before ++ new ∷ after
set-append [] after old new = refl
set-append (x ∷ before) after old new = ap (◌∷◌ x) (set-append before after old new)

module _ (t : Target) (c : Nodes) where
  -- The children whose turn is still to come fill the rest of the array.
  tuple_from-fills :
      (children : List Column) (before after : List (Option Column)) (i rows : ℕ)
      → i ≡ length before
      → length after ≡ length children
      → AllRows rows children
      → tuple_from t c i rows children (before ++ after) ≡ ok (before ++ map some children)
  unfolding tuple_from
  tuple_from-fills [] before [] i rows at fits same = refl
  tuple_from-fills [] before (p ∷ after) i rows at fits same = absurd (omega arith)
  tuple_from-fills (child ∷ children) before [] i rows at fits same = absurd (omega arith)
  tuple_from-fills (child ∷ children) before (p ∷ after) i rows at fits same =
      let one : (before ++ some child ∷ []) ++ after ≡ before ++ some child ∷ after =
        append_assoc before (some child ∷ []) after in
      let stored : set (before ++ p ∷ after) i (some child) ≡ (before ++ some child ∷ []) ++ after =
        rw at (set-append before after p (some child)) ∙ sym one in
      rw ((==_iff (n_rows child) rows).1 same.0) (
        ap (tuple_from t c (i + 1) rows children) stored
        ∙ tuple_from-fills children (before ++ some child ∷ []) after (i + 1) rows
            (omega (arith, length-append before (some child ∷ []))) (omega arith) same.1
        ∙ ap ok (append_assoc before (some child ∷ []) (map some children)))

  tuple_from-AllRows :
      (children : List Column) (ptrs filled : List (Option Column)) (i rows : ℕ)
      → tuple_from t c i rows children ptrs ≡ ok filled
      → AllRows rows children
  unfolding tuple_from
  tuple_from-AllRows [] ptrs filled i rows e = tt
  tuple_from-AllRows (child ∷ children) ptrs filled i rows e =
      elim (Bool-cases (n_rows child == rows)) [
        | inl same ↦ (
          (==_iff (n_rows child) rows).0 same,
          tuple_from-AllRows children (set ptrs i (some child)) filled (i + 1) rows (rw same at e),
        )
        | inr differs ↦ cc (rw differs at e)
      ]

  -- A tuple is built exactly of one or more children with one row count and as many scratch pointers,
  -- and C is then handed the children's nodes in order, whatever the scratch held.
  pub tuple_iff :
      (children : List Column) (ptrs : List (Option Column)) (col : Column)
      → (tuple t c children ptrs ≡ ok col) ↔ (
          (children ≢ [])
          × (length ptrs ≡ length children)
          × SameRows children
          × (col ≡ c.chc_build_tuple (map some children)))
  unfolding tuple
  tuple_iff [] ptrs col = ((λ e. cc), (λ h. absurd (h.0 refl)))
  tuple_iff (first ∷ others) ptrs col = (built, builds)
    where
      cs : List Column
      cs = first ∷ others

      built :
          tuple t c cs ptrs ≡ ok col
          → (cs ≢ [])
            × (length ptrs ≡ length cs)
            × SameRows cs
            × (col ≡ c.chc_build_tuple (map some cs))
      built e = elim (Bool-cases (length ptrs == length cs)) [
        | inr differs ↦ cc (rw differs at e)
        | inl fits ↦
            let long = (==_iff (length ptrs) (length cs)).0 fits in
            let (filled, looped, done) =
              >>=-eq-ok (tuple_from t c 0 (n_rows first) cs ptrs)
                (λ filled. ok (c.chc_build_tuple filled)) (rw fits at e) in
            let same = tuple_from-AllRows cs ptrs filled 0 (n_rows first) looped in
            let all : ok filled ≡ ok (map some cs) =
              sym looped ∙ tuple_from-fills cs [] ptrs 0 (n_rows first) refl long same in
            let filled_all : filled ≡ map some cs = cc all in
            ((λ x. cc), long, same.1, rw (← filled_all) (cc done))
      ]

      builds :
          (cs ≢ [])
            × (length ptrs ≡ length cs)
            × SameRows cs
            × (col ≡ c.chc_build_tuple (map some cs))
          → tuple t c cs ptrs ≡ ok col
      builds (ne, long, same, is) = rw ((==_iff (length ptrs) (length cs)).1 long) (
          rw (tuple_from-fills cs [] ptrs 0 (n_rows first) refl long (refl, same)) (ap ok (sym is)))
