-- ===== src/BuildScript/Orders.antt =====
-- The inventories that build.rs generates are sorted and free of duplicates (build.rs).
use clickhouse_c_rs.Base.{
  ◌≡◌, ◌↔◌, ◌⊎◌, inl, inr, refl, Bool, true, false, List, [], ◌∷◌, ◌&&◌, ◌||◌, none, some, arith,
  Option-cases,
}
use clickhouse_c_rs.Base.Int.{ℤ, pos, negsuc, ◌==ℤ◌, ==ℤ_iff}
use clickhouse_c_rs.BuildScript.Text.{Text, text_eq}
use clickhouse_c_rs.BuildScript.Inventory.{
  Enumerator, text_lt, int_lt, enumerator_lt, enumerator_eq, sort, dedup, inventory,
  sorted_inventory,
}
use clickhouse_c_rs.BuildScript.Sorted.{IsOrder, In, Increasing, dedup-sort}

pub text_eq_iff : (s t : Text) → (text_eq s t ≡ true) ↔ (s ≡ t)
unfolding text_eq
text_eq_iff [] [] = ((λ e. refl), (λ e. refl))
text_eq_iff [] (d ∷ t) = ((λ e. cc), (λ e. cc))
text_eq_iff (c ∷ s) [] = ((λ e. cc), (λ e. cc))
text_eq_iff (c ∷ s) (d ∷ t) = ground (arith, text_eq_iff s t)

text_lt_trans : (s t u : Text) → text_lt s t ≡ true → text_lt t u ≡ true → text_lt s u ≡ true
unfolding text_lt
text_lt_trans [] [] u p q = cc
text_lt_trans [] (d ∷ t) [] p q = cc
text_lt_trans [] (d ∷ t) (e ∷ u) p q = refl
text_lt_trans (c ∷ s) [] u p q = cc
text_lt_trans (c ∷ s) (d ∷ t) [] p q = cc
text_lt_trans (c ∷ s) (d ∷ t) (e ∷ u) p q = ground (arith, text_lt_trans s t u)

text_lt_irrefl : (s : Text) → text_lt s s ≡ false
unfolding text_lt
text_lt_irrefl [] = refl
text_lt_irrefl (c ∷ s) = ground (arith, text_lt_irrefl s)

text_lt_total : (s t : Text) → text_lt s t ≡ false → text_lt t s ≡ false → s ≡ t
unfolding text_lt
text_lt_total [] [] p q = refl
text_lt_total [] (d ∷ t) p q = cc
text_lt_total (c ∷ s) [] p q = cc
text_lt_total (c ∷ s) (d ∷ t) p q = ground (arith, text_lt_total s t)

text-IsOrder : IsOrder text_lt text_eq
text-IsOrder = record {
  eq_iff = text_eq_iff;
  lt_trans = text_lt_trans;
  lt_irrefl = text_lt_irrefl;
  lt_total = text_lt_total;
}

int_lt_trans : (a b c : ℤ) → int_lt a b ≡ true → int_lt b c ≡ true → int_lt a c ≡ true
int_lt_trans (pos a) (pos b) (pos c) p q = ground arith
int_lt_trans (pos a) (pos b) (negsuc c) p q = cc
int_lt_trans (pos a) (negsuc b) c p q = cc
int_lt_trans (negsuc a) (pos b) (pos c) p q = refl
int_lt_trans (negsuc a) (pos b) (negsuc c) p q = cc
int_lt_trans (negsuc a) (negsuc b) (pos c) p q = refl
int_lt_trans (negsuc a) (negsuc b) (negsuc c) p q = ground arith

int_lt_irrefl : (a : ℤ) → int_lt a a ≡ false
int_lt_irrefl (pos a) = ground arith
int_lt_irrefl (negsuc a) = ground arith

int_lt_total : (a b : ℤ) → int_lt a b ≡ false → int_lt b a ≡ false → a ≡ b
int_lt_total (pos a) (pos b) p q = ground arith
int_lt_total (pos a) (negsuc b) p q = cc
int_lt_total (negsuc a) (pos b) p q = cc
int_lt_total (negsuc a) (negsuc b) p q = ground arith

int-IsOrder : IsOrder int_lt ◌==ℤ◌
int-IsOrder = record {
  eq_iff = ==ℤ_iff;
  lt_trans = int_lt_trans;
  lt_irrefl = int_lt_irrefl;
  lt_total = int_lt_total;
}

-- The lexicographic order of pairs.
module _ {A B : Type 0} (lt eq : A → A → Bool) (lt' eq' : B → B → Bool) where
  abbrev both_lt : A × B → A × B → Bool
  both_lt (a, b) (a', b') = lt a a' || (eq a a' && lt' b b')

  abbrev both_eq : A × B → A × B → Bool
  both_eq (a, b) (a', b') = eq a a' && eq' b b'

  module _ (first : IsOrder lt eq) (second : IsOrder lt' eq') where
    both_eq_iff : (p q : A × B) → (both_eq p q ≡ true) ↔ (p ≡ q)
    both_eq_iff (a, b) (a', b') = ground (arith, first.eq_iff a a', second.eq_iff b b')

    both_lt_trans : (p q r : A × B) → both_lt p q ≡ true → both_lt q r ≡ true → both_lt p r ≡ true
    both_lt_trans (a, b) (a', b') (a'', b'') h k = ground (
      arith,
      first.lt_trans a a' a'',
      second.lt_trans b b' b'',
      first.eq_iff a a',
      first.eq_iff a' a'',
      first.eq_iff a a'',
    )

    both_lt_irrefl : (p : A × B) → both_lt p p ≡ false
    both_lt_irrefl (a, b) = ground (arith, first.lt_irrefl a, second.lt_irrefl b)

    both_lt_total : (p q : A × B) → both_lt p q ≡ false → both_lt q p ≡ false → p ≡ q
    both_lt_total (a, b) (a', b') h k =
        ground
          (arith, first.lt_total a a', second.lt_total b b', first.eq_iff a a', first.eq_iff a' a)

    both-IsOrder : IsOrder both_lt both_eq
    both-IsOrder = record {
      eq_iff = both_eq_iff;
      lt_trans = both_lt_trans;
      lt_irrefl = both_lt_irrefl;
      lt_total = both_lt_total;
    }

nested-IsOrder :
    IsOrder
      (both_lt text_lt text_eq
        (both_lt text_lt text_eq int_lt ◌==ℤ◌)
        (both_eq text_lt text_eq int_lt ◌==ℤ◌))
      (both_eq text_lt text_eq
        (both_lt text_lt text_eq int_lt ◌==ℤ◌)
        (both_eq text_lt text_eq int_lt ◌==ℤ◌))
nested-IsOrder =
    both-IsOrder text_lt text_eq (both_lt text_lt text_eq int_lt ◌==ℤ◌)
      (both_eq text_lt text_eq int_lt ◌==ℤ◌) text-IsOrder
      (both-IsOrder text_lt text_eq int_lt ◌==ℤ◌ text-IsOrder int-IsOrder)

abbrev nested : Enumerator → Text × (Text × ℤ)
nested (tag, name, v) = (tag, (name, v))

unnested : (d e : Enumerator) → nested d ≡ nested e → d ≡ e
unnested (tag, name, v) (tag', name', v') e = ground arith

enumerator_eq_iff : (d e : Enumerator) → (enumerator_eq d e ≡ true) ↔ (d ≡ e)
unfolding enumerator_eq
enumerator_eq_iff (tag, name, v) (tag', name', v') =
    ground (arith, text_eq_iff tag tag', text_eq_iff name name', ==ℤ_iff v v')

enumerator-IsOrder : IsOrder enumerator_lt enumerator_eq
unfolding enumerator_lt
enumerator-IsOrder = record {
  eq_iff = enumerator_eq_iff;
  lt_trans = λ d e f. nested-IsOrder.lt_trans (nested d) (nested e) (nested f);
  lt_irrefl = λ d. nested-IsOrder.lt_irrefl (nested d);
  lt_total = λ d e p q. unnested d e (nested-IsOrder.lt_total (nested d) (nested e) p q);
}

abbrev Found : Type 0
Found = List Text × List Enumerator

-- What is written of an inventory: nothing if the scan of the headers panics, and else the same
-- functions and the same enumerators, each once and in order.
pub sorted_inventory_lem :
    (checks : Bool) (headers : List Text)
    → ((inventory checks headers ≡ none) × (sorted_inventory checks headers ≡ none))
      ⊎ ((found : Found) × (sorted : Found) × (inventory checks headers ≡ some found)
          × (sorted_inventory checks headers ≡ some sorted)
          × Increasing text_lt sorted.0
          × Increasing enumerator_lt sorted.1
          × ((f : Text) → In f sorted.0 ↔ In f found.0)
          × ((e : Enumerator) → In e sorted.1 ↔ In e found.1))
unfolding sorted_inventory
sorted_inventory_lem checks headers = elim (Option-cases (inventory checks headers)) [
  | inl nothing ↦ inl (nothing, rw nothing refl)
  | inr (found, e) ↦
      let (fns_in_order, same_fns) = dedup-sort text_lt text_eq text-IsOrder found.0 in
      let (enums_in_order, same_enums) =
        dedup-sort enumerator_lt enumerator_eq enumerator-IsOrder found.1 in
      inr (
        found,
        (dedup text_eq (sort text_lt found.0), dedup enumerator_eq (sort enumerator_lt found.1)),
        e,
        rw e refl,
        fns_in_order,
        enums_in_order,
        same_fns,
        same_enums,
      )
]
