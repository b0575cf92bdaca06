-- ===== src/BuildScript/Sorted.antt =====
-- What `sort` and `dedup` leave of the inventories that build.rs generates (build.rs).
use clickhouse_c_rs.Base.{
  ◌≡◌, ◌↔◌, ◌⊎◌, inl, inr, refl, ap, sym, ◌∙◌, Bool, true, false, List, [], ◌∷◌, Bool-cases,
}
use clickhouse_c_rs.BuildScript.Inventory.{insert_sorted, sort, dedup, keep_first}

-- An order and an equality that fit together.
pub record IsOrder {A : Type 0} (lt eq : A → A → Bool) : Type 0 where
  pub eq_iff : (a b : A) → (eq a b ≡ true) ↔ (a ≡ b)
  pub lt_trans : (a b c : A) → lt a b ≡ true → lt b c ≡ true → lt a c ≡ true
  pub lt_irrefl : (a : A) → lt a a ≡ false
  pub lt_total : (a b : A) → lt a b ≡ false → lt b a ≡ false → a ≡ b

under : {B C D : Type 0} → B ⊎ C → (C → D) → B ⊎ D
under (inl b) f = inl b
under (inr c) f = inr (f c)

module _ {A : Type 0} where
  -- Membership as a choice of places.
  abbrev pub In : A → List A → Type 0
  In a [] = ⊥
  In a (b ∷ bs) = (a ≡ b) ⊎ In a bs

  swap_in :
      (c a b : A) (bs : List A) {P : Type 0}
      → P ↔ ((c ≡ a) ⊎ In c bs)
      → ((c ≡ b) ⊎ P) ↔ ((c ≡ a) ⊎ (c ≡ b) ⊎ In c bs)
  swap_in c a b bs (to, from) = (
    (λ i. elim i [ inl same ↦ inr (inl same) | inr p ↦ under (to p) (λ old. inr old) ]),
    (λ i. elim i [
      | inl same ↦ inr (from (inl same))
      | inr (inl same) ↦ inl same
      | inr (inr old) ↦ inr (from (inr old))
    ]),
  )

  again : (c a b : A) (bs : List A) → a ≡ b → ((c ≡ a) ⊎ In c bs) ↔ ((c ≡ a) ⊎ (c ≡ b) ⊎ In c bs)
  again c a b bs e = (
    (λ i. under i (λ old. inr old)),
    (λ i. elim i [
      | inl same ↦ inl same
      | inr (inl same) ↦ inl (same ∙ sym e)
      | inr (inr old) ↦ inr old
    ]),
  )

  -- Each item lies before all that follow it.
  abbrev pub Increasing : (A → A → Bool) → List A → Type 0
  Increasing lt [] = Unit {0}
  Increasing lt (a ∷ bs) = ((c : A) → In c bs → lt a c ≡ true) × Increasing lt bs

  -- No item lies before one in front of it.
  abbrev Ordered : (A → A → Bool) → List A → Type 0
  Ordered lt [] = Unit {0}
  Ordered lt (a ∷ bs) = ((c : A) → In c bs → lt c a ≡ false) × Ordered lt bs

  module _ (lt eq : A → A → Bool) where
    In-insert_sorted : (c a : A) (bs : List A) → In c (insert_sorted lt a bs) ↔ ((c ≡ a) ⊎ In c bs)
    unfolding insert_sorted
    In-insert_sorted c a [] = ((λ i. i), (λ i. i))
    In-insert_sorted c a (b ∷ bs) = elim (Bool-cases (lt b a)) [
      | inl before ↦ rw before (swap_in c a b bs (In-insert_sorted c a bs))
      | inr fine ↦ rw fine ((λ i. i), (λ i. i))
    ]

    In-sort : (c : A) (as' : List A) → In c (sort lt as') ↔ In c as'
    unfolding sort
    In-sort c [] = ((λ i. i), (λ i. i))
    In-sort c (a ∷ as') =
        let inserted = In-insert_sorted c a (sort lt as') in
        let ih = In-sort c as' in
        ((λ i. under (inserted.0 i) ih.0), (λ i. inserted.1 (under i ih.1)))

    module _ (order : IsOrder lt eq) where
      asym : (a b : A) → lt a b ≡ true → lt b a ≡ false
      asym a b h = elim (Bool-cases (lt b a)) [
        | inl back ↦ cc (sym (order.lt_irrefl a) ∙ order.lt_trans a b a h back)
        | inr fine ↦ fine
      ]

      not_below : (a b c : A) → lt c b ≡ false → lt b a ≡ false → lt c a ≡ false
      not_below a b c cb ba = elim (Bool-cases (lt c a)) [
        | inr fine ↦ fine
        | inl ca ↦ elim (Bool-cases (lt a b)) [
          | inl ab ↦ cc (sym cb ∙ order.lt_trans c a b ca ab)
          | inr other ↦ cc (sym cb ∙ ap (lt c) (sym (order.lt_total a b other ba)) ∙ ca)
        ]
      ]

      insert_sorted-Ordered :
          (a : A) (bs : List A) → Ordered lt bs → Ordered lt (insert_sorted lt a bs)
      unfolding insert_sorted
      insert_sorted-Ordered a [] h = ((λ c i. absurd i), tt)
      insert_sorted-Ordered a (b ∷ bs) (first, later) = elim (Bool-cases (lt b a)) [
        | inl before ↦ rw before (
          (λ c i. elim ((In-insert_sorted c a bs).0 i) [
            | inl same ↦ ap (λ x. lt x b) same ∙ asym b a before
            | inr old ↦ first c old
          ]),
          insert_sorted-Ordered a bs later,
        )
        | inr fine ↦ rw fine (
          (λ c i. elim i [
            | inl same ↦ ap (λ x. lt x a) same ∙ fine
            | inr old ↦ not_below a b c (first c old) fine
          ]),
          (first, later),
        )
      ]

      sort-Ordered : (as' : List A) → Ordered lt (sort lt as')
      unfolding sort
      sort-Ordered [] = tt
      sort-Ordered (a ∷ as') = insert_sorted-Ordered a (sort lt as') (sort-Ordered as')

      In-keep_first : (c a : A) (bs : List A) → In c (keep_first eq a bs) ↔ ((c ≡ a) ⊎ In c bs)
      In-keep_first c a [] = ((λ i. i), (λ i. i))
      In-keep_first c a (b ∷ bs) = elim (Bool-cases (eq a b)) [
        | inl same ↦ rw same (again c a b bs ((order.eq_iff a b).0 same))
        | inr other ↦ rw other ((λ i. i), (λ i. i))
      ]

      In-dedup : (c : A) (as' : List A) → In c (dedup eq as') ↔ In c as'
      unfolding dedup
      In-dedup c [] = ((λ i. i), (λ i. i))
      In-dedup c (a ∷ as') =
          let kept = In-keep_first c a (dedup eq as') in
          let ih = In-dedup c as' in ((λ i. under (kept.0 i) ih.0), (λ i. kept.1 (under i ih.1)))

      strictly : (a b : A) → eq a b ≡ false → lt b a ≡ false → lt a b ≡ true
      strictly a b ne ba = elim (Bool-cases (lt a b)) [
        | inl ab ↦ ab
        | inr other ↦ cc (sym ne ∙ (order.eq_iff a b).1 (order.lt_total a b other ba))
      ]

      keep_first-Increasing :
          (a : A) (bs : List A)
          → ((c : A) → In c bs → lt c a ≡ false)
          → Increasing lt bs
          → Increasing lt (keep_first eq a bs)
      keep_first-Increasing a [] h inc = ((λ c i. absurd i), tt)
      keep_first-Increasing a (b ∷ bs) h (first, later) = elim (Bool-cases (eq a b)) [
        | inl same ↦
            rw same ((λ c i. ap (λ x. lt x c) ((order.eq_iff a b).0 same) ∙ first c i), later)
        | inr other ↦
            let below = strictly a b other (h b (inl refl)) in
            rw other (
              (λ c i. elim i [
                | inl same ↦ ap (lt a) same ∙ below
                | inr old ↦ order.lt_trans a b c below (first c old)
              ]),
              (first, later),
            )
      ]

      dedup-Increasing : (as' : List A) → Ordered lt as' → Increasing lt (dedup eq as')
      unfolding dedup
      dedup-Increasing [] h = tt
      dedup-Increasing (a ∷ as') (first, later) =
          keep_first-Increasing a (dedup eq as') (λ c i. first c ((In-dedup c as').0 i))
            (dedup-Increasing as' later)

      -- Sorted and without duplicates: the same items, each once, in order.
      pub dedup-sort :
          (as' : List A)
          → Increasing lt (dedup eq (sort lt as'))
            × ((c : A) → In c (dedup eq (sort lt as')) ↔ In c as')
      dedup-sort as' = (
        dedup-Increasing (sort lt as') (sort-Ordered as'),
        (λ c.
            let kept = In-dedup c (sort lt as') in
            let sorted = In-sort c as' in ((λ i. sorted.0 (kept.0 i)), (λ i. kept.1 (sorted.1 i)))),
      )
