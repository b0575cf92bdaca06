-- ===== src/Base/Arms.antt =====
-- A Rust `match` of a C integer against named constants, arm by arm from the top. The constants'
-- values come from headers; `value` stands for them.
use Prim.Native.Nat.{ℕ}
use mathlib.Core.Path.{◌≡◌, refl, ap, subst, ◌∙◌}
use mathlib.Core.Logic.{◌↔◌, ◌≢◌, inl, inr}
use mathlib.Core.Option.{Option, none, some, some-injective}
use mathlib.Core.Bool.{Bool, true, ◌&&◌}
use mathlib.Core.List.{List, [], ◌∷◌}
use native.Mathlib.Omega.{arith}
use clickhouse_c_rs.Base.Int.{ℤ, ◌==ℤ◌, ==ℤ_iff}
use clickhouse_c_rs.Base.Tests.{◌==◌, if◌then◌else◌, ==_iff, Bool-cases}

-- The constants of one C enum have different values.
abbrev pub Injective {ℓ κ} : {A : Type ℓ} {B : Type κ} → (A → B) → Type (ℓ ⊔ κ)
Injective {A} f = (a b : A) → f a ≡ f b → a ≡ b

module _ {C V : Type 0} where
  abbrev pub match_arms : (C → ℤ) → List (C × V) → ℤ → Option V
  match_arms value [] x = none
  match_arms value ((c, v) ∷ arms) x = if value c ==ℤ x then some v else match_arms value arms x

  -- The same match on the constants themselves, told apart by a numbering.
  abbrev pub match_names : (C → ℕ) → List (C × V) → C → Option V
  match_names rank [] x = none
  match_names rank ((c, v) ∷ arms) x = if rank c == rank x then some v else match_names rank arms x

  -- Constants with different values are matched by name.
  pub match_arms-names :
      (value : C → ℤ) (rank : C → ℕ)
      → Injective value
      → Injective rank
      → (arms : List (C × V)) (x : C) → match_arms value arms (value x) ≡ match_names rank arms x
  match_arms-names value rank hv hr [] x = refl
  match_arms-names value rank hv hr ((c, v) ∷ arms) x = ground (
    arith,
    match_arms-names value rank hv hr arms x,
    ==ℤ_iff (value c) (value x),
    ==_iff (rank c) (rank x),
    hv c x,
    hr c x,
    ap value {x = c} {y = x},
    ap rank {x = c} {y = x},
  )

  -- What holds of every arm.
  abbrev pub AllArms : (C → V → Type 0) → List (C × V) → Type 0
  AllArms P [] = Unit {0}
  AllArms P ((c, v) ∷ arms) = P c v × AllArms P arms

  -- A match comes from an arm whose constant has the value.
  pub match_arms_sound :
      (P : C → V → Type 0) (value : C → ℤ) (arms : List (C × V)) (x : ℤ) (v : V)
      → AllArms P arms
      → match_arms value arms x ≡ some v
      → (c : C) × (value c ≡ x) × P c v
  match_arms_sound P value [] x v all e = cc
  match_arms_sound P value ((c, w) ∷ arms) x v all e = elim (Bool-cases (value c ==ℤ x)) [
    | inl hit ↦
        (c, (==ℤ_iff (value c) x).0 hit, subst (P c) (some-injective w v (rw hit at e)) all.0)
    | inr miss ↦ match_arms_sound P value arms x v all.1 (rw miss at e)
  ]

  -- Without a match no arm's constant has the value.
  pub match_arms-none :
      (value : C → ℤ) (arms : List (C × V)) (x : ℤ)
      → match_arms value arms x ≡ none
      → AllArms (λ c v. value c ≢ x) arms
  match_arms-none value [] x e = tt
  match_arms-none value ((c, w) ∷ arms) x e = elim (Bool-cases (value c ==ℤ x)) [
    | inl hit ↦ cc (rw hit at e)
    | inr miss ↦
        ((λ same. cc ((==ℤ_iff (value c) x).1 same)), match_arms-none value arms x (rw miss at e))
  ]

-- Every arm stands behind the constant that its variant is defined by.
abbrev pub named : {C V : Type 0} → (C → ℕ) → (V → C) → List (C × V) → Bool
named rank discriminant [] = true
named rank discriminant ((c, v) ∷ arms) =
    rank (discriminant v) == rank c && named rank discriminant arms

AllArms-named :
    {C V : Type 0} (rank : C → ℕ) (discriminant : V → C)
    → Injective rank
    → (arms : List (C × V)) → named rank discriminant arms ≡ true
    → AllArms (λ c v. discriminant v ≡ c) arms
AllArms-named rank discriminant hr [] e = tt
AllArms-named rank discriminant hr ((c, v) ∷ arms) e = (
  hr (discriminant v) c (ground (arith, ==_iff (rank (discriminant v)) (rank c))),
  AllArms-named rank discriminant hr arms (ground arith),
)

-- A match that is faithful to an enum's discriminants: it gives a variant exactly for its constant.
pub match_arms_iff :
    {C V : Type 0} (value : C → ℤ) (rank : C → ℕ) (discriminant : V → C) (arms : List (C × V))
    → Injective value
    → Injective rank
    → named rank discriminant arms ≡ true
    → ((v : V) → match_names rank arms (discriminant v) ≡ some v)
    → (x : ℤ) (v : V) → (match_arms value arms x ≡ some v) ↔ (value (discriminant v) ≡ x)
match_arms_iff value rank discriminant arms hv hr agree back x v = (
  (λ e.
      let (c, at, same) =
        match_arms_sound (λ c v. discriminant v ≡ c) value arms x v
          (AllArms-named rank discriminant hr arms agree) e in
      ap value same ∙ at),
  (λ e. rw (← e) (match_arms-names value rank hv hr arms (discriminant v) ∙ back v)),
)
