-- ===== src/Client/Payloads.antt =====
-- The blocks and exceptions that a program got from a client and has yet to drop: their Drop
-- (src/block.rs, src/client.rs), over the C heap.
use clickhouse_c_rs.Base.{
  ℕ, zero, suc, ◌+◌, ◌-◌, ◌≤◌, ◌≡◌, refl, arith, List, [], ◌∷◌, Option, none, some, get_elem?,
}
use clickhouse_c_rs.Client.Event.Ownership.{Handle, block, exc}
use clickhouse_c_rs.Ioless.Handles.{weigh}

abbrev pub remove : {A : Type 0} → List A → ℕ → List A
remove [] i = []
remove (x ∷ xs) zero = xs
remove (x ∷ xs) (suc i) = x ∷ remove xs i

module _ {S B X : Type 0} (chc_block_destroy : S → B → S) (chc_exception_free : S → X → S) where
  abbrev pub drop_block : S → B → S
  drop_block s raw = chc_block_destroy s raw

  abbrev pub drop_exception : S → X → S
  drop_exception s raw = chc_exception_free s raw

  abbrev pub drop : S → Handle B X → S
  drop s (block b) = drop_block s b
  drop s (exc x) = drop_exception s x

  abbrev pub drop_all : S → List (Handle B X) → S
  drop_all s [] = s
  drop_all s (x ∷ held) = drop_all (drop s x) held

  -- A session's state: the C heap with the client, and the payloads that the program holds.
  abbrev pub drop_at : S × List (Handle B X) → ℕ → Option (Handle B X) → S × List (Handle B X)
  drop_at (s, held) i none = (s, held)
  drop_at (s, held) i (some x) = (drop s x, remove held i)

  module _ (w : Handle B X → ℕ) (live : S → ℕ) where
    pub record Destroys : Type 0 where
      pub block_frees : (s : S) (b : B) → live (chc_block_destroy s b) ≡ live s - w (block b)
      pub exception_freed : (s : S) (x : X) → live (chc_exception_free s x) ≡ live s - w (exc x)

    -- The live payloads are those that the program holds.
    abbrev pub Balanced : S × List (Handle B X) → Type 0
    Balanced (s, held) = live s ≡ weigh w held

    abbrev pub AllLive : S → List (Handle B X) → Type 0
    AllLive s [] = Unit {0}
    AllLive s (x ∷ held) = (w x ≤ live s) × AllLive s held

    -- The program holds exactly the live payloads, may drop each, and leaves none if it drops all,
    -- also once the client is closed.
    abbrev pub Accounted : (S → S) → S × List (Handle B X) → Type 0
    Accounted close (s, held) =
        (live s ≡ weigh w held)
        × AllLive s held
        × (live (drop_all s held) ≡ 0)
        × (live (drop_all (close s) held) ≡ 0)

    module _ (destroys : Destroys) where
      drop_frees : (s : S) (x : Handle B X) → live (drop s x) ≡ live s - w x
      drop_frees s (block b) = destroys.block_frees s b
      drop_frees s (exc x) = destroys.exception_freed s x

      weigh-remove :
          (held : List (Handle B X)) (i : ℕ) (x : Handle B X)
          → get_elem? held i ≡ some x
          → weigh w held ≡ w x + weigh w (remove held i)
      weigh-remove [] i x at = cc
      weigh-remove (y ∷ held) zero x at = let is : y ≡ x = cc at in rw is refl
      weigh-remove (y ∷ held) (suc i) x at = omega (arith, weigh-remove held i x at)

      pub drop_at-Balanced :
          (s : S) (held : List (Handle B X)) (i : ℕ) (found : Option (Handle B X))
          → get_elem? held i ≡ found
          → Balanced (s, held)
          → Balanced (drop_at (s, held) i found)
      drop_at-Balanced s held i none at same = same
      drop_at-Balanced s held i (some x) at same =
          omega (arith, drop_frees s x, weigh-remove held i x at)

      drop_all-live :
          (s : S) (held : List (Handle B X)) → live (drop_all s held) ≡ live s - weigh w held
      drop_all-live s [] = omega arith
      drop_all-live s (x ∷ held) = omega (arith, drop_all-live (drop s x) held, drop_frees s x)

      weigh-AllLive : (s : S) (held : List (Handle B X)) → weigh w held ≤ live s → AllLive s held
      weigh-AllLive s [] within = tt
      weigh-AllLive s (x ∷ held) within = (omega arith, weigh-AllLive s held (omega arith))

      pub Balanced-Accounted :
          (close : S → S) (closes : (s : S) → live (close s) ≡ live s) (t : S × List (Handle B X))
          → Balanced t
          → Accounted close t
      Balanced-Accounted close closes (s, held) same = (
        same,
        weigh-AllLive s held (omega arith),
        omega (arith, drop_all-live s held),
        omega (arith, drop_all-live (close s) held, closes s),
      )
