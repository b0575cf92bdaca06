-- ===== src/Io/Deadline.antt =====
-- src/io.rs: the read deadline of `PosixIo`.
use clickhouse_c_rs.Base.{
  ℕ, ◌+◌, ◌-◌, ◌^◌, ◌≤◌, ◌<◌, ◌≡◌, refl, Option, none, some, arith, min, max, leb, if◌then◌else◌,
  ◌⊎◌, inl, inr,
}
use clickhouse_c_rs.Base.Int.{ℤ, pos, negsuc}

-- `i64::MAX`.
abbrev pub i64_max : ℕ
i64_max = 2 ^ 63 - 1

-- `i64::saturating_add` of a number that is not negative.
abbrev saturating_add : ℤ → ℕ → ℤ
saturating_add (pos a) n = pos (min (a + n) i64_max)
saturating_add (negsuc a) n = if leb n a then negsuc (a - n) else pos (n - a - 1)

-- `max(1)` on an i64.
abbrev at_least_one : ℤ → ℤ
at_least_one (pos a) = pos (max a 1)
at_least_one (negsuc a) = pos 1

-- `PosixIo`: the descriptor, and whether it is its own; the address of its cancellation flag; and its
-- deadline.
pub record PosixIo : Type 0 where
  pub fd : ℕ
  pub owned : Option ℕ
  pub cancel : Option ℕ
  pub deadline_us : ℤ

-- `now` is the monotonic clock, `timeout` the duration in microseconds.
unfoldable pub set_read_timeout : ℤ → Option ℕ → PosixIo → PosixIo
set_read_timeout now none io = record io { deadline_us = pos 0 }
set_read_timeout now (some micros) io =
    let add : ℕ = if leb micros i64_max then micros else i64_max in
    record io { deadline_us = at_least_one (saturating_add now add) }

Nat-cases : (a b : ℕ) → (a ≤ b) ⊎ (b < a)
Nat-cases a b = ground arith

instant :
    (now micros : ℕ)
    → now ≤ i64_max
    → (max (min (now + (if leb micros i64_max then micros else i64_max)) i64_max) 1 ≡ now + micros)
      ⊎ (now + micros ≡ 0)
      ⊎ (i64_max < now + micros)
instant now micros fits = elim (Nat-cases (now + micros) i64_max) [
  | inl fine ↦ elim (Nat-cases (now + micros) 0) [
    | inl zero ↦ inr (inl (omega arith))
    | inr more ↦ inl (ground arith)
  ]
  | inr over ↦ inr (inr over)
]

-- At a clock within i64, no timeout disables the deadline. A timeout sets one that is positive, so
-- that it is never taken for a disabled one, that i64 holds, and that is not before the clock. It lies
-- `micros` after the clock, unless that instant is zero or i64 does not hold it.
pub set_read_timeout_lem :
    (now micros : ℕ) (io : PosixIo)
    → now ≤ i64_max
    → ((set_read_timeout (pos now) none io).deadline_us ≡ pos 0)
      × (deadline : ℕ) × ((set_read_timeout (pos now) (some micros) io).deadline_us ≡ pos deadline)
      × (0 < deadline)
      × (now ≤ deadline)
      × (deadline ≤ i64_max)
      × ((deadline ≡ now + micros) ⊎ (now + micros ≡ 0) ⊎ (i64_max < now + micros))
unfolding set_read_timeout
set_read_timeout_lem now micros io fits = (
  refl,
  max (min (now + (if leb micros i64_max then micros else i64_max)) i64_max) 1,
  refl,
  omega arith,
  ground arith,
  omega arith,
  instant now micros fits,
)
