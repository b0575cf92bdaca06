-- ===== src/Io/Cancel.antt =====
-- src/io.rs: `CancelToken`, and how `PosixIo` is built with one. A token is the address of a shared
-- flag, so that its clones are the same address.
use clickhouse_c_rs.Base.{
  ℕ, zero, suc, ◌<◌, ◌≡◌, refl, ap, ◌∙◌, Bool, true, false, ◌||◌, List, [], ◌∷◌, ◌++◌, Option, none,
  some, length, length-append, length-set, get_or, set, ◌==◌, arith,
}
use clickhouse_c_rs.Base.Int.{pos}
use clickhouse_c_rs.Io.Deadline.{PosixIo}

-- The flags that were allocated, by address.
abbrev pub Flags : Type 0
Flags = List Bool

abbrev pub CancelToken : Type 0
CancelToken = ℕ

unfoldable pub new : Flags → CancelToken × Flags
new flags = (length flags, flags ++ false ∷ [])

-- `Clone` of the `Arc`.
unfoldable pub clone : CancelToken → CancelToken
clone token = token

unfoldable pub cancel : CancelToken → Flags → Flags
cancel token flags = set flags token true

unfoldable pub is_cancelled : CancelToken → Flags → Bool
is_cancelled token flags = get_or flags token false

-- The C callback, whose user data is the flag's address.
unfoldable pub check_cancel_flag : ℕ → Flags → Bool
check_cancel_flag ud flags = get_or flags ud false

-- `build`, with `chc_posix_io_init` storing the descriptor, the callback and its user data; there is a
-- callback exactly if there is user data.
unfoldable pub build : ℕ → Option ℕ → Option CancelToken → PosixIo
build fd owned cancel = record { fd = fd; owned = owned; cancel = cancel; deadline_us = pos 0 }

unfoldable pub new_borrowed : ℕ → PosixIo
unfolding build
new_borrowed fd = build fd none none

unfoldable pub new_cancellable : ℕ → CancelToken → PosixIo
unfolding build
new_cancellable fd token = build fd none (some token)

unfoldable pub new_owned : ℕ → PosixIo
unfolding build
new_owned fd = build fd (some fd) none

unfoldable pub new_owned_cancellable : ℕ → CancelToken → PosixIo
unfolding build
new_owned_cancellable fd token = build fd (some fd) (some token)

-- What C's check before a read finds.
abbrev pub polled : Option CancelToken → Flags → Bool
polled none flags = false
polled (some ud) flags = check_cancel_flag ud flags

-- What the program may do with tokens: make one, or cancel one or a clone of it.
pub data Act : Type 0 where
  make : Act
  stop : CancelToken → Act

abbrev pub run : List Act → Flags → Flags
run [] flags = flags
run (make ∷ acts) flags = run acts (new flags).1
run (stop token ∷ acts) flags = run acts (cancel token flags)

-- The acts cancel this token.
abbrev pub stops : CancelToken → List Act → Bool
stops token [] = false
stops token (make ∷ acts) = stops token acts
stops token (stop other ∷ acts) = other == token || stops token acts

get_or-append :
    (flags more : Flags) (a : ℕ)
    → a < length flags
    → get_or (flags ++ more) a false ≡ get_or flags a false
get_or-append [] more a h = absurd (omega arith)
get_or-append (f ∷ flags) more zero h = refl
get_or-append (f ∷ flags) more (suc a) h = get_or-append flags more a (omega arith)

get_or-last : (flags : Flags) → get_or (flags ++ false ∷ []) (length flags) false ≡ false
get_or-last [] = refl
get_or-last (f ∷ flags) = get_or-last flags

get_or-set :
    (flags : Flags) (a b : ℕ)
    → a < length flags
    → get_or (set flags b true) a false ≡ (b == a || get_or flags a false)
get_or-set [] a b h = absurd (omega arith)
get_or-set (f ∷ flags) zero zero h = refl
get_or-set (f ∷ flags) zero (suc b) h = ground arith
get_or-set (f ∷ flags) (suc a) zero h = ground arith
get_or-set (f ∷ flags) (suc a) (suc b) h = ground (arith, get_or-set flags a b)

regroup : (a b c : Bool) → ((a || b) || c) ≡ (b || (a || c))
regroup true true c = refl
regroup true false c = refl
regroup false b c = refl

get_or-run :
    (acts : List Act) (flags : Flags) (a : ℕ)
    → a < length flags
    → get_or (run acts flags) a false ≡ (get_or flags a false || stops a acts)
unfolding new cancel
get_or-run [] flags a h = ground arith
get_or-run (make ∷ acts) flags a h =
    get_or-run acts (flags ++ false ∷ []) a (omega (arith, length-append flags (false ∷ [])))
    ∙ ap (λ c. c || stops a acts) (get_or-append flags (false ∷ []) a h)
get_or-run (stop b ∷ acts) flags a h =
    get_or-run acts (set flags b true) a (omega (arith, length-set flags b true))
    ∙ ap (λ c. c || stops a acts) (get_or-set flags a b h)
    ∙ regroup (b == a) (get_or flags a false) (stops a acts)

-- A new token is active. After any acts of the program, what C's check finds in a transport that holds
-- a clone of a token, with its own descriptor or a borrowed one, and what every clone says, is whether
-- the token was cancelled before or is cancelled among the acts: cancelling reaches all clones, is
-- never undone, and touches no other token. A transport without a token is never cancelled.
pub polled-run :
    (flags : Flags) (acts : List Act) (fd : ℕ) (token : CancelToken)
    → token < length flags
    → (is_cancelled (new flags).0 (new flags).1 ≡ false)
      × (polled (new_cancellable fd (clone token)).cancel (run acts flags)
          ≡ (is_cancelled token flags || stops token acts))
      × (polled (new_owned_cancellable fd (clone token)).cancel (run acts flags)
          ≡ (is_cancelled token flags || stops token acts))
      × (is_cancelled (clone token) (run acts flags)
          ≡ (is_cancelled token flags || stops token acts))
      × (polled (new_borrowed fd).cancel (run acts flags) ≡ false)
      × (polled (new_owned fd).cancel (run acts flags) ≡ false)
unfolding new is_cancelled check_cancel_flag clone new_cancellable new_owned_cancellable
    new_borrowed new_owned
polled-run flags acts fd token h =
    let same = get_or-run acts flags token h in (get_or-last flags, same, same, same, refl, refl)
