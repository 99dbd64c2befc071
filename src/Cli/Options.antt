-- ===== src/Cli/Options.antt =====
-- `parse_duration`, `get_older_younger` and `check_hits_num` (utils/utils.py). Instants and durations
-- are in microseconds; an instant before the year 1 raises `OverflowError`.
pub mod Bounds
use mcu.Base.{
  ℕ, suc, ◌+◌, ◌*◌, ◌-◌, String, Bool, true, false, not, ◌||◌, Option, none, some, List, [], ◌∷◌,
}
use mcu.Base.{
  length, leb, ltb, ◌==◌, nat_eq, Result, ok, err, Error, exit, overflow_error, value_error, ◌>>=◌,
  if◌then◌else◌,
}
use mcu.Base.Int.{ℤ, ltb_ℤ}
use mcu.Base.Text.{codes, fold_case, decimal_value}

-- The factor of the unit at the end: `[dw]$`, where `$` also stands before a final line feed.
unit_of : List ℕ → Option ℕ
unit_of (c ∷ []) = if c == b'd' then some 1 else if c == b'w' then some 7 else none
unit_of (c ∷ n ∷ []) =
    if n == 10 then (if c == b'd' then some 1 else if c == b'w' then some 7 else none) else none
unit_of _ = none

abbrev lower : List ℕ → List ℕ
lower [] = []
lower (c ∷ cs) = fold_case c ∷ lower cs

-- `timedelta(days=…)` has a limit, and so has the length of a number that `int` reads.
days : List ℕ → ℕ → Result (Option ℕ)
unfolding decimal_value
days ds factor =
    if ltb 4300 (length ds)
    then err value_error
    else if ltb 999999999 (decimal_value 0 ds * factor)
    then err overflow_error
    else ok (some (decimal_value 0 ds * factor))

-- `decimal` is the value of a character of Unicode's class of decimal digits, which `\d` matches.
module _ (decimal : ℕ → Option ℕ) where
  -- `(\d+)`: the values of the leading digits, and the rest
  leading : List ℕ → List ℕ × List ℕ
  leading [] = ([], [])
  leading (c ∷ cs) =
      let (ds, rest) = leading cs in
      elim (decimal c) [ none ↦ ([], c ∷ cs) | some d ↦ (d ∷ ds, rest) ]

  match_duration : List ℕ × List ℕ → Result (Option ℕ)
  unfolding unit_of days
  match_duration ([], rest) = err (exit 1)
  match_duration (d ∷ ds, rest) = elim (unit_of rest) [
    | none ↦ err (exit 1)
    | some factor ↦ days (d ∷ ds) factor
  ]

  -- `parse_duration`, in days. Of the characters that change under `lower()` only ASCII letters
  -- matter to the pattern.
  pub parse_duration : Option String → Result (Option ℕ)
  unfolding match_duration leading fold_case
  parse_duration none = ok none
  parse_duration (some s) = elim (lower (codes s)) [
    | [] ↦ ok none
    | c ∷ cs ↦ match_duration (leading (c ∷ cs))
  ]

  -- `(now - delta).timestamp()`; a delta of zero is false.
  pub before_now : ℕ → Option ℕ → Result (Option ℕ)
  before_now now none = ok none
  before_now now (some n) =
      if n == 0
      then ok none
      else if ltb now (n * 86_400_000_000)
      then err overflow_error
      else ok (some (now - n * 86_400_000_000))

  unfoldable pub cutoff : ℕ → Option String → Result (Option ℕ)
  unfolding before_now parse_duration
  cutoff now s = do delta ← parse_duration s; before_now now delta

  -- `except Exception`
  abbrev or_exit : Result (Option ℕ) → Result (Option ℕ)
  or_exit (ok o) = ok o
  or_exit (err e) = err (exit 1)

  abbrev is_reversed : Option ℕ → Option ℕ → Bool
  is_reversed (some o) (some y) = ltb o y
  is_reversed _ _ = false

  -- The two cutoffs and the test of their order.
  pub window : Result (Option ℕ) → Result (Option ℕ) → Result (Option ℕ × Option ℕ)
  window a b = do o ← or_exit a; y ← or_exit b; if is_reversed o y then err (exit 1) else ok (o, y)

  unfoldable pub get_older_younger :
      ℕ → Option String → Option String → Result (Option ℕ × Option ℕ)
  unfolding cutoff window
  get_older_younger now older_than younger_than =
      window (cutoff now older_than) (cutoff now younger_than)

-- `check_hits_num`
unfoldable pub check_hits_num : Option ℤ → Option ℤ → Bool
check_hits_num (some higher) (some lower) = not (ltb_ℤ lower higher)
check_hits_num _ _ = true
