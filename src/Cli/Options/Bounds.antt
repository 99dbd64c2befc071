-- ===== src/Cli/Options/Bounds.antt =====
-- What the checks of the bounds (utils/utils.py) accept, and that they reject only bounds that no
-- kernel meets.

use mathlib.Core.List.{Mem, mem-cons_self}
use mcu.Base.{ℕ, ◌≤◌, ◌<◌, ◌≡◌, refl, String, false, Option, none, some, List, [], ◌∷◌}
use mcu.Base.{
  Result, ok, err, Error, exit, arith, inl, inr, Bool-cases, ltb, ◌==◌, ◌*◌, nat_eq, ◌>>=◌,
}
use mcu.Base.Int.{ℤ}
use mcu.Base.Members.{IsOrderBy}
use mcu.Models.{SearchCriteria}
use mcu.Data.Rows.{KernelKey, Row, Tables}
use mcu.Data.Search.{NewestFirst, search}
use mcu.Data.Search.Laws.{search_lem}
use mcu.Data.Search.Matches.{Matches, HitsBelow, HitsAbove, Before, After}
use mcu.Cli.Options.{check_hits_num, cutoff, window, parse_duration, get_older_younger, before_now}

-- A cutoff lies before now.
abbrev pub IsPast : ℕ → Option ℕ → Type 0
IsPast now none = Unit
IsPast now (some t) = t < now

abbrev pub InOrder : Option ℕ → Option ℕ → Type 0
InOrder (some o) (some y) = y ≤ o
InOrder _ _ = Unit

abbrev CutoffIsPast : ℕ → Result (Option ℕ) → Type 0
CutoffIsPast now (err e) = Unit
CutoffIsPast now (ok o) = IsPast now o

-- Either the command exits with 1, or both cutoffs lie before now and leave a window.
abbrev pub IsWindow : ℕ → Result (Option ℕ × Option ℕ) → Type 0
IsWindow now (err e) = e ≡ exit 1
IsWindow now (ok (o, y)) = IsPast now o × IsPast now y × InOrder o y

module _ (decimal : ℕ → Option ℕ) (now : ℕ) where
  before_now-IsPast : (n : Option ℕ) → CutoffIsPast now (before_now decimal now n)
  unfolding before_now
  before_now-IsPast none = tt
  before_now-IsPast (some n) = elim (Bool-cases (n == 0)) [
    | inl z ↦ rw z tt
    | inr z ↦ elim (Bool-cases (ltb now (n * 86_400_000_000))) [
      | inl e ↦ rw (z, e) tt
      | inr e ↦ rw (z, e) (ground arith)
    ]
  ]

  cutoff-IsPast : (s : Option String) → CutoffIsPast now (cutoff decimal now s)
  unfolding cutoff
  cutoff-IsPast s =
      elim (parse_duration decimal s) as (λ r. CutoffIsPast now (r >>= before_now decimal now)) [
        | err e ↦ tt
        | ok n ↦ before_now-IsPast n
      ]

  window-IsWindow :
      (a b : Result (Option ℕ))
      → CutoffIsPast now a
      → CutoffIsPast now b
      → IsWindow now (window decimal a b)
  unfolding window
  window-IsWindow (err e) b p q = refl
  window-IsWindow (ok o) (err e) p q = refl
  window-IsWindow (ok none) (ok y) p q = (tt, q, tt)
  window-IsWindow (ok (some o)) (ok none) p q = (p, tt, tt)
  window-IsWindow (ok (some o)) (ok (some y)) p q = elim (Bool-cases (ltb o y)) [
    | inl e ↦ rw (e, window) refl
    | inr e ↦ rw (e, window) (p, q, ground arith)
  ]

  -- Whatever the two options say, the command exits with 1 or gets cutoffs before the present
  -- moment, of which the one for older kernels is not before the one for younger kernels.
  pub get_older_younger-IsWindow :
      (older_than younger_than : Option String)
      → IsWindow now (get_older_younger decimal now older_than younger_than)
  unfolding get_older_younger
  get_older_younger-IsWindow older_than younger_than =
      window-IsWindow (cutoff decimal now older_than) (cutoff decimal now younger_than)
        (cutoff-IsPast older_than) (cutoff-IsPast younger_than)

no_members : {A : Type 0} (xs : List A) → ((a : A) → ¬ (Mem a xs)) → xs ≡ []
no_members [] h = refl
no_members (x ∷ xs) h = absurd (h x mem-cons_self)

module _ (order : List (Row KernelKey) → List (Row KernelKey)) (t : Tables KernelKey) where
  search_nothing :
      (c : SearchCriteria)
      → IsOrderBy NewestFirst order
      → ((r : Row KernelKey) → ¬ (Matches (λ k. k.cache_dir) c r))
      → search order none c t ≡ []
  search_nothing c o h =
      no_members (search order none c t) (λ r m. h r (((search_lem order c t o).0 r).0 m).1)

  -- Bounds on the hits that the check rejects would find nothing.
  pub rejected_hits_find_nothing :
      (c : SearchCriteria)
      → IsOrderBy NewestFirst order
      → check_hits_num c.cache_hit_higher c.cache_hit_lower ≡ false
      → search order none c t ≡ []
  unfolding check_hits_num
  rejected_hits_find_nothing c o h = search_nothing c o (λ r m.
      no_hits c.cache_hit_higher c.cache_hit_lower r.columns.runtime_hits h m.hits_below
        m.hits_above)
    where
      no_hits :
          (higher lower : Option ℤ) (n : ℕ)
          → check_hits_num higher lower ≡ false
          → HitsBelow lower n
          → HitsAbove higher n
          → ⊥
      no_hits (some g) (some l) n e below above = ground arith
      no_hits (some g) none n e below above = cc e
      no_hits none l n e below above = cc e

  -- So would cutoffs that exist and that the command rejects for their order.
  pub rejected_window_finds_nothing :
      (decimal : ℕ → Option ℕ) (now : ℕ) (older_than younger_than : Option String)
      (c : SearchCriteria) (e : Error)
      → IsOrderBy NewestFirst order
      → cutoff decimal now older_than ≡ ok c.older_than_timestamp
      → cutoff decimal now younger_than ≡ ok c.younger_than_timestamp
      → get_older_younger decimal now older_than younger_than ≡ err e
      → search order none c t ≡ []
  unfolding get_older_younger
  rejected_window_finds_nothing decimal now older_than younger_than c e o po py h =
      search_nothing c o (λ r m.
        no_time c.older_than_timestamp c.younger_than_timestamp r.columns.modified_time
          (rw (po, py) at h) m.older m.younger)
    where
      no_time :
          (x y m : Option ℕ) → window decimal (ok x) (ok y) ≡ err e → Before x m → After y m → ⊥
      no_time none y m q b a = cc q
      no_time (some x) none m q b a = cc q
      no_time (some x) (some y) m q (i, p, l) (j, p', l') = elim (Bool-cases (ltb x y)) [
        | inl z ↦ let same : i ≡ j = cc (p, p') in ground arith
        | inr z ↦ cc (rw (z, window) at q)
      ]
