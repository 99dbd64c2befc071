-- ===== src/Base/Text.antt =====
-- What the program does with texts: code points, decimal numbers, the suffix of a file name.
pub mod Stem
use Prim.Native.Nat.{ℕ, zero, suc, ◌+◌, ◌*◌, ◌/◌, ◌%◌}
use Prim.Native.Char.{code}
use Prim.Native.String.{String, ◌++◌}
use mathlib.Core.Bool.{Bool, true, false, ◌&&◌, ◌||◌}
use mathlib.Core.Option.{Option, none, some}
use text.Mathlib.Text.{◌==◌}
use mathlib.Core.Path.{◌≡◌, refl}
use mathlib.Core.List.{List, [], ◌∷◌}
use mcu.Base.Tests.{ltb, leb, nat_eqb, if◌then◌else◌}
use mcu.Base.Int.{ℤ, pos, negsuc}

abbrev pub codes : String → List ℕ
codes String.[] = []
codes (String.◌∷◌ c s) = code c ∷ codes s

digit : ℕ → String
digit d =
    if nat_eqb d 0
    then "0"
    else if nat_eqb d 1
    then "1"
    else if nat_eqb d 2
    then "2"
    else if nat_eqb d 3
    then "3"
    else if nat_eqb d 4
    then "4"
    else if nat_eqb d 5
    then "5"
    else if nat_eqb d 6
    then "6"
    else if nat_eqb d 7
    then "7"
    else if nat_eqb d 8
    then "8"
    else "9"

-- `str(n)`; a number has at most `n + 1` digits.
show_digits : ℕ → ℕ → String
show_digits zero n = ""
show_digits (suc f) n =
    let rest = show_digits f (n / 10) in if ltb n 10 then digit n else rest ++ digit (n % 10)

unfoldable pub show_ℤ : ℤ → String
unfolding show_digits digit
show_ℤ (pos n) = show_digits (suc n) n
show_ℤ (negsuc n) = "-" ++ show_digits (suc (suc n)) (suc n)

-- The value of decimal digits, after a number that precedes them.
unfoldable pub decimal_value : ℕ → List ℕ → ℕ
decimal_value n [] = n
decimal_value n (d ∷ ds) = decimal_value (n * 10 + d) ds

-- The part from the last dot on.
unfoldable pub last_dot : String → Option String
last_dot String.[] = none
last_dot (String.◌∷◌ c s) = elim (last_dot s) [
  | some t ↦ some t
  | none ↦ if nat_eqb (code c) b'.' then some (String.◌∷◌ c s) else none
]

-- `PurePath.suffix`: no suffix where the only dot begins the name, or where the last one ends it.
unfoldable pub suffix : String → String
unfolding last_dot
suffix String.[] = ""
suffix (String.◌∷◌ c s) = elim (last_dot s) [ none ↦ "" | some t ↦ if t == "." then "" else t ]

unfoldable pub before_last_dot : String → String
unfolding last_dot
before_last_dot String.[] = ""
before_last_dot (String.◌∷◌ c s) =
    let rest = before_last_dot s in
    elim (last_dot s) [
      | some t ↦ String.◌∷◌ c rest
      | none ↦ if nat_eqb (code c) b'.' then "" else String.◌∷◌ c s
    ]

-- `PurePath.stem`: the name without its suffix.
unfoldable pub stem : String → String
unfolding before_last_dot
stem String.[] = ""
stem (String.◌∷◌ c s) = elim (last_dot s) [
  | none ↦ String.◌∷◌ c s
  | some t ↦ if t == "." then String.◌∷◌ c s else String.◌∷◌ c (before_last_dot s)
]

-- SQL's `LIKE '%' || ext`, which ignores the case of ASCII letters. The suffixes of the program hold
-- no wildcard.
unfoldable pub fold_case : ℕ → ℕ
fold_case c = if leb b'A' c && leb c b'Z' then c + 32 else c

same_text : String → String → Bool
unfolding fold_case
same_text String.[] String.[] = true
same_text (String.◌∷◌ c s) (String.◌∷◌ d t) =
    nat_eqb (fold_case (code c)) (fold_case (code d)) && same_text s t
same_text _ _ = false

unfoldable pub like_suffix : String → String → Bool
unfolding same_text
like_suffix ext String.[] = same_text ext ""
like_suffix ext (String.◌∷◌ c s) = same_text ext (String.◌∷◌ c s) || like_suffix ext s

like_suffix_runs : (like_suffix ".ttir" "k.TTIR" ≡ true) × (like_suffix ".ttir" "ttir" ≡ false)
unfolding like_suffix
like_suffix_runs = (refl, refl)

suffix_runs :
    (suffix "k.v.ttir" ≡ ".ttir") × (suffix ".json" ≡ "") × (suffix "k." ≡ "") × (suffix "k" ≡ "")
unfolding suffix
suffix_runs = (refl, refl, refl, refl)

stem_runs : (stem "w.tar.gz" ≡ "w.tar") × (stem ".json" ≡ ".json") × (stem "k." ≡ "k.")
unfolding stem
stem_runs = (refl, refl, refl)

show_ℤ_runs : show_ℤ (negsuc 119) ≡ "-120"
unfolding show_ℤ
show_ℤ_runs = refl

-- `s.endswith(t)`
unfoldable pub ends_with : String → String → Bool
ends_with String.[] t = "" == t
ends_with (String.◌∷◌ c s) t = (String.◌∷◌ c s) == t || ends_with s t
