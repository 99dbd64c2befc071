-- ===== src/TritonUtil/Debugging.antt =====
-- triton_util/triton_util/debugging.py: rules on the ids of a program, what is printed and where
-- execution stops, the check of tensors, and offsets of pointers. A text is the list of its code
-- points.
pub mod Texts
pub mod Laws
pub mod Once
use mcu.Base.{ℕ, zero, suc, ◌+◌, ◌-◌, ◌%◌, ◌^◌, ◌≡◌, refl, Bool, true, false, not, ◌&&◌, ◌||◌}
use mcu.Base.{Option, none, some, List, [], ◌∷◌, map, length, keep, ltb, ◌==◌, nat_eq, string_eq}
use mcu.Base.{String, Result, ok, err, value_error, ◌>>=◌, if◌then◌else◌}
use mcu.Base.Int.{ℤ, pos, negsuc, ltb_ℤ}
use mcu.Base.Text.{codes, decimal_value}

pub data Op : Type 0 where
  less greater equal at_most at_least differs : Op

abbrev op_of_two : ℕ → ℕ → Option Op
op_of_two a b =
    if b == b'='
    then (if a == b'<'
        then some at_most
        else if a == b'>'
        then some at_least
        else if a == b'!'
        then some differs
        else none)
    else none

abbrev op_of_one : ℕ → Option Op
op_of_one a =
    if a == b'<'
    then some less
    else if a == b'>'
    then some greater
    else if a == b'='
    then some equal
    else none

-- The operator at the beginning of a rule, the longer one first, and the rest.
abbrev with_one : ℕ → List ℕ → Option (Op × List ℕ)
with_one a cs = elim (op_of_one a) [ none ↦ none | some op ↦ some (op, cs) ]

unfoldable pub op_and_rest : List ℕ → Option (Op × List ℕ)
op_and_rest [] = none
op_and_rest (a ∷ []) = with_one a []
op_and_rest (a ∷ b ∷ cs) = elim (op_of_two a b) [
  | some op ↦ some (op, cs)
  | none ↦ with_one a (b ∷ cs)
]

-- The comparison that `eval` computes.
unfoldable pub holds : Op → ℕ → ℤ → Bool
holds less p t = ltb_ℤ (pos p) t
holds greater p t = ltb_ℤ t (pos p)
holds equal p t = not (ltb_ℤ (pos p) t) && not (ltb_ℤ t (pos p))
holds at_most p t = not (ltb_ℤ t (pos p))
holds at_least p t = not (ltb_ℤ (pos p) t)
holds differs p t = ltb_ℤ (pos p) t || ltb_ℤ t (pos p)

unfoldable pub negate : ℕ → ℤ
negate zero = pos 0
negate (suc n) = negsuc n

-- `s.split(',')`
abbrev put_first : ℕ → List (List ℕ) → List (List ℕ)
put_first c [] = (c ∷ []) ∷ []
put_first c (r ∷ rs) = (c ∷ r) ∷ rs

unfoldable pub split : List ℕ → List (List ℕ)
split [] = [] ∷ []
split (c ∷ cs) = let rest = split cs in if c == b',' then [] ∷ rest else put_first c rest

pub data Event : Type 0 where
  stopped : Event
  printed : List String → Event

-- `os.environ.get('TRITON_INTERPRET') == '1'`
abbrev is_one : Option String → Bool
is_one none = false
is_one (some s) = s == "1"

-- `decimal` gives the decimal digits of Unicode their values, and `space` is `isspace`.
module _ (decimal : ℕ → Option ℕ) (space : ℕ → Bool) where
  abbrev strip_start : List ℕ → List ℕ
  strip_start [] = []
  strip_start (c ∷ cs) = let rest = strip_start cs in if space c then rest else c ∷ cs

  abbrev strip_end : List ℕ → List ℕ
  strip_end [] = []
  strip_end (c ∷ cs) = elim (strip_end cs) [
    | [] ↦ if space c then [] else c ∷ []
    | d ∷ ds ↦ c ∷ d ∷ ds
  ]

  -- The digits of a number; single underscores may stand between digits.
  abbrev digits_of : Bool → List ℕ → Option (List ℕ)
  digits_of after_digit [] = if after_digit then some [] else none
  digits_of after_digit (c ∷ cs) = elim (decimal c) [
    | some d ↦ elim (digits_of true cs) [ none ↦ none | some ds ↦ some (d ∷ ds) ]
    | none ↦ elim (c == b'_' && after_digit) [ true ↦ digits_of false cs | false ↦ none ]
  ]

  -- A number of more than 4300 digits is refused.
  abbrev unsigned : List ℕ → Result ℕ
  unsigned cs = elim (digits_of false cs) [
    | none ↦ err value_error
    | some ds ↦ if ltb 4300 (length ds) then err value_error else ok (decimal_value 0 ds)
  ]

  abbrev negative : Result ℕ → Result ℤ
  negative r = do n ← r; ok (negate n)

  abbrev positive : Result ℕ → Result ℤ
  positive r = do n ← r; ok (pos n)

  abbrev signed : List ℕ → Result ℤ
  signed [] = err value_error
  signed (c ∷ cs) =
      if c == b'-'
      then negative (unsigned cs)
      else if c == b'+'
      then positive (unsigned cs)
      else positive (unsigned (c ∷ cs))

  -- `int(s)`
  unfoldable pub int : List ℕ → Result ℤ
  unfolding decimal_value negate
  int cs = signed (strip_end (strip_start cs))

  abbrev compared : Op → ℕ → Result ℤ → Result Bool
  compared op pid r = do threshold ← r; ok (holds op pid threshold)

  -- A rule for one id; an empty rule is passed over.
  unfoldable pub rule_holds : List ℕ → ℕ → Result Bool
  unfolding int op_and_rest holds
  rule_holds [] pid = ok true
  rule_holds (c ∷ cs) pid = elim (op_and_rest (c ∷ cs)) [
    | none ↦ err value_error
    | some p ↦ compared p.0 pid (int p.1)
  ]

  abbrev goes_on : Result Bool → Result Bool → Result Bool
  goes_on r rest = do b ← r; if b then rest else ok false

  -- The loop over the pairs of `zip`, which ends with the shorter of the two.
  unfoldable pub rules_hold : List (List ℕ) → List ℕ → Result Bool
  unfolding rule_holds
  rules_hold [] pids = ok true
  rules_hold (cond ∷ conds) [] = ok true
  rules_hold (cond ∷ conds) (pid ∷ pids) =
      let rest = rules_hold conds pids in goes_on (rule_holds cond pid) rest

  -- `_test_pid_conds`
  unfoldable pub test_pid_conds : List ℕ → ℕ → ℕ → ℕ → Result Bool
  unfolding split rules_hold
  test_pid_conds conds pid0 pid1 pid2 =
      rules_hold (split (keep (λ c. not (c == b' ')) conds)) (pid0 ∷ pid1 ∷ pid2 ∷ [])

  -- What a program with the ids `pid0`, `pid1` and `pid2` does: `set_trace` stops it.
  unfoldable pub breakpoint_if : List ℕ → ℕ → ℕ → ℕ → Result (List Event)
  unfolding test_pid_conds
  breakpoint_if conds pid0 pid1 pid2 = do
    b ← test_pid_conds conds pid0 pid1 pid2
    ok (if b then stopped ∷ [] else [])

  unfoldable pub print_if : List String → List ℕ → ℕ → ℕ → ℕ → Result (List Event)
  unfolding test_pid_conds
  print_if txt conds pid0 pid1 pid2 = do
    b ← test_pid_conds conds pid0 pid1 pid2
    ok (if b then printed txt ∷ [] else [])

  unfoldable pub breakpoint_once : ℕ → ℕ → ℕ → Result (List Event)
  unfolding breakpoint_if
  breakpoint_once = breakpoint_if (codes "=0,=0,=0")

  unfoldable pub print_once : List String → ℕ → ℕ → ℕ → Result (List Event)
  unfolding print_if
  print_once txt = print_if txt (codes "=0,=0,=0")

-- What `assert_tensors_gpu_ready` asks of a tensor, and the assertions that fail.
pub record Tensor : Type 0 where
  pub is_contiguous : Bool
  pub is_cuda : Bool

pub data AssertionError : Type 0 where
  not_contiguous not_on_cuda : AssertionError

-- The first assertion that fails; `triton_interpret` is the environment variable.
unfoldable pub assert_tensors_gpu_ready : Option String → List Tensor → Option AssertionError
assert_tensors_gpu_ready triton_interpret [] = none
assert_tensors_gpu_ready triton_interpret (t ∷ ts) =
    let rest = assert_tensors_gpu_ready triton_interpret ts in
    if not t.is_contiguous
    then some not_contiguous
    else if not (is_one triton_interpret)
    then (if t.is_cuda then rest else some not_on_cuda)
    else rest

-- The subtraction of two `uint64`, element by element.
unfoldable pub sub_u64 : ℕ → ℕ → ℕ
sub_u64 a b = (a % 2 ^ 64 + (2 ^ 64 - b % 2 ^ 64)) % 2 ^ 64

unfoldable pub offsets_from_base : List ℕ → ℕ → List ℕ
unfolding sub_u64
offsets_from_base ptrs base_ptr = map (λ p. sub_u64 p base_ptr) ptrs
