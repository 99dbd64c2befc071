-- ===== src/TritonUtil/Debugging/Texts.antt =====
-- The rules of triton_util/triton_util/debugging.py as data, and their texts.
use mcu.Base.{ℕ, ◌+◌, ◌≤◌, ◌<◌, ◌≡◌, ◌≢◌, refl, ap, ◌∙◌, Bool, true, false, ◌&&◌}
use mcu.Base.{Option, some, List, [], ◌∷◌, ◌++◌, map, length, nat_eq, All}
use mcu.Base.{arith, All-append}
use mcu.Base.Int.{ℤ, pos}
use mcu.Base.Text.{decimal_value}
use mcu.TritonUtil.Debugging.{Op, op_and_rest, holds, negate, split}

-- A rule for one id: none, or an operator with the sign and the decimal digits of a threshold.
pub data Rule : Type 0 where
  anything : Rule
  rule : Op → Bool → List ℕ → Rule

abbrev pub op_text : Op → List ℕ
op_text Op.less = b'<' ∷ []
op_text Op.greater = b'>' ∷ []
op_text Op.equal = b'=' ∷ []
op_text Op.at_most = b'<' ∷ b'=' ∷ []
op_text Op.at_least = b'>' ∷ b'=' ∷ []
op_text Op.differs = b'!' ∷ b'=' ∷ []

abbrev pub number_text : Bool → List ℕ → List ℕ
number_text true ds = b'-' ∷ map (λ d. b'0' + d) ds
number_text false ds = map (λ d. b'0' + d) ds

abbrev pub text : Rule → List ℕ
text anything = []
text (rule op minus ds) = op_text op ++ number_text minus ds

abbrev pub join : Rule → List Rule → List ℕ
join r [] = text r
join r (r' ∷ rs) = text r ++ (b',' ∷ join r' rs)

abbrev pub threshold : Bool → List ℕ → ℤ
threshold true ds = negate (decimal_value 0 ds)
threshold false ds = pos (decimal_value 0 ds)

abbrev pub meets : Rule → ℕ → Bool
meets anything pid = true
meets (rule op minus ds) pid = holds op pid (threshold minus ds)

-- Each id meets its rule; ids without a rule are free, and rules without an id are left out.
abbrev pub all_meet : List Rule → List ℕ → Bool
all_meet [] pids = true
all_meet (r ∷ rs) [] = true
all_meet (r ∷ rs) (pid ∷ pids) = meets r pid && all_meet rs pids

-- Digits that `int` reads.
abbrev pub IsRule : Rule → Type 0
IsRule anything = Unit
IsRule (rule op minus ds) = (0 < length ds) × (length ds ≤ 4300) × All (λ d. d < 10) ds

-- The tables of Unicode at the ASCII characters of a number.
pub record IsAscii (decimal : ℕ → Option ℕ) (space : ℕ → Bool) : Type 0 where
  pub decimal_digit : (d : ℕ) → d < 10 → decimal (b'0' + d) ≡ some d
  pub space_digit : (d : ℕ) → d < 10 → space (b'0' + d) ≡ false
  pub space_minus : space b'-' ≡ false

split-last : (cs : List ℕ) → All (λ c. c ≢ b',') cs → split cs ≡ cs ∷ []
unfolding split
split-last [] h = refl
split-last (c ∷ cs) (h, hs) = rw (split-last cs hs) (ground arith)

split-append :
    (cs rest : List ℕ) → All (λ c. c ≢ b',') cs → split (cs ++ (b',' ∷ rest)) ≡ cs ∷ split rest
unfolding split
split-append [] rest h = refl
split-append (c ∷ cs) rest (h, hs) = rw (split-append cs rest hs) (ground arith)

digits-no_comma :
    (ds : List ℕ) → All (λ d. d < 10) ds → All (λ c. c ≢ b',') (map (λ d. b'0' + d) ds)
digits-no_comma [] h = tt
digits-no_comma (d ∷ ds) (h, hs) = (λ e. omega arith, digits-no_comma ds hs)

op_text-no_comma : (op : Op) → All (λ c. c ≢ b',') (op_text op)
op_text-no_comma Op.less = (λ e. omega arith, tt)
op_text-no_comma Op.greater = (λ e. omega arith, tt)
op_text-no_comma Op.equal = (λ e. omega arith, tt)
op_text-no_comma Op.at_most = (λ e. omega arith, (λ e. omega arith, tt))
op_text-no_comma Op.at_least = (λ e. omega arith, (λ e. omega arith, tt))
op_text-no_comma Op.differs = (λ e. omega arith, (λ e. omega arith, tt))

number-no_comma :
    (minus : Bool) (ds : List ℕ) → All (λ d. d < 10) ds → All (λ c. c ≢ b',') (number_text minus ds)
number-no_comma true ds h = (λ e. omega arith, digits-no_comma ds h)
number-no_comma false ds h = digits-no_comma ds h

text-no_comma : (r : Rule) → IsRule r → All (λ c. c ≢ b',') (text r)
text-no_comma anything h = tt
text-no_comma (rule op minus ds) (a, b, h) =
    All-append (λ c. c ≢ b',') (op_text op) (number_text minus ds) (op_text-no_comma op)
      (number-no_comma minus ds h)

pub split-join :
    (r : Rule) (rs : List Rule)
    → IsRule r
    → All IsRule rs
    → split (join r rs) ≡ text r ∷ map text rs
split-join r [] h hs = split-last (text r) (text-no_comma r h)
split-join r (r' ∷ rs) h (h', hs) =
    split-append (text r) (join r' rs) (text-no_comma r h)
    ∙ ap (λ x. text r ∷ x) (split-join r' rs h' hs)

-- The operator is read off the beginning of the text of a rule.
pub op_and_rest-text :
    (op : Op) (c : ℕ) (cs : List ℕ)
    → c ≢ b'='
    → op_and_rest (op_text op ++ (c ∷ cs)) ≡ some (op, c ∷ cs)
unfolding op_and_rest
op_and_rest-text Op.less c cs h = ground arith
op_and_rest-text Op.greater c cs h = ground arith
op_and_rest-text Op.equal c cs h = ground arith
op_and_rest-text Op.at_most c cs h = refl
op_and_rest-text Op.at_least c cs h = refl
op_and_rest-text Op.differs c cs h = refl
