-- ===== src/TritonUtil/Debugging/Laws.antt =====
-- What the rules of triton_util/triton_util/debugging.py mean.
use mcu.Base.{ℕ, ◌+◌, ◌≤◌, ◌<◌, ◌≡◌, refl, ap, ◌∙◌, Bool, true, false, not, ◌&&◌}
use mcu.Base.{Option, some, List, [], ◌∷◌, ◌++◌, map, length, keep, ◌==◌, nat_eq, All}
use mcu.Base.{ok, if◌then◌else◌, arith}
use mcu.Base.Text.{decimal_value}
use mcu.TritonUtil.Debugging.{Op, op_and_rest, split, int, rule_holds}
use mcu.TritonUtil.Debugging.{rules_hold, test_pid_conds, strip_start, strip_end, digits_of}
use mcu.TritonUtil.Debugging.{unsigned, signed, positive, compared}
use mcu.TritonUtil.Debugging.Texts.{
  Rule, anything, rule, op_text, number_text, text, join, threshold, meets,
}
use mcu.TritonUtil.Debugging.Texts.{all_meet, IsRule, IsAscii, split-join, op_and_rest-text}

and_then : (a b : Bool) → (if a then ok b else ok false) ≡ ok (a && b)
and_then true b = refl
and_then false b = refl

not_char : (c d : ℕ) → c < 48 → (48 + d == c) ≡ false
not_char c d h = ground arith

module _ (decimal : ℕ → Option ℕ) (space : ℕ → Bool) (ascii : IsAscii decimal space) where
  strip_start-keeps :
      (cs : List ℕ) → All (λ c. space c ≡ false) cs → strip_start decimal space cs ≡ cs
  strip_start-keeps [] h = refl
  strip_start-keeps (c ∷ cs) (h, hs) = rw h refl

  strip_end-keeps : (cs : List ℕ) → All (λ c. space c ≡ false) cs → strip_end decimal space cs ≡ cs
  strip_end-keeps [] h = refl
  strip_end-keeps (c ∷ []) (h, hs) = rw h refl
  strip_end-keeps (c ∷ d ∷ ds) (h, hs) = rw (strip_end-keeps (d ∷ ds) hs) refl

  digits_of-digits :
      (ds : List ℕ)
      → All (λ d. d < 10) ds
      → digits_of decimal space true (map (λ d. b'0' + d) ds) ≡ some ds
  digits_of-digits [] h = refl
  digits_of-digits (d ∷ ds) (h, hs) = rw (ascii.decimal_digit d h, digits_of-digits ds hs) refl

  unsigned-digits :
      (d : ℕ) (ds : List ℕ)
      → d < 10
      → All (λ d. d < 10) ds
      → length (d ∷ ds) ≤ 4300
      → unsigned decimal space (map (λ d. b'0' + d) (d ∷ ds)) ≡ ok (decimal_value 0 (d ∷ ds))
  unsigned-digits d ds h hs short =
      rw (ascii.decimal_digit d h, digits_of-digits ds hs) (ground arith)

  digits-not_space :
      (ds : List ℕ) → All (λ d. d < 10) ds → All (λ c. space c ≡ false) (map (λ d. b'0' + d) ds)
  digits-not_space [] h = tt
  digits-not_space (d ∷ ds) (h, hs) = (ascii.space_digit d h, digits-not_space ds hs)

  number-not_space :
      (minus : Bool) (ds : List ℕ)
      → All (λ d. d < 10) ds
      → All (λ c. space c ≡ false) (number_text minus ds)
  number-not_space true ds h = (ascii.space_minus, digits-not_space ds h)
  number-not_space false ds h = digits-not_space ds h

  signed-number :
      (minus : Bool) (d : ℕ) (ds : List ℕ)
      → d < 10
      → All (λ d. d < 10) ds
      → length (d ∷ ds) ≤ 4300
      → signed decimal space (number_text minus (d ∷ ds)) ≡ ok (threshold minus (d ∷ ds))
  signed-number true d ds h hs short = rw (unsigned-digits d ds h hs short) refl
  signed-number false d ds h hs short =
      rw (not_char 45 d (omega arith), not_char 43 d (omega arith))
        (ap (positive decimal space) (unsigned-digits d ds h hs short))

  pub int-number :
      (minus : Bool) (d : ℕ) (ds : List ℕ)
      → d < 10
      → All (λ d. d < 10) ds
      → length (d ∷ ds) ≤ 4300
      → int decimal space (number_text minus (d ∷ ds)) ≡ ok (threshold minus (d ∷ ds))
  unfolding int
  int-number minus d ds h hs short =
      let blank = number-not_space minus (d ∷ ds) (h, hs) in
      ap (λ x. signed decimal space (strip_end decimal space x))
        (strip_start-keeps (number_text minus (d ∷ ds)) blank)
      ∙ ap (signed decimal space) (strip_end-keeps (number_text minus (d ∷ ds)) blank)
      ∙ signed-number minus d ds h hs short

  op_and_rest-number :
      (op : Op) (minus : Bool) (d : ℕ) (ds : List ℕ)
      → d < 10
      → op_and_rest (op_text op ++ number_text minus (d ∷ ds))
        ≡ some (op, number_text minus (d ∷ ds))
  op_and_rest-number op true d ds h =
      op_and_rest-text op b'-' (map (λ d. b'0' + d) (d ∷ ds)) (λ e. omega arith)
  op_and_rest-number op false d ds h =
      op_and_rest-text op (b'0' + d) (map (λ d. b'0' + d) ds) (λ e. omega arith)

  rule_holds-read :
      (op : Op) (cs rest : List ℕ) (pid : ℕ)
      → op_and_rest cs ≡ some (op, rest)
      → rule_holds decimal space cs pid ≡ compared decimal space op pid (int decimal space rest)
  unfolding rule_holds
  rule_holds-read op [] rest pid h = absurd (cc)
  rule_holds-read op (c ∷ cs) rest pid h = rw (h, rule_holds) refl

  pub rule_holds-text :
      (r : Rule) (pid : ℕ) → IsRule r → rule_holds decimal space (text r) pid ≡ ok (meets r pid)
  unfolding rule_holds
  rule_holds-text anything pid h = refl
  rule_holds-text (rule op minus []) pid (a, b, h) = absurd (omega arith)
  rule_holds-text (rule op minus (d ∷ ds)) pid (a, b, (h, hs)) =
      rule_holds-read op (op_text op ++ number_text minus (d ∷ ds)) (number_text minus (d ∷ ds)) pid
        (op_and_rest-number op minus d ds h)
      ∙ ap (compared decimal space op pid) (int-number minus d ds h hs b)

  pub rules_hold-texts :
      (rs : List Rule) (pids : List ℕ)
      → All IsRule rs
      → rules_hold decimal space (map text rs) pids ≡ ok (all_meet rs pids)
  unfolding rules_hold
  rules_hold-texts [] pids h = refl
  rules_hold-texts (r ∷ rs) [] h = refl
  rules_hold-texts (r ∷ rs) (pid ∷ pids) (h, hs) =
      rw (rule_holds-text r pid h, rules_hold-texts rs pids hs)
        (and_then (meets r pid) (all_meet rs pids))

  -- A text that is the print of rules, spaces left out, is answered by whether the three ids meet
  -- the rules at their places.
  pub test_pid_conds_lem :
      (r : Rule) (rs : List Rule) (conds : List ℕ) (pid0 pid1 pid2 : ℕ)
      → IsRule r
      → All IsRule rs
      → keep (λ c. not (c == b' ')) conds ≡ join r rs
      → test_pid_conds decimal space conds pid0 pid1 pid2
        ≡ ok (all_meet (r ∷ rs) (pid0 ∷ pid1 ∷ pid2 ∷ []))
  unfolding test_pid_conds
  test_pid_conds_lem r rs conds pid0 pid1 pid2 h hs e =
      ap (λ x. rules_hold decimal space (split x) (pid0 ∷ pid1 ∷ pid2 ∷ [])) e
      ∙ ap (λ x. rules_hold decimal space x (pid0 ∷ pid1 ∷ pid2 ∷ [])) (split-join r rs h hs)
      ∙ rules_hold-texts (r ∷ rs) (pid0 ∷ pid1 ∷ pid2 ∷ []) (h, hs)
