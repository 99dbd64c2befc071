-- ===== src/TritonUtil/Debugging/Once.antt =====
-- What happens once in triton_util/triton_util/debugging.py, the check of tensors, and offsets of
-- pointers.
use mcu.Base.{ℕ, ◌+◌, ◌%◌, ◌^◌, ◌<◌, ◌≡◌, refl, ap, ◌∙◌, Bool, true, false, ◌&&◌}
use mcu.Base.{Option, none, List, [], ◌∷◌, map, ◌==◌, nat_eq, string_eq, All}
use mcu.Base.{◌↔◌, ◌⊎◌, inl, inr, String, ok, ◌>>=◌, if◌then◌else◌, arith, Bool-cases}
use mcu.Base.Text.{codes, decimal_value}
use mcu.TritonUtil.Debugging.{Op, stopped, printed, holds}
use mcu.TritonUtil.Debugging.{breakpoint_once, print_once, test_pid_conds, Tensor, is_one}
use mcu.TritonUtil.Debugging.{assert_tensors_gpu_ready, sub_u64, offsets_from_base}
use mcu.TritonUtil.Debugging.Laws.{test_pid_conds_lem}
use mcu.TritonUtil.Debugging.Texts.{Rule, rule, IsRule, meets, IsAscii, all_meet}

abbrev is_zero : Rule
is_zero = rule Op.equal false (0 ∷ [])

zero-IsRule : IsRule is_zero
zero-IsRule = (omega arith, omega arith, (omega arith, tt))

holds-zero : (p : ℕ) → meets is_zero p ≡ (p == 0)
unfolding holds decimal_value
holds-zero p = ground arith

and_true : (b : Bool) → (b && true) ≡ b
and_true true = refl
and_true false = refl

three_zeros :
    (p q r : ℕ)
    → all_meet (is_zero ∷ is_zero ∷ is_zero ∷ []) (p ∷ q ∷ r ∷ []) ≡ (p == 0 && (q == 0 && r == 0))
three_zeros p q r = rw (holds-zero p, holds-zero q, holds-zero r, and_true (r == 0)) refl

module _ (decimal : ℕ → Option ℕ) (space : ℕ → Bool) (ascii : IsAscii decimal space) where
  first_program :
      (pid0 pid1 pid2 : ℕ)
      → test_pid_conds decimal space (codes "=0,=0,=0") pid0 pid1 pid2
        ≡ ok (pid0 == 0 && (pid1 == 0 && pid2 == 0))
  first_program pid0 pid1 pid2 =
      test_pid_conds_lem decimal space ascii is_zero (is_zero ∷ is_zero ∷ []) (codes "=0,=0,=0")
        pid0 pid1 pid2 zero-IsRule (zero-IsRule, (zero-IsRule, tt)) refl
      ∙ ap ok (three_zeros pid0 pid1 pid2)

  -- Of all programs exactly that with the ids 0, 0 and 0 stops at `breakpoint_once` and prints at
  -- `print_once`.
  pub once_lem :
      (txt : List String) (pid0 pid1 pid2 : ℕ)
      → (breakpoint_once decimal space pid0 pid1 pid2
          ≡ ok (if pid0 == 0 && (pid1 == 0 && pid2 == 0) then stopped ∷ [] else []))
        × (print_once decimal space txt pid0 pid1 pid2
            ≡ ok (if pid0 == 0 && (pid1 == 0 && pid2 == 0) then printed txt ∷ [] else []))
  unfolding breakpoint_once print_once
  once_lem txt pid0 pid1 pid2 = (
    ap (λ r. r >>= (λ b. ok (if b then stopped ∷ [] else []))) (first_program pid0 pid1 pid2),
    ap (λ r. r >>= (λ b. ok (if b then printed txt ∷ [] else []))) (first_program pid0 pid1 pid2),
  )

neither : {a b : Bool} → a ≡ false → b ≡ false → (a ≡ true) ⊎ (b ≡ true) → ⊥
neither h k (inl y) = cc
neither h k (inr y) = cc

-- `assert_tensors_gpu_ready` passes where every tensor is contiguous, and on CUDA unless
-- `TRITON_INTERPRET` is "1".
pub assert_tensors_gpu_ready_iff :
    (triton_interpret : Option String) (ts : List Tensor)
    → (assert_tensors_gpu_ready triton_interpret ts ≡ none)
      ↔ All
          (λ t. (t.is_contiguous ≡ true) × ((is_one triton_interpret ≡ true) ⊎ (t.is_cuda ≡ true)))
          ts
unfolding assert_tensors_gpu_ready
assert_tensors_gpu_ready_iff i [] = (λ h. tt, λ h. refl)
assert_tensors_gpu_ready_iff i (t ∷ ts) =
    let (there, back) = assert_tensors_gpu_ready_iff i ts in
    elim (Bool-cases t.is_contiguous) [
      | inr c ↦ (λ e. absurd (cc (rw c at e)), λ h. absurd (cc (c, h.0.0)))
      | inl c ↦ elim (Bool-cases (is_one i)) [
        | inl o ↦ (λ e. ((c, inl o), there (rw (c, o) at e)), λ h. rw (c, o) (back h.1))
        | inr o ↦ elim (Bool-cases t.is_cuda) [
          | inl g ↦ (λ e. ((c, inr g), there (rw (c, o, g) at e)), λ h. rw (c, o, g) (back h.1))
          | inr g ↦ (λ e. absurd (cc (rw (c, o, g) at e)), λ h. absurd (neither o g h.0.1))
        ]
      ]
    ]

-- Added to the base pointer, the offsets lead back to the pointers.
pub offsets_from_base_lem :
    (ptrs : List ℕ) (base_ptr : ℕ)
    → base_ptr < 2 ^ 64
    → All (λ p. p < 2 ^ 64) ptrs
    → map (λ o. (base_ptr + o) % 2 ^ 64) (offsets_from_base ptrs base_ptr) ≡ ptrs
unfolding offsets_from_base sub_u64
offsets_from_base_lem [] base_ptr h hs = refl
offsets_from_base_lem (p ∷ ps) base_ptr h (b, bs) =
    let first : (base_ptr + sub_u64 p base_ptr) % 2 ^ 64 ≡ p = omega arith in
    rw (offsets_from_base_lem ps base_ptr h bs) (ap (λ x. x ∷ ps) first)
