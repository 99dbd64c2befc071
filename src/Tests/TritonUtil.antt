-- ===== src/Tests/TritonUtil.antt =====
-- Blocks as functions of their positions, to run the chunks of triton_util/triton_util/coding.py.
use mathlib.Core.Path.{subst}
use mcu.Base.{ℕ, zero, suc, ◌+◌, ◌*◌, ◌%◌, ◌<◌, ◌≡◌, ◌≢◌, refl, ap, ◌∙◌, Bool, true, false, ◌&&◌}
use mcu.Base.{some, arith, ltb, ◌==◌, nat_eq, if◌then◌else◌, Bool-cases, ltb→lt, inl, inr}
use mcu.TritonUtil.Chunk.{Fits}
use mcu.TritonUtil.{
  index_bound, address_bound, max_numel, IsBlockSize, Tl, VecLaws, MatLaws, store_2d, load_2d,
}
use mcu.TritonUtil.Laws.{store_2d_lem, load_2d-store_2d}

-- One masked write after the other.
abbrev write : {V : Type 0} → (n : ℕ) → (ℕ → V) → (ℕ → ℕ) → (ℕ → V) → (ℕ → Bool) → ℕ → V
write zero mem p v mask a = mem a
write (suc n) mem p v mask a =
    let rest = write n mem p v mask a in if mask n && p n == a then v n else rest

abbrev write_rows :
    {V : Type 0} → (n m : ℕ) → (ℕ → V) → (ℕ → ℕ → ℕ) → (ℕ → ℕ → V) → (ℕ → ℕ → Bool) → ℕ → V
write_rows zero m mem p v mask = mem
write_rows (suc n) m mem p v mask = write m (write_rows n m mem p v mask) (p n) (v n) (mask n)

before :
    (mask : ℕ → Bool) (p : ℕ → ℕ) (i n : ℕ)
    → i < suc n
    → (mask n && p n == p i) ≡ false
    → mask i ≡ true
    → i < n
before mask p i n h no_write m = elim (Bool-cases (ltb i n)) [
  | inl y ↦ ltb→lt i n y
  | inr n' ↦ let e : i ≡ n = ground arith in absurd (ground (arith, e, ap mask e, ap p e))
]

module _ {V : Type 0} where
  write_other :
      (n : ℕ) (mem : ℕ → V) (p : ℕ → ℕ) (v : ℕ → V) (mask : ℕ → Bool) (a : ℕ)
      → ((k : ℕ) → k < n → mask k ≡ true → p k ≢ a)
      → write n mem p v mask a ≡ mem a
  write_other zero mem p v mask a h = refl
  write_other (suc n) mem p v mask a h = elim (Bool-cases (mask n && p n == a)) [
    | inl y ↦ absurd (h n (omega arith) (ground arith) (ground arith))
    | inr n' ↦ rw n' (write_other n mem p v mask a (λ k hk. h k (omega arith)))
  ]

  write_at :
      (n : ℕ) (mem : ℕ → V) (p : ℕ → ℕ) (v : ℕ → V) (mask : ℕ → Bool) (i : ℕ)
      → i < n
      → mask i ≡ true
      → ((k : ℕ) → k < n → mask k ≡ true → p k ≡ p i → k ≡ i)
      → write n mem p v mask (p i) ≡ v i
  write_at zero mem p v mask i h m u = absurd (omega arith)
  write_at (suc n) mem p v mask i h m u = elim (Bool-cases (mask n && p n == p i)) [
    | inl y ↦ rw y (ap v (u n (omega arith) (ground arith) (ground arith)))
    | inr n' ↦
        rw n' (write_at n mem p v mask i (before mask p i n h n' m) m (λ k hk. u k (omega arith)))
  ]

  write_rows_other :
      (n m : ℕ) (mem : ℕ → V) (p : ℕ → ℕ → ℕ) (v : ℕ → ℕ → V) (mask : ℕ → ℕ → Bool) (a : ℕ)
      → ((k l : ℕ) → k < n → l < m → mask k l ≡ true → p k l ≢ a)
      → write_rows n m mem p v mask a ≡ mem a
  write_rows_other zero m mem p v mask a h = refl
  write_rows_other (suc n) m mem p v mask a h =
      write_other m (write_rows n m mem p v mask) (p n) (v n) (mask n) a (λ l. h n l (omega arith))
      ∙ write_rows_other n m mem p v mask a (λ k l hk. h k l (omega arith))

  write_rows_at :
      (n m : ℕ) (mem : ℕ → V) (p : ℕ → ℕ → ℕ) (v : ℕ → ℕ → V) (mask : ℕ → ℕ → Bool) (i j : ℕ)
      → i < n
      → j < m
      → mask i j ≡ true
      → ((k l : ℕ) → k < n → l < m → mask k l ≡ true → p k l ≡ p i j → (k ≡ i) × (l ≡ j))
      → write_rows n m mem p v mask (p i j) ≡ v i j
  write_rows_at zero m mem p v mask i j hi hj on u = absurd (omega arith)
  write_rows_at (suc n) m mem p v mask i j hi hj on u = elim (Bool-cases (ltb i n)) [
    | inl y ↦
        write_other m (write_rows n m mem p v mask) (p n) (v n) (mask n) (p i j)
          (λ l hl ml e. omega (arith, (u n l (omega arith) hl ml e).0, ltb→lt i n y))
        ∙ write_rows_at n m mem p v mask i j (ltb→lt i n y) hj on (λ k l hk. u k l (omega arith))
    | inr n' ↦ last (ground arith)
  ]
    where
      last : i ≡ n → write_rows (suc n) m mem p v mask (p i j) ≡ v i j
      last e =
          let rest = write_rows n m mem p v mask in
          subst (λ q. write m rest (p q) (v q) (mask q) (p i j) ≡ v i j) e
            (write_at m rest (p i) (v i) (mask i) j hj on (λ l hl ml same. (u i l hi hl ml same).1))

-- Indices wrap at the bound.
no_wrap : (n : ℕ) → n < index_bound → n % index_bound ≡ n
unfolding index_bound
no_wrap n h = omega arith

abbrev blocks : {V : Type 0} → Tl V
blocks = record {
  Vec = λ A n. ℕ → A;
  Mat = λ A n m. ℕ → ℕ → A;
  at = λ A n x. x;
  entry = λ A n m x. x;
  times = λ a b. a * b % index_bound;
  arange = λ n i. i;
  shift = λ n c x i. (c + x i) % index_bound;
  advance = λ n c x i. c + x i;
  below = λ n x max i. ltb (x i) max;
  column = λ n x i j. x i;
  row = λ m x i j. x j;
  scale = λ n m x s i j. x i j * s % index_bound;
  all_below = λ n m x max i j. ltb (x i j) max;
  add = λ n m x y i j. (x i 0 + y 0 j) % index_bound;
  both = λ n m x y i j. x i 0 && y 0 j;
  move = λ n m c x i j. c + x i j;
  load = λ n mem p mask i. mem (p i);
  load_mat = λ n m mem p mask i j. mem (p i j);
  store = λ n mem p v mask. write n mem p v mask;
  store_mat = λ n m mem p v mask. write_rows n m mem p v mask;
}

blocks-VecLaws : {V : Type 0} → VecLaws (blocks {V = V})
blocks-VecLaws = record {
  times_eq = λ a b h. no_wrap (a * b) h;
  arange_at = λ n i p h. refl;
  shift_at = λ n c x i h b. no_wrap (c + x i) b;
  advance_at = λ n c x i h b. refl;
  below_at = λ n x max i h. refl;
  load_at = λ n mem p mask i h on. refl;
  store_at = write_at;
  store_other = write_other;
}

blocks-MatLaws : {V : Type 0} → MatLaws (blocks {V = V})
blocks-MatLaws = record {
  column_entry = λ n x i h. refl;
  row_entry = λ m x j h. refl;
  scale_entry = λ n m x s i j hi hj b. no_wrap (x i j * s) b;
  all_below_entry = λ n m x max i j hi hj. refl;
  add_entry = λ n m x y i j hi hj small b. no_wrap (x i 0 + y 0 j) b;
  both_entry = λ n m x y i j hi hj small. refl;
  move_entry = λ n m c x i j hi hj b. refl;
  load_entry = λ n m mem p mask i j hi hj on. refl;
  store_entry = write_rows_at;
  store_elsewhere = write_rows_other;
}

-- A matrix of three rows of three cells at address 2, and a chunk of two rows and two columns.
abbrev memory : ℕ → ℕ
memory a = a

abbrev chunk : ℕ → ℕ → ℕ
chunk i j = 100 + (10 * i + j)

two : IsBlockSize 2
unfolding max_numel
two = record { exponent = 1; power = refl; small = omega arith }

fits : Fits 2 2 2 1 0 3
unfolding index_bound address_bound max_numel
fits = record {
  size0 = two;
  size1 = two;
  elements = omega arith;
  rows = omega arith;
  offsets = omega arith;
  addresses = omega arith;
}

store_2d_example : store_2d (blocks {V = ℕ}) memory 2 2 2 chunk 1 0 3 3 (some 3) 1 9 ≡ 101
store_2d_example =
    store_2d_lem (blocks {V = ℕ}) blocks-VecLaws blocks-MatLaws memory 2 2 2 1 0 3 3 (some 3) fits
      chunk 2 1 (omega arith) (omega arith)

load_2d-store_2d_example :
    load_2d
      (blocks {V = ℕ})
      (store_2d (blocks {V = ℕ}) memory 2 2 2 chunk 1 0 3 3 (some 3) 1)
      2
      2
      2
      1
      0
      3
      3
      (some 3)
      1
      0
      1
    ≡ chunk 0 1
load_2d-store_2d_example =
    load_2d-store_2d (blocks {V = ℕ}) blocks-VecLaws blocks-MatLaws memory 2 2 2 1 0 3 3 (some 3)
      chunk 0 1 fits (omega arith) (omega arith) (omega arith) (omega arith) (omega arith)
