-- ===== src/TritonUtil/Chunk.antt =====
-- The addresses and the masks of the chunks of triton_util/triton_util/coding.py.
use mcu.Base.{ℕ, ◌+◌, ◌*◌, ◌≤◌, ◌<◌, ◌≡◌, ◌∙◌, ap, sym, Bool, true, ◌&&◌, Option, arith}
use mcu.Base.{◌⊎◌, ltb, leb, ltb→lt, Bool-cases, inl, inr}
use mcu.TritonUtil.{Tl, VecLaws, MatLaws, offset_1d, offset_2d, mask_2d, stride_or}
use mcu.TritonUtil.{chunk_offsets, chunk_mask, index_bound, address_bound, max_numel, IsBlockSize}
use mathlib.Core.Path.{subst}

pub ap_both : {A B : Type 0} (f : A → A → B) {a a' b b' : A} → a ≡ a' → b ≡ b' → f a b ≡ f a' b'
ap_both f p q = λ i. f (p i) (q i)

-- Cells of a row-major matrix with rows of `s` cells have different addresses.
cell_lt : (r r' c s : ℕ) → r < r' → c < s → r * s + c < r' * s
cell_lt r r' c s h k = grind arith

nat_cases : (a b : ℕ) → (a < b) ⊎ ((b < a) ⊎ (a ≡ b))
nat_cases a b = elim (Bool-cases (ltb a b)) [
  | inl y ↦ inl (ltb→lt a b y)
  | inr n ↦ elim (Bool-cases (ltb b a)) [
    | inl y ↦ inr (inl (ltb→lt b a y))
    | inr n' ↦ inr (inr (ground arith))
  ]
]

pub cell_inj : (r r' c c' s : ℕ) → c < s → c' < s → r * s + c ≡ r' * s + c' → (r ≡ r') × (c ≡ c')
cell_inj r r' c c' s h h' e = elim (nat_cases r r') [
  | inl lt ↦ absurd (omega (arith, cell_lt r r' c s lt h, e))
  | inr (inl gt) ↦ absurd (omega (arith, cell_lt r' r c' s gt h', e))
  | inr (inr same) ↦ (same, omega (arith, ap (λ x. x * s) same, e))
]

-- Position `r` is one of those that the `n`-th chunk of `sz` covers, below the bound.
abbrev pub in_chunk : ℕ → ℕ → ℕ → ℕ → Bool
in_chunk n sz max r = leb (n * sz) r && (ltb r (n * sz + sz) && ltb r max)

-- The address of a cell of a matrix that begins at `ptr` and whose rows are `s` cells apart.
abbrev pub cell : ℕ → ℕ → ℕ → ℕ → ℕ
cell ptr s r c = ptr + (r * s + c)

-- The blocks have sizes that Triton takes, and the indices and addresses of the chunk fit.
pub record Fits (ptr sz0 sz1 n0 n1 s : ℕ) : Type 0 where
  pub size0 : IsBlockSize sz0
  pub size1 : IsBlockSize sz1
  pub elements : sz0 * sz1 ≤ max_numel
  pub rows : n0 * sz0 + sz0 ≤ index_bound
  pub offsets : (n0 * sz0 + sz0) * s + (n1 * sz1 + sz1) ≤ index_bound
  pub addresses : ptr + index_bound ≤ address_bound

pub offset_lt :
    (a a' b b' s bound : ℕ) → a < a' → b < b' → a' * s + b' ≤ bound → a * s + b * 1 < bound
offset_lt a a' b b' s bound h k m = grind arith

module _ {V : Type 0} (tl : Tl V) (vec : VecLaws tl) (mat : MatLaws tl) where
  open tl use {Vec, Mat, at, entry}

  pub offset_at :
      (sz n i : ℕ)
      → IsBlockSize sz
      → n * sz + sz ≤ index_bound
      → i < sz
      → at ℕ sz (offset_1d tl sz n) i ≡ n * sz + i
  unfolding offset_1d
  offset_at sz n i p b h =
      let e = vec.times_eq n sz (omega arith) in
      let e' = vec.arange_at sz i p h in
      vec.shift_at sz (tl.times n sz) (tl.arange sz) i h (omega (arith, e, e')) ∙ ap_both ◌+◌ e e'

  module _ (sz0 sz1 : ℕ) (offs0 : Vec ℕ sz0) (offs1 : Vec ℕ sz1) where
    pub offset_2d_entry :
        (s0 s1 i j : ℕ)
        → sz0 * sz1 ≤ max_numel
        → at ℕ sz0 offs0 i * s0 + at ℕ sz1 offs1 j * s1 < index_bound
        → i < sz0
        → j < sz1
        → entry ℕ sz0 sz1 (offset_2d tl sz0 sz1 offs0 offs1 s0 s1) i j
          ≡ at ℕ sz0 offs0 i * s0 + at ℕ sz1 offs1 j * s1
    unfolding offset_2d
    offset_2d_entry s0 s1 i j small b hi hj =
        let column = ap (λ x. x * s0) (mat.column_entry sz0 offs0 i hi) in
        let row = ap (λ x. x * s1) (mat.row_entry sz1 offs1 j hj) in
        let e =
          mat.scale_entry sz0 1 (tl.column sz0 offs0) s0 i 0 hi (omega arith)
            (omega (arith, column, b))
          ∙ column in
        let e' =
          mat.scale_entry 1 sz1 (tl.row sz1 offs1) s1 0 j (omega arith) hj (omega (arith, row, b))
          ∙ row in
        mat.add_entry sz0 sz1 (tl.scale sz0 1 (tl.column sz0 offs0) s0)
          (tl.scale 1 sz1 (tl.row sz1 offs1) s1) i j hi hj small (omega (arith, e, e', b))
        ∙ ap_both ◌+◌ e e'

    pub mask_2d_entry :
        (max0 max1 i j : ℕ)
        → sz0 * sz1 ≤ max_numel
        → i < sz0
        → j < sz1
        → entry Bool sz0 sz1 (mask_2d tl sz0 sz1 offs0 offs1 max0 max1) i j
          ≡ (ltb (at ℕ sz0 offs0 i) max0 && ltb (at ℕ sz1 offs1 j) max1)
    unfolding mask_2d
    mask_2d_entry max0 max1 i j small hi hj =
        mat.both_entry sz0 sz1 (tl.all_below sz0 1 (tl.column sz0 offs0) max0)
          (tl.all_below 1 sz1 (tl.row sz1 offs1) max1) i j hi hj small
        ∙ ap_both ◌&&◌
            (mat.all_below_entry sz0 1 (tl.column sz0 offs0) max0 i 0 hi (omega arith)
              ∙ ap (λ x. ltb x max0) (mat.column_entry sz0 offs0 i hi))
            (mat.all_below_entry 1 sz1 (tl.row sz1 offs1) max1 0 j (omega arith) hj
              ∙ ap (λ x. ltb x max1) (mat.row_entry sz1 offs1 j hj))

  module _ (ptr sz0 sz1 n0 n1 max0 max1 : ℕ) (stride0 : Option ℕ)
      (fits : Fits ptr sz0 sz1 n0 n1 (stride_or stride0 sz1)) where
    abbrev pub s : ℕ
    s = stride_or stride0 sz1

    abbrev pub pointers : Mat ℕ sz0 sz1
    pointers = tl.move sz0 sz1 ptr (chunk_offsets tl sz0 sz1 n0 n1 stride0 1)

    abbrev pub mask : Mat Bool sz0 sz1
    mask = chunk_mask tl sz0 sz1 n0 n1 max0 max1

    row_at : (i : ℕ) → i < sz0 → at ℕ sz0 (offset_1d tl sz0 n0) i ≡ n0 * sz0 + i
    row_at i = offset_at sz0 n0 i fits.size0 fits.rows

    column_at : (j : ℕ) → j < sz1 → at ℕ sz1 (offset_1d tl sz1 n1) j ≡ n1 * sz1 + j
    column_at j = offset_at sz1 n1 j fits.size1 (omega (arith, fits.offsets))

    -- The address of an element of the chunk.
    pub pointer-cell :
        (i j : ℕ)
        → i < sz0
        → j < sz1
        → entry ℕ sz0 sz1 pointers i j ≡ cell ptr s (n0 * sz0 + i) (n1 * sz1 + j)
    unfolding chunk_offsets
    pointer-cell i j hi hj =
        let e = ap_both (λ x y. x * s + y * 1) (row_at i hi) (column_at j hj) in
        let b =
          offset_lt (n0 * sz0 + i) (n0 * sz0 + sz0) (n1 * sz1 + j) (n1 * sz1 + sz1) s index_bound
            (omega arith) (omega arith) fits.offsets in
        let e' =
          offset_2d_entry sz0 sz1 (offset_1d tl sz0 n0) (offset_1d tl sz1 n1) s 1 i j fits.elements
            (subst (λ x. x < index_bound) (sym e) b) hi hj
          ∙ e in
        mat.move_entry sz0 sz1 ptr (chunk_offsets tl sz0 sz1 n0 n1 stride0 1) i j hi hj
          (omega (arith, e', b, fits.addresses))
        ∙ ap (λ x. ptr + x) e'
        ∙ omega arith

    pub chunk_mask_entry :
        (i j : ℕ)
        → i < sz0
        → j < sz1
        → entry Bool sz0 sz1 mask i j ≡ (ltb (n0 * sz0 + i) max0 && ltb (n1 * sz1 + j) max1)
    unfolding chunk_mask
    chunk_mask_entry i j hi hj =
        mask_2d_entry sz0 sz1 (offset_1d tl sz0 n0) (offset_1d tl sz1 n1) max0 max1 i j
          fits.elements hi hj
        ∙ ap_both (λ x y. ltb x max0 && ltb y max1) (row_at i hi) (column_at j hj)

    pub within :
        (i j : ℕ)
        → i < sz0
        → j < sz1
        → entry Bool sz0 sz1 mask i j ≡ true
        → (n0 * sz0 + i < max0) × (n1 * sz1 + j < max1)
    within i j hi hj h = ground (arith, chunk_mask_entry i j hi hj)

    -- Two elements of the chunk that have one address are one element.
    pub one_element :
        (r c k l : ℕ)
        → max1 ≤ s
        → c < s
        → k < sz0
        → l < sz1
        → entry Bool sz0 sz1 mask k l ≡ true
        → entry ℕ sz0 sz1 pointers k l ≡ cell ptr s r c
        → (n0 * sz0 + k ≡ r) × (n1 * sz1 + l ≡ c)
    one_element r c k l short hc hk hl h e =
        let (_, b) = within k l hk hl h in
        cell_inj (n0 * sz0 + k) r (n1 * sz1 + l) c s (omega arith) hc
          (omega (arith, pointer-cell k l hk hl, e))
