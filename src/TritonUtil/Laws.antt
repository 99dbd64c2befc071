-- ===== src/TritonUtil/Laws.antt =====
-- Which cells of a matrix the chunks of triton_util/triton_util/coding.py load and store.
use mcu.Base.{ℕ, ◌+◌, ◌-◌, ◌*◌, ◌≤◌, ◌<◌, ◌≡◌, ◌∙◌, ap, sym, Bool, true, ◌&&◌, Option, arith}
use mcu.Base.{if◌then◌else◌, Bool-cases, inl, inr, ltb}
use mcu.TritonUtil.{
  index_bound, Tl, VecLaws, MatLaws, stride_or, load_2d, store_2d, load_full_2d, offset_2d, mask_2d,
}
use mathlib.Core.Path.{subst}
use mcu.TritonUtil.Chunk.{Fits, offset_lt, ap_both, in_chunk, cell, s, pointers, mask, pointer-cell}
use mcu.TritonUtil.Chunk.{chunk_mask_entry, within, one_element, offset_2d_entry, mask_2d_entry}

module _ {V : Type 0} (tl : Tl V) (vec : VecLaws tl) (mat : MatLaws tl) where
  open tl use {Mat, entry}

  module _ (mem : ℕ → V) (ptr sz0 sz1 n0 n1 max0 max1 : ℕ) (stride0 : Option ℕ)
      (fits : Fits ptr sz0 sz1 n0 n1 (stride_or stride0 sz1)) where
    abbrev row_size : ℕ
    row_size = s tl vec mat ptr sz0 sz1 n0 n1 max0 max1 stride0 fits

    abbrev ptrs : Mat ℕ sz0 sz1
    ptrs = pointers tl vec mat ptr sz0 sz1 n0 n1 max0 max1 stride0 fits

    abbrev on : Mat Bool sz0 sz1
    on = mask tl vec mat ptr sz0 sz1 n0 n1 max0 max1 stride0 fits

    on_at :
        (i j : ℕ)
        → i < sz0
        → j < sz1
        → n0 * sz0 + i < max0
        → n1 * sz1 + j < max1
        → entry Bool sz0 sz1 on i j ≡ true
    on_at i j hi hj b0 b1 =
        chunk_mask_entry tl vec mat ptr sz0 sz1 n0 n1 max0 max1 stride0 fits i j hi hj
        ∙ ground arith

    cell_at :
        (i j : ℕ)
        → i < sz0
        → j < sz1
        → entry ℕ sz0 sz1 ptrs i j ≡ cell ptr row_size (n0 * sz0 + i) (n1 * sz1 + j)
    cell_at = pointer-cell tl vec mat ptr sz0 sz1 n0 n1 max0 max1 stride0 fits

    same_element :
        (r c k l : ℕ)
        → max1 ≤ row_size
        → c < row_size
        → k < sz0
        → l < sz1
        → entry Bool sz0 sz1 on k l ≡ true
        → entry ℕ sz0 sz1 ptrs k l ≡ cell ptr row_size r c
        → (n0 * sz0 + k ≡ r) × (n1 * sz1 + l ≡ c)
    same_element = one_element tl vec mat ptr sz0 sz1 n0 n1 max0 max1 stride0 fits

    stored :
        (vals : Mat V sz0 sz1) (i j : ℕ)
        → max1 ≤ row_size
        → i < sz0
        → j < sz1
        → n0 * sz0 + i < max0
        → n1 * sz1 + j < max1
        → tl.store_mat sz0 sz1 mem ptrs vals on (cell ptr row_size (n0 * sz0 + i) (n1 * sz1 + j))
          ≡ entry V sz0 sz1 vals i j
    stored vals i j short hi hj b0 b1 =
        ap (tl.store_mat sz0 sz1 mem ptrs vals on) (sym (cell_at i j hi hj))
        ∙ mat.store_entry sz0 sz1 mem ptrs vals on i j hi hj (on_at i j hi hj b0 b1)
            (λ k l hk hl h e.
              let (a, b) =
                same_element (n0 * sz0 + i) (n1 * sz1 + j) k l short (omega arith) hk hl h
                  (e ∙ cell_at i j hi hj) in
              (omega arith, omega arith))

    -- Where Triton takes the sizes of the block (powers of two, at most 2^20 elements), no index of the
    -- chunk overflows 32 bits with a sign and no address its own bound, and `stride1` is 1: a store of a
    -- chunk of a row-major matrix whose rows are at most as long as their distance writes exactly the
    -- cells of the chunk that lie below both bounds, each with the element at its place, and leaves every
    -- other cell of the matrix as it was.
    pub store_2d_lem :
        (vals : Mat V sz0 sz1) (r c : ℕ)
        → max1 ≤ stride_or stride0 sz1
        → c < stride_or stride0 sz1
        → store_2d tl mem ptr sz0 sz1 vals n0 n1 max0 max1 stride0 1
            (cell ptr (stride_or stride0 sz1) r c)
          ≡ (if in_chunk n0 sz0 max0 r && in_chunk n1 sz1 max1 c
              then entry V sz0 sz1 vals (r - n0 * sz0) (c - n1 * sz1)
              else mem (cell ptr (stride_or stride0 sz1) r c))
    unfolding store_2d
    store_2d_lem vals r c short hc =
        elim (Bool-cases (in_chunk n0 sz0 max0 r && in_chunk n1 sz1 max1 c)) [
          | inl y ↦ rw y (
              ap (tl.store_mat sz0 sz1 mem ptrs vals on)
                (ap_both (cell ptr row_size) (ground arith) (ground arith))
              ∙ stored vals (r - n0 * sz0) (c - n1 * sz1) short (ground arith) (ground arith)
                  (ground arith) (ground arith))
          | inr n ↦ rw n (
              mat.store_elsewhere sz0 sz1 mem ptrs vals on (cell ptr row_size r c) (λ k l hk hl h e.
                let (a, b) = same_element r c k l short hc hk hl h e in
                let (x, z) =
                  within tl vec mat ptr sz0 sz1 n0 n1 max0 max1 stride0 fits k l hk hl h in
                ground arith))
        ]

    -- Each element of a chunk that lies below both bounds is loaded from its cell of the matrix.
    pub load_2d_lem :
        (i j : ℕ)
        → i < sz0
        → j < sz1
        → n0 * sz0 + i < max0
        → n1 * sz1 + j < max1
        → entry V sz0 sz1 (load_2d tl mem ptr sz0 sz1 n0 n1 max0 max1 stride0 1) i j
          ≡ mem (cell ptr (stride_or stride0 sz1) (n0 * sz0 + i) (n1 * sz1 + j))
    unfolding load_2d
    load_2d_lem i j hi hj b0 b1 =
        mat.load_entry sz0 sz1 mem ptrs on i j hi hj (on_at i j hi hj b0 b1)
        ∙ ap mem (cell_at i j hi hj)

  -- Where Triton takes the sizes of the block (powers of two, at most 2^20 elements), no index of the
  -- chunk overflows 32 bits with a sign and no address its own bound, and `stride1` is 1: a chunk that
  -- is stored and loaded again with the same arguments, in a matrix whose rows are at most as long as
  -- their distance, has the stored elements at all its places below both bounds.
  pub load_2d-store_2d :
      (mem : ℕ → V) (ptr sz0 sz1 n0 n1 max0 max1 : ℕ) (stride0 : Option ℕ) (vals : Mat V sz0 sz1)
      (i j : ℕ)
      → Fits ptr sz0 sz1 n0 n1 (stride_or stride0 sz1)
      → max1 ≤ stride_or stride0 sz1
      → i < sz0
      → j < sz1
      → n0 * sz0 + i < max0
      → n1 * sz1 + j < max1
      → entry V sz0 sz1
          (load_2d tl
            (store_2d tl mem ptr sz0 sz1 vals n0 n1 max0 max1 stride0 1)
            ptr
            sz0
            sz1
            n0
            n1
            max0
            max1
            stride0
            1)
          i
          j
        ≡ entry V sz0 sz1 vals i j
  unfolding store_2d
  load_2d-store_2d mem ptr sz0 sz1 n0 n1 max0 max1 stride0 vals i j fits short hi hj b0 b1 =
      load_2d_lem (store_2d tl mem ptr sz0 sz1 vals n0 n1 max0 max1 stride0 1) ptr sz0 sz1 n0 n1
        max0 max1 stride0 fits i j hi hj b0 b1
      ∙ stored mem ptr sz0 sz1 n0 n1 max0 max1 stride0 fits vals i j short hi hj b0 b1

  -- `load_full_2d` loads what `load_2d` loads as the first chunk, bounded by the size of a chunk.
  pub load_full_2d-load_2d :
      (mem : ℕ → V) (ptr sz0 sz1 : ℕ) (stride0 : Option ℕ) (i j : ℕ)
      → Fits ptr sz0 sz1 0 0 (stride_or stride0 sz1)
      → i < sz0
      → j < sz1
      → entry V sz0 sz1 (load_full_2d tl mem ptr sz0 sz1 stride0 1) i j
        ≡ entry V sz0 sz1 (load_2d tl mem ptr sz0 sz1 0 0 sz0 sz1 stride0 1) i j
  unfolding load_full_2d
  load_full_2d-load_2d mem ptr sz0 sz1 stride0 i j fits hi hj =
      let rows = tl.arange sz0 in
      let columns = tl.arange sz1 in
      let s = stride_or stride0 sz1 in
      let row = vec.arange_at sz0 i fits.size0 hi in
      let column = vec.arange_at sz1 j fits.size1 hj in
      let same = ap_both (λ x y. x * s + y * 1) row column in
      let b : i * s + j * 1 < index_bound =
        offset_lt i (0 * sz0 + sz0) j (0 * sz1 + sz1) s index_bound (omega arith) (omega arith)
          fits.offsets in
      let e =
        offset_2d_entry tl vec mat sz0 sz1 rows columns s 1 i j fits.elements
          (subst (λ x. x < index_bound) (sym same) b) hi hj
        ∙ same in
      mat.load_entry sz0 sz1 mem (tl.move sz0 sz1 ptr (offset_2d tl sz0 sz1 rows columns s 1))
        (mask_2d tl sz0 sz1 rows columns sz0 sz1) i j hi hj
        (mask_2d_entry tl vec mat sz0 sz1 rows columns sz0 sz1 i j fits.elements hi hj
          ∙ ap_both (λ x y. ltb x sz0 && ltb y sz1) row column
          ∙ ground arith)
      ∙ ap mem (
          mat.move_entry sz0 sz1 ptr (offset_2d tl sz0 sz1 rows columns s 1) i j hi hj
            (omega (arith, e, b, fits.addresses))
          ∙ ap (λ x. ptr + x) e
          ∙ omega arith)
      ∙ sym (
          load_2d_lem mem ptr sz0 sz1 0 0 sz0 sz1 stride0 fits i j hi hj (omega arith)
            (omega arith))
