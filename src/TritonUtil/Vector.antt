-- ===== src/TritonUtil/Vector.antt =====
-- The chunks of a vector in triton_util/triton_util/coding.py, how many of them there are, and the
-- whole blocks.
use mcu.Base.{ℕ, ◌≤◌, ◌+◌, ◌-◌, ◌*◌, ◌/◌, ◌%◌, ◌<◌, ◌≡◌, ◌∙◌, ap, sym, Bool, true, false, some}
use mcu.Base.{arith, if◌then◌else◌, Bool-cases, inl, inr, ltb, ◌==◌, nat_eq, refl}
use mcu.TritonUtil.{
  IsBlockSize, index_bound, address_bound, Tl, VecLaws, MatLaws, mask_1d, offset_1d, load_1d,
  store_1d, cdiv,
}
use mcu.TritonUtil.Chunk.{in_chunk, cell_inj, offset_at}

-- There are as many chunks as begin below the bound.
pub cdiv_lem :
    (max sz : ℕ)
    → 0 < sz
    → (k : ℕ) × (cdiv max sz ≡ some k)
      × ((n : ℕ) → n < k → n * sz < max)
      × ((n r : ℕ) → in_chunk n sz max r ≡ true → (n < k) × (n ≡ r / sz))
      × ((r : ℕ) → r < max → in_chunk (r / sz) sz max r ≡ true)
unfolding cdiv
cdiv_lem max sz h = ((max + sz - 1) / sz, rw nonzero refl, begins, covers, covered)
  where
    nonzero : (sz == 0) ≡ false
    nonzero = ground arith

    begins : (n : ℕ) → n < (max + sz - 1) / sz → n * sz < max
    begins n b = grind arith

    in_chunk-lt : (n r : ℕ) → in_chunk n sz max r ≡ true → n < (max + sz - 1) / sz
    in_chunk-lt n r b = grind arith

    covers : (n r : ℕ) → in_chunk n sz max r ≡ true → (n < (max + sz - 1) / sz) × (n ≡ r / sz)
    covers n r b = (
      in_chunk-lt n r b,
      (cell_inj n (r / sz) (r - n * sz) (r % sz) sz (ground arith) (omega arith) (ground arith)).0,
    )

    covered : (r : ℕ) → r < max → in_chunk (r / sz) sz max r ≡ true
    covered r b = ground arith

-- What keeps the indices and the addresses of a chunk from overflowing.
pub record FitsVector (ptr sz n : ℕ) : Type 0 where
  pub size : IsBlockSize sz
  pub offsets : n * sz + sz ≤ index_bound
  pub addresses : ptr + index_bound ≤ address_bound

module _ {V : Type 0} (tl : Tl V) (vec : VecLaws tl) (mat : MatLaws tl) where
  open tl use {Vec, at}

  pointer_at :
      (ptr sz n i : ℕ)
      → FitsVector ptr sz n
      → i < sz
      → at ℕ sz (tl.advance sz ptr (offset_1d tl sz n)) i ≡ ptr + (n * sz + i)
  pointer_at ptr sz n i f h =
      let e = offset_at tl vec mat sz n i f.size f.offsets h in
      vec.advance_at sz ptr (offset_1d tl sz n) i h (omega (arith, e, f.offsets, f.addresses))
      ∙ ap (λ x. ptr + x) e

  mask_at :
      (ptr sz n max i : ℕ)
      → FitsVector ptr sz n
      → i < sz
      → at Bool sz (mask_1d tl sz (offset_1d tl sz n) max) i ≡ ltb (n * sz + i) max
  unfolding mask_1d
  mask_at ptr sz n max i f h =
      vec.below_at sz (offset_1d tl sz n) max i h
      ∙ ap (λ x. ltb x max) (offset_at tl vec mat sz n i f.size f.offsets h)

  module _ (mem : ℕ → V) (ptr sz n max : ℕ) (fits : FitsVector ptr sz n) where
    abbrev ptrs : Vec ℕ sz
    ptrs = tl.advance sz ptr (offset_1d tl sz n)

    abbrev on : Vec Bool sz
    on = mask_1d tl sz (offset_1d tl sz n) max

    stored :
        (vals : Vec V sz) (i : ℕ)
        → i < sz
        → n * sz + i < max
        → tl.store sz mem ptrs vals on (ptr + (n * sz + i)) ≡ at V sz vals i
    stored vals i h b =
        ap (tl.store sz mem ptrs vals on) (sym (pointer_at ptr sz n i fits h))
        ∙ vec.store_at sz mem ptrs vals on i h (mask_at ptr sz n max i fits h ∙ ground arith)
            (λ k hk m e.
              omega (arith, sym (pointer_at ptr sz n k fits hk) ∙ e ∙ pointer_at ptr sz n i fits h))

    -- A store of a chunk of a vector writes the cells of the chunk that lie below the bound, each
    -- with the element at its place, and no other.
    pub store_1d_lem :
        (vals : Vec V sz) (r : ℕ)
        → store_1d tl mem ptr sz vals n max (ptr + r)
          ≡ (if in_chunk n sz max r then at V sz vals (r - n * sz) else mem (ptr + r))
    unfolding store_1d
    store_1d_lem vals r = elim (Bool-cases (in_chunk n sz max r)) [
      | inl y ↦ rw y (
          ap (tl.store sz mem ptrs vals on) (ground arith)
          ∙ stored vals (r - n * sz) (ground arith) (ground arith))
      | inr n' ↦ rw n' (
          vec.store_other sz mem ptrs vals on (ptr + r) (λ k hk m e.
            let b : (ltb (n * sz + k) max ≡ true) = (sym (mask_at ptr sz n max k fits hk) ∙ m) in
            let a : (ptr + (n * sz + k) ≡ ptr + r) = (sym (pointer_at ptr sz n k fits hk) ∙ e) in
            ground arith))
    ]

    -- Each element of a chunk of a vector that lies below the bound is loaded from its cell.
    pub load_1d_lem :
        (i : ℕ)
        → i < sz
        → n * sz + i < max
        → at V sz (load_1d tl mem ptr sz n max) i ≡ mem (ptr + (n * sz + i))
    unfolding load_1d
    load_1d_lem i h b =
        vec.load_at sz mem ptrs on i h (mask_at ptr sz n max i fits h ∙ ground arith)
        ∙ ap mem (pointer_at ptr sz n i fits h)
