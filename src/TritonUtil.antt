-- ===== src/TritonUtil.antt =====
-- triton_util/triton_util/coding.py: offsets, masks, loads and stores of chunks. What it uses of
-- `triton.language` is the parameter `Tl`, with the documented meaning of each operation as a law.
-- An index has 32 bits with a sign, and a law on indices holds where the result is below `index_bound`;
-- addresses count elements, of at most eight bytes, and are below `address_bound`.
pub mod Chunk
pub mod Laws
pub mod Vector
pub mod Debugging
use mcu.Base.{
  ℕ, suc, ◌^◌, ◌≤◌, ◌+◌, ◌-◌, ◌*◌, ◌/◌, ◌<◌, ◌≡◌, ◌≢◌, Bool, true, false, ◌&&◌, Option, none, some,
}
use mcu.Base.{ltb, ◌==◌, nat_eq, if◌then◌else◌}

unfoldable pub index_bound : ℕ
index_bound = 2147483648

unfoldable pub address_bound : ℕ
address_bound = 2305843009213693952

-- `TRITON_MAX_TENSOR_NUMEL`
unfoldable pub max_numel : ℕ
max_numel = 1048576

-- The sizes that `arange` takes.
pub record IsBlockSize (n : ℕ) : Type 0 where
  pub exponent : ℕ
  pub power : n ≡ 2 ^ exponent
  pub small : n ≤ max_numel

-- Blocks of one and of two dimensions with elements in `A`, and the operations on them. `times` is
-- the product of two scalars, `shift` and `advance` add a scalar to indices and to a pointer indices.
-- `column` and
-- `row` are `expand_dims(x, 1)` and `expand_dims(x, 0)`; `add` and `both` broadcast a column and a
-- row. A memory gives each address its value.
pub record Tl (V : Type 0) : Type 1 where
  pub Vec : Type 0 → ℕ → Type 0
  pub Mat : Type 0 → ℕ → ℕ → Type 0
  pub at : (A : Type 0) (n : ℕ) → Vec A n → ℕ → A
  pub entry : (A : Type 0) (n m : ℕ) → Mat A n m → ℕ → ℕ → A
  pub times : ℕ → ℕ → ℕ
  pub arange : (n : ℕ) → Vec ℕ n
  pub shift : (n : ℕ) → ℕ → Vec ℕ n → Vec ℕ n
  pub advance : (n : ℕ) → ℕ → Vec ℕ n → Vec ℕ n
  pub below : (n : ℕ) → Vec ℕ n → ℕ → Vec Bool n
  pub column : (n : ℕ) → Vec ℕ n → Mat ℕ n 1
  pub row : (m : ℕ) → Vec ℕ m → Mat ℕ 1 m
  pub scale : (n m : ℕ) → Mat ℕ n m → ℕ → Mat ℕ n m
  pub all_below : (n m : ℕ) → Mat ℕ n m → ℕ → Mat Bool n m
  pub add : (n m : ℕ) → Mat ℕ n 1 → Mat ℕ 1 m → Mat ℕ n m
  pub both : (n m : ℕ) → Mat Bool n 1 → Mat Bool 1 m → Mat Bool n m
  pub move : (n m : ℕ) → ℕ → Mat ℕ n m → Mat ℕ n m
  pub load : (n : ℕ) → (ℕ → V) → Vec ℕ n → Vec Bool n → Vec V n
  pub load_mat : (n m : ℕ) → (ℕ → V) → Mat ℕ n m → Mat Bool n m → Mat V n m
  pub store : (n : ℕ) → (ℕ → V) → Vec ℕ n → Vec V n → Vec Bool n → ℕ → V
  pub store_mat : (n m : ℕ) → (ℕ → V) → Mat ℕ n m → Mat V n m → Mat Bool n m → ℕ → V

-- `stride0 or sz1`
abbrev pub stride_or : Option ℕ → ℕ → ℕ
stride_or none sz1 = sz1
stride_or (some s) sz1 = if s == 0 then sz1 else s

module _ {V : Type 0} (tl : Tl V) where
  open tl use {Vec, Mat, at, entry}

  -- The operations of one dimension, element by element.
  pub record VecLaws : Type 0 where
    pub times_eq : (a b : ℕ) → a * b < index_bound → tl.times a b ≡ a * b
    pub arange_at : (n i : ℕ) → IsBlockSize n → i < n → at ℕ n (tl.arange n) i ≡ i
    pub shift_at :
        (n c : ℕ) (x : Vec ℕ n) (i : ℕ)
        → i < n
        → c + at ℕ n x i < index_bound
        → at ℕ n (tl.shift n c x) i ≡ c + at ℕ n x i
    pub advance_at :
        (n c : ℕ) (x : Vec ℕ n) (i : ℕ)
        → i < n
        → c + at ℕ n x i < address_bound
        → at ℕ n (tl.advance n c x) i ≡ c + at ℕ n x i
    pub below_at :
        (n : ℕ) (x : Vec ℕ n) (max i : ℕ)
        → i < n
        → at Bool n (tl.below n x max) i ≡ ltb (at ℕ n x i) max
    pub load_at :
        (n : ℕ) (mem : ℕ → V) (p : Vec ℕ n) (mask : Vec Bool n) (i : ℕ)
        → i < n
        → at Bool n mask i ≡ true
        → at V n (tl.load n mem p mask) i ≡ mem (at ℕ n p i)
    pub store_at :
        (n : ℕ) (mem : ℕ → V) (p : Vec ℕ n) (v : Vec V n) (mask : Vec Bool n) (i : ℕ)
        → i < n
        → at Bool n mask i ≡ true
        → ((k : ℕ) → k < n → at Bool n mask k ≡ true → at ℕ n p k ≡ at ℕ n p i → k ≡ i)
        → tl.store n mem p v mask (at ℕ n p i) ≡ at V n v i
    pub store_other :
        (n : ℕ) (mem : ℕ → V) (p : Vec ℕ n) (v : Vec V n) (mask : Vec Bool n) (a : ℕ)
        → ((k : ℕ) → k < n → at Bool n mask k ≡ true → at ℕ n p k ≢ a)
        → tl.store n mem p v mask a ≡ mem a

  -- The operations of two dimensions.
  pub record MatLaws : Type 0 where
    pub column_entry :
        (n : ℕ) (x : Vec ℕ n) (i : ℕ) → i < n → entry ℕ n 1 (tl.column n x) i 0 ≡ at ℕ n x i
    pub row_entry :
        (m : ℕ) (x : Vec ℕ m) (j : ℕ) → j < m → entry ℕ 1 m (tl.row m x) 0 j ≡ at ℕ m x j
    pub scale_entry :
        (n m : ℕ) (x : Mat ℕ n m) (s i j : ℕ)
        → i < n
        → j < m
        → entry ℕ n m x i j * s < index_bound
        → entry ℕ n m (tl.scale n m x s) i j ≡ entry ℕ n m x i j * s
    pub all_below_entry :
        (n m : ℕ) (x : Mat ℕ n m) (max i j : ℕ)
        → i < n
        → j < m
        → entry Bool n m (tl.all_below n m x max) i j ≡ ltb (entry ℕ n m x i j) max
    pub add_entry :
        (n m : ℕ) (x : Mat ℕ n 1) (y : Mat ℕ 1 m) (i j : ℕ)
        → i < n
        → j < m
        → n * m ≤ max_numel
        → entry ℕ n 1 x i 0 + entry ℕ 1 m y 0 j < index_bound
        → entry ℕ n m (tl.add n m x y) i j ≡ entry ℕ n 1 x i 0 + entry ℕ 1 m y 0 j
    pub both_entry :
        (n m : ℕ) (x : Mat Bool n 1) (y : Mat Bool 1 m) (i j : ℕ)
        → i < n
        → j < m
        → n * m ≤ max_numel
        → entry Bool n m (tl.both n m x y) i j ≡ (entry Bool n 1 x i 0 && entry Bool 1 m y 0 j)
    pub move_entry :
        (n m c : ℕ) (x : Mat ℕ n m) (i j : ℕ)
        → i < n
        → j < m
        → c + entry ℕ n m x i j < address_bound
        → entry ℕ n m (tl.move n m c x) i j ≡ c + entry ℕ n m x i j
    pub load_entry :
        (n m : ℕ) (mem : ℕ → V) (p : Mat ℕ n m) (mask : Mat Bool n m) (i j : ℕ)
        → i < n
        → j < m
        → entry Bool n m mask i j ≡ true
        → entry V n m (tl.load_mat n m mem p mask) i j ≡ mem (entry ℕ n m p i j)
    pub store_entry :
        (n m : ℕ) (mem : ℕ → V) (p : Mat ℕ n m) (v : Mat V n m) (mask : Mat Bool n m) (i j : ℕ)
        → i < n
        → j < m
        → entry Bool n m mask i j ≡ true
        → ((k l : ℕ)
            → k < n
            → l < m
            → entry Bool n m mask k l ≡ true
            → entry ℕ n m p k l ≡ entry ℕ n m p i j
            → (k ≡ i) × (l ≡ j))
        → tl.store_mat n m mem p v mask (entry ℕ n m p i j) ≡ entry V n m v i j
    pub store_elsewhere :
        (n m : ℕ) (mem : ℕ → V) (p : Mat ℕ n m) (v : Mat V n m) (mask : Mat Bool n m) (a : ℕ)
        → ((k l : ℕ) → k < n → l < m → entry Bool n m mask k l ≡ true → entry ℕ n m p k l ≢ a)
        → tl.store_mat n m mem p v mask a ≡ mem a

  -- `offset_1d` and `mask_1d`
  pub offset_1d : (sz : ℕ) → ℕ → Vec ℕ sz
  offset_1d sz n_prev_chunks = tl.shift sz (tl.times n_prev_chunks sz) (tl.arange sz)

  pub mask_1d : (sz : ℕ) → Vec ℕ sz → ℕ → Vec Bool sz
  mask_1d sz offs max = tl.below sz offs max

  -- `offset_2d` and `mask_2d`
  pub offset_2d : (n m : ℕ) → Vec ℕ n → Vec ℕ m → ℕ → ℕ → Mat ℕ n m
  offset_2d n m offs0 offs1 stride0 stride1 =
      tl.add n m (tl.scale n 1 (tl.column n offs0) stride0) (tl.scale 1 m (tl.row m offs1) stride1)

  pub mask_2d : (n m : ℕ) → Vec ℕ n → Vec ℕ m → ℕ → ℕ → Mat Bool n m
  mask_2d n m offs0 offs1 max0 max1 =
      tl.both n m (tl.all_below n 1 (tl.column n offs0) max0)
        (tl.all_below 1 m (tl.row m offs1) max1)

  -- `load_1d` and `store_1d`, whose argument `stride` is not used
  pub load_1d : (ℕ → V) → ℕ → (sz : ℕ) → ℕ → ℕ → Vec V sz
  unfolding offset_1d mask_1d
  load_1d mem ptr sz n max =
      let offs = offset_1d sz n in tl.load sz mem (tl.advance sz ptr offs) (mask_1d sz offs max)

  pub store_1d : (ℕ → V) → ℕ → (sz : ℕ) → Vec V sz → ℕ → ℕ → ℕ → V
  unfolding offset_1d mask_1d
  store_1d mem ptr sz vals n max =
      let offs = offset_1d sz n in
      tl.store sz mem (tl.advance sz ptr offs) vals (mask_1d sz offs max)

  pub chunk_offsets : (sz0 sz1 : ℕ) → ℕ → ℕ → Option ℕ → ℕ → Mat ℕ sz0 sz1
  unfolding offset_1d offset_2d
  chunk_offsets sz0 sz1 n0 n1 stride0 stride1 =
      offset_2d sz0 sz1 (offset_1d sz0 n0) (offset_1d sz1 n1) (stride_or stride0 sz1) stride1

  pub chunk_mask : (sz0 sz1 : ℕ) → ℕ → ℕ → ℕ → ℕ → Mat Bool sz0 sz1
  unfolding offset_1d mask_2d
  chunk_mask sz0 sz1 n0 n1 max0 max1 =
      mask_2d sz0 sz1 (offset_1d sz0 n0) (offset_1d sz1 n1) max0 max1

  pub load_2d : (ℕ → V) → ℕ → (sz0 sz1 : ℕ) → ℕ → ℕ → ℕ → ℕ → Option ℕ → ℕ → Mat V sz0 sz1
  unfolding chunk_offsets chunk_mask
  load_2d mem ptr sz0 sz1 n0 n1 max0 max1 stride0 stride1 =
      tl.load_mat sz0 sz1 mem (tl.move sz0 sz1 ptr (chunk_offsets sz0 sz1 n0 n1 stride0 stride1))
        (chunk_mask sz0 sz1 n0 n1 max0 max1)

  pub store_2d : (ℕ → V) → ℕ → (sz0 sz1 : ℕ) → Mat V sz0 sz1 → ℕ → ℕ → ℕ → ℕ → Option ℕ → ℕ → ℕ → V
  unfolding chunk_offsets chunk_mask
  store_2d mem ptr sz0 sz1 vals n0 n1 max0 max1 stride0 stride1 =
      tl.store_mat sz0 sz1 mem (tl.move sz0 sz1 ptr (chunk_offsets sz0 sz1 n0 n1 stride0 stride1))
        vals (chunk_mask sz0 sz1 n0 n1 max0 max1)

  -- The whole blocks, `load_full_1d`, `store_full_1d`, `load_full_2d` and `store_full_2d`
  pub load_full_1d : (ℕ → V) → ℕ → (sz : ℕ) → Vec V sz
  unfolding offset_1d mask_1d
  load_full_1d mem ptr sz =
      let offs = offset_1d sz 0 in tl.load sz mem (tl.advance sz ptr offs) (mask_1d sz offs sz)

  pub store_full_1d : (ℕ → V) → ℕ → (sz : ℕ) → Vec V sz → ℕ → V
  unfolding offset_1d mask_1d
  store_full_1d mem ptr sz vals =
      let offs = offset_1d sz 0 in
      tl.store sz mem (tl.advance sz ptr offs) vals (mask_1d sz offs sz)

  pub load_full_2d : (ℕ → V) → ℕ → (sz0 sz1 : ℕ) → Option ℕ → ℕ → Mat V sz0 sz1
  unfolding offset_2d mask_2d
  load_full_2d mem ptr sz0 sz1 stride0 stride1 =
      tl.load_mat sz0 sz1 mem
        (tl.move sz0 sz1 ptr
          (offset_2d sz0 sz1 (tl.arange sz0) (tl.arange sz1) (stride_or stride0 sz1) stride1))
        (mask_2d sz0 sz1 (tl.arange sz0) (tl.arange sz1) sz0 sz1)

  pub store_full_2d : (ℕ → V) → ℕ → (sz0 sz1 : ℕ) → Mat V sz0 sz1 → Option ℕ → ℕ → ℕ → V
  unfolding offset_2d mask_2d
  store_full_2d mem ptr sz0 sz1 vals stride0 stride1 =
      tl.store_mat sz0 sz1 mem
        (tl.move sz0 sz1 ptr
          (offset_2d sz0 sz1 (tl.arange sz0) (tl.arange sz1) (stride_or stride0 sz1) stride1))
        vals (mask_2d sz0 sz1 (tl.arange sz0) (tl.arange sz1) sz0 sz1)

-- `cdiv`; a division by zero raises.
pub cdiv : ℕ → ℕ → Option ℕ
cdiv a b = if b == 0 then none else some ((a + b - 1) / b)
