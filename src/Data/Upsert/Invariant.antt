-- ===== src/Data/Upsert/Invariant.antt =====
-- The primary keys stay unique, the ids of the file rows stay below the next one, and every file
-- row belongs to a kernel row (db_models.py: primary_key=True, autoincrement, ForeignKeyConstraint).
use mcu.Base.{ℕ, suc, ◌+◌, ◌<◌, ◌≡◌, ◌≢◌, Bool, not, none, some}
use mcu.Base.{
  List, [], ◌∷◌, keep, length, arith, All, All-keep, All-append, All-map, Ordered, Ordered-keep,
}
use mcu.Base.{Eq, ◌==◌, Bool-cases, inl, inr}
use mcu.Models.{Kernel, KernelFile}
use mcu.Data.Rows.{Columns, Clock, KernelKey, VllmKey, Row, FileRow, Tables}
use mcu.Data.Rows.{kernel_key_eq, vllm_key_eq}
use mcu.Data.Upsert.{insert_or_update, find_row, file_rows, upsert, insert_kernel}
use mcu.Data.Upsert.{insert_vllm_kernel, Fault}
use mcu.Data.Upsert.Laws.{find_row-insert_or_update}
use mcu.Base.{String, Ordered-append}

module _ {K : Type 0} where
  abbrev pub OtherKey : K → Row K → Type 0
  OtherKey k r = k ≢ r.key

  abbrev pub UniqueKeys : List (Row K) → Type 0
  UniqueKeys = Ordered (λ a b. a.key ≢ b.key)

  abbrev pub IdBelow : ℕ → FileRow K → Type 0
  IdBelow n f = f.id < n

  abbrev pub UniqueIds : List (FileRow K) → Type 0
  UniqueIds = Ordered (λ a b. a.id < b.id)

module _ {K : Type 0} ⦃e : Eq K⦄ where
  abbrev pub Owned : List (Row K) → FileRow K → Type 0
  Owned rows f = find_row f.owner rows ≢ none

  pub record IsWellFormed (t : Tables K) : Type 0 where
    pub unique_keys : UniqueKeys t.kernels
    pub ids_below : All (IdBelow t.next_id) t.files
    pub unique_ids : UniqueIds t.files
    pub owned : All (Owned t.kernels) t.files

  insert_or_update-other :
      (j k : K) (c : Columns) (rows : List (Row K))
      → j ≢ k
      → All (OtherKey j) rows
      → All (OtherKey j) (insert_or_update k c rows)
  unfolding insert_or_update
  insert_or_update-other j k c [] n h = (n, tt)
  insert_or_update-other j k c (r ∷ rows) n (hr, h) =
      ground (arith, insert_or_update-other j k c rows n h)

  insert_or_update-UniqueKeys :
      (k : K) (c : Columns) (rows : List (Row K))
      → UniqueKeys rows
      → UniqueKeys (insert_or_update k c rows)
  unfolding insert_or_update
  insert_or_update-UniqueKeys k c [] h = (tt, tt)
  insert_or_update-UniqueKeys k c (r ∷ rows) (hr, h) = elim (Bool-cases (r.key == k)) [
    | inl same ↦ rw same (hr, h)
    | inr other ↦ rw other (
      insert_or_update-other r.key k c rows (λ p. ground (arith, e.eqb_iff r.key k)) hr,
      insert_or_update-UniqueKeys k c rows h,
    )
  ]

  -- Inserting the same values twice is inserting them once.
  pub insert_or_update_twice :
      (k : K) (c : Columns) (rows : List (Row K))
      → insert_or_update k c (insert_or_update k c rows) ≡ insert_or_update k c rows
  unfolding insert_or_update
  insert_or_update_twice k c [] = ground (arith, e.eqb_iff k k)
  insert_or_update_twice k c (r ∷ rows) = ground (arith, insert_or_update_twice k c rows)

  file_rows-below :
      (k : K) (id : ℕ) (fs : List KernelFile) → All (IdBelow (id + length fs)) (file_rows k id fs)
  unfolding file_rows
  file_rows-below k id [] = tt
  file_rows-below k id (f ∷ fs) = (
    omega arith,
    All-map (IdBelow (id + 1 + length fs)) (IdBelow (id + suc (length fs))) (λ x h. omega arith)
        (file_rows k (id + 1) fs) (file_rows-below k (id + 1) fs),
  )

  file_rows-above :
      (k : K) (b id : ℕ) (fs : List KernelFile) → b < id → All (λ f. b < f.id) (file_rows k id fs)
  unfolding file_rows
  file_rows-above k b id [] h = tt
  file_rows-above k b id (f ∷ fs) h = (h, file_rows-above k b (id + 1) fs (omega arith))

  file_rows-from :
      (k : K) (id : ℕ) (fs : List KernelFile) → All (λ f. id < suc f.id) (file_rows k id fs)
  unfolding file_rows
  file_rows-from k id [] = tt
  file_rows-from k id (f ∷ fs) = (
    omega arith,
    All-map (λ (x : FileRow K). id + 1 < suc x.id) (λ x. id < suc x.id) (λ x h. omega arith)
        (file_rows k (id + 1) fs) (file_rows-from k (id + 1) fs),
  )

  file_rows-UniqueIds : (k : K) (id : ℕ) (fs : List KernelFile) → UniqueIds (file_rows k id fs)
  unfolding file_rows
  file_rows-UniqueIds k id [] = tt
  file_rows-UniqueIds k id (f ∷ fs) =
      (file_rows-above k id (id + 1) fs (omega arith), file_rows-UniqueIds k (id + 1) fs)

  -- A key that has a row keeps one.
  find_row-keeps :
      (k j : K) (c : Columns) (rows : List (Row K))
      → find_row j rows ≢ none
      → find_row j (insert_or_update k c rows) ≢ none
  find_row-keeps k j c rows h = ground (arith, find_row-insert_or_update k j c rows)

  file_rows-Owned :
      (k : K) (c : Columns) (rows : List (Row K)) (id : ℕ) (fs : List KernelFile)
      → All (Owned (insert_or_update k c rows)) (file_rows k id fs)
  unfolding file_rows
  file_rows-Owned k c rows id [] = tt
  file_rows-Owned k c rows id (f ∷ fs) = (
    ground (arith, find_row-insert_or_update k k c rows, e.eqb_iff k k),
    file_rows-Owned k c rows (id + 1) fs,
  )

  pub upsert-IsWellFormed :
      (k : K) (c : Columns) (fs : List KernelFile) (t : Tables K)
      → IsWellFormed t
      → IsWellFormed (upsert k c fs t)
  unfolding upsert
  upsert-IsWellFormed k c fs t w = record {
    unique_keys = insert_or_update-UniqueKeys k c t.kernels w.unique_keys;
    ids_below =
        All-append (IdBelow (t.next_id + length fs)) old new
          (All-map (IdBelow t.next_id) (IdBelow (t.next_id + length fs)) (λ x h. omega arith) old
            below)
          (file_rows-below k t.next_id fs);
    unique_ids =
        Ordered-append (λ a b. a.id < b.id) old new
          (Ordered-keep (λ a b. a.id < b.id) foreign t.files w.unique_ids)
          (file_rows-UniqueIds k t.next_id fs)
          (All-map (IdBelow t.next_id) (λ x. All (λ y. x.id < y.id) new)
            (λ x h.
              All-map (λ y. t.next_id < suc y.id) (λ y. x.id < y.id) (λ y g. omega arith) new
                (file_rows-from k t.next_id fs))
            old below);
    owned =
        All-append (Owned (insert_or_update k c t.kernels)) old new
          (All-map (Owned t.kernels) (Owned (insert_or_update k c t.kernels))
            (λ f h. find_row-keeps k f.owner c t.kernels h) old
            (All-keep (Owned t.kernels) foreign t.files w.owned))
          (file_rows-Owned k c t.kernels t.next_id fs);
  }
    where
      foreign : FileRow K → Bool
      foreign f = not (f.owner == k)

      old : List (FileRow K)
      old = keep foreign t.files

      new : List (FileRow K)
      new = file_rows k t.next_id fs

      below : All (IdBelow t.next_id) old
      below = All-keep (IdBelow t.next_id) foreign t.files w.ids_below

-- Indexing one kernel, whether the session commits or raises, keeps the tables well formed: unique
-- primary keys, increasing file ids below the next one, and a kernel row for every file row.
pub insert_kernel-IsWellFormed :
    (fault : Fault) (c : Clock) (k : Kernel) (dir : String) (t : Tables KernelKey)
    → IsWellFormed t
    → IsWellFormed (insert_kernel fault c k dir t).1
unfolding insert_kernel
insert_kernel-IsWellFormed none c k dir t w = upsert-IsWellFormed _ _ k.files t w
insert_kernel-IsWellFormed (some e) c k dir t w = w

-- The same for the vLLM tables.
pub insert_vllm_kernel-IsWellFormed :
    (fault : Fault) (c : Clock) (k : Kernel) (root hash rank : String) (t : Tables VllmKey)
    → IsWellFormed t
    → IsWellFormed (insert_vllm_kernel fault c k root hash rank t).1
unfolding insert_vllm_kernel
insert_vllm_kernel-IsWellFormed none c k root hash rank t w = upsert-IsWellFormed _ _ k.files t w
insert_vllm_kernel-IsWellFormed (some e) c k root hash rank t w = w
