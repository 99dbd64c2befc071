-- ===== src/Data/Upsert/Laws.antt =====
-- What an upsert leaves under each primary key (db_models.py, database.py).
use mcu.Base.{ℕ, ◌+◌, ◌≡◌, refl, Bool, not, none, some}
use mcu.Base.{List, [], ◌∷◌, ◌++◌, keep, arith, String}
use mcu.Base.{Eq, ◌==◌, ==_self, if◌then◌else◌}
use mathlib.Core.List.{append-nil}
use mathlib.Core.Option
use mcu.Models.{Kernel, KernelFile}
use mcu.Data.Rows.{Columns, Clock, common_kernel_values, KernelKey, VllmKey, Row, FileRow, Tables}
use mcu.Data.Rows.{kernel_key_eq, vllm_key_eq}
use mcu.Data.Upsert.{insert_or_update, find_row, files_of, file_rows, upsert, insert_kernel}
use mcu.Data.Upsert.{insert_vllm_kernel}

module _ {K : Type 0} ⦃e : Eq K⦄ where
  pub find_row-insert_or_update :
      (k j : K) (c : Columns) (rows : List (Row K))
      → find_row j (insert_or_update k c rows) ≡ (if k == j then some c else find_row j rows)
  unfolding find_row insert_or_update
  find_row-insert_or_update k j c [] = refl
  find_row-insert_or_update k j c (r ∷ rows) = ground (
    arith,
    e.eqb_iff r.key k,
    e.eqb_iff r.key j,
    e.eqb_iff k j,
    find_row-insert_or_update k j c rows,
  )

  files_of-file_rows :
      (k j : K) (id : ℕ) (fs : List KernelFile)
      → files_of j (file_rows k id fs) ≡ (if k == j then file_rows k id fs else [])
  unfolding file_rows
  files_of-file_rows k j id [] = ground arith
  files_of-file_rows k j id (f ∷ fs) = ground (arith, files_of-file_rows k j (id + 1) fs)

  files_of-delete_files :
      (k j : K) (fs : List (FileRow K))
      → files_of j (keep (λ f. not (f.owner == k)) fs) ≡ (if k == j then [] else files_of j fs)
  files_of-delete_files k j [] = ground arith
  files_of-delete_files k j (f ∷ fs) =
      ground (
        arith,
        e.eqb_iff f.owner k,
        e.eqb_iff f.owner j,
        e.eqb_iff k j,
        files_of-delete_files k j fs,
      )

  keep-append :
      (p : FileRow K → Bool) (xs ys : List (FileRow K)) → keep p (xs ++ ys) ≡ keep p xs ++ keep p ys
  keep-append p [] ys = refl
  keep-append p (x ∷ xs) ys = ground (arith, keep-append p xs ys)

  -- After an upsert the key has the new columns and exactly the new files; the others are as before.
  pub upsert_lookup :
      (k j : K) (c : Columns) (fs : List KernelFile) (t : Tables K)
      → (find_row j (upsert k c fs t).kernels ≡ (if k == j then some c else find_row j t.kernels))
        × (files_of j (upsert k c fs t).files
            ≡ (if k == j then file_rows k t.next_id fs else files_of j t.files))
  unfolding upsert
  upsert_lookup k j c fs t = (
    find_row-insert_or_update k j c t.kernels,
    ground (
      arith,
      keep-append (λ f. f.owner == j) (keep (λ f. not (f.owner == k)) t.files)
          (file_rows k t.next_id fs),
      files_of-file_rows k j t.next_id fs,
      files_of-delete_files k j t.files,
      append-nil (files_of j t.files),
    ),
  )

abbrev pub key_of : String → String → KernelKey
key_of hash cache_dir = record { hash = hash; cache_dir = cache_dir }

abbrev pub vllm_key_of : String → String → String → String → VllmKey
vllm_key_of root hash key rank = record {
  vllm_cache_root = root;
  vllm_hash = hash;
  triton_cache_key = key;
  rank_x_y = rank;
}

-- Indexing a kernel puts its values under (hash, cache_dir) and replaces the files of that key by
-- the kernel's; every other key keeps its row and its files.
pub insert_kernel_lookup :
    (c : Clock) (k : Kernel) (dir : String) (t : Tables KernelKey) (j : KernelKey)
    → let t' = (insert_kernel none c k dir t).1 in
      (find_row j t'.kernels ≡ (
        if key_of k.hash dir == j then some (common_kernel_values c k) else find_row j t.kernels))
      × (files_of j t'.files ≡ (
          if key_of k.hash dir == j
          then file_rows (key_of k.hash dir) t.next_id k.files
          else files_of j t.files))
unfolding insert_kernel common_kernel_values
insert_kernel_lookup c k dir t j = upsert_lookup (key_of k.hash dir) j _ k.files t

-- The same for vLLM, under (vllm_cache_root, vllm_hash, triton_cache_key, rank_x_y).
pub insert_vllm_kernel_lookup :
    (c : Clock) (k : Kernel) (root hash rank : String) (t : Tables VllmKey) (j : VllmKey)
    → let t' = (insert_vllm_kernel none c k root hash rank t).1 in
      let key = vllm_key_of root hash k.hash rank in
      (find_row j t'.kernels
        ≡ (if key == j then some (common_kernel_values c k) else find_row j t.kernels))
      × (files_of j t'.files
          ≡ (if key == j then file_rows key t.next_id k.files else files_of j t.files))
unfolding insert_vllm_kernel
insert_vllm_kernel_lookup c k root hash rank t j =
    upsert_lookup (vllm_key_of root hash k.hash rank) j _ k.files t

-- Indexing a kernel again sets its hit counter back to 0, whatever it had counted.
pub insert_kernel_resets_hits :
    (c : Clock) (k : Kernel) (dir : String) (t : Tables KernelKey)
    → Option.map
        (λ c. c.runtime_hits)
        (find_row (key_of k.hash dir) (insert_kernel none c k dir t).1.kernels)
      ≡ some 0
unfolding common_kernel_values
insert_kernel_resets_hits c k dir t =
    rw (insert_kernel_lookup c k dir t (key_of k.hash dir)).0
      (ground (arith, ==_self (key_of k.hash dir)))
