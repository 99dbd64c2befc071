-- ===== src/Data/Upsert.antt =====
-- `upsert_from_dto` of `KernelOrm` and `VllmKernelOrm` (db_models.py) and `insert_kernel` of
-- `Database` and `VllmDatabase` (database.py), in mcm/model_cache_manager/data.
pub mod Laws
pub mod Invariant
pub mod Listable
pub mod Edits
use mcu.Base.{ℕ, ◌+◌, String, not, Option, none, some, List, [], ◌∷◌, ◌++◌, keep, length}
use mcu.Base.{Result, ok, err, Error, Eq, ◌==◌, if◌then◌else◌}
use mcu.Models.{Kernel, KernelFile}
use mcu.Data.Rows.{Columns, Clock, common_kernel_values, KernelKey, VllmKey, Row, FileRow, Tables}
use mcu.Data.Rows.{kernel_key_eq, vllm_key_eq}

module _ {K : Type 0} ⦃e : Eq K⦄ where
  -- INSERT … ON CONFLICT (primary key) DO UPDATE SET every other column from the new values.
  pub insert_or_update : K → Columns → List (Row K) → List (Row K)
  insert_or_update k c [] = record { key = k; columns = c } ∷ []
  insert_or_update k c (r ∷ rows) =
      if r.key == k then record r { columns = c } ∷ rows else r ∷ insert_or_update k c rows

  -- The columns under a primary key.
  unfoldable pub find_row : K → List (Row K) → Option Columns
  find_row k [] = none
  find_row k (r ∷ rows) = if r.key == k then some r.columns else find_row k rows

  -- The file rows whose foreign key is `k`.
  abbrev pub files_of : K → List (FileRow K) → List (FileRow K)
  files_of k = keep (λ f. f.owner == k)

  -- DELETE FROM files WHERE the foreign key is `k`.
  abbrev delete_files : K → List (FileRow K) → List (FileRow K)
  delete_files k = keep (λ f. not (f.owner == k))

-- `session.add` of a row for each file, the ids counting up.
pub file_rows : {K : Type 0} → K → ℕ → List KernelFile → List (FileRow K)
file_rows k id [] = []
file_rows k id (f ∷ fs) =
    record { id = id; owner = k; type = some f.file_type; rel_path = some f.name; size = f.size }
    ∷ file_rows k (id + 1) fs

module _ {K : Type 0} ⦃e : Eq K⦄ where
  -- The statements that both `upsert_from_dto` issue, in their order.
  pub upsert : K → Columns → List KernelFile → Tables K → Tables K
  unfolding insert_or_update file_rows
  upsert k c fs t = record {
    kernels = insert_or_update k c t.kernels;
    files = delete_files k t.files ++ file_rows k t.next_id fs;
    next_id = t.next_id + length fs;
  }

-- `KernelOrm.upsert_from_dto`
unfoldable pub upsert_kernel : Clock → Kernel → Tables KernelKey → Tables KernelKey
unfolding upsert
upsert_kernel c k t =
    upsert (record { hash = k.hash; cache_dir = k.cache_dir }) (common_kernel_values c k) k.files t

-- `VllmKernelOrm.upsert_from_dto`
unfoldable pub upsert_vllm_kernel :
    Clock → Kernel → String → String → String → Tables VllmKey → Tables VllmKey
unfolding upsert
upsert_vllm_kernel c k vllm_cache_root vllm_hash rank_x_y t =
    upsert
      (record {
        vllm_cache_root = vllm_cache_root;
        vllm_hash = vllm_hash;
        triton_cache_key = k.hash;
        rank_x_y = rank_x_y;
      })
      (common_kernel_values c k) k.files t

-- What the session does with the statements: it commits them, or one of them or the commit raises.
abbrev pub Fault : Type 0
Fault = Option Error

-- `Database.insert_kernel`: a fault is rolled back and raised again.
unfoldable pub insert_kernel :
    Fault → Clock → Kernel → String → Tables KernelKey → Result (Unit {0}) × Tables KernelKey
unfolding upsert_kernel
insert_kernel none c k cache_dir t = (ok tt, upsert_kernel c (record k { cache_dir = cache_dir }) t)
insert_kernel (some e) c k cache_dir t = (err e, t)

-- `VllmDatabase.insert_kernel`
unfoldable pub insert_vllm_kernel :
    Fault
    → Clock
    → Kernel
    → String
    → String
    → String
    → Tables VllmKey
    → Result (Unit {0}) × Tables VllmKey
unfolding upsert_vllm_kernel
insert_vllm_kernel none c k vllm_cache_root vllm_hash rank_x_y t =
    (ok tt, upsert_vllm_kernel c k vllm_cache_root vllm_hash rank_x_y t)
insert_vllm_kernel (some e) c k vllm_cache_root vllm_hash rank_x_y t = (err e, t)
