-- ===== src/Tests/Data.antt =====
-- Runs of the tables (data/db_models.py, data/database.py).
use mathlib.Core.List.{Mem, Perm}
use mathlib.Core.List.Perm
use mcu.Base.{ℕ, ◌≡◌, refl, ◌↔◌, String, true, none, some, List, [], ◌∷◌}
use mcu.Base.{ok, length, map, All, Ordered, Eq, ◌==◌, string_eq, if◌then◌else◌}
use mcu.Base.Int.{pos}
use mathlib.Core.Option
use mcu.Models.Json.{equal}
use mcu.Base.Dict.{get}
use mcu.Data.Rows.{
  KernelKey, VllmKey, Row, Tables, common_kernel_values, kernel_key_eq, vllm_key_eq,
}
use mcu.Data.Upsert.{
  insert_kernel, insert_vllm_kernel, find_row, files_of, file_rows, upsert_kernel,
}
use mcu.Data.Upsert.Laws.{key_of, vllm_key_of, insert_kernel_lookup, insert_kernel_resets_hits}
use mcu.Data.Upsert.Invariant.{IsWellFormed, insert_kernel-IsWellFormed}
use mcu.Data.Search.{search, NewestFirst}
use mcu.Data.Search.Laws.{search_lem}
use mcu.Data.Search.Matches.{Matches}
use mcu.Data.Duplicates.{KernelDict, are_duplicates, find_duplicates}
use mcu.Data.Duplicates.{find_duplicates_in_single_group}
use mcu.Data.Duplicates.Metadata.{SameButHash, are_duplicates_iff}
use mcu.Data.Duplicates.Sets.{classes, find_duplicates-eq-classes}
use mcu.Data.Duplicates.Groups.{IsReported, FromTable, AllHaveMetadata, find_duplicates_lem}
use mcu.Tests.Order.{
  newest_first, oldest_first, sort, newest_first-IsOrderBy, oldest_first-IsOrderBy,
}
use mcu.Tests.Samples.{
  clock, kernel_of, metadata_of, no_tables, two_kernels, two_vllm_kernels, anything,
}

abbrev walk : List String → List String
walk ks = ks

walk-Perm : (ks : List String) → Perm (walk ks) ks
walk-Perm ks = Perm.refl ks

abbrev hashes : List (Row KernelKey) → List String
hashes rows = map (λ r. r.key.hash) rows

newest_first_test : hashes (search newest_first none anything two_kernels) ≡ "h2" ∷ "h1" ∷ []
unfolding search sort upsert_kernel common_kernel_values
newest_first_test = refl

older_test :
    hashes
      (search newest_first none (record anything { older_than_timestamp = some 20 }) two_kernels)
    ≡ "h1" ∷ []
unfolding search sort upsert_kernel common_kernel_values
older_test = refl

hits_test :
    hashes
      (search newest_first none (record anything { cache_hit_higher = some (pos 0) }) two_kernels)
    ≡ []
unfolding search sort upsert_kernel common_kernel_values
hits_test = refl

duplicates_test :
    map (λ g. map (λ k. k.hash_value) g) (find_duplicates walk oldest_first none two_kernels)
    ≡ ("h1" ∷ "h2" ∷ []) ∷ []
unfolding find_duplicates sort upsert_kernel common_kernel_values equal get
duplicates_test = refl

search_lem_example :
    ((r : Row KernelKey)
      → Mem r (search newest_first none anything two_kernels)
        ↔ (Mem r two_kernels.kernels × Matches (λ k. k.cache_dir) anything r))
    × Ordered NewestFirst (search newest_first none anything two_kernels)
search_lem_example = search_lem newest_first anything two_kernels newest_first-IsOrderBy

abbrev after_insert : Tables KernelKey
after_insert = (insert_kernel none clock (kernel_of "h1" 30) "/c" two_kernels).1

insert_kernel_lookup_example :
    (find_row (key_of "h2" "/c") after_insert.kernels ≡ (
      if key_of "h1" "/c" == key_of "h2" "/c"
      then some (common_kernel_values clock (kernel_of "h1" 30))
      else find_row (key_of "h2" "/c") two_kernels.kernels))
    × (files_of (key_of "h2" "/c") after_insert.files ≡ (
        if key_of "h1" "/c" == key_of "h2" "/c"
        then file_rows (key_of "h1" "/c") two_kernels.next_id (kernel_of "h1" 30).files
        else files_of (key_of "h2" "/c") two_kernels.files))
insert_kernel_lookup_example =
    insert_kernel_lookup clock (kernel_of "h1" 30) "/c" two_kernels (key_of "h2" "/c")

abbrev vllm_h1 : VllmKey
vllm_h1 = vllm_key_of "/c" "v" "h1" "rank_0_0"

abbrev after_vllm_insert : Tables VllmKey
after_vllm_insert =
    (insert_vllm_kernel none clock (kernel_of "h1" 30) "/c" "v" "rank_0_0" two_vllm_kernels).1

insert_kernel_resets_hits_example :
    Option.map (λ c. c.runtime_hits) (find_row (key_of "h1" "/c") after_insert.kernels) ≡ some 0
insert_kernel_resets_hits_example =
    insert_kernel_resets_hits clock (kernel_of "h1" 30) "/c" two_kernels

pub no_tables-IsWellFormed : {K : Type 0} ⦃e : Eq K⦄ → IsWellFormed (no_tables {K = K})
no_tables-IsWellFormed = record { unique_keys = tt; ids_below = tt; unique_ids = tt; owned = tt }

pub two_kernels-IsWellFormed : IsWellFormed two_kernels
unfolding insert_kernel upsert_kernel
two_kernels-IsWellFormed =
    insert_kernel-IsWellFormed none clock (kernel_of "h2" 20) "/c"
      (upsert_kernel clock (kernel_of "h1" 10) no_tables)
      (insert_kernel-IsWellFormed none clock (kernel_of "h1" 10) "/c" no_tables
        no_tables-IsWellFormed)

are_duplicates_iff_example :
    (are_duplicates walk (some (metadata_of "h1")) (some (metadata_of "h2")) ≡ ok true)
    ↔ SameButHash (metadata_of "h1") (metadata_of "h2")
are_duplicates_iff_example = are_duplicates_iff walk (metadata_of "h1") (metadata_of "h2") walk-Perm

abbrev dict_of : String → ℕ → KernelDict
dict_of hash time = record {
  hash_value = hash;
  name = some "add";
  metadata = some (metadata_of hash);
  modified_time = some time;
  backend = some "cuda";
  arch = some "80";
  triton_version = some "3.3.0";
  total_size = some 8;
  vllm_hash = none;
}

abbrev two_dicts : List KernelDict
two_dicts = dict_of "h1" 10 ∷ dict_of "h2" 20 ∷ []

find_duplicates-eq-classes_example :
    find_duplicates_in_single_group walk two_dicts ≡ ok (classes walk (length two_dicts) two_dicts)
find_duplicates-eq-classes_example = find_duplicates-eq-classes walk two_dicts (refl, (refl, tt))

pub have_metadata : AllHaveMetadata (λ k. k.hash) (λ k. none) two_kernels.kernels
unfolding upsert_kernel common_kernel_values
have_metadata = (refl, (refl, tt))

find_duplicates_lem_example :
    All
      (IsReported walk (FromTable (λ k. k.hash) (λ k. none) two_kernels.kernels))
      (find_duplicates walk oldest_first none two_kernels)
find_duplicates_lem_example =
    find_duplicates_lem walk oldest_first two_kernels oldest_first-IsOrderBy have_metadata
