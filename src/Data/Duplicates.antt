-- ===== src/Data/Duplicates.antt =====
-- The search for duplicate kernels: `find_duplicates` of `Database` and `VllmDatabase` and the
-- static methods below it, in mcm/model_cache_manager/data/database.py.
pub mod Metadata
pub mod Sets
pub mod Grouping
pub mod Groups
pub mod Once
pub mod Copies
pub mod Together
pub mod Kept
pub mod Complete
use mcu.Base.{
  ℕ, suc, ◌+◌, String, Bool, true, false, not, ◌&&◌, Option, none, some, List, [], ◌∷◌, ◌++◌,
}
use mcu.Base.{
  map, keep, length, replicate, leb, ltb, ◌==◌, Eq, string_eq, nat_eq, option_eq, pair_eq,
}
use mcu.Base.{Result, ok, err, Error, attribute_error, ◌>>=◌, if◌then◌else◌}
use mcu.Base.Dict
use mcu.Base.Dict.{Dict}
use mcu.Models.Json.{Value, null, equal}
use mcu.Data.Rows.{Columns, KernelKey, VllmKey, Row, Tables}

-- `metadata.get(key)`: a key that is not there reads like a null.
pub value_of : String → Dict String Value → Value
value_of k m = elim (Dict.get k m) [ none ↦ null | some v ↦ v ]

-- `value1 != value2`
abbrev pub differs : Dict String Value → Dict String Value → String → Bool
differs m1 m2 k = not (equal (value_of k m1) (value_of k m2))

-- The loop over `all_keys`, with `differences_count` and `hash_field_differed`.
pub scan : Dict String Value → Dict String Value → List String → ℕ → Bool → Bool
scan m1 m2 [] count hash_differed =
    if count == 0 then true else if count == 1 then hash_differed else false
scan m1 m2 (k ∷ ks) count hash_differed =
    let differ = differs m1 m2 k in
    let count' = if differ then count + 1 else count in
    let hash' = if differ && k == "hash" then true else hash_differed in
    if leb 2 count' then false else scan m1 m2 ks count' hash'

-- `set(keys)`, the first of each key.
pub distinct : List String → List String
distinct [] = []
distinct (k ∷ ks) = k ∷ keep (λ j. not (j == k)) (distinct ks)

-- `set(metadata1.keys()) | set(metadata2.keys())`
pub all_keys : Dict String Value → Dict String Value → List String
unfolding distinct
all_keys m1 m2 = distinct (map (λ p. p.0) m1 ++ map (λ p. p.0) m2)

-- The dictionaries that the queries are turned into; `hash_value` stands under the key
-- `hash_field`, and `vllm_hash` is there in vLLM mode only.
pub record KernelDict : Type 0 where
  pub hash_value : String
  pub name : Option String
  pub metadata : Option (Dict String Value)
  pub modified_time : Option ℕ
  pub backend : Option String
  pub arch : Option String
  pub triton_version : Option String
  pub total_size : Option ℕ
  pub vllm_hash : Option String

abbrev pub Groups : Type 0
Groups = Dict (Option String × Option ℕ) (List KernelDict)

abbrev pub grouping_key : KernelDict → Option String × Option ℕ
grouping_key k = (k.name, k.total_size)

-- `grouped_kernels[key].append(kernel)` on a `defaultdict(list)`
pub append_to : Option String × Option ℕ → KernelDict → Groups → Groups
append_to key k [] = (key, k ∷ []) ∷ []
append_to key k ((j, g) ∷ groups) =
    if j == key then (j, g ++ (k ∷ [])) ∷ groups else (j, g) ∷ append_to key k groups

group_onto : Groups → List KernelDict → Groups
group_onto groups [] = groups
group_onto groups (k ∷ ks) = group_onto (append_to (grouping_key k) k groups) ks

pub group_kernels_by_name_and_size : List KernelDict → Groups
unfolding group_onto append_to
group_kernels_by_name_and_size = group_onto []

module _ {K : Type 0} (hash_field : K → String) (additional : K → Option String) where
  -- `_build_kernel_dictionaries`, for one row of the query
  unfoldable pub kernel_dict : Row K → KernelDict
  kernel_dict r = record {
    hash_value = hash_field r.key;
    name = r.columns.name;
    metadata = r.columns.kernel_metadata_json;
    modified_time = r.columns.modified_time;
    backend = r.columns.backend;
    arch = r.columns.arch;
    triton_version = r.columns.triton_version;
    total_size = r.columns.total_size;
    vllm_hash = additional r.key;
  }

-- `walk` is the order in which Python goes through a set of keys.
module _ (walk : List String → List String) where
  -- `_are_kernel_metadata_jsons_duplicates`: `.keys()` of a missing object raises.
  pub are_duplicates : Option (Dict String Value) → Option (Dict String Value) → Result Bool
  unfolding all_keys scan value_of
  are_duplicates none m2 = err attribute_error
  are_duplicates (some m1) none = err attribute_error
  are_duplicates (some m1) (some m2) = ok (scan m1 m2 (walk (all_keys m1 m2)) 0 false)

  -- The loop over `j`: the duplicates of the leader among the kernels behind it, and the flags
  -- `processed` of those kernels.
  pub mark : KernelDict → List KernelDict → List Bool → Result (List KernelDict × List Bool)
  mark leader [] flags = ok ([], [])
  mark leader (k ∷ ks) [] = ok ([], [])
  mark leader (k ∷ ks) (true ∷ flags) = do
    (found, flags') ← mark leader ks flags
    ok (found, true ∷ flags')
  mark leader (k ∷ ks) (false ∷ flags) = do
    same ← are_duplicates leader.metadata k.metadata
    (found, flags') ← mark leader ks flags
    ok (if same then (k ∷ found, true ∷ flags') else (found, false ∷ flags'))

  abbrev pub keep_if_many : List KernelDict → List (List KernelDict) → List (List KernelDict)
  keep_if_many set sets = if ltb 1 (length set) then set ∷ sets else sets

  -- The loop over `i`, on the kernels from `i` on and their flags.
  pub collect_sets : List KernelDict → List Bool → Result (List (List KernelDict))
  collect_sets [] flags = ok []
  collect_sets (k ∷ ks) [] = ok []
  collect_sets (k ∷ ks) (true ∷ flags) = collect_sets ks flags
  collect_sets (k ∷ ks) (false ∷ flags) = do
    (found, flags') ← mark k ks flags
    sets ← collect_sets ks flags'
    ok (keep_if_many (k ∷ found) sets)

  pub find_duplicates_in_single_group : List KernelDict → Result (List (List KernelDict))
  unfolding collect_sets mark are_duplicates
  find_duplicates_in_single_group ks = collect_sets ks (replicate (length ks) false)

  pub find_duplicate_groups_in_groups : Groups → Result (List (List KernelDict))
  unfolding find_duplicates_in_single_group
  find_duplicate_groups_in_groups [] = ok []
  find_duplicate_groups_in_groups ((key, g) ∷ groups) =
      let rest = find_duplicate_groups_in_groups groups in
      if ltb (length g) 2
      then rest
      else (do sets ← find_duplicates_in_single_group g; more ← rest; ok (sets ++ more))

  -- `except Exception`: no groups.
  abbrev no_groups_on_error : Result (List (List KernelDict)) → List (List KernelDict)
  no_groups_on_error (ok groups) = groups
  no_groups_on_error (err e) = []

  module _ {K : Type 0} (hash_field : K → String) (additional : K → Option String) where
    -- `find_duplicates_generic`, where `order` is the database's ORDER BY and `fault` an exception
    -- of the query.
    pub find_duplicates_generic :
        (List (Row K) → List (Row K)) → Option Error → List (Row K) → List (List KernelDict)
    unfolding kernel_dict find_duplicate_groups_in_groups group_kernels_by_name_and_size
    find_duplicates_generic order (some e) rows = []
    find_duplicates_generic order none rows = no_groups_on_error (
        find_duplicate_groups_in_groups
          (group_kernels_by_name_and_size (map (kernel_dict hash_field additional) (order rows))))

  -- `Database.find_duplicates`
  unfoldable pub find_duplicates :
      (List (Row KernelKey) → List (Row KernelKey))
      → Option Error
      → Tables KernelKey
      → List (List KernelDict)
  unfolding find_duplicates_generic
  find_duplicates order fault t =
      find_duplicates_generic (λ k. k.hash) (λ k. none) order fault t.kernels

  -- `VllmDatabase.find_duplicates`
  pub find_vllm_duplicates :
      (List (Row VllmKey) → List (Row VllmKey))
      → Option Error
      → Tables VllmKey
      → List (List KernelDict)
  find_vllm_duplicates order fault t =
      find_duplicates_generic (λ k. k.triton_cache_key) (λ k. some k.vllm_hash) order fault
        t.kernels
