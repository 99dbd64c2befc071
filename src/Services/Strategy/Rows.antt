-- ===== src/Services/Strategy/Rows.antt =====
-- The parts of `TritonStrategy` and `VllmStrategy` (strategies/*.py) that name columns and build
-- filters. The mode stands for the two ORM classes of a configuration.
use mcu.Base.{String, Option, some, List, [], ◌∷◌}
use mcu.Models.{SearchCriteria}
use mcu.Data.Rows.{KernelKey, VllmKey, Row}
use mcu.Data.Search.{Filter, build_common_search_filters, equality_filter_configs}
use mcu.Cache.Identifier.{Mode, triton, vllm}

pub record CacheConfig : Type 0 where
  pub orm_model : Mode
  pub hash_field : String
  pub primary_key_fields : List String
  pub additional_duplicate_fields : Option (List String)

abbrev triton_config : CacheConfig
triton_config = record {
  orm_model = triton;
  hash_field = "hash";
  primary_key_fields = "hash" ∷ "cache_dir" ∷ [];
  additional_duplicate_fields = some [];
}

abbrev vllm_config : CacheConfig
vllm_config = record {
  orm_model = vllm;
  hash_field = "triton_cache_key";
  primary_key_fields = "vllm_cache_root" ∷ "vllm_hash" ∷ "triton_cache_key" ∷ "rank_x_y" ∷ [];
  additional_duplicate_fields = some ("vllm_hash" ∷ []);
}

-- `get_cache_dir_from_row`; the column is never null.
abbrev triton_cache_dir : Row KernelKey → String
triton_cache_dir r = r.key.cache_dir

abbrev vllm_cache_dir : Row VllmKey → String
vllm_cache_dir r = r.key.vllm_cache_root

-- `build_search_filters`
abbrev triton_filters : SearchCriteria → List Filter
triton_filters criteria = build_common_search_filters criteria equality_filter_configs

abbrev vllm_filters : SearchCriteria → List Filter
vllm_filters criteria = build_common_search_filters criteria equality_filter_configs
