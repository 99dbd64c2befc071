-- ===== src/Data/Search.antt =====
-- `build_common_search_filters` (utils/utils.py) and `search` of `Database` and `VllmDatabase`
-- (data/database.py), in mcm/model_cache_manager.
pub mod Matches
pub mod Laws
use mcu.Base.{
  ℕ, suc, ◌≤◌, String, Bool, true, false, Option, none, some, List, [], ◌∷◌, ◌++◌, keep, ltb,
}
use mcu.Base.{◌&&◌, ◌==◌, string_eq, Error}
use mcu.Base.Int.{ℤ, pos, ltb_ℤ}
use mcu.Models.{SearchCriteria}
use mcu.Data.Rows.{Columns, KernelKey, VllmKey, Row, Tables}

-- The attributes of the criteria, and the columns, that are compared for equality.
pub data Attribute : Type 0 where
  cache_dir name backend arch : Attribute

attribute : SearchCriteria → Attribute → Option String
attribute c cache_dir = c.cache_dir
attribute c name = c.name
attribute c backend = c.backend
attribute c arch = c.arch

-- A triple of `equality_filter_configs`: the attribute, the column, and `str` or `None`.
pub record Config : Type 0 where
  attr : Attribute
  column : Attribute
  transformer : Option (String → String)

-- The filter expressions, in the order in which they are built.
pub data Filter : Type 0 where
  equal_to : Attribute → String → Filter
  hits_below : ℤ → Filter
  hits_above : ℤ → Filter
  modified_before : ℕ → Filter
  modified_after : ℕ → Filter

apply_transformer : Option (String → String) → String → String
apply_transformer none s = s
apply_transformer (some f) s = f s

abbrev optionally {ℓ} : {A : Type ℓ} → Option A → (A → Filter) → List Filter
optionally none f = []
optionally (some a) f = f a ∷ []

equality_filters : SearchCriteria → List Config → List Filter
unfolding attribute apply_transformer
equality_filters c [] = []
equality_filters c (cfg ∷ configs) =
    optionally (attribute c cfg.attr)
      (λ v. equal_to cfg.column (apply_transformer cfg.transformer v))
    ++ equality_filters c configs

pub build_common_search_filters : SearchCriteria → List Config → List Filter
unfolding equality_filters
build_common_search_filters c configs =
    equality_filters c configs
    ++ (optionally c.cache_hit_lower hits_below
        ++ (optionally c.cache_hit_higher hits_above
            ++ (optionally c.older_than_timestamp modified_before
                ++ optionally c.younger_than_timestamp modified_after)))

-- SQL comparisons: a NULL on the left selects nothing.
abbrev null_or {ℓ} : {A : Type ℓ} → Option A → (A → Bool) → Bool
null_or none p = false
null_or (some a) p = p a

module _ {K : Type 0} (dir : K → String) where
  pub column_value : Row K → Attribute → Option String
  column_value r cache_dir = some (dir r.key)
  column_value r name = r.columns.name
  column_value r backend = r.columns.backend
  column_value r arch = r.columns.arch

  selects : Row K → Filter → Bool
  unfolding column_value
  selects r (equal_to a v) = null_or (column_value r a) (λ w. w == v)
  selects r (hits_below n) = ltb_ℤ (pos r.columns.runtime_hits) n
  selects r (hits_above n) = ltb_ℤ n (pos r.columns.runtime_hits)
  selects r (modified_before t) = null_or r.columns.modified_time (λ m. ltb m t)
  selects r (modified_after t) = null_or r.columns.modified_time (λ m. ltb t m)

  -- `and_(*active_filters)`; with no filter the query is not filtered.
  pub selects_all : List Filter → Row K → Bool
  unfolding selects
  selects_all [] r = true
  selects_all (f ∷ fs) r = selects r f && selects_all fs r

-- NULL sorts below every value.
abbrev pub sort_key : Option ℕ → ℕ
sort_key none = 0
sort_key (some t) = suc t

module _ {K : Type 0} where
  -- `modified_time.desc()`
  abbrev pub NewestFirst : Row K → Row K → Type 0
  NewestFirst a b = sort_key b.columns.modified_time ≤ sort_key a.columns.modified_time

  -- `modified_time.asc()`
  abbrev pub OldestFirst : Row K → Row K → Type 0
  OldestFirst a b = sort_key a.columns.modified_time ≤ sort_key b.columns.modified_time

str : Option (String → String)
str = some (λ s. s)

abbrev config : Attribute → Attribute → Option (String → String) → Config
config a c f = record { attr = a; column = c; transformer = f }

-- The triples are the same in `Database`, `VllmDatabase` and both strategies.
pub equality_filter_configs : List Config
unfolding str
equality_filter_configs =
    config cache_dir cache_dir str
    ∷ config name name none
    ∷ config backend backend none
    ∷ config arch arch str
    ∷ []

-- `Database.search`, where `order` is the database's ORDER BY. An exception gives no rows.
unfoldable pub search :
    (List (Row KernelKey) → List (Row KernelKey))
    → Option Error
    → SearchCriteria
    → Tables KernelKey
    → List (Row KernelKey)
unfolding equality_filter_configs build_common_search_filters selects_all
search order (some e) criteria t = []
search order none criteria t = order (
    keep
      (selects_all (λ k. k.cache_dir)
        (build_common_search_filters criteria equality_filter_configs))
      t.kernels)

-- `VllmDatabase.search`: the column of `cache_dir` is `vllm_cache_root`.
unfoldable pub search_vllm :
    (List (Row VllmKey) → List (Row VllmKey))
    → Option Error
    → SearchCriteria
    → Tables VllmKey
    → List (Row VllmKey)
unfolding equality_filter_configs build_common_search_filters selects_all
search_vllm order (some e) criteria t = []
search_vllm order none criteria t = order (
    keep
      (selects_all (λ k. k.vllm_cache_root)
        (build_common_search_filters criteria equality_filter_configs))
      t.kernels)
