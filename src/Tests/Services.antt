-- ===== src/Tests/Services.antt =====
-- Runs of the pruning service (services/prune.py).
use mcu.Base.{ℕ, ◌≡◌, refl, ◌≢◌, String, true, false, Option, none, some, List, [], ◌∷◌, length}
use mcu.Base.{Result, ok, err, invalid_request}
use mcu.Data.Rows.{
  KernelKey, VllmKey, Row, Tables, kernel_key_eq, vllm_key_eq, common_kernel_values,
}
use mcu.Data.Upsert.{upsert_kernel, upsert_vllm_kernel}
use mcu.Data.Search.{search, search_vllm}
use mathlib.Core.List.{Mem, mem-cons_self}
use mcu.Data.Search.Matches.{Matches}
use mcu.Models.Json.{equal}
use mcu.Base.Dict.{get}
use mcu.Data.Duplicates.{find_duplicates, find_vllm_duplicates}
use mcu.Cache.Identifier.Groups.{older_copies, identifiers_of}
use mcu.Services.Session.{row_with}
use mcu.Services.Strategy.{vllm_strategy, triton_strategy, path_str}
use mcu.Cache.Disk.{node_at}
use mcu.Cache.Identifier.{find_vllm_kernel_dirs}
use mcu.Services.Prune.{Env, prune}
use mcu.Services.Prune.Marks.{TritonGet, keys}
use mcu.Services.Prune.Triton.{PrunedAll, full, prune_full}
use mcu.Services.Prune.Vllm.{VllmGet, prune_vllm_raises}
use mcu.Services.Deduplicate.{deduplicate_kernels, estimate_groups}
use mcu.Services.Deduplicate.Triton.{Pruned, deduplicate_full}
use mcu.Services.Deduplicate.Vllm.{KeepsAll, deduplicate_vllm_keeps}
use mcu.Tests.Order.{newest_first, oldest_first, sort}
use mcu.Tests.Samples.{
  root, disk, willing, clock, kernel_of, two_kernels, two_vllm_kernels, anything,
}

-- A `session.get` for either table.
pub triton_get : List String → Tables KernelKey → Result (Option (Row KernelKey))
triton_get (h ∷ c ∷ []) t = ok (row_with (record { hash = h; cache_dir = c }) t.kernels)
triton_get _ t = err invalid_request

pub vllm_get : List String → Tables VllmKey → Result (Option (Row VllmKey))
vllm_get (r ∷ h ∷ k ∷ x ∷ []) t = ok (
    row_with (record { vllm_cache_root = r; vllm_hash = h; triton_cache_key = k; rank_x_y = x })
      t.kernels)
vllm_get _ t = err invalid_request

abbrev pub env : Env KernelKey
env = record {
  search = search newest_first none;
  find_duplicates = find_duplicates (λ ks. ks) oldest_first none;
  get = triton_get;
  confirm = λ n bytes ir_only. true;
  os = willing;
}

abbrev pub vllm_env : Env VllmKey
vllm_env = record {
  search = search_vllm newest_first none;
  find_duplicates = find_vllm_duplicates (λ ks. ks) oldest_first none;
  get = vllm_get;
  confirm = λ n bytes ir_only. true;
  os = willing;
}

pub env-TritonGet : TritonGet env
unfolding triton_get
env-TritonGet = record { refuses = refuses; finds = λ k t. refl }
  where
    refuses :
        (key : List String) (t : Tables KernelKey)
        → length key ≢ 2
        → triton_get key t ≡ err invalid_request
    refuses [] t n = refl
    refuses (a ∷ []) t n = refl
    refuses (a ∷ b ∷ []) t n = absurd (n refl)
    refuses (a ∷ b ∷ c ∷ key) t n = refl

pub vllm_env-VllmGet : VllmGet vllm_env
unfolding vllm_get
vllm_env-VllmGet = record { refuses = refuses; finds = λ k t. refl }
  where
    refuses :
        (key : List String) (t : Tables VllmKey)
        → length key ≢ 4
        → vllm_get key t ≡ err invalid_request
    refuses [] t n = refl
    refuses (a ∷ []) t n = refl
    refuses (a ∷ b ∷ []) t n = refl
    refuses (a ∷ b ∷ c ∷ []) t n = refl
    refuses (a ∷ b ∷ c ∷ d ∷ []) t n = absurd (n refl)
    refuses (a ∷ b ∷ c ∷ d ∷ e ∷ key) t n = refl

prune_full_example :
    PrunedAll root env env-TritonGet anything disk two_kernels
      (full root env env-TritonGet anything disk two_kernels)
prune_full_example = prune_full root env env-TritonGet anything disk two_kernels

abbrev pub vllm_row : String → ℕ → Row VllmKey
vllm_row hash time = record {
  key = record {
    vllm_cache_root = "/c";
    vllm_hash = "v";
    triton_cache_key = hash;
    rank_x_y = "rank_0_0";
  };
  columns = common_kernel_values clock (kernel_of hash time);
}

pub found_in_vllm :
    vllm_env.search (record anything { cache_dir = some (path_str root) }) two_vllm_kernels
    ≡ vllm_row "h2" 20 ∷ vllm_row "h1" 10 ∷ []
unfolding search_vllm sort upsert_vllm_kernel common_kernel_values path_str
found_in_vllm = refl

abbrev pub row_of : String → ℕ → Row KernelKey
row_of hash time = record {
  key = record { hash = hash; cache_dir = "/c" };
  columns = common_kernel_values clock (kernel_of hash time);
}

row-in_table : Mem (row_of "h1" 10) two_kernels.kernels
unfolding upsert_kernel common_kernel_values
row-in_table = mem-cons_self

row-Matches :
    Matches
      (λ k. k.cache_dir)
      (record anything { cache_dir = some (path_str root) })
      (row_of "h1" 10)
unfolding path_str
row-Matches = record {
  cache_dir = refl;
  name = tt;
  backend = tt;
  arch = tt;
  hits_below = tt;
  hits_above = tt;
  older = tt;
  younger = tt;
}

prune_vllm_raises_example :
    prune vllm_strategy root vllm_env anything false true disk two_vllm_kernels
    ≡ (err invalid_request, disk, two_vllm_kernels)
unfolding find_vllm_kernel_dirs node_at
prune_vllm_raises_example =
    prune_vllm_raises root vllm_env vllm_env-VllmGet anything false disk two_vllm_kernels
      (vllm_row "h2" 20) (vllm_row "h1" 10 ∷ []) found_in_vllm

pub sizes : estimate_groups (env.find_duplicates two_kernels) ≡ ok 8
unfolding find_duplicates estimate_groups sort upsert_kernel common_kernel_values equal get
sizes = refl

deduplicate_full_example :
    Pruned root env
      (length (older_copies (env.find_duplicates two_kernels)))
      (keys root (identifiers_of (env.find_duplicates two_kernels)))
      disk
      two_kernels
      (deduplicate_kernels triton_strategy root env true disk two_kernels)
deduplicate_full_example = deduplicate_full root env env-TritonGet 8 disk two_kernels sizes

deduplicate_vllm_keeps_example :
    KeepsAll root vllm_env vllm_env-VllmGet disk two_vllm_kernels
      (deduplicate_kernels vllm_strategy root vllm_env true disk two_vllm_kernels)
deduplicate_vllm_keeps_example =
    deduplicate_vllm_keeps root vllm_env vllm_env-VllmGet true disk two_vllm_kernels
