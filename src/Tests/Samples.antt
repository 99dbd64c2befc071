-- ===== src/Tests/Samples.antt =====
-- A kernel, tables and disks to run the model on.
use mcu.Base.{ℕ, String, true, false, none, some, [], ◌∷◌}
use mcu.Base.Int.{pos}
use mcu.Base.Dict.{Dict}
use mcu.Models.{Kernel, KernelFile, Arch, SearchCriteria, FilePath}
use mcu.Models
use mcu.Models.Json.{Value, null}
use mcu.Models.Json
use mcu.Data.Rows.{Clock, Tables, KernelKey, VllmKey}
use mcu.Data.Upsert.{upsert_kernel, upsert_vllm_kernel}
use mcu.Cache.Disk.{Disk, file, dir, Os}

abbrev pub clock : Clock
clock = record { now = 63_900_000_000_000_000; imported = 63_800_000_000_000_000 }

abbrev file_of : String → String → ℕ → KernelFile
file_of t n s = record { file_type = t; name = n; size = some s }

-- A kernel by its hash, its metadata and its time.
abbrev pub add_kernel : String → Dict String Value → ℕ → Kernel
add_kernel hash metadata time = record {
  hash = hash;
  cache_dir = "/c";
  backend = "cuda";
  arch = Models.number (pos 80);
  warp_size = pos 32;
  num_warps = pos 4;
  num_stages = pos 3;
  name = "add";
  num_ctas = pos 1;
  maxnreg = null;
  cluster_dims = pos 1 ∷ pos 1 ∷ pos 1 ∷ [];
  ptx_version = none;
  enable_fp_fusion = true;
  launch_cooperative_grid = false;
  supported_fp8_dtypes = "fp8e5" ∷ [];
  deprecated_fp8_dtypes = [];
  default_dot_input_precision = "tf32";
  allowed_dot_input_precisions = "tf32" ∷ "ieee" ∷ [];
  max_num_imprecise_acc_default = pos 0;
  extern_libs = [];
  debug = false;
  backend_name = "cuda";
  sanitize_overflow = true;
  triton_version = "3.3.0";
  shared = pos 0;
  tmem_size = pos 0;
  global_scratch_size = pos 0;
  global_scratch_align = pos 1;
  metadata = metadata;
  waves_per_eu = none;
  kpack = none;
  matrix_instr_nonkdim = none;
  files = file_of "ttir" "add.ttir" 3 ∷ file_of "json" "add.json" 5 ∷ [];
  modified_time = some time;
}

-- The metadata differs in the key "hash" only.
abbrev pub metadata_of : String → Dict String Value
metadata_of hash = ("hash", Json.text hash) ∷ ("num_warps", Json.number (pos 4)) ∷ []

abbrev pub kernel_of : String → ℕ → Kernel
kernel_of hash time = add_kernel hash (metadata_of hash) time

abbrev pub no_tables : {K : Type 0} → Tables K
no_tables = record { kernels = []; files = []; next_id = 1 }

-- Two duplicates, the older one first.
abbrev pub two_kernels : Tables KernelKey
two_kernels =
    upsert_kernel clock (kernel_of "h2" 20) (upsert_kernel clock (kernel_of "h1" 10) no_tables)

abbrev pub two_vllm_kernels : Tables VllmKey
two_vllm_kernels =
    upsert_vllm_kernel clock (kernel_of "h2" 20) "/c" "v" "rank_0_0"
      (upsert_vllm_kernel clock (kernel_of "h1" 10) "/c" "v" "rank_0_0" no_tables)

abbrev pub anything : SearchCriteria
anything = record {
  name = none;
  cache_dir = none;
  backend = none;
  arch = none;
  older_than_timestamp = none;
  younger_than_timestamp = none;
  cache_hit_lower = none;
  cache_hit_higher = none;
}

abbrev pub root : FilePath
root = "c" ∷ []

abbrev pub disk : Disk
disk =
    ("c" ∷ [], dir)
    ∷ ("c" ∷ "h1" ∷ [], dir)
    ∷ ("c" ∷ "h1" ∷ "add.ttir" ∷ [], file 3)
    ∷ ("c" ∷ "h1" ∷ "add.json" ∷ [], file 5)
    ∷ ("c" ∷ "h2" ∷ [], dir)
    ∷ ("c" ∷ "h2" ∷ "add.ttir" ∷ [], file 3)
    ∷ []

-- An operating system that refuses nothing, and one that refuses all.
abbrev pub willing : Os
willing = record { denied = λ p. false; leftover = λ p d. d }

abbrev pub refusing : Os
refusing = record { denied = λ p. true; leftover = λ p d. d }
