-- ===== src/Data/Rows.antt =====
-- mcm/model_cache_manager/data/db_models.py: the columns, the primary keys and the file rows.
-- A table is the list of its rows; the primary keys are records with an `==`.
use mcu.Base.{ℕ, ◌/◌, String, ◌≡◌, ◌↔◌, Bool, true, ◌&&◌, Option, none, some, List, arith}
use mcu.Base.{Eq, ◌==◌, ==_iff, string_eq, sum_of}
use mcu.Base.Int.{ℤ}
use mcu.Base.Dict.{Dict}
use mcu.Base.Text.{show_ℤ}
use mcu.Models.{Arch, number, label, Kernel, KernelFile}
use mcu.Models.Json.{Value}

-- `BaseKernelMixin`. The columns `runtime_hits`, `last_access_time` and `created` are not nullable.
pub record Columns : Type 0 where
  pub backend : Option String
  pub arch : Option String
  pub name : Option String
  pub warp_size : Option ℤ
  pub num_warps : Option ℤ
  pub num_stages : Option ℤ
  pub num_ctas : Option ℤ
  pub maxnreg : Option Value
  pub cluster_dims : Option (List ℤ)
  pub ptx_version : Option String
  pub enable_fp_fusion : Option Bool
  pub launch_cooperative_grid : Option Bool
  pub supported_fp8_dtypes : Option (List String)
  pub deprecated_fp8_dtypes : Option (List String)
  pub default_dot_input_precision : Option String
  pub allowed_dot_input_precisions : Option (List String)
  pub max_num_imprecise_acc_default : Option ℤ
  pub extern_libs : Option (List (List String))
  pub debug : Option Bool
  pub backend_name : Option String
  pub sanitize_overflow : Option Bool
  pub triton_version : Option String
  pub shared : Option ℤ
  pub tmem_size : Option ℤ
  pub global_scratch_size : Option ℤ
  pub global_scratch_align : Option ℤ
  pub waves_per_eu : Option ℤ
  pub kpack : Option ℤ
  pub matrix_instr_nonkdim : Option ℤ
  pub created : ℕ
  pub total_size : Option ℕ
  pub kernel_metadata_json : Option (Dict String Value)
  pub modified_time : Option ℕ
  pub runtime_hits : ℕ
  pub last_access_time : ℕ

-- `time.time()` at the call, and at the import of the module, where the default of
-- `last_access_time` is evaluated once.
pub record Clock : Type 0 where
  pub now : ℕ
  pub imported : ℕ

-- `str(k_data.arch)`
arch_str : Arch → String
arch_str (number n) = show_ℤ n
arch_str (label s) = s

-- `f.size for f in k_data.files if f.size is not None`
size_or_zero : KernelFile → ℕ
size_or_zero f = elim f.size [ none ↦ 0 | some n ↦ n ]

-- `_get_common_kernel_values`, with the column defaults of the two columns that it leaves out.
unfoldable pub common_kernel_values : Clock → Kernel → Columns
unfolding arch_str size_or_zero
common_kernel_values c k = record {
  backend = some k.backend;
  arch = some (arch_str k.arch);
  name = some k.name;
  warp_size = some k.warp_size;
  num_warps = some k.num_warps;
  num_stages = some k.num_stages;
  num_ctas = some k.num_ctas;
  maxnreg = some k.maxnreg;
  cluster_dims = some k.cluster_dims;
  ptx_version = k.ptx_version;
  enable_fp_fusion = some k.enable_fp_fusion;
  launch_cooperative_grid = some k.launch_cooperative_grid;
  supported_fp8_dtypes = some k.supported_fp8_dtypes;
  deprecated_fp8_dtypes = some k.deprecated_fp8_dtypes;
  default_dot_input_precision = some k.default_dot_input_precision;
  allowed_dot_input_precisions = some k.allowed_dot_input_precisions;
  max_num_imprecise_acc_default = some k.max_num_imprecise_acc_default;
  extern_libs = some k.extern_libs;
  debug = some k.debug;
  backend_name = some k.backend_name;
  sanitize_overflow = some k.sanitize_overflow;
  triton_version = some k.triton_version;
  shared = some k.shared;
  tmem_size = some k.tmem_size;
  global_scratch_size = some k.global_scratch_size;
  global_scratch_align = some k.global_scratch_align;
  waves_per_eu = k.waves_per_eu;
  kpack = k.kpack;
  matrix_instr_nonkdim = k.matrix_instr_nonkdim;
  created = c.now / 1_000_000;
  total_size = some (sum_of size_or_zero k.files);
  kernel_metadata_json = some k.metadata;
  modified_time = k.modified_time;
  runtime_hits = 0;
  last_access_time = c.imported;
}

-- The primary key of `KernelOrm`.
pub record KernelKey : Type 0 where
  pub hash : String
  pub cache_dir : String

-- The primary key of `VllmKernelOrm`.
pub record VllmKey : Type 0 where
  pub vllm_cache_root : String
  pub vllm_hash : String
  pub triton_cache_key : String
  pub rank_x_y : String

abbrev kernel_key_eqb : KernelKey → KernelKey → Bool
kernel_key_eqb a b = a.hash == b.hash && a.cache_dir == b.cache_dir

pub kernel_key_eqb_iff : (a b : KernelKey) → (kernel_key_eqb a b ≡ true) ↔ (a ≡ b)
kernel_key_eqb_iff a b = ground (arith, ==_iff a.hash b.hash, ==_iff a.cache_dir b.cache_dir)

instance abbrev pub kernel_key_eq : Eq KernelKey
kernel_key_eq = record { eqb = kernel_key_eqb; eqb_iff = kernel_key_eqb_iff }

abbrev vllm_key_eqb : VllmKey → VllmKey → Bool
vllm_key_eqb a b =
    a.vllm_cache_root == b.vllm_cache_root
    && a.vllm_hash == b.vllm_hash
    && a.triton_cache_key == b.triton_cache_key
    && a.rank_x_y == b.rank_x_y

pub vllm_key_eqb_iff : (a b : VllmKey) → (vllm_key_eqb a b ≡ true) ↔ (a ≡ b)
vllm_key_eqb_iff a b = ground (
  arith,
  ==_iff a.vllm_cache_root b.vllm_cache_root,
  ==_iff a.vllm_hash b.vllm_hash,
  ==_iff a.triton_cache_key b.triton_cache_key,
  ==_iff a.rank_x_y b.rank_x_y,
)

instance abbrev pub vllm_key_eq : Eq VllmKey
vllm_key_eq = record { eqb = vllm_key_eqb; eqb_iff = vllm_key_eqb_iff }

-- A row of `KernelOrm` or `VllmKernelOrm`, by its primary key.
pub record Row (K : Type 0) : Type 0 where
  pub key : K
  pub columns : Columns

-- A row of `KernelFileOrm` or `VllmKernelFileOrm`; `owner` are the columns of the foreign key.
pub record FileRow (K : Type 0) : Type 0 where
  pub id : ℕ
  pub owner : K
  pub type : Option String
  pub rel_path : Option String
  pub size : Option ℕ

-- The two tables of one mode, and the next value of the autoincremented `id`.
pub record Tables (K : Type 0) : Type 0 where
  pub kernels : List (Row K)
  pub files : List (FileRow K)
  pub next_id : ℕ
