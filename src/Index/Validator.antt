-- ===== src/Index/Validator.antt =====
-- `is_kernel_related`, `KernelMetadata` and `deserialize_kernel` (data/kernel_validator.py), with the
-- plugins (plugins/cuda.py, plugins/rocm.py, plugins/discovery.py).
pub mod Types
pub mod Laws
use mcu.Base.{
  ℕ, String, Bool, true, false, not, ◌&&◌, Option, none, some, List, [], ◌∷◌, ◌==◌, string_eq,
  is_none, if◌then◌else◌,
}
use mcu.Base.Int.{ℤ}
use mcu.Base.Text.{suffix}
use mcu.Base.Dict.{Dict, get}
use mcu.Models.{FilePath, Kernel, KernelFile, Arch}
use mcu.Models.Json.{Value, Items, Members}
use mcu.Models.Json
use mcu.Cache.Disk.{Disk, iterdir, node_at, ◌//◌}
use mcu.Index.Files.{Files, dict_of}

-- `KernelTarget`
pub record KernelTarget : Type 0 where
  pub backend : String
  pub arch : Arch
  pub warp_size : ℤ

-- `KernelMetadata`
pub record KernelMetadata : Type 0 where
  pub name : String
  pub target : KernelTarget
  pub num_warps : ℤ
  pub num_stages : ℤ
  pub num_ctas : ℤ
  pub maxnreg : Value
  pub cluster_dims : List ℤ
  pub ptx_version : Option String
  pub enable_fp_fusion : Bool
  pub launch_cooperative_grid : Bool
  pub supported_fp8_dtypes : List String
  pub deprecated_fp8_dtypes : List String
  pub default_dot_input_precision : String
  pub allowed_dot_input_precisions : List String
  pub max_num_imprecise_acc_default : ℤ
  pub extern_libs : List (List String)
  pub debug : Bool
  pub backend_name : String
  pub sanitize_overflow : Bool
  pub triton_version : String
  pub shared : ℤ
  pub tmem_size : ℤ
  pub global_scratch_size : ℤ
  pub global_scratch_align : ℤ
  pub waves_per_eu : Option ℤ
  pub kpack : Option ℤ
  pub matrix_instr_nonkdim : Option ℤ

-- What pydantic makes of an object before `check_backend_consistency` runs, or no object where it
-- raises `ValidationError`.
abbrev pub Validate : Type 0
Validate = Dict String Value → Option KernelMetadata

-- `check_backend_consistency`
unfoldable pub check_backend_consistency : KernelMetadata → KernelMetadata
check_backend_consistency m =
    if m.backend_name == "" && not (m.target.backend == "")
    then record m { backend_name = m.target.backend }
    else m

kernel_specific_fields : List String
kernel_specific_fields =
    "name" ∷ "triton_version" ∷ "num_warps" ∷ "num_stages" ∷ "debug" ∷ "shared" ∷ "cluster_dims"
    ∷ []

pub has_key : String → Dict String Value → Bool
unfolding get
has_key k m = not (is_none (get k m))

has_all : List String → Dict String Value → Bool
unfolding has_key
has_all [] m = true
has_all (k ∷ ks) m = has_key k m && has_all ks m

-- A target that is an object must name a backend.
target_has_backend : Option Value → Bool
unfolding has_key
target_has_backend (some (Json.object t)) = has_key "backend" (dict_of t)
target_has_backend _ = true

pub is_kernel_related : Dict String Value → Bool
unfolding has_all kernel_specific_fields target_has_backend get
is_kernel_related m = has_all kernel_specific_fields m && target_has_backend (get "target" m)

-- `common_extensions`
abbrev common_extensions : Dict String String
common_extensions =
    (".json", "metadata") ∷ (".ttir", "ttir") ∷ (".ttgir", "ttgir") ∷ (".llir", "llir") ∷ []

-- `relevant_extensions` of `CudaPlugin` and of `RocmPlugin`
abbrev cuda_extensions : Dict String String
cuda_extensions = (".ptx", "ptx") ∷ (".cubin", "cubin") ∷ []

abbrev rocm_extensions : Dict String String
rocm_extensions = (".amdgcn", "amdgcn") ∷ (".hsaco", "hsaco") ∷ []

-- `discover_plugins`, by backend
abbrev pub plugins : Dict String (Dict String String)
plugins = ("cuda", cuda_extensions) ∷ ("hip", rocm_extensions) ∷ []

abbrev pub plugin_type : String → Option (Dict String String) → Option String
plugin_type ext none = none
plugin_type ext (some extensions) = get ext extensions

-- The type of a file of a kernel for `backend`, if it is one that is kept.
unfoldable pub file_type_of : String → String → Option String
unfolding get suffix
file_type_of backend name = elim (get (suffix name) common_extensions) [
  | some t ↦ some t
  | none ↦ if backend == "" then none else plugin_type (suffix name) (get backend plugins)
]

abbrev or_zero : Option ℕ → ℕ
or_zero none = 0
or_zero (some n) = n

pub kernel_files : Files → FilePath → String → List String → List KernelFile
unfolding file_type_of
kernel_files fs directory backend [] = []
kernel_files fs directory backend (n ∷ names) =
    let rest = kernel_files fs directory backend names in
    elim (file_type_of backend n) [
      | none ↦ rest
      | some t ↦
          record { file_type = t; name = n; size = some (or_zero (fs.stat_size (directory // n))) }
          ∷ rest
    ]

-- The kernel that the validated metadata is turned into.
pub kernel_of :
    Files → Dict String Value → String → String → FilePath → Disk → KernelMetadata → Kernel
unfolding kernel_files iterdir
kernel_of fs metadata hash_value cache_dir directory d m = record {
  hash = hash_value;
  cache_dir = cache_dir;
  backend = m.target.backend;
  arch = m.target.arch;
  warp_size = m.target.warp_size;
  name = m.name;
  num_warps = m.num_warps;
  num_stages = m.num_stages;
  num_ctas = m.num_ctas;
  maxnreg = m.maxnreg;
  cluster_dims = m.cluster_dims;
  ptx_version = m.ptx_version;
  enable_fp_fusion = m.enable_fp_fusion;
  launch_cooperative_grid = m.launch_cooperative_grid;
  supported_fp8_dtypes = m.supported_fp8_dtypes;
  deprecated_fp8_dtypes = m.deprecated_fp8_dtypes;
  default_dot_input_precision = m.default_dot_input_precision;
  allowed_dot_input_precisions = m.allowed_dot_input_precisions;
  max_num_imprecise_acc_default = m.max_num_imprecise_acc_default;
  extern_libs = m.extern_libs;
  debug = m.debug;
  backend_name = m.backend_name;
  sanitize_overflow = m.sanitize_overflow;
  triton_version = m.triton_version;
  shared = m.shared;
  tmem_size = m.tmem_size;
  global_scratch_size = m.global_scratch_size;
  global_scratch_align = m.global_scratch_align;
  waves_per_eu = m.waves_per_eu;
  kpack = m.kpack;
  matrix_instr_nonkdim = m.matrix_instr_nonkdim;
  metadata = metadata;
  files = kernel_files fs directory m.target.backend (iterdir directory d);
  modified_time = fs.mtime directory;
}

-- Whatever is no object fails one of the tests: it lacks a field, or pydantic refuses it.
unfoldable pub deserialize_kernel :
    Validate → Files → Value → String → String → FilePath → Disk → Option Kernel
unfolding is_kernel_related check_backend_consistency kernel_of
deserialize_kernel validate fs (Json.object ms) hash_value cache_dir directory d =
    if is_kernel_related (dict_of ms)
    then (elim (validate (dict_of ms)) [
      | none ↦ none
      | some m ↦
          some (
            kernel_of fs (dict_of ms) hash_value cache_dir directory d
              (check_backend_consistency m))
    ])
    else none
deserialize_kernel validate fs _ hash_value cache_dir directory d = none
