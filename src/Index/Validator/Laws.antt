-- ===== src/Index/Validator/Laws.antt =====
-- What a kernel that `deserialize_kernel` (data/kernel_validator.py) returns is made of.
use mcu.Base.{
  All, if◌then◌else◌, String, ◌≡◌, Bool, true, false, not, ◌&&◌, Option, none, some, map, keep,
}
use mcu.Base.{◌==◌, string_eq, is_none}
use mcu.Models.{FilePath, Kernel}
use mcu.Models.Json.{Value, Members}
use mcu.Models.Json
use mcu.Cache.Disk.{Disk, iterdir}
use mcu.Index.Files.{Files, dict_of}
use mcu.Index.Validator.{Validate, KernelMetadata, is_kernel_related}
use mcu.Base.Text.{suffix}
use mcu.Index.Validator.Types.{has_extension, names_type}

-- The metadata, as it can be read back from a kernel.
abbrev pub metadata_of : Kernel → KernelMetadata
metadata_of k = record {
  name = k.name;
  target = record { backend = k.backend; arch = k.arch; warp_size = k.warp_size };
  num_warps = k.num_warps;
  num_stages = k.num_stages;
  num_ctas = k.num_ctas;
  maxnreg = k.maxnreg;
  cluster_dims = k.cluster_dims;
  ptx_version = k.ptx_version;
  enable_fp_fusion = k.enable_fp_fusion;
  launch_cooperative_grid = k.launch_cooperative_grid;
  supported_fp8_dtypes = k.supported_fp8_dtypes;
  deprecated_fp8_dtypes = k.deprecated_fp8_dtypes;
  default_dot_input_precision = k.default_dot_input_precision;
  allowed_dot_input_precisions = k.allowed_dot_input_precisions;
  max_num_imprecise_acc_default = k.max_num_imprecise_acc_default;
  extern_libs = k.extern_libs;
  debug = k.debug;
  backend_name = k.backend_name;
  sanitize_overflow = k.sanitize_overflow;
  triton_version = k.triton_version;
  shared = k.shared;
  tmem_size = k.tmem_size;
  global_scratch_size = k.global_scratch_size;
  global_scratch_align = k.global_scratch_align;
  waves_per_eu = k.waves_per_eu;
  kpack = k.kpack;
  matrix_instr_nonkdim = k.matrix_instr_nonkdim;
}

-- The metadata that is kept: an empty backend name is that of the target.
abbrev pub with_backend_name : KernelMetadata → KernelMetadata
with_backend_name m = record m {
  backend_name = if m.backend_name == "" then m.target.backend else m.backend_name;
}

-- What a kernel is made of.
pub record IsKernelOf (validate : Validate) (fs : Files) (v : Value) (hash_value cache_dir : String)
    (directory : FilePath) (d : Disk) (k : Kernel) : Type 0 where
  pub members : Members
  pub is_object : v ≡ Json.object members
  pub related : is_kernel_related (dict_of members) ≡ true
  pub validated : KernelMetadata
  pub valid : validate (dict_of members) ≡ some validated
  pub read_back : metadata_of k ≡ with_backend_name validated
  pub hash : k.hash ≡ hash_value
  pub dir : k.cache_dir ≡ cache_dir
  pub metadata : k.metadata ≡ dict_of members
  pub modified : k.modified_time ≡ fs.mtime directory
  pub files :
      map (λ f. f.name) k.files
      ≡ keep (λ n. has_extension k.backend (suffix n)) (iterdir directory d)
  pub types : All (λ f. names_type (suffix f.name) f.file_type ≡ true) k.files

-- Whether a JSON value is a kernel's metadata.
abbrev pub accepts : Validate → Value → Bool
accepts validate (Json.object ms) =
    is_kernel_related (dict_of ms) && not (is_none (validate (dict_of ms)))
accepts validate _ = false

abbrev pub Deserialized :
    Validate → Files → Value → String → String → FilePath → Disk → Option Kernel → Type 0
Deserialized validate fs v hash_value cache_dir directory d none = accepts validate v ≡ false
Deserialized validate fs v hash_value cache_dir directory d (some k) =
    IsKernelOf validate fs v hash_value cache_dir directory d k
