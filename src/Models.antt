-- ===== src/Models.antt =====
-- The data models: mcm/model_cache_manager/models/kernel.py, models/criteria.py and the decoded
-- JSON values that metadata is made of.
pub mod Json
use mcu.Base.{ℕ, String, Bool, Option, List}
use mcu.Base.Int.{ℤ}
use mcu.Base.Dict.{Dict}
use mcu.Models.Json.{Value}

-- A path is the list of its components from the root; `str(path)` is determined by it.
abbrev pub FilePath : Type 0
FilePath = List String

-- A path's `name` is all that the database keeps of it.
pub record KernelFile : Type 0 where
  pub file_type : String
  pub name : String
  pub size : Option ℕ

-- `target.arch` is an `int` or a `str`.
pub data Arch : Type 0 where
  number : ℤ → Arch
  label : String → Arch

-- Instants are natural numbers: microseconds since 0001-01-01T00:00:00 UTC, `datetime.min`.
pub record Kernel : Type 0 where
  pub hash : String
  pub cache_dir : String
  pub backend : String
  pub arch : Arch
  pub warp_size : ℤ
  pub num_warps : ℤ
  pub num_stages : ℤ
  pub name : String
  pub num_ctas : ℤ
  pub maxnreg : Value
  pub cluster_dims : List ℤ
  pub ptx_version : Option String
  pub enable_fp_fusion : Bool
  pub launch_cooperative_grid : Bool
  pub supported_fp8_dtypes : List String
  pub deprecated_fp8_dtypes : List String
  pub default_dot_input_precision : String
  pub allowed_dot_input_precisions : List String
  pub max_num_imprecise_acc_default : ℤ
  pub extern_libs : List (List String)
  pub debug : Bool
  pub backend_name : String
  pub sanitize_overflow : Bool
  pub triton_version : String
  pub shared : ℤ
  pub tmem_size : ℤ
  pub global_scratch_size : ℤ
  pub global_scratch_align : ℤ
  pub metadata : Dict String Value
  pub waves_per_eu : Option ℤ
  pub kpack : Option ℤ
  pub matrix_instr_nonkdim : Option ℤ
  pub files : List KernelFile
  pub modified_time : Option ℕ

pub record SearchCriteria : Type 0 where
  pub name : Option String
  pub cache_dir : Option String
  pub backend : Option String
  pub arch : Option String
  pub older_than_timestamp : Option ℕ
  pub younger_than_timestamp : Option ℕ
  pub cache_hit_lower : Option ℤ
  pub cache_hit_higher : Option ℤ
