-- ===== src/Tests/Index.antt =====
-- Runs of indexing (data/cache_repo.py, data/kernel_validator.py, services/index.py).
use mcu.Base.{String, ◌≡◌, refl, false, none, some, List, [], ◌∷◌, map}
use mcu.Base.{◌==◌, string_eq, list_eq, if◌then◌else◌}
use mcu.Base.Int.{pos}
use mcu.Base.Dict.{get}
use mcu.Base.Text.{suffix, ends_with}
use mcu.Models.{FilePath, Kernel}
use mcu.Models
use mcu.Models.Json.{Value, Members, end, member}
use mcu.Models.Json
use mcu.Data.Rows.{kernel_key_eq}
use mcu.Cache.Disk.{Disk, file, dir, node_at, iterdir}
use mcu.Index.Files.{Files, parts, located, parent_and_name}
use mcu.Index.Validator.{Validate, deserialize_kernel}
use mcu.Index.Repository.{Yields, done, yields, kernels}
use mcu.Index.Service.Latest.{yielded}
use mcu.Tests.Samples.{root, kernel_of}

paths_test :
    (parts "/c//h1/./add.json" ≡ "c" ∷ "h1" ∷ "add.json" ∷ [])
    × (parent_and_name "/c/h1/add.json" ≡ some ("h1", "add.json"))
    × (parent_and_name "/add.json" ≡ none)
    × (located ("w" ∷ []) "x/y" ≡ "w" ∷ "x" ∷ "y" ∷ [])
unfolding parts
paths_test = (refl, refl, refl, refl)

-- A kernel's metadata, and the group file that points to it.
abbrev pub metadata : Value
metadata = Json.object (
    member "name" (Json.text "add") (
      member "triton_version" (Json.text "3.3.0") (
        member "num_warps" (Json.number (pos 4)) (
          member "num_stages" (Json.number (pos 3)) (
            member "debug" (Json.boolean false) (
              member "shared" (Json.number (pos 0))
                (member "cluster_dims" (Json.array Json.nil) end)))))))

abbrev pub group : Value
group = Json.object (
    member "child_paths" (Json.object (member "add.json" (Json.text "/elsewhere/h1/add.json") end))
      end)

abbrev pub files : Files
files = record {
  read_json = λ p.
      if p == ("c" ∷ "h1" ∷ "add.json" ∷ [])
      then some metadata
      else if p == ("c" ∷ "h1" ∷ "__grp__add.json" ∷ [])
      then some group
      else none;
  mtime = λ p. some 10;
  stat_size = λ p. some 7;
  cwd = [];
}

abbrev pub cache : Disk
cache =
    ("c" ∷ [], dir)
    ∷ ("c" ∷ "h1" ∷ [], dir)
    ∷ ("c" ∷ "h1" ∷ "__grp__add.json" ∷ [], file 7)
    ∷ ("c" ∷ "h1" ∷ "add.json" ∷ [], file 7)
    ∷ ("c" ∷ "h1" ∷ "add.cubin" ∷ [], file 7)
    ∷ ("c" ∷ "h1" ∷ "add.hsaco" ∷ [], file 7)
    ∷ ("c" ∷ "h2" ∷ [], dir)
    ∷ []

abbrev pub k1 : Kernel
k1 = kernel_of "h1" 30

-- A model that accepts every object.
abbrev pub validate : Validate
validate m = some (record {
  name = "add";
  target = record { backend = "cuda"; arch = Models.number (pos 80); warp_size = pos 32 };
  num_warps = k1.num_warps;
  num_stages = k1.num_stages;
  num_ctas = k1.num_ctas;
  maxnreg = k1.maxnreg;
  cluster_dims = k1.cluster_dims;
  ptx_version = k1.ptx_version;
  enable_fp_fusion = k1.enable_fp_fusion;
  launch_cooperative_grid = k1.launch_cooperative_grid;
  supported_fp8_dtypes = k1.supported_fp8_dtypes;
  deprecated_fp8_dtypes = k1.deprecated_fp8_dtypes;
  default_dot_input_precision = k1.default_dot_input_precision;
  allowed_dot_input_precisions = k1.allowed_dot_input_precisions;
  max_num_imprecise_acc_default = k1.max_num_imprecise_acc_default;
  extern_libs = k1.extern_libs;
  debug = k1.debug;
  backend_name = "";
  sanitize_overflow = k1.sanitize_overflow;
  triton_version = k1.triton_version;
  shared = k1.shared;
  tmem_size = k1.tmem_size;
  global_scratch_size = k1.global_scratch_size;
  global_scratch_align = k1.global_scratch_align;
  waves_per_eu = k1.waves_per_eu;
  kpack = k1.kpack;
  matrix_instr_nonkdim = k1.matrix_instr_nonkdim;
})

abbrev summary : Yields Kernel → List (String × String × List String)
summary ys = map (λ k. (k.hash, k.backend_name, map (λ f. f.name) k.files)) (yielded ys)

-- The directory without a group file is skipped, and so is the file of another backend.
kernels_test :
    summary (kernels validate files root cache)
    ≡ ("h1", "cuda", "__grp__add.json" ∷ "add.json" ∷ "add.cubin" ∷ []) ∷ []
unfolding kernels deserialize_kernel node_at iterdir parts get suffix ends_with
kernels_test = refl

abbrev one : Yields Kernel
one = yields k1 done
