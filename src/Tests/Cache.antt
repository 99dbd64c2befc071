-- ===== src/Tests/Cache.antt =====
-- Runs of the deletions (utils/utils.py).
use mcu.Base.{◌+◌, ◌≡◌, refl, ◌≢◌, Bool, true, false, not, ◌&&◌, ◌||◌, none, List, [], ◌∷◌}
use mcu.Base.{◌==◌, ==_iff, string_eq, list_eq, if◌then◌else◌, map, arith, All}
use mcu.Base.Text.{suffix}
use mcu.Models.{FilePath}
use mcu.Cache.Disk.{Disk, Node, node_at, below, is_file, iterdir, unlink}
use mcu.Cache.Paths.{UniquePaths, disk_size}
use mcu.Cache.Deletion.{ir_exts, delete_ir_files_from_dirs, delete_kernel_directories}
use mcu.Cache.Deletion.Laws.{targeted, AreDirs, delete_ir_files_lem, delete_ir_files_freed}
use mcu.Cache.Deletion.Directories.{IsRmtreeFailure, delete_directories_outside}
use mcu.Tests.Samples.{disk, willing, refusing}

abbrev h1_dir : FilePath
h1_dir = "c" ∷ "h1" ∷ []

abbrev ttir : FilePath
ttir = "c" ∷ "h1" ∷ "add.ttir" ∷ []

abbrev json : FilePath
json = "c" ∷ "h1" ∷ "add.json" ∷ []

paths : Disk → List FilePath
paths d = map (λ e. e.0) d

ir_test :
    paths (delete_ir_files_from_dirs willing (h1_dir ∷ []) ir_exts disk).disk
    ≡ ("c" ∷ []) ∷ h1_dir ∷ json ∷ ("c" ∷ "h2" ∷ []) ∷ ("c" ∷ "h2" ∷ "add.ttir" ∷ []) ∷ []
unfolding paths delete_ir_files_from_dirs iterdir unlink node_at suffix
ir_test = refl

-- The bytes of a file that the system refuses to remove count as freed.
refused_test : (delete_ir_files_from_dirs refusing (h1_dir ∷ []) ir_exts disk).freed ≡ 3
unfolding delete_ir_files_from_dirs iterdir node_at suffix
refused_test = refl

h1_dir-AreDirs : AreDirs willing ir_exts disk (h1_dir ∷ [])
unfolding node_at
h1_dir-AreDirs = (refl, tt)

delete_ir_files_lem_example :
    node_at ttir (delete_ir_files_from_dirs willing (h1_dir ∷ []) ir_exts disk).disk ≡ (
      if targeted willing ir_exts (h1_dir ∷ []) ttir
        && (is_file ttir disk && not (willing.denied ttir))
      then none
      else node_at ttir disk)
delete_ir_files_lem_example =
    delete_ir_files_lem willing ir_exts (h1_dir ∷ []) disk ttir h1_dir-AreDirs

abbrev stands_in : FilePath → Disk → Bool
stands_in p [] = false
stands_in p (e ∷ d) = p == e.0 || stands_in p d

abbrev all_unique : Disk → Bool
all_unique [] = true
all_unique (e ∷ d) = not (stands_in e.0 d) && all_unique d

not_in : (e : FilePath × Node) (d : Disk) → stands_in e.0 d ≡ false → All (λ b. e.0 ≢ b.0) d
not_in e [] h = tt
not_in e (b ∷ d) h = (λ p. ground (arith, ==_iff e.0 b.0), not_in e d (ground arith))

unique_lem : (d : Disk) → all_unique d ≡ true → UniquePaths d
unique_lem [] h = tt
unique_lem (e ∷ d) h = (not_in e d (ground arith), unique_lem d (ground arith))

unique : UniquePaths disk
unique = unique_lem disk refl

delete_ir_files_freed_example :
    disk_size (delete_ir_files_from_dirs willing (h1_dir ∷ []) ir_exts disk).disk
      + (delete_ir_files_from_dirs willing (h1_dir ∷ []) ir_exts disk).freed
    ≡ disk_size disk
delete_ir_files_freed_example =
    delete_ir_files_freed willing ir_exts (h1_dir ∷ []) disk (λ q. refl) unique

pub leaves_all : IsRmtreeFailure refusing
leaves_all = record { outside = λ p q d h. refl; adds_nothing = λ p q d h. h }

delete_directories_outside_example :
    node_at ("c" ∷ "h2" ∷ []) (delete_kernel_directories refusing (h1_dir ∷ []) disk).1
    ≡ node_at ("c" ∷ "h2" ∷ []) disk
unfolding below
delete_directories_outside_example =
    delete_directories_outside refusing leaves_all (h1_dir ∷ []) ("c" ∷ "h2" ∷ []) disk refl
