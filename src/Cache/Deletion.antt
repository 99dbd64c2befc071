-- ===== src/Cache/Deletion.antt =====
-- `delete_ir_files_from_dirs` and `delete_kernel_directories` (utils/utils.py).
pub mod Laws
pub mod Directories
pub mod Single
use mcu.Base.{ℕ, ◌+◌, String, Bool, true, false, not, ◌&&◌, ◌||◌, List, [], ◌∷◌, ◌++◌}
use mcu.Base.{◌==◌, string_eq, if◌then◌else◌}
use mcu.Base.Text.{suffix}
use mcu.Models.{FilePath}
use mcu.Cache.Disk.{Disk, Os, path_exists, is_dir, is_file, file_size, iterdir, ◌//◌, tree_size}
use mcu.Cache.Disk.{unlink, rmtree}

-- `IR_EXTS`
abbrev pub ir_exts : List String
ir_exts = ".ttir" ∷ ".ttgir" ∷ ".llir" ∷ []

abbrev pub contains : List String → String → Bool
contains [] s = false
contains (x ∷ xs) s = x == s || contains xs s

-- The bytes that the code counts as freed, the names of the deleted files, the disk, and whether a
-- listing raised: `iterdir` of what is no directory does, outside of the `try`.
pub record Deleted : Type 0 where
  pub raised : Bool
  pub freed : ℕ
  pub names : List String
  pub disk : Disk

-- One file of the listing: its size is added before `unlink`, which may raise.
pub delete_ir_file : Os → List String → FilePath → String → Deleted → Deleted
delete_ir_file os exts k_dir n s =
    let p = k_dir // n in
    if contains exts (suffix n) && is_file p s.disk
    then (let freed = s.freed + file_size p s.disk in
        if os.denied p
        then record s { freed = freed }
        else record s { freed = freed; names = s.names ++ (n ∷ []); disk = unlink p s.disk })
    else s

pub delete_ir_files_of_dir : Os → List String → FilePath → List String → Deleted → Deleted
unfolding delete_ir_file
delete_ir_files_of_dir os exts k_dir [] s = s
delete_ir_files_of_dir os exts k_dir (n ∷ names) s =
    delete_ir_files_of_dir os exts k_dir names (delete_ir_file os exts k_dir n s)

pub delete_ir_files_loop : Os → List String → List FilePath → Deleted → Deleted
unfolding delete_ir_files_of_dir
delete_ir_files_loop os exts [] s = s
delete_ir_files_loop os exts (k_dir ∷ dirs) s =
    let rest = delete_ir_files_loop os exts dirs (
      delete_ir_files_of_dir os exts k_dir
        (if path_exists k_dir s.disk then iterdir k_dir s.disk else []) s) in
    if not (is_dir k_dir s.disk) && path_exists k_dir s.disk
    then record s { raised = true }
    else rest

unfoldable pub delete_ir_files_from_dirs : Os → List FilePath → List String → Disk → Deleted
unfolding delete_ir_files_loop
delete_ir_files_from_dirs os dirs exts d =
    delete_ir_files_loop os exts dirs (record { raised = false; freed = 0; names = []; disk = d })

-- One directory: `rmtree` raises where the system refuses, and on what is no directory.
delete_kernel_directory : Os → FilePath → ℕ × Disk → ℕ × Disk
delete_kernel_directory os k_dir (freed, d) =
    if path_exists k_dir d
    then (let freed' = freed + tree_size k_dir d in
        if not (is_dir k_dir d)
        then (freed', d)
        else if os.denied k_dir
        then (freed', os.leftover k_dir d)
        else (freed', rmtree k_dir d))
    else (freed, d)

delete_directories_loop : Os → List FilePath → ℕ × Disk → ℕ × Disk
unfolding delete_kernel_directory
delete_directories_loop os [] s = s
delete_directories_loop os (k_dir ∷ dirs) s =
    delete_directories_loop os dirs (delete_kernel_directory os k_dir s)

unfoldable pub delete_kernel_directories : Os → List FilePath → Disk → ℕ × Disk
unfolding delete_directories_loop
delete_kernel_directories os dirs d = delete_directories_loop os dirs (0, d)
