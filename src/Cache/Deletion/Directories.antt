-- ===== src/Cache/Deletion/Directories.antt =====
-- What `delete_kernel_directories` (utils/utils.py) removes from the disk, and what it leaves.
use mcu.Base.{ℕ, ◌≡◌, refl, ◌∙◌, Bool, true, false, ◌||◌, none}
use mcu.Base.{List, [], ◌∷◌, arith}
use mcu.Base.{◌==◌, string_eq, list_eq, if◌then◌else◌}
use mcu.Models.{FilePath}
use mcu.Cache.Disk.{Disk, Os, node_at, below, is_dir}
use mcu.Cache.Paths.{node_at-rmtree}
use mcu.Cache.Deletion.{delete_kernel_directory}
use mcu.Cache.Deletion.{delete_directories_loop, delete_kernel_directories}

-- `rmtree` fails half-way: it touches nothing outside its tree and adds nothing.
pub record IsRmtreeFailure (os : Os) : Type 0 where
  pub outside :
      (p q : FilePath) (d : Disk)
      → (q == p || below p q) ≡ false
      → node_at q (os.leftover p d) ≡ node_at q d
  pub adds_nothing :
      (p q : FilePath) (d : Disk) → node_at q d ≡ none → node_at q (os.leftover p d) ≡ none

-- `q` is one of the directories, or stands below one.
abbrev pub inside : List FilePath → FilePath → Bool
inside [] q = false
inside (k ∷ dirs) q = (q == k || below k q) || inside dirs q

module _ (os : Os) where
  abbrev after : FilePath → ℕ × Disk → Disk
  after k s = (delete_kernel_directory os k s).1

  outside_step :
      IsRmtreeFailure os
      → (k q : FilePath) (s : ℕ × Disk) → (q == k || below k q) ≡ false
      → node_at q (after k s) ≡ node_at q s.1
  unfolding delete_kernel_directory
  outside_step f k q (n, d) h = ground (arith, node_at-rmtree k q d, f.outside k q d h)

  gone_step :
      IsRmtreeFailure os
      → (k q : FilePath) (s : ℕ × Disk) → node_at q s.1 ≡ none
      → node_at q (after k s) ≡ none
  unfolding delete_kernel_directory
  gone_step f k q (n, d) h = ground (arith, node_at-rmtree k q d, f.adds_nothing k q d h)

  gone_loop :
      IsRmtreeFailure os
      → (dirs : List FilePath) (q : FilePath) (s : ℕ × Disk) → node_at q s.1 ≡ none
      → node_at q (delete_directories_loop os dirs s).1 ≡ none
  unfolding delete_directories_loop
  gone_loop f [] q s h = h
  gone_loop f (k ∷ dirs) q s h = gone_loop f dirs q _ (gone_step f k q s h)

  -- A path outside all the directories is as before, whatever fails.
  pub delete_directories_outside :
      IsRmtreeFailure os
      → (dirs : List FilePath) (q : FilePath) (d : Disk) → inside dirs q ≡ false
      → node_at q (delete_kernel_directories os dirs d).1 ≡ node_at q d
  unfolding delete_kernel_directories
  delete_directories_outside f dirs q d = loop dirs (0, d)
    where
      loop :
          (dirs : List FilePath) (s : ℕ × Disk)
          → inside dirs q ≡ false
          → node_at q (delete_directories_loop os dirs s).1 ≡ node_at q s.1
      loop [] s h = refl
      loop (k ∷ dirs) s h =
          loop dirs (delete_kernel_directory os k s) (ground arith)
          ∙ outside_step f k q s (ground arith)

  -- A single directory that is there and that the system lets go is gone with all below it, and
  -- every other path is as before.
  pub delete_directory_lem :
      (k q : FilePath) (d : Disk)
      → is_dir k d ≡ true
      → os.denied k ≡ false
      → node_at q (delete_kernel_directories os (k ∷ []) d).1
        ≡ (if q == k || below k q then none else node_at q d)
  unfolding delete_kernel_directories
  delete_directory_lem k q d h a = ground (arith, node_at-rmtree k q d)
