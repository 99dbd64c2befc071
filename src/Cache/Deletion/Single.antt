-- ===== src/Cache/Deletion/Single.antt =====
-- `delete_ir_files_from_dirs` (utils/utils.py) on one directory: the names that it reports.
use mcu.Base.{String, ◌≡◌, refl, ◌∙◌, Bool, true, false, not, ◌&&◌, ◌||◌, none}
use mcu.Base.{List, [], ◌∷◌, ◌++◌, arith, ◌==◌, ==_iff, ==_self, string_eq, list_eq}
use mcu.Base.{if◌then◌else◌, Bool-cases, inl, inr}
use mcu.Base.Text.{suffix}
use mcu.Models.{FilePath}
use mcu.Cache.Disk.{Disk, Os, node_at, iterdir, path_exists, is_dir, is_file, ◌//◌}
use mcu.Cache.Paths.{child-eq, child_name-child, listed, listed-iterdir}
use mcu.Cache.Deletion.{contains, Deleted, delete_ir_file, delete_ir_files_of_dir}
use mcu.Cache.Deletion.{delete_ir_files_from_dirs}
use mcu.Cache.Deletion.Laws.{has_suffix, at_child, step_lem, dir_lem}

pub contains-append :
    (xs ys : List String) (n : String) → contains (xs ++ ys) n ≡ (contains xs n || contains ys n)
contains-append [] ys n = refl
contains-append (x ∷ xs) ys n = ground (arith, contains-append xs ys n)

module _ (os : Os) (exts : List String) (k : FilePath) where
  -- The file `n` of the directory is deleted.
  abbrev pub deletes : String → Disk → Bool
  deletes n d = contains exts (suffix n) && (is_file (k // n) d && not (os.denied (k // n)))

  step_names :
      (m n : String) (s : Deleted)
      → contains (delete_ir_file os exts k m s).names n
        ≡ (contains s.names n || (m == n && deletes n s.disk))
  unfolding delete_ir_file
  step_names m n s = elim (Bool-cases (m == n)) [
    | inl y ↦
        rw (y, (==_iff m n).0 y) (ground (arith, contains-append s.names (n ∷ []) n, ==_self n))
    | inr o ↦ rw o (ground (arith, contains-append s.names (m ∷ []) n))
  ]

  step_deletes :
      (m n : String) (s : Deleted)
      → deletes n (delete_ir_file os exts k m s).disk
        ≡ (deletes n s.disk && not (m == n && deletes n s.disk))
  step_deletes m n s =
      ground (arith, step_lem os exts k m (k // n) s, child-eq k m n, at_child exts k n)

  names_names :
      (names : List String) (n : String) (s : Deleted)
      → contains (delete_ir_files_of_dir os exts k names s).names n
        ≡ (contains s.names n || (listed k names (k // n) && deletes n s.disk))
  unfolding delete_ir_files_of_dir listed
  names_names [] n s = ground arith
  names_names (m ∷ names) n s = ground (
    arith,
    names_names names n (delete_ir_file os exts k m s),
    step_names m n s,
    step_deletes m n s,
    child-eq k m n,
  )

  abbrev start : Disk → Deleted
  start d = record { raised = false; freed = 0; names = []; disk = d }

  abbrev pub single : Disk → Deleted
  single d = delete_ir_files_from_dirs os (k ∷ []) exts d

  -- A directory, or nothing, is listed without an exception.
  single-loop :
      (d : Disk)
      → is_file k d ≡ false
      → single d
        ≡ delete_ir_files_of_dir os exts k (if path_exists k d then iterdir k d else []) (start d)
  unfolding delete_ir_files_from_dirs
  single-loop d h = ground arith

  of_dir-raised :
      (names : List String) (s : Deleted)
      → (delete_ir_files_of_dir os exts k names s).raised ≡ s.raised
  unfolding delete_ir_files_of_dir
  of_dir-raised [] s = refl
  of_dir-raised (n ∷ names) s = of_dir-raised names (delete_ir_file os exts k n s) ∙ ground arith

  pub single-raised : (d : Disk) → is_file k d ≡ false → (single d).raised ≡ false
  single-raised d h = rw (single-loop d h) (of_dir-raised _ (start d))

  pub single-disk :
      (q : FilePath) (d : Disk)
      → is_file k d ≡ false
      → node_at q (single d).disk ≡ (
          if is_dir k d && (has_suffix exts k q && (is_file q d && not (os.denied q)))
          then none
          else node_at q d)
  unfolding delete_ir_files_of_dir
  single-disk q d h = elim (Bool-cases (is_dir k d)) [
    | inl y ↦ rw (single-loop d h, y) (dir_lem os exts k q (start d) y)
    | inr o ↦ rw (single-loop d h) (ground arith)
  ]

  listed_if_there :
      (n : String) (d : Disk) → is_file (k // n) d ≡ true → listed k (iterdir k d) (k // n) ≡ true
  listed_if_there n d h = listed-iterdir k (k // n) n d (child_name-child k n) (λ p. ground arith)

  pub single-names :
      (n : String) (d : Disk)
      → is_file k d ≡ false
      → contains (single d).names n ≡ (is_dir k d && deletes n d)
  unfolding delete_ir_files_of_dir
  single-names n d h = elim (Bool-cases (is_dir k d)) [
    | inl y ↦
        rw (single-loop d h, y)
          (elim (Bool-cases (is_file (k // n) d)) [
            | inl f ↦ ground (arith, names_names (iterdir k d) n (start d), listed_if_there n d f)
            | inr f ↦ ground (arith, names_names (iterdir k d) n (start d))
          ])
    | inr o ↦ rw (single-loop d h) (ground arith)
  ]

  -- What is no directory is not listed: the listing raises before anything is removed.
  pub single-refused :
      (d : Disk)
      → is_file k d ≡ true
      → single d ≡ record { raised = true; freed = 0; names = []; disk = d }
  unfolding delete_ir_files_from_dirs
  single-refused d h = ground arith
