-- ===== src/Cache/Deletion/Laws.antt =====
-- What `delete_ir_files_from_dirs` (utils/utils.py) removes from the disk, and what it leaves.
use mcu.Base.{
  ◌+◌, String, ◌≡◌, refl, ◌∙◌, ◌≢◌, Bool, true, false, not, ◌&&◌, ◌||◌, Option, none, some,
}
use mcu.Base.{List, [], ◌∷◌, arith, All, Ordered-keep}
use mcu.Base.{
  ◌==◌, ==_iff, ==_self, string_eq, list_eq, if◌then◌else◌, Bool-cases, Option-cases, inl, inr, ◌⊎◌,
}
use mcu.Base.Text.{suffix}
use mcu.Models.{FilePath}
use mcu.Cache.Disk.{Node, Disk, Os, node_at, child_name, iterdir, path_exists, is_dir}
use mcu.Cache.Disk.{is_file, unlink, ◌//◌}
use mcu.Cache.Paths.{node_at-unlink, child_name-child, listed}
use mcu.Cache.Paths.{listed-iterdir, UniquePaths, disk_size, disk_size-unlink}
use mcu.Cache.Deletion.{contains, Deleted, delete_ir_file, delete_ir_files_of_dir}
use mcu.Cache.Deletion.{delete_ir_files_loop, delete_ir_files_from_dirs}

-- `q` is a direct child of `k` with one of the suffixes.
unfoldable pub has_suffix : List String → FilePath → FilePath → Bool
has_suffix exts k q = elim (child_name k q) [ none ↦ false | some n ↦ contains exts (suffix n) ]

pub at_child :
    (exts : List String) (k : FilePath) (n : String)
    → has_suffix exts k (k // n) ≡ contains exts (suffix n)
unfolding has_suffix
at_child exts k n = rw (child_name-child k n, has_suffix)

module _ (os : Os) (exts : List String) where
  -- What stands at `q` is a file that the system lets go.
  abbrev removable : FilePath → Disk → Bool
  removable q d = is_file q d && not (os.denied q)

  abbrev gone_if : Bool → Option Node → Option Node
  gone_if b o = if b then none else o

  module _ (k : FilePath) where
    pub step_lem :
        (n : String) (q : FilePath) (s : Deleted)
        → node_at q (delete_ir_file os exts k n s).disk
          ≡ gone_if
              ((k // n) == q && (has_suffix exts k q && removable q s.disk))
              (node_at q s.disk)
    unfolding delete_ir_file
    step_lem n q s = elim (Bool-cases ((k // n) == q)) [
      | inl y ↦
          let e : k // n ≡ q = (==_iff (k // n) q).0 y in
          rw (y, ← e)
            (ground
              (arith, at_child exts k n, node_at-unlink (k // n) (k // n) s.disk, ==_self (k // n)))
      | inr o ↦
          rw o
            (ground (arith, node_at-unlink (k // n) q s.disk, ==_iff q (k // n), ==_iff (k // n) q))
    ]

    abbrev hit : FilePath → Disk → Bool
    hit q d = has_suffix exts k q && removable q d

    names_lem :
        (names : List String) (q : FilePath) (s : Deleted)
        → node_at q (delete_ir_files_of_dir os exts k names s).disk
          ≡ gone_if (listed k names q && hit q s.disk) (node_at q s.disk)
    unfolding delete_ir_files_of_dir listed
    names_lem [] q s = refl
    names_lem (n ∷ names) q s =
        ground (arith, names_lem names q (delete_ir_file os exts k n s), step_lem n q s)

    -- One directory: its files with one of the suffixes are gone, unless the system refuses.
    pub dir_lem :
        (q : FilePath) (s : Deleted)
        → is_dir k s.disk ≡ true
        → node_at q
            (delete_ir_files_of_dir os exts k
              (if path_exists k s.disk then iterdir k s.disk else [])
              s).disk
          ≡ gone_if (hit q s.disk) (node_at q s.disk)
    dir_lem q s h = elim (Option-cases (child_name k q)) [
      | inl z ↦ ground (arith, names_lem (iterdir k s.disk) q s, no_suffix z)
      | inr (n, z) ↦ ground (arith, names_lem (iterdir k s.disk) q s, listed_if_there n z)
    ]
      where
        no_suffix : child_name k q ≡ none → has_suffix exts k q ≡ false
        no_suffix z = unfold has_suffix in rw (z, has_suffix)

        listed_if_there :
            (n : String)
            → child_name k q ≡ some n
            → (node_at q s.disk ≡ none) ⊎ (listed k (iterdir k s.disk) q ≡ true)
        listed_if_there n z = elim (Option-cases (node_at q s.disk)) [
          | inl e ↦ inl e
          | inr (x, e) ↦ inr (listed-iterdir k q n s.disk z (λ p. cc (p, e)))
        ]

  -- Whether one of the directories has `q` as a child with one of the suffixes.
  abbrev pub targeted : List FilePath → FilePath → Bool
  targeted [] q = false
  targeted (k ∷ dirs) q = has_suffix exts k q || targeted dirs q

  abbrev pub AreDirs : Disk → List FilePath → Type 0
  AreDirs d = All (λ k. is_dir k d ≡ true)

  dirs_stay :
      (k : FilePath) (s : Deleted) (dirs : List FilePath)
      → is_dir k s.disk ≡ true
      → AreDirs s.disk dirs
      → AreDirs
          (delete_ir_files_of_dir os exts k
            (if path_exists k s.disk then iterdir k s.disk else [])
            s).disk
          dirs
  dirs_stay k s [] h a = tt
  dirs_stay k s (j ∷ dirs) h (aj, a) = (ground (arith, dir_lem k j s h), dirs_stay k s dirs h a)

  loop_lem :
      (dirs : List FilePath) (q : FilePath) (s : Deleted)
      → AreDirs s.disk dirs
      → node_at q (delete_ir_files_loop os exts dirs s).disk
        ≡ gone_if (targeted dirs q && removable q s.disk) (node_at q s.disk)
  unfolding delete_ir_files_loop
  loop_lem [] q s a = refl
  loop_lem (k ∷ dirs) q s (ak, a) =
      let s' : Deleted =
        delete_ir_files_of_dir os exts k (if path_exists k s.disk then iterdir k s.disk else [])
          s in
      rw (ak, delete_ir_files_loop)
        (rw (loop_lem dirs q s' (dirs_stay k s dirs ak a), dir_lem k q s ak) (ground arith))

  abbrev AllowsAll : Type 0
  AllowsAll = (q : FilePath) → os.denied q ≡ false

  abbrev Balanced : Deleted → Deleted → Type 0
  Balanced s t = (disk_size t.disk + t.freed ≡ disk_size s.disk + s.freed) × UniquePaths t.disk

  step-Balanced :
      AllowsAll
      → (k : FilePath) (n : String) (s : Deleted) → UniquePaths s.disk
      → Balanced s (delete_ir_file os exts k n s)
  unfolding delete_ir_file unlink
  step-Balanced allows k n s u = (
    ground (arith, allows (k // n), disk_size-unlink (k // n) s.disk u),
    elim (Bool-cases (contains exts (suffix n) && is_file (k // n) s.disk)) [
      | inl y ↦
          rw (y, allows (k // n))
            (Ordered-keep (λ a b. a.0 ≢ b.0) (λ e. not (e.0 == (k // n))) s.disk u)
      | inr o ↦ rw o u
    ],
  )

  names-Balanced :
      AllowsAll
      → (k : FilePath) (names : List String) (s : Deleted) → UniquePaths s.disk
      → Balanced s (delete_ir_files_of_dir os exts k names s)
  unfolding delete_ir_files_of_dir
  names-Balanced allows k [] s u = (refl, u)
  names-Balanced allows k (n ∷ names) s u =
      let (e, u') = step-Balanced allows k n s u in
      let (e', u'') = names-Balanced allows k names (delete_ir_file os exts k n s) u' in
      (e' ∙ e, u'')

  loop-Balanced :
      AllowsAll
      → (dirs : List FilePath) (s : Deleted) → UniquePaths s.disk
      → Balanced s (delete_ir_files_loop os exts dirs s)
  unfolding delete_ir_files_loop
  loop-Balanced allows [] s u = (refl, u)
  loop-Balanced allows (k ∷ dirs) s u =
      let (e, u') =
        names-Balanced allows k (if path_exists k s.disk then iterdir k s.disk else []) s u in
      let s' : Deleted =
        delete_ir_files_of_dir os exts k (if path_exists k s.disk then iterdir k s.disk else [])
          s in
      let (e', u'') = loop-Balanced allows dirs s' u' in
      elim (Bool-cases (not (is_dir k s.disk) && path_exists k s.disk)) [
        | inl y ↦ rw (delete_ir_files_loop, y) (refl, u)
        | inr n ↦ rw (delete_ir_files_loop, n) (e' ∙ e, u'')
      ]

  -- A partial prune of directories that are there removes exactly the files directly in one of them
  -- that have one of the suffixes and that the system lets go; every other path is as before.
  pub delete_ir_files_lem :
      (dirs : List FilePath) (d : Disk) (q : FilePath)
      → AreDirs d dirs
      → node_at q (delete_ir_files_from_dirs os dirs exts d).disk
        ≡ (if targeted dirs q && (is_file q d && not (os.denied q)) then none else node_at q d)
  unfolding delete_ir_files_from_dirs
  delete_ir_files_lem dirs d q a =
      loop_lem dirs q (record { raised = false; freed = 0; names = []; disk = d }) a

  -- Where the system refuses nothing, the bytes counted as freed are the bytes that the disk loses.
  pub delete_ir_files_freed :
      (dirs : List FilePath) (d : Disk)
      → ((q : FilePath) → os.denied q ≡ false)
      → UniquePaths d
      → let r = delete_ir_files_from_dirs os dirs exts d in disk_size r.disk + r.freed ≡ disk_size d
  unfolding delete_ir_files_from_dirs
  delete_ir_files_freed dirs d allows u = omega (
    arith,
    (loop-Balanced allows dirs (record { raised = false; freed = 0; names = []; disk = d }) u).0,
  )
