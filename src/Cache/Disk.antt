-- ===== src/Cache/Disk.antt =====
-- What the program uses of `pathlib` and `shutil`: a disk is the list of its paths, each with what
-- stands there. `iterdir` lists in the order of that list, which is arbitrary. `denied` are the
-- paths that the operating system refuses to remove, and `leftover` is what is left of the disk
-- after `rmtree` has failed half-way.
use mcu.Base.{
  ℕ, String, Bool, true, false, not, ◌&&◌, Option, none, some, List, [], ◌∷◌, ◌++◌, keep,
}
use mcu.Base.{sum_of, ◌==◌, string_eq, list_eq, if◌then◌else◌}
use mcu.Base.Dict
use mcu.Base.Dict.{Dict}
use mcu.Models.{FilePath}

pub data Node : Type 0 where
  file : ℕ → Node
  dir : Node

abbrev pub Disk : Type 0
Disk = Dict FilePath Node

pub record Os : Type 0 where
  pub denied : FilePath → Bool
  pub leftover : FilePath → Disk → Disk

unfoldable pub node_at : FilePath → Disk → Option Node
unfolding Dict.get
node_at p d = Dict.get p d

abbrev pub is_there : Option Node → Bool
is_there none = false
is_there (some n) = true

abbrev pub is_dir_node : Option Node → Bool
is_dir_node (some dir) = true
is_dir_node _ = false

abbrev pub is_file_node : Option Node → Bool
is_file_node (some (file n)) = true
is_file_node _ = false

abbrev pub node_size : Option Node → ℕ
node_size (some (file n)) = n
node_size _ = 0

-- `path.exists()`, `path.is_dir()`, `path.is_file()`, `path.stat().st_size`
abbrev pub path_exists : FilePath → Disk → Bool
path_exists p d = is_there (node_at p d)

abbrev pub is_dir : FilePath → Disk → Bool
is_dir p d = is_dir_node (node_at p d)

abbrev pub is_file : FilePath → Disk → Bool
is_file p d = is_file_node (node_at p d)

abbrev pub file_size : FilePath → Disk → ℕ
file_size p d = node_size (node_at p d)

-- `p / name`
infixl 60 ◌//◌
abbrev pub ◌//◌ : FilePath → String → FilePath
p // name = p ++ (name ∷ [])

-- The name of `q`, if its parent is `p`.
unfoldable pub child_name : FilePath → FilePath → Option String
child_name [] [] = none
child_name [] (n ∷ []) = some n
child_name [] (n ∷ m ∷ q) = none
child_name (x ∷ p) [] = none
child_name (x ∷ p) (y ∷ q) = if x == y then child_name p q else none

-- Whether `q` stands below `p`, at any depth.
unfoldable pub below : FilePath → FilePath → Bool
below [] [] = false
below [] (n ∷ q) = true
below (x ∷ p) [] = false
below (x ∷ p) (y ∷ q) = x == y && below p q

-- `p.iterdir()`, by the names
unfoldable pub iterdir : FilePath → Disk → List String
unfolding child_name
iterdir p [] = []
iterdir p ((q, n) ∷ d) =
    let rest = iterdir p d in elim (child_name p q) [ none ↦ rest | some name ↦ name ∷ rest ]

abbrev pub entry_size : FilePath × Node → ℕ
entry_size (p, file n) = n
entry_size (p, dir) = 0

-- `sum(p.stat().st_size for p in k_dir.rglob("*") if p.is_file())`
unfoldable pub tree_size : FilePath → Disk → ℕ
unfolding below
tree_size p d = sum_of entry_size (keep (λ e. below p e.0) d)

-- `path.unlink()` of a file that is there and not denied
unfoldable pub unlink : FilePath → Disk → Disk
unlink p d = keep (λ e. not (e.0 == p)) d

-- `shutil.rmtree(p)` of a directory that is there and not denied
unfoldable pub rmtree : FilePath → Disk → Disk
unfolding below
rmtree p d = keep (λ e. not (e.0 == p) && not (below p e.0)) d
