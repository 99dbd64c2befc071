-- ===== src/Cache/Paths.antt =====
-- What removing paths does to a disk, path by path and in bytes.
use mcu.Base.{
  ℕ, ◌+◌, String, ◌≡◌, refl, sym, ◌∙◌, ap, ◌≢◌, Bool, true, false, not, ◌&&◌, ◌||◌, none, some,
}
use mcu.Base.{List, [], ◌∷◌, keep, arith, sum_of, Ordered, All}
use mcu.Base.{
  ◌==◌, ==_iff, ==_self, string_eq, list_eq, if◌then◌else◌, Bool-cases, Option-cases, inl, inr,
}
use mcu.Base.Dict
use mcu.Models.{FilePath}
use mcu.Cache.Disk.{file, dir, Disk, node_at, child_name, below, iterdir, entry_size}
use mathlib.Core.Bool.{false≢true}
use mcu.Cache.Disk.{is_dir, is_dir_node}
use mcu.Cache.Disk.{unlink, rmtree, ◌//◌, file_size}

pub node_at-keep :
    (keeps : FilePath → Bool) (q : FilePath) (d : Disk)
    → node_at q (keep (λ e. keeps e.0) d) ≡ (if keeps q then node_at q d else none)
unfolding node_at Dict.get
node_at-keep keeps q [] = ground arith
node_at-keep keeps q ((p, n) ∷ d) = elim (Bool-cases (p == q)) [
  | inl y ↦
      let e : p ≡ q = (==_iff p q).0 y in rw e (ground (arith, ==_self q, node_at-keep keeps q d))
  | inr n' ↦ ground (arith, node_at-keep keeps q d)
]

-- Unlinking removes its path alone.
pub node_at-unlink :
    (p q : FilePath) (d : Disk) → node_at q (unlink p d) ≡ (if q == p then none else node_at q d)
unfolding unlink
node_at-unlink p q d = ground (arith, node_at-keep (λ r. not (r == p)) q d)

-- Removing a tree removes its root and what is below it.
pub node_at-rmtree :
    (p q : FilePath) (d : Disk)
    → node_at q (rmtree p d) ≡ (if q == p || below p q then none else node_at q d)
unfolding rmtree
node_at-rmtree p q d = ground (arith, node_at-keep (λ r. not (r == p) && not (below p r)) q d)

pub child_name-child : (p : FilePath) (n : String) → child_name p (p // n) ≡ some n
unfolding child_name
child_name-child [] n = refl
child_name-child (x ∷ p) n = ground (arith, ==_self x, child_name-child p n)

pub child_name-some : (p q : FilePath) (n : String) → child_name p q ≡ some n → q ≡ p // n
unfolding child_name
child_name-some [] [] n h = cc
child_name-some [] (m ∷ []) n h = cc
child_name-some [] (m ∷ k ∷ q) n h = cc
child_name-some (x ∷ p) [] n h = cc
child_name-some (x ∷ p) (y ∷ q) n h = elim (Bool-cases (x == y)) [
  | inl e ↦ cc ((==_iff x y).0 e, child_name-some p q n (rw (e, child_name) at h))
  | inr e ↦ absurd (cc (rw (e, child_name) at h))
]

pub child-eq : (k : FilePath) (m n : String) → ((k // m) == (k // n)) ≡ (m == n)
child-eq [] m n = ground arith
child-eq (x ∷ k) m n = ground (arith, ==_self x, child-eq k m n)

-- What stands in one child of `c` stands in no other.
pub child_name-grandchild :
    (c : FilePath) (a b n : String)
    → child_name (c // a) ((c // b) // n) ≡ (if a == b then some n else none)
unfolding child_name
child_name-grandchild [] a b n = ground arith
child_name-grandchild (x ∷ c) a b n = ground (arith, ==_self x, child_name-grandchild c a b n)

-- Two children of one directory are not one in the other.
pub child_name-sibling : (c : FilePath) (a b : String) → child_name (c // a) (c // b) ≡ none
unfolding child_name
child_name-sibling [] a b = ground arith
child_name-sibling (x ∷ c) a b = ground (arith, ==_self x, child_name-sibling c a b)

-- Whether a path is one of the names under `p`.
unfoldable pub listed : FilePath → List String → FilePath → Bool
listed p [] q = false
listed p (n ∷ names) q = (p // n) == q || listed p names q

-- A listing has every child that is there.
pub listed-iterdir :
    (p q : FilePath) (n : String) (d : Disk)
    → child_name p q ≡ some n
    → node_at q d ≢ none
    → listed p (iterdir p d) q ≡ true
unfolding listed iterdir node_at Dict.get
listed-iterdir p q n [] h there = absurd (there refl)
listed-iterdir p q n ((r, node) ∷ d) h there = elim (Bool-cases (r == q)) [
  | inl y ↦
      let e : r ≡ q = (==_iff r q).0 y in
      let z : child_name p r ≡ some n = ap (child_name p) e ∙ h in
      rw (z, iterdir) (ground (arith, child_name-some p q n h, ==_iff (p // n) q))
  | inr o ↦ elim (Option-cases (child_name p r)) [
    | inl z ↦ rw (z, iterdir) (listed-iterdir p q n d h (rw (o, node_at, Dict.get) at there))
    | inr (m, z) ↦
        rw (z, iterdir)
          (ground (arith, listed-iterdir p q n d h (rw (o, node_at, Dict.get) at there)))
  ]
]

abbrev pub UniquePaths : Disk → Type 0
UniquePaths = Ordered (λ a b. a.0 ≢ b.0)

abbrev pub disk_size : Disk → ℕ
disk_size = sum_of entry_size

keep-absent : (p : FilePath) (d : Disk) → All (λ e. p ≢ e.0) d → keep (λ e. not (e.0 == p)) d ≡ d
keep-absent p [] h = refl
keep-absent p ((q, n) ∷ d) (hq, h) = ground (arith, keep-absent p d h, ==_iff q p)

-- The bytes of an unlinked file are the bytes that the disk loses.
pub disk_size-unlink :
    (p : FilePath) (d : Disk) → UniquePaths d → disk_size (unlink p d) + file_size p d ≡ disk_size d
unfolding unlink node_at Dict.get
disk_size-unlink p [] u = refl
disk_size-unlink p ((q, file n) ∷ d) (hq, u) = elim (Bool-cases (q == p)) [
  | inl y ↦ let e : q ≡ p = (==_iff q p).0 y in ground (arith, keep-absent p d (rw e at hq))
  | inr o ↦ ground (arith, disk_size-unlink p d u)
]
disk_size-unlink p ((q, dir) ∷ d) (hq, u) = elim (Bool-cases (q == p)) [
  | inl y ↦ let e : q ≡ p = (==_iff q p).0 y in ground (arith, keep-absent p d (rw e at hq))
  | inr o ↦ ground (arith, disk_size-unlink p d u)
]

pub dir_is_there : (q : FilePath) (d : Disk) → is_dir q d ≡ true → node_at q d ≢ none
dir_is_there q d h e = false≢true (ap is_dir_node (sym e) ∙ h)
