-- ===== src/Services/Warm/Archive.antt =====
-- The archive of a warm-up (services/warm.py) has another name than the output file.
use mcu.Base.{ℕ, ◌+◌, ◌<◌, ◌≡◌, refl, ap, ◌∙◌, true, false, String, ◌<>◌}
use mcu.Base.{Result, ok, err, some, arith, List, [], ◌∷◌}
use mcu.Base.{length, length-append, ◌==◌, ==_iff, string_eq, list_eq, inl, inr}
use mcu.Base.{if◌then◌else◌}
use mcu.Base.Dict.{put, get-put}
use mcu.Base.Text.{stem}
use mcu.Base.Text.Stem.{stem-ne}
use mcu.Models.{FilePath}
use mcu.Cache.Paths.{child-eq}
use mathlib.Core.Bool.{false≢true}
use mcu.Base.{◌≢◌, is_ok, Result-cases}
use mcu.Cache.Disk.{Node, Disk, file, dir, node_at, path_exists, ◌//◌}
use mcu.Services.Warm.{WarmEnv, WarmupService, NamedPath, path_of}
use mcu.Services.Warm.{mkdir, mkdir_parents, make_archive, package_cache, package_and_stat}
use mcu.Services.Warm.{archive_path}

-- The size of the archive, where it was written.
abbrev size_or_zero : Result ℕ → ℕ
size_or_zero (ok n) = n
size_or_zero (err e) = 0

node_at-put :
    (p q : FilePath) (n : Node) (d : Disk)
    → node_at q (put p n d) ≡ (if p == q then some n else node_at q d)
unfolding node_at
node_at-put p q n d = get-put p q n d

-- A path that is longer than all that is made is as it was.
mkdir-longer :
    (env : WarmEnv) (p q : FilePath) (d : Disk)
    → length p < length q
    → node_at q (mkdir env p d).1 ≡ node_at q d
unfolding mkdir
mkdir-longer env p q d h =
    ground (arith, node_at-put p q dir d, ==_iff p q, λ (e : p ≡ q). ap length e)

mkdir_parents-longer :
    (env : WarmEnv) (p : FilePath) (names : List String) (q : FilePath) (d : Disk)
    → length p + length names < length q
    → node_at q (mkdir_parents env p names d).1 ≡ node_at q d
unfolding mkdir_parents
mkdir_parents-longer env p [] q d h = refl
mkdir_parents-longer env p (n ∷ names) q d h = elim (Result-cases (mkdir env (p // n) d).0) [
  | inl (e, x) ↦ rw (x, mkdir_parents) (mkdir-longer env (p // n) q d shorter)
  | inr (u, x) ↦
      rw (x, mkdir_parents)
        (mkdir_parents-longer env (p // n) names q (mkdir env (p // n) d).1
            (omega (arith, length-append p (n ∷ [])))
          ∙ mkdir-longer env (p // n) q d shorter)
]
  where
    shorter : length (p // n) < length q
    shorter = omega (arith, length-append p (n ∷ []))

-- The archive is not at the output path.
archive-ne : (output : NamedPath) → (archive_path output == path_of output) ≡ false
archive-ne output =
    child-eq output.parent (stem output.name <> ".tar.gz") output.name
    ∙ ground (arith, ==_iff (stem output.name <> ".tar.gz") output.name, stem-ne output.name)

make_archive-output :
    (env : WarmEnv) (s : WarmupService) (output : NamedPath) (d : Disk)
    → is_ok (make_archive env s output d).0 ≡ true
    → node_at (path_of output) (make_archive env s output d).1 ≡ node_at (path_of output) d
unfolding make_archive
make_archive-output env s output d h = ground (
  arith,
  archive-ne output,
  node_at-put (archive_path output) (path_of output)
      (file (size_or_zero (env.archive (output.parent // stem output.name) s.host_cache_dir d))) d,
)

package_cache-output :
    (env : WarmEnv) (s : WarmupService) (output : NamedPath) (d : Disk)
    → is_ok (package_cache env s output d).0 ≡ true
    → node_at (path_of output) (package_cache env s output d).1 ≡ node_at (path_of output) d
unfolding package_cache
package_cache-output env s output d h =
    elim (Result-cases (mkdir_parents env [] output.parent d).0) [
      | inl (e, x) ↦ absurd (false≢true (rw (x, package_cache) at h))
      | inr (u, x) ↦
          rw (x, package_cache)
            (make_archive-output env s output (mkdir_parents env [] output.parent d).1
                (rw (x, package_cache) at h)
              ∙ mkdir_parents-longer env [] output.parent (path_of output) d
                  (omega (arith, length-append output.parent (output.name ∷ []))))
    ]

-- `stat` finds the output file only if something stood there before the packing.
pub package_and_stat-ok :
    (env : WarmEnv) (s : WarmupService) (output : NamedPath) (d : Disk)
    → path_exists (path_of output) d ≡ false
    → (package_and_stat env s output d).0 ≢ ok true
unfolding package_and_stat
package_and_stat-ok env s output d absent p = elim (Result-cases (package_cache env s output d).0) [
  | inl (e, x) ↦ ground arith
  | inr (u, x) ↦ ground (arith, package_cache-output env s output d (ap is_ok x))
]
