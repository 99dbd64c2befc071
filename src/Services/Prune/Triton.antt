-- ===== src/Services/Prune/Triton.antt =====
-- A full prune in Triton mode (services/prune.py): what is left in the tables and on the disk.
use mcu.Base.{ℕ, ◌+◌, ◌≡◌, refl, sym, ap, true, false}
use mcu.Base.{some, List, [], ◌∷◌, map, length, ok}
use mathlib.Core.Path.{subst}
use mcu.Base.{length-map, string_eq}
use mcu.Models.{FilePath, SearchCriteria}
use mcu.Data.Rows.{Row, Tables, KernelKey, kernel_key_eq}
use mcu.Cache.Disk.{Disk, ◌//◌}
use mcu.Cache.Deletion.{delete_kernel_directories}
use mcu.Cache.Identifier.{KernelIdentifier}
use mcu.Services.Session.{any_eq}
use mcu.Services.Strategy.{triton_strategy, path_str}
use mcu.Services.Prune.{Env, World, Outcome, begin, prune, prune_loop, prune_found}
use mcu.Services.Prune.{identifiers_of_rows, finish}
use mcu.Services.Prune.Marks.{
  TritonGet, triton_identifier, key, keys, after, delete_full, delete_full-world, Marked,
  after-Marked, Marked-trans, Marked-refl, nothing-IsPruned, IsPruned, commit-IsPruned,
}

module _ (cache_dir : FilePath) (env : Env KernelKey) (g : TritonGet env) where
  pub identifiers_of_triton_rows :
      (rows : List (Row KernelKey))
      → identifiers_of_rows triton_strategy cache_dir rows ≡ ok (map triton_identifier rows)
  unfolding identifiers_of_rows triton_strategy
  identifiers_of_triton_rows [] = refl
  identifiers_of_triton_rows (r ∷ rows) = rw (identifiers_of_triton_rows rows)

  loop_full :
      (is : List KernelIdentifier) (freed : ℕ) (w : World KernelKey)
      → (n : ℕ) × (w' : World KernelKey) × (prune_loop triton_strategy cache_dir env is false freed
            w
          ≡ (ok n, w'))
        × Marked cache_dir env (keys cache_dir is) w w'
  unfolding prune_loop any_eq
  loop_full [] freed w = (freed, w, refl, Marked-refl cache_dir env w)
  loop_full (i ∷ is) freed w =
      let m = (delete_kernel_directories env.os ((cache_dir // i.hash_key) ∷ []) w.disk).0 in
      let (n, w', e, h) = loop_full is (freed + m) (after cache_dir env i w) in
      (
        n,
        w',
        rw (delete_full cache_dir env g i w, delete_full-world cache_dir env g i w, prune_loop) e,
        Marked-trans cache_dir env (key cache_dir i ∷ []) (keys cache_dir is) w
            (after cache_dir env i w) w' (after-Marked cache_dir env i w) h,
      )

  abbrev pub found : SearchCriteria → Tables KernelKey → List (Row KernelKey)
  found criteria t = env.search (record criteria { cache_dir = some (path_str cache_dir) }) t

  abbrev pub keys_of : List (Row KernelKey) → List KernelKey
  keys_of rows = keys cache_dir (map triton_identifier rows)

  abbrev pub full : SearchCriteria → Disk → Tables KernelKey → Outcome KernelKey
  full criteria d t = prune triton_strategy cache_dir env criteria false true d t

  full_found :
      (is : List KernelIdentifier) (d : Disk) (t : Tables KernelKey)
      → let o = prune_found triton_strategy cache_dir env false true is d t in
        (n : ℕ) × (o.0
          ≡ ok
              (some (record { pruned = length is; reclaimed = n; aborted = false; empty = false })))
        × IsPruned cache_dir env (keys cache_dir is) t o.2 d o.1
  unfolding prune
  full_found [] d t = (0, refl, nothing-IsPruned cache_dir env d t)
  full_found (i ∷ is) d t =
      let (n, w, e, m) = loop_full (i ∷ is) 0 (begin d t) in
      (
        n,
        ap (λ x. (finish triton_strategy cache_dir (length (i ∷ is)) x).0) e,
        subst
            (λ x.
              IsPruned cache_dir env (keys cache_dir (i ∷ is)) t
                (finish triton_strategy cache_dir (length (i ∷ is)) x).2 d
                (finish triton_strategy cache_dir (length (i ∷ is)) x).1)
            (sym e) (commit-IsPruned cache_dir env (keys cache_dir (i ∷ is)) d t w m),
      )

  full-eq :
      (criteria : SearchCriteria) (d : Disk) (t : Tables KernelKey)
      → full criteria d t
        ≡ prune_found triton_strategy cache_dir env false true
            (map triton_identifier (found criteria t))
            d
            t
  unfolding prune
  full-eq criteria d t = rw (identifiers_of_triton_rows (found criteria t), prune)

  -- The outcome reports as many kernels as were found, and those are gone.
  abbrev pub PrunedAll : SearchCriteria → Disk → Tables KernelKey → Outcome KernelKey → Type 0
  PrunedAll criteria d t o =
      (n : ℕ) × (o.0
        ≡ ok (
            some (record {
              pruned = length (found criteria t);
              reclaimed = n;
              aborted = false;
              empty = false;
            })))
      × IsPruned cache_dir env (keys_of (found criteria t)) t o.2 d o.1

  -- A full prune that is confirmed never raises in Triton mode. It reports as many kernels as the
  -- search found; their rows are gone and the files of these rows with them; every other row keeps
  -- its columns and its files; and a path outside the directories of the kernels is as it was, even
  -- where the system refuses a removal half-way.
  pub prune_full :
      (criteria : SearchCriteria) (d : Disk) (t : Tables KernelKey)
      → PrunedAll criteria d t (full criteria d t)
  prune_full criteria d t = subst (PrunedAll criteria d t) (sym (full-eq criteria d t)) (
      rw (← length-map (found criteria t) triton_identifier)
        (full_found (map triton_identifier (found criteria t)) d t))
