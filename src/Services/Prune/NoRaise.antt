-- ===== src/Services/Prune/NoRaise.antt =====
-- In Triton mode no step of a full prune raises (services/prune.py).
use mcu.Base.{ℕ, ◌+◌, ◌≡◌, refl, Bool, true, not, ◌&&◌, some, List, [], ◌∷◌, length, map}
use mcu.Base.{false, Result, ok, err, is_ok, inl, inr, Bool-cases}
use mcu.Models.{FilePath, SearchCriteria}
use mcu.Data.Rows.{KernelKey, Tables, kernel_key_eq}
use mcu.Cache.Disk.{Disk}
use mcu.Cache.Identifier.{KernelIdentifier}
use mcu.Services.Strategy.{triton_strategy, path_str}
use mcu.Services.Prune.{Env, World, begin, prune, prune_loop, prune_found}
use mcu.Services.Prune.{finish, estimate_space}
use mcu.Cache.Deletion.{delete_kernel_directories}
use mcu.Cache.Disk.{◌//◌}
use mcu.Services.Prune.Marks.{delete_full, delete_full-world, after, TritonGet, triton_identifier}
use mcu.Services.Prune.Triton.{identifiers_of_triton_rows}

module _ (cache_dir : FilePath) (env : Env KernelKey) (g : TritonGet env) where
  loop-is_ok :
      (is : List KernelIdentifier) (freed : ℕ) (w : World KernelKey)
      → is_ok (prune_loop triton_strategy cache_dir env is false freed w).0 ≡ true
  unfolding prune_loop
  loop-is_ok [] freed w = refl
  loop-is_ok (i ∷ is) freed w =
      rw (delete_full cache_dir env g i w, delete_full-world cache_dir env g i w, prune_loop)
        (loop-is_ok is
          (freed + (delete_kernel_directories env.os ((cache_dir // i.hash_key) ∷ []) w.disk).0)
          (after cache_dir env i w))

  finish-is_ok :
      (n : ℕ) (r : Result ℕ × World KernelKey)
      → is_ok r.0 ≡ true
      → is_ok (finish triton_strategy cache_dir n r).0 ≡ true
  unfolding finish
  finish-is_ok n (ok freed, w) h = refl
  finish-is_ok n (err x, w) h = h

  found-is_ok :
      (auto_confirm : Bool) (is : List KernelIdentifier) (d : Disk) (t : Tables KernelKey)
      → is_ok (prune_found triton_strategy cache_dir env false auto_confirm is d t).0 ≡ true
  unfolding prune
  found-is_ok auto_confirm [] d t = refl
  found-is_ok auto_confirm (i ∷ is) d t =
      elim (Bool-cases (
        not auto_confirm
        && not (
            env.confirm (length (i ∷ is))
              (estimate_space triton_strategy cache_dir (map (λ i. i.hash_key) (i ∷ is)) t)
              false))) [
                | inl stop ↦ rw (prune_found, stop) refl
                | inr go_on ↦
                    rw (prune_found, go_on)
                      (finish-is_ok (length (i ∷ is)) _ (loop-is_ok (i ∷ is) 0 (begin d t)))
              ]

  -- In Triton mode, where the session answers and commits, a full prune raises nothing, confirmed or
  -- not, whatever it finds and whatever the system refuses to remove.
  pub prune-is_ok :
      (criteria : SearchCriteria) (auto_confirm : Bool) (d : Disk) (t : Tables KernelKey)
      → is_ok (prune triton_strategy cache_dir env criteria false auto_confirm d t).0 ≡ true
  unfolding prune
  prune-is_ok criteria auto_confirm d t =
      rw
        (
          prune,
          identifiers_of_triton_rows cache_dir env g
              (env.search (record criteria { cache_dir = some (path_str cache_dir) }) t),
        )
        (found-is_ok auto_confirm
          (map triton_identifier
            (env.search (record criteria { cache_dir = some (path_str cache_dir) }) t))
          d t)
