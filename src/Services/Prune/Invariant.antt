-- ===== src/Services/Prune/Invariant.antt =====
-- Pruning by criteria (services/prune.py) keeps the tables well formed, in either mode.
use mcu.Base.{ℕ, ◌+◌, ◌≡◌, refl, ◌∙◌, String, Bool, not, ◌&&◌, Option, none, some}
use mcu.Base.{List, [], ◌∷◌, map, length, Eq, Result, ok, err, Result-cases, Bool-cases, inl, inr}
use mcu.Models.{FilePath, SearchCriteria}
use mcu.Data.Rows.{Row, Tables}
use mcu.Data.Upsert.Invariant.{IsWellFormed}
use mcu.Cache.Disk.{Disk, Os}
use mcu.Cache.Identifier.{KernelIdentifier, get_kernel_directories}
use mcu.Cache.Deletion.{ir_exts, delete_ir_files_from_dirs}
use mcu.Services.Session.Invariant.{commit-IsWellFormed}
use mcu.Services.Strategy.{Strategy, path_str}
use mcu.Services.Prune.{Env, World, begin, prune, prune_found, prune_loop, finish}
use mcu.Services.Prune.{delete_kernel_unified, delete_ir_only, delete_full_kernel, mark_deleted}
use mcu.Services.Prune.{estimate_space, identifiers_of_rows, update_total_size}
use mcu.Services.Prune.{delete_ir_file_records}

module _ {K : Type 0} ⦃e : Eq K⦄ (strategy : Strategy K) (cache_dir : FilePath) where
  update_total_size-tables :
      (r : Option (Row K)) (w : World K)
      → (update_total_size strategy cache_dir r w).tables ≡ w.tables
  unfolding update_total_size
  update_total_size-tables none w = refl
  update_total_size-tables (some r) w = refl

  records-tables :
      (i : KernelIdentifier) (names : List String) (w : World K)
      → (elim names as (λ _. World K) [
        | [] ↦ w
        | n ∷ ns ↦ delete_ir_file_records strategy cache_dir i (n ∷ ns) w
      ]).tables
        ≡ w.tables
  unfolding delete_ir_file_records
  records-tables i [] w = refl
  records-tables i (n ∷ ns) w = refl

  delete_ir_only-tables :
      (os : Os) (i : KernelIdentifier) (dirs : List FilePath) (r : Option (Row K)) (w : World K)
      → (delete_ir_only strategy cache_dir os i dirs r w).1.tables ≡ w.tables
  unfolding delete_ir_only
  delete_ir_only-tables os i dirs r w =
      let removed = delete_ir_files_from_dirs os dirs ir_exts w.disk in
      elim (Bool-cases removed.raised) [
        | inl y ↦ rw (delete_ir_only, y) refl
        | inr n ↦
            rw (delete_ir_only, n)
              (update_total_size-tables r _
                ∙ records-tables i removed.names (record w { disk = removed.disk }))
      ]

  delete_full_kernel-tables :
      (os : Os) (dirs : List FilePath) (r : Option (Row K)) (w : World K)
      → (delete_full_kernel strategy cache_dir os dirs r w).1.tables ≡ w.tables
  unfolding delete_full_kernel mark_deleted
  delete_full_kernel-tables os dirs none w = refl
  delete_full_kernel-tables os dirs (some r) w = refl

  -- The deletion of one kernel leaves the stored tables alone: it marks rows in the session.
  pub delete_kernel_unified-tables :
      (env : Env K) (i : KernelIdentifier) (ir_only : Bool) (w : World K)
      → (delete_kernel_unified strategy cache_dir env i ir_only w).1.tables ≡ w.tables
  unfolding delete_kernel_unified
  delete_kernel_unified-tables env i ir_only w =
      elim (Result-cases (get_kernel_directories cache_dir strategy.mode i w.disk)) [
        | inl (x, p) ↦ rw (delete_kernel_unified, p) refl
        | inr (dirs, p) ↦
            elim (Result-cases (env.get (strategy.record_key (path_str cache_dir) i) w.tables)) [
              | inl (x, q) ↦ rw (delete_kernel_unified, p, q) refl
              | inr (r, q) ↦ elim (Bool-cases ir_only) [
                | inl y ↦
                    rw (delete_kernel_unified, p, q, y) (delete_ir_only-tables env.os i dirs r w)
                | inr n ↦
                    rw (delete_kernel_unified, p, q, n) (delete_full_kernel-tables env.os dirs r w)
              ]
            ]
      ]

  loop-tables :
      (env : Env K) (is : List KernelIdentifier) (ir_only : Bool) (freed : ℕ) (w : World K)
      → (prune_loop strategy cache_dir env is ir_only freed w).1.tables ≡ w.tables
  unfolding prune_loop
  loop-tables env [] ir_only freed w = refl
  loop-tables env (i ∷ is) ir_only freed w =
      let w' = (delete_kernel_unified strategy cache_dir env i ir_only w).1 in
      let here = delete_kernel_unified-tables env i ir_only w in
      elim (Result-cases (delete_kernel_unified strategy cache_dir env i ir_only w).0) [
        | inl (x, p) ↦ rw (prune_loop, p) here
        | inr (n, p) ↦ rw (prune_loop, p) (loop-tables env is ir_only (freed + n) w' ∙ here)
      ]

  finish-IsWellFormed :
      (n : ℕ) (out : Result ℕ × World K)
      → IsWellFormed out.1.tables
      → IsWellFormed (finish strategy cache_dir n out).2
  unfolding finish
  finish-IsWellFormed n (ok freed, w) h = commit-IsWellFormed w.pending w.tables h
  finish-IsWellFormed n (err x, w) h = h

  found-IsWellFormed :
      (env : Env K) (ir_only auto_confirm : Bool) (is : List KernelIdentifier) (d : Disk)
      (t : Tables K)
      → IsWellFormed t
      → IsWellFormed (prune_found strategy cache_dir env ir_only auto_confirm is d t).2
  unfolding prune_found
  found-IsWellFormed env ir_only auto_confirm [] d t h = h
  found-IsWellFormed env ir_only auto_confirm (i ∷ is) d t h =
      elim (Bool-cases (
        not auto_confirm
        && not (
            env.confirm (length (i ∷ is))
              (estimate_space strategy cache_dir (map (λ i. i.hash_key) (i ∷ is)) t) ir_only))) [
                | inl stop ↦ rw (prune_found, stop) h
                | inr go_on ↦
                    rw (prune_found, go_on)
                      (finish-IsWellFormed (length (i ∷ is))
                        (prune_loop strategy cache_dir env (i ∷ is) ir_only 0 (begin d t))
                        (rw (loop-tables env (i ∷ is) ir_only 0 (begin d t)) h))
              ]

  -- A prune keeps the tables well formed in either mode, whatever the session answers, the prompt
  -- says and the system refuses, and where it raises.
  pub prune-IsWellFormed :
      (env : Env K) (criteria : SearchCriteria) (ir_only auto_confirm : Bool) (d : Disk)
      (t : Tables K)
      → IsWellFormed t
      → IsWellFormed (prune strategy cache_dir env criteria ir_only auto_confirm d t).2
  unfolding prune
  prune-IsWellFormed env criteria ir_only auto_confirm d t h =
      let here : SearchCriteria = record criteria { cache_dir = some (path_str cache_dir) } in
      elim (Result-cases (identifiers_of_rows strategy cache_dir (env.search here t))) [
        | inl (x, p) ↦ rw (prune, p) h
        | inr (is, p) ↦ rw (prune, p) (found-IsWellFormed env ir_only auto_confirm is d t h)
      ]
