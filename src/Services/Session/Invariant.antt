-- ===== src/Services/Session/Invariant.antt =====
-- The commit of a session (services/prune.py, data/db_config.py) keeps the tables well formed.
use mcu.Base.{refl, not, map, Eq, nat_eq}
use mcu.Data.Rows.{Tables}
use mcu.Data.Upsert.Invariant.{IsWellFormed}
use mcu.Data.Upsert.Edits.{update-IsWellFormed, delete-IsWellFormed}
use mcu.Services.Session.{Pending, any_eq, commit, resize_row}

module _ {K : Type 0} ⦃e : Eq K⦄ where
  -- Whatever a session has marked, its commit keeps the tables well formed.
  pub commit-IsWellFormed :
      (p : Pending K) (t : Tables K) → IsWellFormed t → IsWellFormed (commit p t)
  unfolding commit
  commit-IsWellFormed p t w =
      delete-IsWellFormed (λ k. not (any_eq k p.deleted_kernels))
        (λ f. not (any_eq f.id p.deleted_files))
        (record t { kernels = map (resize_row p.sizes) t.kernels })
        (update-IsWellFormed (resize_row p.sizes) t (λ r. refl) w)
