-- ===== src/Index/Service/Listable.antt =====
-- After indexing (services/index.py) every row has a size and a last access that can be read, if every row had one before.
use mcu.Base.{ℕ, ◌+◌, ◌≡◌, All, Result-cases, inl, inr, Bool, true}
use mcu.Models.{FilePath, Kernel}
use mcu.Data.Rows.{Tables, Clock, KernelKey}
use mcu.Data.Upsert.{Fault, insert_kernel}
use mcu.Data.Upsert.Listable.{IsListable, insert_kernel-IsListable}
use mcu.Services.Strategy.{path_str}
use mcu.Index.Repository.{Yields, done, raises, yields}
use mcu.Index.Service.{reindex_kernels}

module _ (readable : ℕ → Bool) (fault : Kernel → Fault) (c : Clock) (root : FilePath)
    (now_readable : readable c.imported ≡ true) where
  pub reindex_kernels-IsListable :
      (ys : Yields Kernel) (n : ℕ) (t : Tables KernelKey)
      → All (IsListable readable) t.kernels
      → All (IsListable readable) ((reindex_kernels fault c root ys n t).1).kernels
  unfolding reindex_kernels
  reindex_kernels-IsListable done n t w = w
  reindex_kernels-IsListable (raises e) n t w = w
  reindex_kernels-IsListable (yields k ks) n t w =
      let w' = insert_kernel-IsListable readable (fault k) c k (path_str root) t now_readable w in
      elim (Result-cases (insert_kernel (fault k) c k (path_str root) t).0) [
        | inl (e, p) ↦ rw (reindex_kernels, p) w'
        | inr (u, p) ↦ rw (reindex_kernels, p) (reindex_kernels-IsListable ks (n + 1) _ w')
      ]
