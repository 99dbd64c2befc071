-- ===== src/Runtime/Invariant.antt =====
-- Persisting the recorded accesses (runtime/tracker.py) keeps the tables well formed.
use mcu.Base.{◌≡◌, refl, String, ◌&&◌, Option, none, some, List, [], ◌∷◌, map, Error, ◌==◌}
use mcu.Base.{ℕ, Bool, Bool-cases, inl, inr, string_eq}
use mcu.Models.{FilePath}
use mcu.Base.Dict.{Dict}
use mcu.Data.Rows.{KernelKey, Row, Tables, kernel_key_eq}
use mcu.Data.Upsert.Invariant.{IsWellFormed}
use mcu.Data.Upsert.Edits.{update-IsWellFormed}
use mcu.Services.Strategy.{path_str}
use mcu.Runtime.{CacheAccessRecord, Stats, Collector, add_records, last_parent, update_kernel}
use mcu.Runtime.{update_kernels, persist_records, persist_to_database, record_access}

update_kernel-key :
    (dir k : String) (s : Stats) (r : Row KernelKey) → (update_kernel dir k s r).key ≡ r.key
unfolding update_kernel
update_kernel-key dir k s r = elim (Bool-cases (r.key.hash == k && r.key.cache_dir == dir)) [
  | inl y ↦ rw (update_kernel, y) refl
  | inr n ↦ rw (update_kernel, n) refl
]

update_kernels-IsWellFormed :
    (dir : String) (stats : Dict String Stats) (t : Tables KernelKey)
    → IsWellFormed t
    → IsWellFormed (record t { kernels = update_kernels dir stats t.kernels })
unfolding update_kernels
update_kernels-IsWellFormed dir [] t w = w
update_kernels-IsWellFormed dir ((k, s) ∷ stats) t w =
    update_kernels-IsWellFormed dir stats
      (record t { kernels = map (update_kernel dir k s) t.kernels })
      (update-IsWellFormed (update_kernel dir k s) t (update_kernel-key dir k s) w)

records-IsWellFormed :
    (rs : List CacheAccessRecord) (c : Collector)
    → IsWellFormed c.tables
    → IsWellFormed (persist_records rs c).tables
unfolding persist_records
records-IsWellFormed [] c w = w
records-IsWellFormed (r ∷ rs) c w =
    update_kernels-IsWellFormed (path_str (last_parent [] (r ∷ rs))) (add_records (r ∷ rs) [])
      c.tables w

-- Whatever is pending, and whether or not the session raises.
pub persist_to_database-IsWellFormed :
    (fault : Option Error) (c : Collector)
    → IsWellFormed c.tables
    → IsWellFormed (persist_to_database fault c).tables
unfolding persist_to_database
persist_to_database-IsWellFormed none c w = records-IsWellFormed c.pending c w
persist_to_database-IsWellFormed (some x) c w = w

-- Recording an access, enabled or not.
pub record_access-IsWellFormed :
    (default : FilePath) (fault : Option Error) (k : String) (hit : Bool) (now : ℕ)
    (dir : Option FilePath) (c : Collector)
    → IsWellFormed c.tables
    → IsWellFormed (record_access default fault k hit now dir c).tables
unfolding record_access
record_access-IsWellFormed default fault k hit now dir c w = elim (Bool-cases c.enabled) [
  | inl y ↦ rw (record_access, y) (persist_to_database-IsWellFormed fault _ w)
  | inr n ↦ rw (record_access, n) w
]
