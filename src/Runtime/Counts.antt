-- ===== src/Runtime/Counts.antt =====
-- The hits that the collector (runtime/tracker.py) counts are the hits that were recorded.
use mathlib.Core.Option
use mcu.Base.{
  ℕ, ◌+◌, String, ◌≡◌, refl, ◌∙◌, ap, Bool, false, ◌&&◌, Option, none, some, List, [], ◌∷◌,
}
use mcu.Base.{
  map, all_but_last, Error, ◌==◌, ==_iff, ==_self, string_eq, if◌then◌else◌, arith, All, Bool-cases,
  inl, inr,
}
use mcu.Base.Dict.{Dict}
use mcu.Models.{FilePath}
use mcu.Data.Rows.{KernelKey, Row, kernel_key_eq}
use mcu.Data.Upsert.{find_row}
use mcu.Services.Strategy.{path_str}
use mcu.Runtime.{CacheAccessRecord, Stats, Collector, count_access, add_record, add_records}
use mcu.Runtime.{last_parent, update_kernel, update_kernels, persist_to_database, persist_records}

-- The counter of a kernel, if it is in the table.
abbrev pub hits_in : KernelKey → List (Row KernelKey) → Option ℕ
hits_in j rows = Option.map (λ c. c.runtime_hits) (find_row j rows)

abbrev pub plus : Option ℕ → ℕ → Option ℕ
plus none n = none
plus (some m) n = some (m + n)

-- The hits of a key among the records, and among the statistics.
abbrev pub count : String → List CacheAccessRecord → ℕ
count k [] = 0
count k (r ∷ rs) = if r.cache_key == k && r.hit then 1 + count k rs else count k rs

abbrev counted : String → Dict String Stats → ℕ
counted k [] = 0
counted k ((j, s) ∷ stats) = if j == k then s.hits + counted k stats else counted k stats

counted-add_record :
    (k : String) (r : CacheAccessRecord) (stats : Dict String Stats)
    → counted k (add_record r stats)
      ≡ (if r.cache_key == k && r.hit then 1 else 0) + counted k stats
unfolding add_record count_access
counted-add_record k r [] = ground arith
counted-add_record k r ((j, s) ∷ stats) =
    ground
      (arith, ==_iff j r.cache_key, ==_iff j k, ==_iff r.cache_key k, counted-add_record k r stats)

counted-add_records :
    (k : String) (rs : List CacheAccessRecord) (stats : Dict String Stats)
    → counted k (add_records rs stats) ≡ count k rs + counted k stats
unfolding add_records
counted-add_records k [] stats = ground arith
counted-add_records k (r ∷ rs) stats =
    ground (arith, counted-add_records k rs (add_record r stats), counted-add_record k r stats)

module _ (j : KernelKey) (dir : String) where
  abbrev mine : String → Bool
  mine k = j.hash == k && j.cache_dir == dir

  abbrev affects : String → Row KernelKey → Bool
  affects k r = r.key.hash == k && r.key.cache_dir == dir

  update_kernel-key :
      (k : String) (s : Stats) (r : Row KernelKey) → (update_kernel dir k s r).key ≡ r.key
  unfolding update_kernel
  update_kernel-key k s r = ground arith

  update_kernel-hits :
      (k : String) (s : Stats) (r : Row KernelKey)
      → (update_kernel dir k s r).columns.runtime_hits
        ≡ r.columns.runtime_hits + (if affects k r then s.hits else 0)
  unfolding update_kernel
  update_kernel-hits k s r = ground arith

  find_row-at :
      (r : Row KernelKey) (rows : List (Row KernelKey))
      → r.key ≡ j
      → hits_in j (r ∷ rows) ≡ some r.columns.runtime_hits
  unfolding find_row
  find_row-at r rows p = rw p (ground (arith, ==_self j))

  find_row-past :
      (r : Row KernelKey) (rows : List (Row KernelKey))
      → (r.key == j) ≡ false
      → hits_in j (r ∷ rows) ≡ hits_in j rows
  unfolding find_row
  find_row-past r rows p = rw (p, find_row) refl

  hits_in-update_kernel :
      (k : String) (s : Stats) (rows : List (Row KernelKey))
      → hits_in j (map (update_kernel dir k s) rows)
        ≡ plus (hits_in j rows) (if mine k then s.hits else 0)
  unfolding find_row
  hits_in-update_kernel k s [] = refl
  hits_in-update_kernel k s (r ∷ rows) = elim (Bool-cases (r.key == j)) [
    | inl y ↦
        let p : r.key ≡ j = (==_iff r.key j).0 y in
        find_row-at (update_kernel dir k s r) _ (update_kernel-key k s r ∙ p)
        ∙ ap some (update_kernel-hits k s r)
        ∙ rw (find_row-at r rows p) (
            ap
              (λ (x : KernelKey). some (
                r.columns.runtime_hits + (if x.hash == k && x.cache_dir == dir then s.hits else 0)))
              p)
    | inr n ↦
        find_row-past (update_kernel dir k s r) _ (rw (update_kernel-key k s r) n)
        ∙ hits_in-update_kernel k s rows
        ∙ rw (find_row-past r rows n) refl
  ]

  pub plus_zero : (o : Option ℕ) → plus o 0 ≡ o
  plus_zero none = refl
  plus_zero (some i) = ground arith

  pub plus-plus : (o : Option ℕ) (m n : ℕ) → plus (plus o m) n ≡ plus o (m + n)
  plus-plus none m n = refl
  plus-plus (some i) m n = ground arith

  hits_in-update_kernels :
      (stats : Dict String Stats) (rows : List (Row KernelKey))
      → hits_in j (update_kernels dir stats rows)
        ≡ plus (hits_in j rows) (if j.cache_dir == dir then counted j.hash stats else 0)
  unfolding update_kernels
  hits_in-update_kernels [] rows = ground (arith, plus_zero (hits_in j rows))
  hits_in-update_kernels ((k, s) ∷ stats) rows =
      hits_in-update_kernels stats (map (update_kernel dir k s) rows)
      ∙ ap (λ o. plus o (if j.cache_dir == dir then counted j.hash stats else 0))
          (hits_in-update_kernel k s rows)
      ∙ plus-plus (hits_in j rows) _ _
      ∙ ap (plus (hits_in j rows)) (ground (arith, ==_iff j.hash k, ==_iff k j.hash))

-- Every record is of a directory with the parent `d`.
abbrev pub AllIn : FilePath → List CacheAccessRecord → Type 0
AllIn d = All (λ r. all_but_last r.cache_dir ≡ d)

last_parent-AllIn :
    (d p : FilePath) (r : CacheAccessRecord) (rs : List CacheAccessRecord)
    → AllIn d (r ∷ rs)
    → last_parent p (r ∷ rs) ≡ d
unfolding last_parent
last_parent-AllIn d p r [] (h, t) = h
last_parent-AllIn d p r (s ∷ rs) (h, t) = last_parent-AllIn d (all_but_last r.cache_dir) s rs t

-- The counter of `j` with the hits that are still pending.
abbrev pub total : FilePath → KernelKey → Collector → Option ℕ
total d j c =
    plus (hits_in j c.tables.kernels)
      (if j.cache_dir == path_str d then count j.hash c.pending else 0)

pub records-total :
    (d : FilePath) (j : KernelKey) (rs : List CacheAccessRecord) (c : Collector)
    → AllIn d rs
    → total d j (persist_records rs (record c { pending = rs }))
      ≡ total d j (record c { pending = rs })
unfolding persist_records
records-total d j [] c h = refl
records-total d j (r ∷ rs) c h = rw (last_parent-AllIn d [] r rs h) (
    ap (λ o. plus o (if j.cache_dir == path_str d then 0 else 0))
      (hits_in-update_kernels j (path_str d) (add_records (r ∷ rs) []) c.tables.kernels)
    ∙ plus-plus j (path_str d) _ _ _
    ∙ ap (plus (hits_in j c.tables.kernels))
        (ground (arith, counted-add_records j.hash (r ∷ rs) [])))

pub persist-total :
    (fault : Option Error) (d : FilePath) (j : KernelKey) (c : Collector)
    → AllIn d c.pending
    → total d j (persist_to_database fault c) ≡ total d j c
unfolding persist_to_database
persist-total (some e) d j c h = refl
persist-total none d j c h = records-total d j c.pending c h

pub records-pending :
    (rs : List CacheAccessRecord) (c : Collector)
    → (persist_records rs (record c { pending = rs })).pending ≡ []
unfolding persist_records
records-pending [] c = refl
records-pending (r ∷ rs) c = refl

pub persist-AllIn :
    (fault : Option Error) (d : FilePath) (c : Collector)
    → AllIn d c.pending
    → AllIn d (persist_to_database fault c).pending
unfolding persist_to_database
persist-AllIn (some e) d c h = h
persist-AllIn none d c h = rw (records-pending c.pending c) tt

records-enabled :
    (rs : List CacheAccessRecord) (c : Collector) → (persist_records rs c).enabled ≡ c.enabled
unfolding persist_records
records-enabled [] c = refl
records-enabled (r ∷ rs) c = refl

pub persist-enabled :
    (fault : Option Error) (c : Collector) → (persist_to_database fault c).enabled ≡ c.enabled
unfolding persist_to_database
persist-enabled (some e) c = refl
persist-enabled none c = records-enabled c.pending c
