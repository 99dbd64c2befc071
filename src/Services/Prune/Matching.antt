-- ===== src/Services/Prune/Matching.antt =====
-- A full prune in Triton mode (services/prune.py) against the criteria: what matches is gone.
use mathlib.Core.List.{Mem, mem-cons, mem-cons_self, not-mem-nil}
use mathlib.Core.Logic.Or
use mathlib.Core.Bool.{Bool-set}
use mcu.Base.{
  ◌≡◌, refl, sym, ap, ◌∙◌, true, false, Bool-cases, inl, inr, none, some, List, [], ◌∷◌, map, arith,
  ==_iff, string_eq,
}
use mcu.Base.Members.{IsOrderBy}
use mcu.Models.{FilePath, SearchCriteria}
use mcu.Data.Rows.{KernelKey, Row, Tables, kernel_key_eq}
use mcu.Data.Search.{NewestFirst, search}
use mcu.Data.Search.Laws.{search_lem}
use mcu.Data.Search.Matches.{Matches}
use mcu.Cache.Disk.{Disk}
use mcu.Services.Session.{any_eq, row_with}
use mcu.Services.Strategy.{path_str}
use mcu.Services.Prune.{Env}
use mcu.Services.Prune.Marks.{TritonGet, keys, triton_identifier}
use mcu.Services.Prune.Triton.{found, full, keys_of, prune_full}
use mcu.Services.Prune.Invariant.{prune-IsWellFormed}
use mcu.Services.Prune.Committed.{row_with-mem, row_with_unique}
use mcu.Services.Strategy.{triton_strategy}
use mcu.Data.Upsert.Invariant.{IsWellFormed}

no_members {ℓ} : {A : Type ℓ} (xs : List A) → ((a : A) → Mem a xs → ⊥) → xs ≡ []
no_members [] h = refl
no_members (x ∷ xs) h = absurd (h x mem-cons_self)

module _ (cache_dir : FilePath) where
  any_eq-keys :
      (rows : List (Row KernelKey)) (r : Row KernelKey)
      → r.key.cache_dir ≡ path_str cache_dir
      → Mem r rows
      → any_eq r.key (keys cache_dir (map triton_identifier rows)) ≡ true
  unfolding any_eq
  any_eq-keys [] r e m = absurd (not-mem-nil m)
  any_eq-keys (x ∷ rows) r e m =
      Or.elim (Bool-set _ _) (mem-cons.0 m)
        (λ p. ground (
          arith,
          ==_iff x.key.hash r.key.hash,
          ==_iff (path_str cache_dir) r.key.cache_dir,
          ap (λ (y : Row KernelKey). y.key.hash) p,
          e,
        ))
        (λ m'. ground (arith, any_eq-keys rows r e m'))

  module _ (env : Env KernelKey) (g : TritonGet env) where
    abbrev here : SearchCriteria → SearchCriteria
    here criteria = record criteria { cache_dir = some (path_str cache_dir) }

    -- After a full prune that is confirmed, no row is left under the key of a row that matched the
    -- criteria in the service's directory.
    pub prune_full_matching :
        (order : List (Row KernelKey) → List (Row KernelKey)) (criteria : SearchCriteria) (d : Disk)
        (t : Tables KernelKey) (r : Row KernelKey)
        → IsOrderBy NewestFirst order
        → env.search ≡ search order none
        → Mem r t.kernels
        → Matches (λ k. k.cache_dir) (record criteria { cache_dir = some (path_str cache_dir) }) r
        → row_with r.key (full cache_dir env g criteria d t).2.kernels ≡ none
    prune_full_matching order criteria d t r o e m h =
        let (n, reported, p) = prune_full cache_dir env g criteria d t in
        let dir : r.key.cache_dir ≡ path_str cache_dir = cc (h.cache_dir) in
        let hit : Mem r (found cache_dir env g criteria t) =
          rw e (((search_lem order (here criteria) t o).0 r).1 (m, h)) in
        p.rows r.key ∙ rw (any_eq-keys (found cache_dir env g criteria t) r dir hit) refl

    -- A prune adds no rows.
    was_there :
        (criteria : SearchCriteria) (d : Disk) (t : Tables KernelKey) (r : Row KernelKey)
        → row_with r.key (full cache_dir env g criteria d t).2.kernels ≡ some r
        → row_with r.key t.kernels ≡ some r
    was_there criteria d t r q =
        let (n, reported, p) = prune_full cache_dir env g criteria d t in
        let rows = found cache_dir env g criteria t in
        elim (Bool-cases (any_eq r.key (keys_of cache_dir env g rows))) [
          | inl y ↦ (let gone = rw y at (p.rows r.key) in cc (gone, q))
          | inr k ↦ sym (rw k at (p.rows r.key)) ∙ q
        ]

    -- Where keys are unique, the search of a confirmed full prune finds nothing after it.
    pub search-pruned :
        (order : List (Row KernelKey) → List (Row KernelKey)) (criteria : SearchCriteria) (d : Disk)
        (t : Tables KernelKey)
        → IsOrderBy NewestFirst order
        → env.search ≡ search order none
        → IsWellFormed t
        → found cache_dir env g criteria (full cache_dir env g criteria d t).2 ≡ []
    search-pruned order criteria d t o e w =
        let t' = (full cache_dir env g criteria d t).2 in
        let w' = prune-IsWellFormed triton_strategy cache_dir env criteria false true d t w in
        ap (λ find. find (here criteria) t') e
        ∙ no_members (search order none (here criteria) t') (λ r m.
          let (m', h) = ((search_lem order (here criteria) t' o).0 r).0 m in
          row_with_unique t'.kernels w'.unique_keys m' (λ q.
            let stored = row_with-mem r.key t.kernels r (was_there criteria d t r q) in
            cc (q, prune_full_matching order criteria d t r o e stored h)))
