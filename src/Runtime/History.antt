-- ===== src/Runtime/History.antt =====
-- A history of accesses (runtime/tracker.py): no hit is lost or counted twice.
use mcu.Base.{ℕ, ◌+◌, String, ◌≡◌, refl, ◌∙◌, ap, sym, true, ◌&&◌, none, List, [], ◌∷◌}
use mcu.Base.{◌++◌, all_but_last, ◌==◌, string_eq, if◌then◌else◌, arith, All, All-append}
use mcu.Models.{FilePath}
use mcu.Data.Rows.{KernelKey, kernel_key_eq}
use mcu.Services.Strategy.{path_str}
use mcu.Runtime.{CacheAccessRecord, Collector, or_default}
use mcu.Runtime.{Call, run, persist_to_database, persist_records, record_access, flush}
use mcu.Runtime.Counts.{
  hits_in, plus, count, plus_zero, plus-plus, AllIn, total, records-total, persist-total,
  records-pending, persist-AllIn, persist-enabled,
}

-- The recorded hits of a key.
abbrev pub hits_of : String → List Call → ℕ
hits_of k [] = 0
hits_of k (a ∷ calls) = if a.cache_key == k && a.hit then 1 + hits_of k calls else hits_of k calls

-- Every call is of a directory with the parent `d`.
abbrev pub CallsIn : FilePath → FilePath → List Call → Type 0
CallsIn default d = All (λ a. all_but_last (or_default default a.cache_dir) ≡ d)

count-append :
    (k : String) (rs qs : List CacheAccessRecord) → count k (rs ++ qs) ≡ count k rs + count k qs
count-append k [] qs = ground arith
count-append k (r ∷ rs) qs = ground (arith, count-append k rs qs)

module _ (default d : FilePath) (j : KernelKey) where
  abbrev here : ℕ → ℕ
  here n = if j.cache_dir == path_str d then n else 0

  abbrev recorded : Call → CacheAccessRecord
  recorded a = record {
    cache_key = a.cache_key;
    hit = a.hit;
    timestamp = a.now;
    cache_dir = or_default default a.cache_dir;
  }

  abbrev with_call : Call → Collector → Collector
  with_call a c = record c { pending = c.pending ++ (recorded a ∷ []) }

  record_access-enabled :
      (a : Call) (c : Collector)
      → c.enabled ≡ true
      → record_access default a.fault a.cache_key a.hit a.now a.cache_dir c
        ≡ persist_to_database a.fault (with_call a c)
  unfolding record_access
  record_access-enabled a c e = rw (e, record_access) refl

  with_call-total :
      (a : Call) (calls : List Call) (c : Collector)
      → plus (total d j (with_call a c)) (here (hits_of j.hash calls))
        ≡ plus (total d j c) (here (hits_of j.hash (a ∷ calls)))
  with_call-total a calls c =
      plus-plus j (path_str d) _ _ _
      ∙ ap (plus (hits_in j c.tables.kernels))
          (ground (arith, count-append j.hash c.pending (recorded a ∷ [])))
      ∙ sym (plus-plus j (path_str d) _ _ _)

  run-total :
      (calls : List Call) (c : Collector)
      → CallsIn default d calls
      → AllIn d c.pending
      → c.enabled ≡ true
      → (total d j (run default calls c) ≡ plus (total d j c) (here (hits_of j.hash calls)))
        × AllIn d (run default calls c).pending
  unfolding run
  run-total [] c h p e = (ground (arith, plus_zero j (path_str d) (total d j c)), p)
  run-total (a ∷ calls) c (ha, h) p e =
      let c1 = with_call a c in
      let p1 : AllIn d c1.pending =
        All-append (λ r. all_but_last r.cache_dir ≡ d) c.pending (recorded a ∷ []) p (ha, tt) in
      let (t, q) =
        run-total calls (persist_to_database a.fault c1) h (persist-AllIn a.fault d c1 p1)
          (persist-enabled a.fault c1 ∙ e) in
      rw (record_access-enabled a c e, run)
        (
          t
              ∙ ap (λ o. plus o (here (hits_of j.hash calls))) (persist-total a.fault d j c1 p1)
              ∙ with_call-total a calls c,
          q,
        )

  settled : (c : Collector) → c.pending ≡ [] → total d j c ≡ hits_in j c.tables.kernels
  settled c p = rw p (ground (arith, plus_zero j (path_str d) (hits_in j c.tables.kernels)))

  -- After any calls of an enabled collector that starts with nothing pending, whichever of their
  -- attempts to persist fail, a flush that succeeds leaves nothing pending, and each kernel's counter
  -- has grown by exactly the hits recorded for its hash if its directory is the parent of the calls'
  -- directories, and by nothing if not; provided the calls' directories have one parent.
  pub flush_counts :
      (calls : List Call) (c : Collector)
      → CallsIn default d calls
      → c.pending ≡ []
      → c.enabled ≡ true
      → let c' = flush none (run default calls c) in
        (c'.pending ≡ [])
        × (hits_in j c'.tables.kernels
            ≡ plus
                (hits_in j c.tables.kernels)
                (if j.cache_dir == path_str d then hits_of j.hash calls else 0))
  unfolding flush persist_to_database
  flush_counts calls c h p e =
      let r = run default calls c in
      let (t, q) = run-total calls c h (rw p tt) e in
      let f = records-total d j r.pending r q in
      (
        records-pending r.pending r,
        sym (settled (persist_records r.pending r) (records-pending r.pending r))
            ∙ f
            ∙ t
            ∙ ap (λ o. plus o (here (hits_of j.hash calls))) (settled c p),
      )
