-- ===== src/Runtime/Threads/Hits.antt =====
-- No hit of any thread is lost or counted twice (runtime/tracker.py).
use mcu.Base.{ℕ, ◌+◌, ◌<◌, ◌≡◌, refl, ap, ◌∙◌, true, none}
use mcu.Base.{List, [], ◌∷◌, ◌++◌, String, all_but_last, if◌then◌else◌, arith, All-append}
use mcu.Base.{◌==◌, string_eq, nat_eqb, Bool-cases, Option-cases, inl, inr}
use mcu.Base.Family.{set_at, weigh, weigh-set_at, weigh-zero}
use mcu.Models.{FilePath}
use mcu.Data.Rows.{KernelKey}
use mcu.Services.Strategy.{path_str}
use mcu.Runtime.{Collector, Call, run, flush, or_default}
use mcu.Runtime.Counts.{hits_in, plus}
use mcu.Runtime.History.{hits_of, CallsIn, flush_counts}
use mcu.Runtime.Threads.{Shared, Pc, idle, entering, appending, persisting}
use mcu.Runtime.Threads.{Move, System, pick, Reach, start, later}
use mcu.Runtime.Threads.Laws.{critical, Inv, Reach-Inv}

-- The hits of a key in the call of a thread that is not through the lock.
abbrev held_hits : String → Pc → ℕ
held_hits k (entering a) = hits_of k (a ∷ [])
held_hits k (appending a) = hits_of k (a ∷ [])
held_hits k (persisting a) = hits_of k (a ∷ [])
held_hits k _ = 0

hits_of-append :
    (k : String) (before after : List Call)
    → hits_of k (before ++ after) ≡ hits_of k before + hits_of k after
hits_of-append k [] after = ground arith
hits_of-append k (a ∷ before) after = ground (arith, hits_of-append k before after)

module _ (default : FilePath) (c0 : Collector) where
  Move-hits :
      (k : String) {i : ℕ} {m m' : Shared} {p p' : Pc}
      → Move default i m p m' p'
      → hits_of k m'.begun + hits_of k m.log + held_hits k p
        ≡ hits_of k m.begun + hits_of k m'.log + held_hits k p'
  Move-hits k {m = m} (Move.persist {a}) = omega (arith, hits_of-append k m.log (a ∷ []))
  Move-hits k mv = ground arith

  Reach-hits :
      (k : String) {n : ℕ} {s : System default}
      → Reach default n c0 s
      → hits_of k s.mem.begun ≡ hits_of k s.mem.log + weigh (held_hits k) n s.pc
  Reach-hits k {n} start = omega (arith, weigh-zero (held_hits k) n (λ i. idle) (λ i lt. refl))
  Reach-hits k {n} (later {s} r (pick i {p = p} lt mv)) =
      omega (arith, Reach-hits k r, Move-hits k mv, weigh-set_at (held_hits k) n i p s.pc lt)

  module _ (d : FilePath) where
    abbrev IsIn : Call → Type 0
    IsIn a = all_but_last (or_default default a.cache_dir) ≡ d

    abbrev PcIn : Pc → Type 0
    PcIn (entering a) = IsIn a
    PcIn (appending a) = IsIn a
    PcIn (persisting a) = IsIn a
    PcIn _ = Unit

    pc-set_at :
        (pc : ℕ → Pc) (i : ℕ) (p : Pc)
        → ((j : ℕ) → PcIn (pc j))
        → PcIn p
        → (j : ℕ) → PcIn (set_at i p pc j)
    pc-set_at pc i p h hp j = elim (Bool-cases (nat_eqb i j)) [
      | inl y ↦ rw y hp
      | inr differs ↦ rw differs (h j)
    ]

    Move-CallsIn :
        {i : ℕ} {m m' : Shared} {p p' : Pc}
        → Move default i m p m' p'
        → CallsIn default d m'.begun
        → (CallsIn default d m.begun)
          × (CallsIn default d m.log → PcIn p → CallsIn default d m'.log × PcIn p')
    Move-CallsIn (Move.begin a g) (b, bs) = (bs, λ l q. (l, b))
    Move-CallsIn (Move.skip g) b = (b, λ l q. (l, tt))
    Move-CallsIn (Move.acquire g) b = (b, λ l q. (l, q))
    Move-CallsIn Move.append b = (b, λ l q. (l, q))
    Move-CallsIn {m = m} (Move.persist {a}) b =
        (b, λ l q. (All-append IsIn m.log (a ∷ []) l (q, tt), tt))
    Move-CallsIn Move.release b = (b, λ l q. (l, tt))

    Reach-CallsIn :
        {n : ℕ} {s : System default}
        → Reach default n c0 s
        → CallsIn default d s.mem.begun
        → CallsIn default d s.mem.log × ((i : ℕ) → PcIn (s.pc i))
    Reach-CallsIn start b = (tt, λ i. tt)
    Reach-CallsIn (later {s} r (pick i {p = p} lt mv)) b =
        let (b', keeps) = Move-CallsIn mv b in
        let (l, h) = Reach-CallsIn r b' in
        let (l', q) = keeps l (h i) in (l', pc-set_at s.pc i p h q)

  all_idle-unlocked :
      {n : ℕ} {s : System default}
      → Inv default c0 n s.mem s.pc
      → ((i : ℕ) → i < n → s.pc i ≡ idle)
      → s.mem.lock ≡ none
  all_idle-unlocked {s = s} inv quiet = elim (Option-cases s.mem.lock) [
    | inl e ↦ e
    | inr (i, e) ↦ let (lt, c) = inv.held i e in absurd (cc (ap critical (quiet i lt), c))
  ]

  -- Any number of threads record accesses with an enabled collector that has nothing pending, in any
  -- interleaving of their steps and with any failures to persist. When no thread is inside, the
  -- collector is as after the same calls one by one in the order of the lock; and a flush that
  -- succeeds leaves nothing pending, and has each kernel's counter grown by exactly the hits that all
  -- threads recorded for its hash, if its directory is the parent of the calls' directories, and by
  -- nothing if not; provided the calls' directories have one parent.
  pub threads_flush_counts :
      (d : FilePath) (j : KernelKey) {n : ℕ} {s : System default}
      → Reach default n c0 s
      → ((i : ℕ) → i < n → s.pc i ≡ idle)
      → CallsIn default d s.mem.begun
      → c0.pending ≡ []
      → c0.enabled ≡ true
      → let c' = flush none s.mem.collector in
        (s.mem.collector ≡ run default s.mem.log c0)
        × (c'.pending ≡ [])
        × (hits_in j c'.tables.kernels
            ≡ plus
                (hits_in j c0.tables.kernels)
                (if j.cache_dir == path_str d then hits_of j.hash s.mem.begun else 0))
  threads_flush_counts d j {n} {s} r quiet b p e =
      let inv = Reach-Inv default c0 e r in
      let same = inv.free (all_idle-unlocked inv quiet) in
      let (l, h) = Reach-CallsIn d r b in
      let (none_left, counted) = flush_counts default d j s.mem.log c0 l p e in
      let all_hits : hits_of j.hash s.mem.log ≡ hits_of j.hash s.mem.begun = omega (
        arith,
        Reach-hits j.hash r,
        weigh-zero (held_hits j.hash) n s.pc (λ i lt. ap (held_hits j.hash) (quiet i lt)),
      ) in
      (
        same,
        ap (λ c. (flush none c).pending) same ∙ none_left,
        ap (λ c. hits_in j (flush none c).tables.kernels) same
            ∙ counted
            ∙ ap
                (λ x.
                  plus (hits_in j c0.tables.kernels) (if j.cache_dir == path_str d then x else 0))
                all_hits,
      )
