-- ===== src/Runtime/Threads/Laws.antt =====
-- Threads that record accesses together (runtime/tracker.py) do what one thread does that makes the
-- calls in the order of the lock.
use mathlib.Core.Path.{subst}
use mcu.Base.{ℕ, ◌<◌, ◌≡◌, refl, ap, sym, ◌∙◌, Bool, true, false, none, some}
use mcu.Base.{nat_eqb, Bool-cases, inl, inr, List, [], ◌∷◌, ◌++◌, arith}
use mcu.Base.Family.{set_at}
use mcu.Models.{FilePath}
use mcu.Runtime.{Collector, Call, run, record_access, persist_to_database}
use mcu.Runtime.Counts.{persist-enabled}
use mcu.Runtime.Threads.{Shared, Pc, idle, entering, appending, persisting, leaving, appended}
use mcu.Runtime.Threads.{Move, System, pick, init, Reach, start, later}

-- Between taking and releasing the lock.
abbrev pub critical : Pc → Bool
critical idle = false
critical (entering a) = false
critical _ = true

module _ (default : FilePath) where
  record_access-appended :
      (a : Call) (c : Collector)
      → c.enabled ≡ true
      → record_access default a.fault a.cache_key a.hit a.now a.cache_dir c
        ≡ persist_to_database a.fault (appended default a c)
  unfolding record_access
  record_access-appended a c e = rw (e, record_access) refl

  run-append :
      (calls : List Call) (a : Call) (c : Collector)
      → run default (calls ++ (a ∷ [])) c ≡ (
          let r = run default calls c in
          record_access default a.fault a.cache_key a.hit a.now a.cache_dir r)
  unfolding run
  run-append [] a c = refl
  run-append (b ∷ calls) a c =
      run-append calls a (record_access default b.fault b.cache_key b.hit b.now b.cache_dir c)

  module _ (c0 : Collector) where
    abbrev settled : Shared → Collector
    settled m = run default m.log c0

    -- What the place of a thread says about the collector.
    abbrev IsAt : Shared → Pc → Type 0
    IsAt m (appending a) = m.collector ≡ settled m
    IsAt m (persisting a) = m.collector ≡ appended default a (settled m)
    IsAt m leaving = m.collector ≡ settled m
    IsAt m _ = Unit

    pub record Inv (n : ℕ) (m : Shared) (pc : ℕ → Pc) : Type 0 where
      pub owner : (i : ℕ) → critical (pc i) ≡ true → m.lock ≡ some i
      pub held : (i : ℕ) → m.lock ≡ some i → (i < n) × (critical (pc i) ≡ true)
      pub enabled : m.collector.enabled ≡ true
      pub free : m.lock ≡ none → m.collector ≡ settled m
      pub place : (i : ℕ) → IsAt m (pc i)

    init-Inv : (n : ℕ) → c0.enabled ≡ true → Inv n (init default c0).mem (init default c0).pc
    unfolding run
    init-Inv n e = record {
      owner = λ i h. cc;
      held = λ i h. absurd (cc);
      enabled = e;
      free = λ h. refl;
      place = λ i. tt;
    }

    abbrev Guard : {i : ℕ} {m m' : Shared} {p p' : Pc} → Move default i m p m' p' → Type 0
    Guard {m} (Move.begin a g) = m.collector.enabled ≡ true
    Guard {m} (Move.skip g) = m.collector.enabled ≡ false
    Guard {m} (Move.acquire g) = m.lock ≡ none
    Guard _ = Unit

    guard : {i : ℕ} {m m' : Shared} {p p' : Pc} (mv : Move default i m p m' p') → Guard mv
    guard (Move.begin a g) = g
    guard (Move.skip g) = g
    guard (Move.acquire g) = g
    guard _ = tt

    module _ {n : ℕ} {m : Shared} {pc : ℕ → Pc} (inv : Inv n m pc) (i : ℕ) (lt : i < n) where
      Move-owner :
          {p p' : Pc} {m' : Shared}
          → Move default i m p m' p'
          → pc i ≡ p
          → (j : ℕ) → critical (set_at i p' pc j) ≡ true
          → m'.lock ≡ some j
      Move-owner Move.release e j h = ground (arith, inv.owner j, inv.owner i, inv.held i)
      Move-owner mv e j h = ground (arith, guard mv, inv.owner j, inv.owner i, inv.held i)

      Move-held :
          {p p' : Pc} {m' : Shared}
          → Move default i m p m' p'
          → pc i ≡ p
          → (j : ℕ) → m'.lock ≡ some j
          → (j < n) × (critical (set_at i p' pc j) ≡ true)
      Move-held Move.release e j h = ground (arith, inv.owner i, inv.held j)
      Move-held mv e j h = ground (arith, guard mv, inv.owner i, inv.held j)

      Move-enabled :
          {p p' : Pc} {m' : Shared} → Move default i m p m' p' → m'.collector.enabled ≡ true
      Move-enabled (Move.persist {a}) = persist-enabled a.fault m.collector ∙ inv.enabled
      Move-enabled mv = inv.enabled

      mine : {p : Pc} → pc i ≡ p → IsAt m p
      mine e = subst (IsAt m) e (inv.place i)

      -- What is said of the others holds if it does for those that are not in the lock.
      place-set_at :
          (m' : Shared) (p' : Pc)
          → IsAt m' p'
          → ((j : ℕ) → nat_eqb i j ≡ false → IsAt m' (pc j))
          → (j : ℕ) → IsAt m' (set_at i p' pc j)
      place-set_at m' p' here others j = elim (Bool-cases (nat_eqb i j)) [
        | inl y ↦ rw y here
        | inr differs ↦ rw differs (others j differs)
      ]

      outside :
          (m' : Shared) (j : ℕ) → critical (pc i) ≡ true → nat_eqb i j ≡ false → IsAt m' (pc j)
      outside m' j c d = ground (arith, inv.owner i, inv.owner j, c, d)

      Move-free :
          {p p' : Pc} {m' : Shared}
          → Move default i m p m' p'
          → pc i ≡ p
          → m'.lock ≡ none
          → m'.collector ≡ settled m'
      Move-free Move.release e f = mine e
      Move-free Move.append e f = absurd (cc (inv.owner i (ap critical e), f))
      Move-free Move.persist e f = absurd (cc (inv.owner i (ap critical e), f))
      Move-free (Move.acquire g) e f = cc
      Move-free (Move.begin a g) e f = inv.free f
      Move-free (Move.skip g) e f = inv.free f

      Move-place :
          {p p' : Pc} {m' : Shared}
          → Move default i m p m' p'
          → pc i ≡ p
          → (j : ℕ) → IsAt m' (set_at i p' pc j)
      Move-place (Move.begin a g) e =
          place-set_at (record m { begun = a ∷ m.begun }) (entering a) tt (λ j d. inv.place j)
      Move-place (Move.skip g) e = place-set_at m idle tt (λ j d. inv.place j)
      Move-place (Move.acquire {a} g) e =
          place-set_at (record m { lock = some i }) (appending a) (inv.free g) (λ j d. inv.place j)
      Move-place (Move.append {a}) e =
          place-set_at (record m { collector = appended default a m.collector }) (persisting a)
            (ap (appended default a) (mine e))
            (λ j d.
              outside (record m { collector = appended default a m.collector }) j (ap critical e) d)
      Move-place (Move.persist {a}) e =
          let m' : Shared = record m {
            collector = persist_to_database a.fault m.collector;
            log = m.log ++ (a ∷ []);
          } in
          place-set_at m' leaving
            (ap (persist_to_database a.fault) (mine e)
              ∙ sym (
                  run-append m.log a c0
                  ∙ record_access-appended a (settled m)
                      (ap (λ c. c.enabled) (sym (mine e)) ∙ inv.enabled)))
            (λ j d. outside m' j (ap critical e) d)
      Move-place Move.release e =
          place-set_at (record m { lock = none }) idle tt (λ j d. inv.place j)

      pub Move-Inv :
          {p' : Pc} {m' : Shared} → Move default i m (pc i) m' p' → Inv n m' (set_at i p' pc)
      Move-Inv mv = record {
        owner = Move-owner mv refl;
        held = Move-held mv refl;
        enabled = Move-enabled mv;
        free = Move-free mv refl;
        place = Move-place mv refl;
      }

    pub Reach-Inv :
        {n : ℕ} {s : System default} → c0.enabled ≡ true → Reach default n c0 s → Inv n s.mem s.pc
    Reach-Inv {n} e start = init-Inv n e
    Reach-Inv e (later r (pick i lt mv)) = Move-Inv (Reach-Inv e r) i lt mv
