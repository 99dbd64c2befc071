-- ===== src/Index/Plugins/Laws.antt =====
-- The lazy loading of data/cache_repo.py: what holds in every state that is reached.
use mcu.Base.{ℕ, ◌≤◌, ◌<◌, ◌≡◌, ◌⊎◌, refl, Bool, true, false, Option, none, some}
use mcu.Base.{is_none, if◌then◌else◌, arith}
use mcu.Base.Family.{set_at}
use mcu.Index.Plugins.{Shared, Pc, locked, loading, leaving, reading, answered}
use mcu.Index.Plugins.{Move, System, pick, init, Reach, start, later}

module _ {P : Type 0} where
  -- Between taking and releasing the lock.
  abbrev pub critical : Pc P → Bool
  critical locked = true
  critical loading = true
  critical leaving = true
  critical _ = false

module _ {P : Type 0} (discovered : P) where
  -- What the place of a call says about the cell.
  abbrev pub IsKnown : Shared P → Pc P → Type 0
  IsKnown m loading = m.cache ≡ none
  IsKnown m leaving = m.cache ≡ some discovered
  IsKnown m reading = m.cache ≡ some discovered
  IsKnown m (answered v) = v ≡ some discovered
  IsKnown m _ = Unit

  pub record Inv (n : ℕ) (m : Shared P) (pc : ℕ → Pc P) : Type 0 where
    pub owner : (i : ℕ) → critical (pc i) ≡ true → m.lock ≡ some i
    pub held : (i : ℕ) → m.lock ≡ some i → (i < n) × (critical (pc i) ≡ true)
    pub once : m.loads ≡ (if is_none m.cache then 0 else 1)
    pub cell : (m.cache ≡ none) ⊎ (m.cache ≡ some discovered)
    pub known : (i : ℕ) → IsKnown m (pc i)

  init-Inv : (n : ℕ) → Inv n (init discovered).mem (init discovered).pc
  init-Inv n = record {
    owner = λ i h. cc;
    held = λ i h. absurd (cc);
    once = refl;
    cell = ground arith;
    known = λ i. tt;
  }

  -- The premise of a move.
  abbrev Guard : {i : ℕ} {m m' : Shared P} {p p' : Pc P} → Move discovered i m p m' p' → Type 0
  Guard {i} {m} (Move.see_none g) = m.cache ≡ none
  Guard {i} {m} (Move.see_some {p} g) = m.cache ≡ some p
  Guard {i} {m} (Move.acquire g) = m.lock ≡ none
  Guard {i} {m} (Move.still_none g) = m.cache ≡ none
  Guard {i} {m} (Move.now_some {p} g) = m.cache ≡ some p
  Guard _ = Unit

  guard : {i : ℕ} {m m' : Shared P} {p p' : Pc P} (mv : Move discovered i m p m' p') → Guard mv
  guard (Move.see_none g) = g
  guard (Move.see_some g) = g
  guard (Move.acquire g) = g
  guard (Move.still_none g) = g
  guard (Move.now_some g) = g
  guard _ = tt

  module _ {n : ℕ} {m : Shared P} {pc : ℕ → Pc P} (inv : Inv n m pc) (i : ℕ) (lt : i < n) where
    Move-owner :
        {p p' : Pc P} {m' : Shared P}
        → Move discovered i m p m' p'
        → pc i ≡ p
        → (j : ℕ) → critical (set_at i p' pc j) ≡ true
        → m'.lock ≡ some j
    Move-owner Move.load e j h = ground (arith, inv.owner j, inv.owner i, inv.held i)
    Move-owner mv e j h = ground (arith, guard mv, inv.owner j, inv.owner i, inv.held i)

    Move-held :
        {p p' : Pc P} {m' : Shared P}
        → Move discovered i m p m' p'
        → pc i ≡ p
        → (j : ℕ) → m'.lock ≡ some j
        → (j < n) × (critical (set_at i p' pc j) ≡ true)
    Move-held Move.load e j h = ground (arith, inv.owner i, inv.held j)
    Move-held mv e j h = ground (arith, guard mv, inv.owner i, inv.held j)

    Move-once :
        {p p' : Pc P} {m' : Shared P}
        → Move discovered i m p m' p'
        → pc i ≡ p
        → m'.loads ≡ (if is_none m'.cache then 0 else 1)
    Move-once Move.load e = ground (arith, inv.once, inv.known i)
    Move-once mv e = ground (arith, inv.once, inv.known i)

    Move-cell :
        {p p' : Pc P} {m' : Shared P}
        → Move discovered i m p m' p'
        → (m'.cache ≡ none) ⊎ (m'.cache ≡ some discovered)
    Move-cell Move.load = ground (arith, inv.cell)
    Move-cell mv = ground (arith, inv.cell)

    Move-IsKnown :
        {p p' : Pc P} {m' : Shared P}
        → Move discovered i m p m' p'
        → pc i ≡ p
        → (j : ℕ) → IsKnown m' (set_at i p' pc j)
    Move-IsKnown Move.load e j =
        ground (arith, inv.cell, inv.known i, inv.known j, inv.owner i, inv.owner j)
    Move-IsKnown mv e j =
        ground (arith, guard mv, inv.cell, inv.known i, inv.known j, inv.owner i, inv.owner j)

    pub Move-Inv :
        {p' : Pc P} {m' : Shared P} → Move discovered i m (pc i) m' p' → Inv n m' (set_at i p' pc)
    Move-Inv mv = record {
      owner = Move-owner mv refl;
      held = Move-held mv refl;
      once = Move-once mv refl;
      cell = Move-cell mv;
      known = Move-IsKnown mv refl;
    }

  pub Reach-Inv : {n k : ℕ} {s : System discovered} → Reach discovered n k s → Inv n s.mem s.pc
  Reach-Inv {n} start = init-Inv n
  Reach-Inv (later r (pick i lt mv)) = Move-Inv (Reach-Inv r) i lt mv

  -- Plugins are discovered at most once, two calls are never between taking and releasing the lock
  -- together, and every call that has been answered has got the plugins.
  pub plugins_loaded_once :
      {n k : ℕ} {s : System discovered}
      → Reach discovered n k s
      → (s.mem.loads ≤ 1)
        × ((i j : ℕ) → critical (s.pc i) ≡ true → critical (s.pc j) ≡ true → i ≡ j)
        × ((i : ℕ) (v : Option P) → s.pc i ≡ answered v → v ≡ some discovered)
  plugins_loaded_once {n} {s = s} r = (
    ground (arith, inv.once),
    λ i j h k. cc (inv.owner i h, inv.owner j k),
    λ i v e. ground (arith, inv.known i, e),
  )
    where
      inv : Inv n s.mem s.pc
      inv = Reach-Inv r
