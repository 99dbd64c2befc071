-- ===== src/Runtime/Threads.antt =====
-- Threads that record accesses together (runtime/tracker.py). A step is the test of `_enabled`, an
-- operation on `_lock`, or one of the two statements that it guards.
pub mod Laws
pub mod Hits
use mcu.Base.{ℕ, ◌<◌, ◌≡◌, Bool, true, false, Option, none, some, List, [], ◌∷◌, ◌++◌}
use mcu.Base.Family.{set_at}
use mcu.Models.{FilePath}
use mcu.Runtime.{Collector, Call, CacheAccessRecord, or_default, persist_to_database}

-- The collector and the thread that holds its lock; the calls that have passed the test, the last one
-- first, and those that have been through the lock, in the order in which they were.
pub record Shared : Type 0 where
  pub collector : Collector
  pub lock : Option ℕ
  pub begun : List Call
  pub log : List Call

-- Where a thread stands in `record_access`.
pub data Pc : Type 0 where
  idle : Pc
  entering : Call → Pc  -- before the lock is taken
  appending : Call → Pc
  persisting : Call → Pc
  leaving : Pc  -- before the lock is released

module _ (default : FilePath) where
  -- `self._pending_records.append(CacheAccessRecord(…))`
  abbrev pub appended : Call → Collector → Collector
  appended a c = record c {
    pending =
        c.pending
        ++ (record {
          cache_key = a.cache_key;
          hit = a.hit;
          timestamp = a.now;
          cache_dir = or_default default a.cache_dir;
        }
            ∷ []);
  }

  -- One step of the thread `i`. The environment chooses the calls.
  pub data Move (i : ℕ) (m : Shared) : Pc → Shared → Pc → Type 0 where
    begin :
        (a : Call)
        → m.collector.enabled ≡ true
        → Move i m idle (record m { begun = a ∷ m.begun }) (entering a)
    skip : m.collector.enabled ≡ false → Move i m idle m idle
    acquire :
        {a : Call}
        → m.lock ≡ none
        → Move i m (entering a) (record m { lock = some i }) (appending a)
    append :
        {a : Call}
        → Move i m (appending a) (record m { collector = appended a m.collector }) (persisting a)
    persist :
        {a : Call}
        → Move i m
            (persisting a)
            (record m {
              collector = persist_to_database a.fault m.collector;
              log = m.log ++ (a ∷ []);
            })
            leaving
    release : Move i m leaving (record m { lock = none }) idle

  pub record System : Type 0 where
    pub mem : Shared
    pub pc : ℕ → Pc

  -- Any of the first `n` threads moves.
  pub data Step (n : ℕ) (s : System) : System → Type 0 where
    pick :
        (i : ℕ) {m : Shared} {p : Pc}
        → i < n
        → Move i s.mem (s.pc i) m p
        → Step n s (record { mem = m; pc = set_at i p s.pc })

  abbrev pub init : Collector → System
  init c = record {
    mem = record { collector = c; lock = none; begun = []; log = [] };
    pc = λ i. idle;
  }

  -- The states that are reached from the collector `c`.
  pub data Reach (n : ℕ) (c : Collector) : System → Type 0 where
    start : Reach n c (init c)
    later : {s t : System} → Reach n c s → Step n s t → Reach n c t
