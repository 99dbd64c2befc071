-- ===== src/Index/Plugins.antt =====
-- `_get_plugins` of data/cache_repo.py: threads that load the plugins on their first use. A step is
-- one access to the shared cell or to the lock. `P` is the type of the dictionary of plugins, and
-- `discovered` is what `discover_plugins` makes of it.
pub mod Laws
pub mod Ends
use mcu.Base.{ℕ, suc, ◌+◌, ◌<◌, ◌≡◌, Bool, true, false, Option, none, some}
use mcu.Base.Family.{set_at}

-- `_PLUGINS_CACHE`, the thread that holds `_PLUGINS_LOCK`, and how often plugins were discovered.
pub record Shared (P : Type 0) : Type 0 where
  pub cache : Option P
  pub lock : Option ℕ
  pub loads : ℕ

-- Where a call of `_get_plugins` stands.
pub data Pc (P : Type 0) : Type 0 where
  called : Pc P  -- before the first test of the cell
  waiting : Pc P  -- before the lock is taken
  locked : Pc P  -- before the second test
  loading : Pc P  -- before the assignment
  leaving : Pc P  -- before the lock is released
  reading : Pc P  -- before the cell is read for the answer
  answered : Option P → Pc P

module _ {P : Type 0} (discovered : P) where
  -- One step of the thread `i`. A thread that waits for the lock has no step while it is held.
  pub data Move (i : ℕ) (m : Shared P) : Pc P → Shared P → Pc P → Type 0 where
    see_none : m.cache ≡ none → Move i m called m waiting
    see_some : {p : P} → m.cache ≡ some p → Move i m called m reading
    acquire : m.lock ≡ none → Move i m waiting (record m { lock = some i }) locked
    still_none : m.cache ≡ none → Move i m locked m loading
    now_some : {p : P} → m.cache ≡ some p → Move i m locked m leaving
    load : Move i m loading (record m { cache = some discovered; loads = suc m.loads }) leaving
    release : Move i m leaving (record m { lock = none }) reading
    answer : Move i m reading m (answered m.cache)

  pub record System : Type 0 where
    pub mem : Shared P
    pub pc : ℕ → Pc P

  -- Any of the first `n` threads moves.
  pub data Step (n : ℕ) (s : System) : System → Type 0 where
    pick :
        (i : ℕ) {m : Shared P} {p : Pc P}
        → i < n
        → Move i s.mem (s.pc i) m p
        → Step n s (record { mem = m; pc = set_at i p s.pc })

  -- Every thread calls, and nothing is loaded.
  abbrev pub init : System
  init = record { mem = record { cache = none; lock = none; loads = 0 }; pc = λ i. called }

  -- The states that are reached in `k` steps.
  pub data Reach (n : ℕ) : ℕ → System → Type 0 where
    start : Reach n 0 init
    later : {k : ℕ} {s t : System} → Reach n k s → Step n s t → Reach n (suc k) t
