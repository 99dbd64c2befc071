-- ===== src/Runtime/Manager.antt =====
-- `MCMTrackingCacheManager` (runtime/tracker.py). The cache manager of Triton that it wraps is a
-- parameter, with a state of its own; its methods may raise.
pub mod Laws
use mcu.Base.{ℕ, String, Bool, true, false, not, Option, none, some, List, [], ◌∷◌}
use mcu.Base.{Result, ok, err, Error, is_none}
use mcu.Base.Dict.{Dict}
use mcu.Models.{FilePath}
use mcu.Runtime.{Collector, or_default, record_access}

-- `FileCacheManager`; `cache_dir` is its attribute, where it has one. `D` is the type of the data.
pub record BaseManager (S D : Type 0) : Type 0 where
  pub cache_dir : Option FilePath
  pub get_file : String → S → Result (Option String) × S
  pub put : D → String → Bool → S → Result String × S
  pub get_group : String → S → Result (Option (Dict String String)) × S
  pub put_group : String → Dict String String → S → Result (Unit {0}) × S

pub record Manager (S D : Type 0) : Type 0 where
  pub full_cache_key : String
  pub base_manager : BaseManager S D
  pub cache_dir : FilePath

-- A call of one of the methods, and what it returns or raises.
pub data Op (D : Type 0) : Type 0 where
  get_file : String → Op D
  put : D → String → Bool → Op D
  get_group : String → Op D
  put_group : String → Dict String String → Op D

pub data Answer : Type 0 where
  file : Result (Option String) → Answer
  stored : Result String → Answer
  group : Result (Option (Dict String String)) → Answer
  grouped : Result (Unit {0}) → Answer

module _ {S D : Type 0} (default : FilePath) where
  -- `__init__`
  pub make_manager : String → BaseManager S D → Manager S D
  make_manager key base = record {
    full_cache_key = key;
    base_manager = base;
    cache_dir = or_default default base.cache_dir;
  }

  -- The access that `get_group` records once the wrapped method has returned; where that raises, no
  -- access is recorded. `fault` is that of the attempt to persist.
  pub record_group :
      Manager S D → Option Error → ℕ → Result (Option (Dict String String)) → Collector → Collector
  record_group m fault now (err e) c = c
  record_group m fault now (ok g) c =
      record_access default fault m.full_cache_key (not (is_none g)) now (some m.cache_dir) c

  -- A call of one of the methods.
  pub perform : Manager S D → Option Error → ℕ → Op D → S × Collector → Answer × S × Collector
  unfolding record_group
  perform m fault now (get_file n) (s, c) =
      let (r, s') = m.base_manager.get_file n s in (file r, s', c)
  perform m fault now (put v n b) (s, c) =
      let (r, s') = m.base_manager.put v n b s in (stored r, s', c)
  perform m fault now (get_group n) (s, c) =
      let (r, s') = m.base_manager.get_group n s in (group r, s', record_group m fault now r c)
  perform m fault now (put_group n g) (s, c) =
      let (r, s') = m.base_manager.put_group n g s in (grouped r, s', c)

  -- Calls one after another, each with the fault and the time of its access.
  unfoldable pub perform_all :
      Manager S D → List (Option Error × ℕ × Op D) → S × Collector → List Answer × S × Collector
  unfolding perform
  perform_all m [] (s, c) = ([], s, c)
  perform_all m ((fault, now, op) ∷ ops) (s, c) =
      let (a, s', c') = perform m fault now op (s, c) in
      let (answers, s'', c'') = perform_all m ops (s', c') in (a ∷ answers, s'', c'')
