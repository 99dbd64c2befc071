-- ===== src/Tests/Runtime.antt =====
-- Runs of the statistics collector (runtime/tracker.py).
use mcu.Base.{
  ◌≡◌, refl, ◌==◌, string_eq, true, false, none, some, List, [], ◌∷◌, operational_error,
  if◌then◌else◌,
}
use mcu.Data.Rows.{common_kernel_values}
use mcu.Data.Upsert.{upsert_kernel, find_row}
use mcu.Data.Upsert.Laws.{key_of}
use mcu.Services.Strategy.{path_str}
use mcu.Runtime.{Collector, Call, run, flush}
use mcu.Runtime.Manager.{BaseManager, Manager, Op, perform_all}
use mcu.Runtime.Manager.Laws.{all_alone, groups_found, perform_all_lem}
use mcu.Base.{ℕ, Option, Error, ok, ◌&&◌, String}
use mcu.Runtime.Counts.{hits_in, plus}
use mcu.Tests.Samples.{two_kernels}

abbrev collector : Collector
collector = record { enabled = true; pending = []; tables = two_kernels }

-- A hit whose attempt to persist fails, another hit, and a miss.
abbrev calls : List Call
calls =
    record {
      fault = some operational_error;
      cache_key = "h1";
      hit = true;
      now = 7;
      cache_dir = some ("c" ∷ "h1" ∷ []);
    }
    ∷ record {
      fault = none;
      cache_key = "h1";
      hit = true;
      now = 8;
      cache_dir = some ("c" ∷ "h1" ∷ []);
    }
    ∷ record {
      fault = none;
      cache_key = "h2";
      hit = false;
      now = 9;
      cache_dir = some ("c" ∷ "h2" ∷ []);
    }
    ∷ []

two_hits : hits_in (key_of "h1" "/c") (run ("d" ∷ []) calls collector).tables.kernels ≡ some 2
unfolding run find_row upsert_kernel common_kernel_values path_str
two_hits = refl

-- Two accesses below different directories, the first of which could not be persisted at once: its
-- hit is taken for one of the directory of the second.
abbrev mixed : List Call
mixed =
    record {
      fault = some operational_error;
      cache_key = "h1";
      hit = true;
      now = 7;
      cache_dir = some ("c" ∷ "h1" ∷ []);
    }
    ∷ record {
      fault = none;
      cache_key = "h2";
      hit = true;
      now = 8;
      cache_dir = some ("e" ∷ "h2" ∷ []);
    }
    ∷ []

lost_hit : hits_in (key_of "h1" "/c") (run ("d" ∷ []) mixed collector).tables.kernels ≡ some 0
unfolding run find_row upsert_kernel common_kernel_values path_str
lost_hit = refl

-- A wrapped manager that has one group, whatever its state.
abbrev base_manager : BaseManager (Unit {0}) String
base_manager = record {
  cache_dir = some ("c" ∷ "h1" ∷ []);
  get_file = λ n s. (ok none, s);
  put = λ v n b s. (ok n, s);
  get_group = λ n s. (ok (if n == "add.json" then some [] else none), s);
  put_group = λ n g s. (ok tt, s);
}

abbrev manager : Manager (Unit {0}) String
manager = record { full_cache_key = "h1"; base_manager = base_manager; cache_dir = "c" ∷ "h1" ∷ [] }

abbrev ops : List (Option Error × ℕ × Op String)
ops =
    (some operational_error, 7, Op.get_group "add.json")
    ∷ (none, 8, Op.get_group "sub.json")
    ∷ (none, 9, Op.put "x" "add.cubin" true)
    ∷ []

one_group : groups_found (perform_all ("d" ∷ []) manager ops (tt, collector)).0 ≡ 1
unfolding perform_all
one_group = refl

perform_all_lem_example :
    let (answers, s', c') = perform_all ("d" ∷ []) manager ops (tt, collector) in
    (answers ≡ (all_alone base_manager ops tt).0)
    × (s' ≡ (all_alone base_manager ops tt).1)
    × (hits_in (key_of "h1" "/c") (flush none c').tables.kernels
        ≡ plus (hits_in (key_of "h1" "/c") two_kernels.kernels) (
            if "/c" == path_str ("c" ∷ []) && manager.full_cache_key == "h1"
            then groups_found answers
            else 0))
perform_all_lem_example =
    perform_all_lem ("d" ∷ []) manager ops tt collector (key_of "h1" "/c") refl refl
