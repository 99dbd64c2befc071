-- ===== src/Tests/Threads.antt =====
-- Two threads that record a hit each; the second is first in the lock, and cannot persist
-- (runtime/tracker.py).
use mcu.Base.{
  ℕ, zero, suc, ◌<◌, ◌≡◌, refl, true, none, some, [], ◌∷◌, operational_error, if◌then◌else◌, arith,
}
use mcu.Base.{◌==◌, string_eq}
use mcu.Models.{FilePath}
use mcu.Data.Upsert.Laws.{key_of}
use mcu.Services.Strategy.{path_str}
use mcu.Runtime.{Call, Collector, run, flush}
use mcu.Runtime.Counts.{hits_in, plus}
use mcu.Runtime.History.{hits_of}
use mcu.Runtime.Threads.{Move, System, Reach, start, later, pick, idle}
use mcu.Runtime.Threads.Hits.{threads_flush_counts}
use mcu.Tests.Samples.{two_kernels}

abbrev collector : Collector
collector = record { enabled = true; pending = []; tables = two_kernels }

abbrev default : FilePath
default = "d" ∷ []

abbrev hit : Call
hit = record {
  fault = none;
  cache_key = "h1";
  hit = true;
  now = 5;
  cache_dir = some ("c" ∷ "h1" ∷ []);
}

abbrev failing : Call
failing = record hit { fault = some operational_error }

abbrev race : (s : System default) × Reach default 2 collector s
race = (
  _,
  later
      (later
        (later
          (later
            (later
              (later
                (later
                  (later
                    (later (later start (pick 0 (omega arith) (Move.begin hit refl)))
                      (pick 1 (omega arith) (Move.begin failing refl)))
                    (pick 1 (omega arith) (Move.acquire refl)))
                  (pick 1 (omega arith) Move.append))
                (pick 1 (omega arith) Move.persist))
              (pick 1 (omega arith) Move.release))
            (pick 0 (omega arith) (Move.acquire refl)))
          (pick 0 (omega arith) Move.append))
        (pick 0 (omega arith) Move.persist))
      (pick 0 (omega arith) Move.release),
)

all_idle : (i : ℕ) → i < 2 → race.0.pc i ≡ idle
all_idle zero h = refl
all_idle (suc zero) h = refl
all_idle (suc (suc i)) h = absurd (omega arith)

threads_flush_counts_example :
    let c' = flush none race.0.mem.collector in
    (race.0.mem.collector ≡ run default race.0.mem.log collector)
    × (c'.pending ≡ [])
    × (hits_in (key_of "h1" "/c") c'.tables.kernels
        ≡ plus
            (hits_in (key_of "h1" "/c") two_kernels.kernels)
            (if "/c" == path_str ("c" ∷ []) then hits_of "h1" (failing ∷ hit ∷ []) else 0))
threads_flush_counts_example =
    threads_flush_counts default collector ("c" ∷ []) (key_of "h1" "/c") race.1 all_idle
      (refl, (refl, tt)) refl refl
