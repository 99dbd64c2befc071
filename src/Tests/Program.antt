-- ===== src/Tests/Program.antt =====
-- Sessions of the whole program (cli/main.py), from a state without databases.
use mathlib.Core.List.{Mem, mem-cons_self}
use mcu.Base.{◌≡◌, refl, true, false, none, some, List, [], ◌∷◌, string_eq}
use mcu.Data.Rows.{KernelKey, Row, kernel_key_eq, vllm_key_eq}
use mcu.Data.Upsert.Laws.{key_of}
use mcu.Cache.Disk.{path_exists, node_at, iterdir}
use mcu.Services.Strategy.{path_str}
use mcu.Runtime.{Call}
use mcu.Cli.Options.{get_older_younger, check_hits_num}
use mcu.Cli.Commands.{table, exits}
use mcu.Program.{State, Run, Event, command, disk_changes, tracker_starts, accesses, index, list}
use mcu.Program.{prune, triton_report, run_list, run_prune, run_index, session}
use mcu.Program.Laws.{IsConsistent, session-IsConsistent}
use mcu.Program.Pruned.{having, IsTritonQuery, list_after_prune}
use mcu.Program.Indexed.{all_in, list_after_index}
use mcu.Program.Unopened.{unopened, session-unopened}
use mcu.Tests.Order.{newest_first, newest_first-IsOrderBy}
use mcu.Tests.Samples.{root, disk, two_kernels}
use mcu.Tests.Data.{two_kernels-IsWellFormed}
use mcu.Tests.Services.{env, env-TritonGet, vllm_env}
use mcu.Models.{Kernel}
use mcu.Base.Dict.{get}
use mcu.Base.Text.{suffix, ends_with}
use mcu.Index.Files.{parts}
use mcu.Index.Validator.{deserialize_kernel}
use mcu.Index.Repository.{kernels}
use mcu.Index.Service.Latest.{yielded}
use mcu.Tests.Index.{cache, k1, files, validate}
use mcu.Tests.IndexCommand.{index_env}
use mcu.Tests.Cli.{settings}

abbrev run : Run
run = record { settings = settings; index_env = index_env; env = env; vllm_env = vllm_env }

abbrev fresh : State
fresh = unopened cache []

fresh-IsConsistent : IsConsistent fresh
fresh-IsConsistent = record { triton_sound = tt; vllm_sound = tt }

abbrev hit : Call
hit = record {
  fault = none;
  cache_key = "h1";
  hit = true;
  now = 5;
  cache_dir = some ("c" ∷ "h1" ∷ []);
}

-- Index, count a hit, prune the duplicates, lose the disk, prune all.
abbrev events : List Event
events =
    command run (index (some "triton") (some root))
    ∷ tracker_starts
    ∷ accesses root hit
    ∷ command run (prune (all_in root) false true true)
    ∷ disk_changes []
    ∷ command run (prune (all_in root) true false true)
    ∷ []

session-IsConsistent_example : IsConsistent (session events fresh)
session-IsConsistent_example = session-IsConsistent events fresh fresh-IsConsistent

query : IsTritonQuery run (all_in root) root none none
unfolding get_older_younger check_hits_num
query = record { mode = refl; cache_dir = refl; bounds = refl; cutoffs = refl }

root_is_there : path_exists root disk ≡ true
unfolding node_at
root_is_there = refl

list_after_prune_example :
    (run_list run
      (all_in root)
      (run_prune run (all_in root) true false true (having disk two_kernels none [])).1).0
    ≡ triton_report (table [])
list_after_prune_example =
    list_after_prune run (all_in root) root none none query none [] newest_first disk two_kernels
      env-TritonGet newest_first-IsOrderBy refl two_kernels-IsWellFormed root_is_there

abbrev before_index : List Event
before_index =
    command run (list (all_in root))
    ∷ disk_changes disk
    ∷ command run (prune (all_in root) true false true)
    ∷ []

session-unopened_example : session before_index fresh ≡ unopened disk []
session-unopened_example = session-unopened before_index cache [] (refl, (refl, (refl, tt)))

no_database_test : (run_list run (all_in root) fresh).0 ≡ triton_report (exits 1)
unfolding run_list
no_database_test = refl

abbrev first_or : Kernel → List Kernel → Kernel
first_or k [] = k
first_or k (x ∷ ks) = x

-- The kernel that is read in the directory.
abbrev read : Kernel
read = first_or k1 (yielded (kernels validate files root cache))

read_there : Mem read (yielded (kernels validate files root cache))
unfolding kernels deserialize_kernel node_at iterdir parts get suffix ends_with
read_there = mem-cons_self

cache_is_there : path_exists root cache ≡ true
unfolding node_at
cache_is_there = refl

list_after_index_example :
    (rows : List (Row KernelKey)) × ((run_list run
        (all_in root)
        (run_index run (some "triton") (some root) fresh).1).0
      ≡ triton_report (table rows))
    × (row : Row KernelKey) × Mem row rows
    × (row.key ≡ key_of read.hash (path_str root))
list_after_index_example =
    list_after_index run root fresh newest_first read newest_first-IsOrderBy refl refl
      cache_is_there read_there
