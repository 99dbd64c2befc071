-- ===== src/Program/Unopened.antt =====
-- Runs of the program before any database is made (cli/main.py, cli/cli_helpers.py).
use mathlib.Core.Bool.{false≢true}
use mcu.Base.{◌≡◌, refl, ap, ◌∙◌, Bool, true, false, none, List, [], ◌∷◌, All}
use mcu.Base.{Result-cases, inl, inr, exit}
use mcu.Data.Rows.{kernel_key_eq, vllm_key_eq}
use mcu.Cache.Disk.{Disk}
use mcu.Cache.Identifier.{triton, vllm}
use mcu.Services.Strategy.{triton_strategy, vllm_strategy}
use mcu.Runtime.{CacheAccessRecord}
use mcu.Cli.Commands.{CommonSearchOptions, resolve_mode}
use mcu.Cli.Commands.Laws.{check_options-missing, execute_prune-refused}
use mcu.Program.{State, Run, index, list, prune, Event, command, disk_changes, tracker_starts}
use mcu.Program.{
  accesses, settings_in, opened, stored, run_prune, run_list, list_opens, prune_opens, run_command,
  step, session,
}

-- A state without databases.
abbrev pub unopened : Disk → List CacheAccessRecord → State
unopened d pending = record { disk = d; triton_db = none; vllm_db = none; pending = pending }

-- Neither an index nor anything that a tracker does.
abbrev pub opens_none : Event → Bool
opens_none (command r (index mode cache_dir)) = false
opens_none (command r c) = true
opens_none (disk_changes d) = true
opens_none tracker_starts = false
opens_none (accesses default a) = false

-- What the other programs last made of the disk.
abbrev pub last_disk : List Event → Disk → Disk
last_disk [] d = d
last_disk (disk_changes d' ∷ es) d = last_disk es d'
last_disk (e ∷ es) d = last_disk es d

run_list-unopened :
    (r : Run) (o : CommonSearchOptions) (d : Disk) (pending : List CacheAccessRecord)
    → (run_list r o (unopened d pending)).1 ≡ unopened d pending
unfolding run_list list_opens stored
run_list-unopened r o d pending =
    let s = settings_in (unopened d pending) r in
    elim (Result-cases (resolve_mode s o.mode o.cache_dir d)) [
      | inl (x, p) ↦ rw (run_list, p) refl
      | inr (triton, p) ↦ rw (run_list, p) refl
      | inr (vllm, p) ↦ rw (run_list, p) refl
    ]

run_prune-unopened :
    (r : Run) (o : CommonSearchOptions) (full deduplicate auto_confirm : Bool) (d : Disk)
    (pending : List CacheAccessRecord)
    → (run_prune r o full deduplicate auto_confirm (unopened d pending)).1 ≡ unopened d pending
unfolding run_prune triton_strategy vllm_strategy stored prune_opens
run_prune-unopened r o full deduplicate auto_confirm d pending =
    let s = settings_in (unopened d pending) r in
    elim (Result-cases (resolve_mode s o.mode o.cache_dir d)) [
      | inl (x, p) ↦ rw (run_prune, p) refl
      | inr (triton, p) ↦
          rw (run_prune, p)
            (ap (λ out. record (unopened d pending) { disk = out.1 })
              (execute_prune-refused s triton_strategy r.env o full deduplicate auto_confirm d
                (opened none) (exit 1) (check_options-missing s o triton refl)))
      | inr (vllm, p) ↦
          rw (run_prune, p)
            (ap (λ out. record (unopened d pending) { disk = out.1 })
              (execute_prune-refused s vllm_strategy r.vllm_env o full deduplicate auto_confirm d
                (opened none) (exit 1) (check_options-missing s o vllm refl)))
    ]

-- From a state without databases, as long as no index command is run and no process is tracked: no list
-- or prune command, whatever its options, brings a database into being or changes the disk, which is
-- what other programs last made of it.
pub session-unopened :
    (es : List Event) (d : Disk) (pending : List CacheAccessRecord)
    → All (λ e. opens_none e ≡ true) es
    → session es (unopened d pending) ≡ unopened (last_disk es d) pending
unfolding session step run_command
session-unopened [] d pending h = refl
session-unopened (command r (index mode cache_dir) ∷ es) d pending (x, h) = absurd (false≢true x)
session-unopened (command r (list o) ∷ es) d pending (x, h) =
    ap (session es) (run_list-unopened r o d pending) ∙ session-unopened es d pending h
session-unopened (command r (prune o full deduplicate auto_confirm) ∷ es) d pending (x, h) =
    ap (session es) (run_prune-unopened r o full deduplicate auto_confirm d pending)
    ∙ session-unopened es d pending h
session-unopened (disk_changes d' ∷ es) d pending (x, h) = session-unopened es d' pending h
session-unopened (tracker_starts ∷ es) d pending (x, h) = absurd (false≢true x)
session-unopened (accesses default a ∷ es) d pending (x, h) = absurd (false≢true x)
