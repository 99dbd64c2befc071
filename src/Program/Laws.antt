-- ===== src/Program/Laws.antt =====
-- What holds of the two databases between the runs of the program (cli/main.py).
use mcu.Base.{
  String, Bool, true, false, Option, none, some, List, [], ◌∷◌, Eq, Result-cases, inl, inr,
}
use mcu.Base.{Option-cases}
use mcu.Models.{FilePath}
use mcu.Data.Rows.{Tables, kernel_key_eq, vllm_key_eq}
use mcu.Data.Upsert.Invariant.{IsWellFormed}
use mcu.Cache.Identifier.{triton, vllm}
use mcu.Services.Strategy.{triton_strategy, vllm_strategy}
use mcu.Runtime.{Call}
use mcu.Runtime.Invariant.{record_access-IsWellFormed}
use mcu.Cli.Commands.{CommonSearchOptions, resolve_mode}
use mcu.Cli.Commands.Invariant.{execute_prune-IsWellFormed}
use mcu.Cli.Index.Invariant.{execute_index-IsWellFormed}
use mcu.Program.{State, Run, index, list, prune, Event, command, disk_changes}
use mcu.Program.{tracker_starts, accesses, opened, stored, settings_in, opens, run_index, run_prune}
use mcu.Program.{run_list, list_opens, prune_opens, run_command, track, step, session}

module _ {K : Type 0} ⦃e : Eq K⦄ where
  -- A database is well formed if it is there.
  abbrev pub IsSound : Option (Tables K) → Type 0
  IsSound none = Unit
  IsSound (some t) = IsWellFormed t

  pub opened-IsWellFormed : (db : Option (Tables K)) → IsSound db → IsWellFormed (opened db)
  unfolding opened
  opened-IsWellFormed none h = record {
    unique_keys = tt;
    ids_below = tt;
    unique_ids = tt;
    owned = tt;
  }
  opened-IsWellFormed (some t) h = h

  stored-IsSound :
      (b : Bool) (db : Option (Tables K)) (t : Tables K)
      → IsSound db
      → IsWellFormed t
      → IsSound (stored b db t)
  unfolding stored
  stored-IsSound false db t h h' = h
  stored-IsSound true db t h h' = h'

pub record IsConsistent (st : State) : Type 0 where
  pub triton_sound : IsSound st.triton_db
  pub vllm_sound : IsSound st.vllm_db

run_index-IsConsistent :
    (r : Run) (mode : Option String) (cache_dir : Option FilePath) (st : State)
    → IsConsistent st
    → IsConsistent (run_index r mode cache_dir st).1
unfolding run_index
run_index-IsConsistent r mode cache_dir st h =
    let s = settings_in st r in
    let (t_sound, v_sound) =
      execute_index-IsWellFormed s r.index_env mode cache_dir st.disk (opened st.triton_db)
        (opened st.vllm_db) (opened-IsWellFormed st.triton_db h.triton_sound)
        (opened-IsWellFormed st.vllm_db h.vllm_sound) in
    elim (Option-cases (opens s mode cache_dir st.disk)) [
      | inl p ↦ rw (run_index, p) h
      | inr (triton, p) ↦
          rw (run_index, p) (record { triton_sound = t_sound; vllm_sound = h.vllm_sound })
      | inr (vllm, p) ↦
          rw (run_index, p) (record { triton_sound = h.triton_sound; vllm_sound = v_sound })
    ]

run_list-IsConsistent :
    (r : Run) (o : CommonSearchOptions) (st : State)
    → IsConsistent st
    → IsConsistent (run_list r o st).1
unfolding run_list
run_list-IsConsistent r o st h =
    let s = settings_in st r in
    elim (Result-cases (resolve_mode s o.mode o.cache_dir st.disk)) [
      | inl (x, p) ↦ rw (run_list, p) h
      | inr (triton, p) ↦
          rw (run_list, p)
            (record {
              triton_sound =
                  stored-IsSound (list_opens s o triton) st.triton_db _ h.triton_sound
                    (opened-IsWellFormed st.triton_db h.triton_sound);
              vllm_sound = h.vllm_sound;
            })
      | inr (vllm, p) ↦
          rw (run_list, p)
            (record {
              triton_sound = h.triton_sound;
              vllm_sound =
                  stored-IsSound (list_opens s o vllm) st.vllm_db _ h.vllm_sound
                    (opened-IsWellFormed st.vllm_db h.vllm_sound);
            })
    ]

run_prune-IsConsistent :
    (r : Run) (o : CommonSearchOptions) (full deduplicate auto_confirm : Bool) (st : State)
    → IsConsistent st
    → IsConsistent (run_prune r o full deduplicate auto_confirm st).1
unfolding run_prune
run_prune-IsConsistent r o full deduplicate auto_confirm st h =
    let s = settings_in st r in
    elim (Result-cases (resolve_mode s o.mode o.cache_dir st.disk)) [
      | inl (x, p) ↦ rw (run_prune, p) h
      | inr (triton, p) ↦
          rw (run_prune, p)
            (record {
              triton_sound =
                  stored-IsSound (prune_opens s o triton st.disk) st.triton_db _ h.triton_sound (
                    execute_prune-IsWellFormed s triton_strategy r.env o full deduplicate
                      auto_confirm st.disk (opened st.triton_db)
                      (opened-IsWellFormed st.triton_db h.triton_sound));
              vllm_sound = h.vllm_sound;
            })
      | inr (vllm, p) ↦
          rw (run_prune, p)
            (record {
              triton_sound = h.triton_sound;
              vllm_sound = stored-IsSound (prune_opens s o vllm st.disk) st.vllm_db _ h.vllm_sound (
                  execute_prune-IsWellFormed s vllm_strategy r.vllm_env o full deduplicate
                    auto_confirm st.disk (opened st.vllm_db)
                    (opened-IsWellFormed st.vllm_db h.vllm_sound));
            })
    ]

track-IsConsistent :
    (default : FilePath) (a : Call) (st : State)
    → IsConsistent st
    → IsConsistent (track default a st)
unfolding track
track-IsConsistent default a st h = record {
  triton_sound =
      record_access-IsWellFormed default a.fault a.cache_key a.hit a.now a.cache_dir _
        (opened-IsWellFormed st.triton_db h.triton_sound);
  vllm_sound = h.vllm_sound;
}

step-IsConsistent : (e : Event) (st : State) → IsConsistent st → IsConsistent (step e st)
unfolding step run_command
step-IsConsistent (command r (index mode cache_dir)) st h =
    run_index-IsConsistent r mode cache_dir st h
step-IsConsistent (command r (list o)) st h = run_list-IsConsistent r o st h
step-IsConsistent (command r (prune o full deduplicate auto_confirm)) st h =
    run_prune-IsConsistent r o full deduplicate auto_confirm st h
step-IsConsistent (disk_changes d) st h = record {
  triton_sound = h.triton_sound;
  vllm_sound = h.vllm_sound;
}
step-IsConsistent tracker_starts st h = record {
  triton_sound = opened-IsWellFormed st.triton_db h.triton_sound;
  vllm_sound = h.vllm_sound;
}
step-IsConsistent (accesses default a) st h = track-IsConsistent default a st h

-- Whatever commands are run in whatever order, with any options, settings, faults and answers, while
-- other programs change the disk and tracked processes store their accesses: if both databases are
-- well formed at first, or not there, so they are in the end. Well formed: primary keys are unique,
-- file ids increase and stay below the next one, every file row has its kernel row.
pub session-IsConsistent :
    (es : List Event) (st : State) → IsConsistent st → IsConsistent (session es st)
unfolding session
session-IsConsistent [] st h = h
session-IsConsistent (e ∷ es) st h = session-IsConsistent es (step e st) (step-IsConsistent e st h)
