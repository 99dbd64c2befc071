-- ===== src/Tests/Plugins.antt =====
-- Two threads that both find no plugins (data/cache_repo.py).
use mcu.Base.{ℕ, ◌*◌, ◌≤◌, ◌<◌, ◌≡◌, ◌⊎◌, refl, true, some, Option, arith}
use mcu.Base.Dict.{Dict}
use mcu.Base.{String}
use mcu.Index.Validator.{plugins}
use mcu.Index.Plugins.{Move, System, Step, Reach, start, later, pick, answered}
use mcu.Index.Plugins.Laws.{critical, plugins_loaded_once}
use mcu.Index.Plugins.Ends.{calls_end}

abbrev Plugins : Type 0
Plugins = Dict String (Dict String String)

-- Both see an empty cell; the second takes the lock only after the first has loaded the plugins.
race : (s : System plugins) × Reach plugins 2 8 s × (s.pc 0 ≡ answered (some plugins))
race = (
  _,
  later
      (later
        (later
          (later
            (later
              (later
                (later (later start (pick 0 (omega arith) (Move.see_none refl)))
                  (pick 1 (omega arith) (Move.see_none refl)))
                (pick 0 (omega arith) (Move.acquire refl)))
              (pick 0 (omega arith) (Move.still_none refl)))
            (pick 0 (omega arith) Move.load))
          (pick 0 (omega arith) Move.release))
        (pick 1 (omega arith) (Move.acquire refl)))
      (pick 0 (omega arith) Move.answer),
  refl,
)

abbrev State : Type 0
State = System plugins

plugins_loaded_once_example :
    (race.0.mem.loads ≤ 1)
    × ((i j : ℕ) → critical (race.0.pc i) ≡ true → critical (race.0.pc j) ≡ true → i ≡ j)
    × ((i : ℕ) (v : Option Plugins) → race.0.pc i ≡ answered v → v ≡ some plugins)
plugins_loaded_once_example = plugins_loaded_once plugins race.1

calls_end_example :
    (8 ≤ 2 * 6)
    × (((i : ℕ) → i < 2 → race.0.pc i ≡ answered (some plugins))
        ⊎ ((t : State) × Step plugins 2 race.0 t))
calls_end_example = calls_end plugins race.1
