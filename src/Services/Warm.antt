-- ===== src/Services/Warm.antt =====
-- `WarmupService` (services/warm.py) and the warm command (cli/main.py). The container, the clock,
-- the creation of the host directory and the writing of the archive are parameters.
pub mod Archive
pub mod Laws
use mcu.Base.{ℕ, String, ◌<>◌, Bool, true, false, Option, none, some, List, [], ◌∷◌, ◌++◌}
use mcu.Base.{Result, ok, err, Error, file_not_found, os_error, exit, if◌then◌else◌}
use mcu.Base.{◌==◌, nat_eq, string_eq, list_eq}
use mcu.Base.Dict.{Dict, put}
use mcu.Base.Text.{stem}
use mcu.Models.{FilePath}
use mcu.Cache.Disk.{Disk, file, dir, path_exists, is_dir, is_file, ◌//◌}

-- What `subprocess.run(command, check=True)` comes to: an exit status, `FileNotFoundError` for the
-- command, or another exception.
pub data Ran : Type 0 where
  exited : ℕ → Ran
  no_command : Ran
  fails : Error → Ran

-- `archive` is the size of the archive that `shutil.make_archive` writes, or what it raises, by the
-- base name and the directory packed; `broken_archive` is the disk after it has raised.
pub record WarmEnv : Type 0 where
  pub timestamp : String
  pub makedirs : String → Disk → Disk
  pub podman : List String → Disk → Ran × Disk
  pub mkdir_denied : FilePath → Bool
  pub archive : FilePath → String → Disk → Result ℕ
  pub broken_archive : FilePath → Disk → Disk

pub record WarmupService : Type 0 where
  pub model : String
  pub hface_secret : Option String
  pub vllm_cache_dir : String
  pub host_cache_dir : String

-- A path with a name, such as the one of the output file.
pub record NamedPath : Type 0 where
  pub parent : FilePath
  pub name : String

abbrev pub path_of : NamedPath → FilePath
path_of p = p.parent // p.name

-- `__init__`
unfoldable pub make_service : String → Option String → String → String → WarmupService
make_service model hface_secret vllm_cache_dir host_cache_dir = record {
  model = model;
  hface_secret = hface_secret;
  vllm_cache_dir = if vllm_cache_dir == "" then "/root/.cache/vllm" else vllm_cache_dir;
  host_cache_dir = host_cache_dir;
}

-- `env["HF_TOKEN"]`, where the secret is neither `None` nor empty
token_flags : Option String → List String
token_flags none = []
token_flags (some s) = if s == "" then [] else "-e" ∷ ("HF_TOKEN=" <> s) ∷ []

env_flags : WarmupService → List String
unfolding token_flags
env_flags s =
    "-e"
    ∷ ("MODEL_NAME=" <> s.model)
    ∷ "-e"
    ∷ ("VLLM_CACHE_ROOT=" <> s.vllm_cache_dir)
    ∷ token_flags s.hface_secret

backend_cmd : Bool → List String
backend_cmd true =
    "--ipc=host" ∷ "--network=host" ∷ "--cap-add=CAP_SYS_ADMIN" ∷ "--device=/dev/kfd"
    ∷ "--device=/dev/dri" ∷ "--device=/dev/mem" ∷ "--group-add" ∷ "render" ∷ "--cap-add=SYS_PTRACE"
    ∷ "--security-opt" ∷ "seccomp=unconfined" ∷ []
backend_cmd false = "--device" ∷ "nvidia.com/gpu=all" ∷ []

-- The command of `_run_container`, for a service whose host directory is the new one.
unfoldable pub podman_command : WarmupService → String → Bool → List String
unfolding env_flags backend_cmd
podman_command s image rocm =
    ("podman" ∷ "run" ∷ "--privileged" ∷ "-it" ∷ backend_cmd rocm)
    ++ (env_flags s
        ++ ("--volume" ∷ (((s.host_cache_dir <> ":") <> s.vllm_cache_dir) <> ":Z,rw") ∷ image ∷ []))

-- `_create_date_time_dir`: its exceptions are logged, and the name is returned all the same.
pub create_date_time_dir : WarmEnv → WarmupService → Disk → String × Disk
create_date_time_dir env s d =
    let dir_name = (s.host_cache_dir <> "/cache_") <> env.timestamp in
    (dir_name, env.makedirs dir_name d)

-- The `try` of `_run_container`.
pub ran_well : Ran → Result Bool
ran_well (exited n) = ok (n == 0)
ran_well no_command = ok false
ran_well (fails e) = err e

unfoldable pub run_container :
    WarmEnv → WarmupService → String → Bool → Disk → Result Bool × WarmupService × Disk
unfolding podman_command create_date_time_dir ran_well
run_container env s image rocm d =
    let (host_cache_dir, d1) = create_date_time_dir env s d in
    let s' : WarmupService = record s { host_cache_dir = host_cache_dir } in
    let (r, d2) = env.podman (podman_command s' image rocm) d1 in (ran_well r, s', d2)

-- `mkdir(parents=True, exist_ok=True)` of `p` and the names below it.
pub mkdir : WarmEnv → FilePath → Disk → Result (Unit {0}) × Disk
mkdir env p d =
    if is_dir p d
    then (ok tt, d)
    else if is_file p d
    then (err os_error, d)
    else if env.mkdir_denied p
    then (err os_error, d)
    else (ok tt, put p dir d)

pub mkdir_parents : WarmEnv → FilePath → List String → Disk → Result (Unit {0}) × Disk
unfolding mkdir
mkdir_parents env p [] d = (ok tt, d)
mkdir_parents env p (n ∷ names) d =
    let (r, d') = mkdir env (p // n) d in
    elim r [ err e ↦ (err e, d') | ok u ↦ mkdir_parents env (p // n) names d' ]

-- The name that `make_archive` gives to the archive.
abbrev pub archive_path : NamedPath → FilePath
archive_path output = output.parent // (stem output.name <> ".tar.gz")

-- `shutil.make_archive`, which overwrites a file and not a directory
pub make_archive : WarmEnv → WarmupService → NamedPath → Disk → Result (Unit {0}) × Disk
make_archive env s output d =
    if is_dir (archive_path output) d
    then (err os_error, d)
    else (elim (env.archive (output.parent // stem output.name) s.host_cache_dir d) [
      | err e ↦ (err e, env.broken_archive (archive_path output) d)
      | ok size ↦ (ok tt, put (archive_path output) (file size) d)
    ])

-- `_package_cache`
pub package_cache : WarmEnv → WarmupService → NamedPath → Disk → Result (Unit {0}) × Disk
unfolding mkdir_parents make_archive
package_cache env s output d =
    let (r, d') = mkdir_parents env [] output.parent d in
    elim r [ err e ↦ (err e, d') | ok u ↦ make_archive env s output d' ]

-- `except (OSError, shutil.Error)`
abbrev pub is_os_error : Error → Bool
is_os_error file_not_found = true
is_os_error os_error = true
is_os_error _ = false

-- `warmup` after the container, where a tarball is asked for: `stat` raises on what is not there.
pub package_and_stat : WarmEnv → WarmupService → NamedPath → Disk → Result Bool × Disk
unfolding package_cache
package_and_stat env s output d =
    let (r, d') = package_cache env s output d in
    (
      elim r [
        | ok u ↦ ok (path_exists (path_of output) d')
        | err e ↦ if is_os_error e then ok false else err e
      ],
      d',
    )

pub warmup :
    WarmEnv
    → WarmupService
    → String
    → NamedPath
    → Bool
    → Bool
    → Disk
    → Result Bool × WarmupService × Disk
unfolding run_container package_and_stat
warmup env s image output tarball rocm d =
    let (r, s', d') = run_container env s image rocm d in
    elim r [
      | err e ↦ (err e, s', d')
      | ok false ↦ (ok false, s', d')
      | ok true ↦
          if tarball
          then (let (r', d'') = package_and_stat env s' output d' in (r', s', d''))
          else (ok true, s', d')
    ]

-- `WarmOptions`
pub record WarmOptions : Type 0 where
  pub model : String
  pub output_file : NamedPath
  pub host_cache_dir : String
  pub hug_face_token : Option String
  pub vllm_cache_dir : String
  pub tarball : Bool
  pub rocm : Bool

-- What the command prints.
pub data Message : Type 0 where
  starting successful : String → Message
  failed : Message
  unexpected : Error → Message

abbrev image_of : Bool → String
image_of true = "quay.io/rh-ee-asangior/vllm-0.9.1-tcm-warm-rocm:0.0.1"
image_of false = "quay.io/rh-ee-asangior/vllm-0.9.2-tcm-warm:0.0.2"

-- `typer.Exit` is a `RuntimeError`, so the last `except` catches the exit of a failed warm-up too.
pub warm_report : WarmOptions → Result Bool → List Message × Option ℕ
warm_report o (ok true) = (starting o.model ∷ successful o.host_cache_dir ∷ [], none)
warm_report o (ok false) = (starting o.model ∷ failed ∷ unexpected (exit 1) ∷ [], some 1)
warm_report o (err e) = (starting o.model ∷ unexpected e ∷ [], some 1)

-- `_execute_warm_command`: what it prints, the status that it exits with, if any, and the disk.
unfoldable pub execute_warm : WarmEnv → WarmOptions → Disk → (List Message × Option ℕ) × Disk
unfolding make_service warmup warm_report
execute_warm env o d =
    let s = make_service o.model o.hug_face_token o.vllm_cache_dir o.host_cache_dir in
    let (r, s', d') = warmup env s (image_of o.rocm) o.output_file o.tarball o.rocm d in
    (warm_report o r, d')
