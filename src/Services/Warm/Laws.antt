-- ===== src/Services/Warm/Laws.antt =====
-- What the warm command (services/warm.py, cli/main.py) reports.
use mcu.Base.{ℕ, zero, suc, ◌≡◌, refl, ap, ◌∙◌, Bool, true, false}
use mcu.Base.{Result, ok, err, Error, some, none, Option, arith, List, [], ◌∷◌}
use mcu.Base.{string_eq, list_eq, Bool-cases, inl, inr}
use mcu.Base.{if◌then◌else◌}
use mcu.Base.{◌≢◌, Result-cases}
use mcu.Cache.Disk.{Disk, path_exists}
use mcu.Services.Warm.{
  WarmEnv, WarmupService, WarmOptions, Ran, path_of, warm_report, Message, ran_well,
}
use mcu.Services.Warm.{exited, no_command, fails, starting, successful, failed, unexpected}
use mcu.Services.Warm.{podman_command, create_date_time_dir}
use mcu.Base.{exit}
use mcu.Services.Warm.{package_and_stat}
use mcu.Services.Warm.{run_container, warmup, execute_warm, make_service, image_of}
use mcu.Services.Warm.Archive.{package_and_stat-ok}

module _ (env : WarmEnv) (o : WarmOptions) (d : Disk) where
  -- The service of the command, and the run of its container.
  abbrev pub service : WarmupService
  service = make_service o.model o.hug_face_token o.vllm_cache_dir o.host_cache_dir

  abbrev pub container : Result Bool × WarmupService × Disk
  container = run_container env service (image_of o.rocm) o.rocm d

  report-fails : (r : Result Bool) → r ≢ ok true → (warm_report o r).1 ≡ some 1
  unfolding execute_warm
  report-fails (ok true) n = absurd (n refl)
  report-fails (ok false) n = refl
  report-fails (err e) n = refl

  -- What `warmup` returns, by the container.
  warmup-failed :
      (e : Error)
      → container.0 ≡ err e
      → (warmup env service (image_of o.rocm) o.output_file o.tarball o.rocm d).0 ≡ err e
  unfolding warmup
  warmup-failed e x = rw (x, warmup) refl

  warmup-false :
      container.0 ≡ ok false
      → (warmup env service (image_of o.rocm) o.output_file o.tarball o.rocm d).0 ≡ ok false
  unfolding warmup
  warmup-false x = rw (x, warmup) refl

  warmup-true :
      container.0 ≡ ok true
      → (warmup env service (image_of o.rocm) o.output_file o.tarball o.rocm d).0 ≡ (
          if o.tarball
          then (package_and_stat env container.1 o.output_file container.2).0
          else ok true)
  unfolding warmup
  warmup-true x = rw (x, warmup) (ground arith)

  warmup-plain :
      container.0 ≡ ok true
      → o.tarball ≡ false
      → (warmup env service (image_of o.rocm) o.output_file o.tarball o.rocm d).0 ≡ ok true
  warmup-plain x t = ground (arith, warmup-true x)

  warmup-ne-ok :
      o.tarball ≡ true
      → path_exists (path_of o.output_file) container.2 ≡ false
      → (warmup env service (image_of o.rocm) o.output_file o.tarball o.rocm d).0 ≢ ok true
  warmup-ne-ok t absent p = elim (Result-cases container.0) [
    | inl (e, x) ↦ cc (warmup-failed e x, p)
    | inr (b, x) ↦ elim (Bool-cases b) [
      | inl y ↦
          package_and_stat-ok env container.1 o.output_file container.2 absent
            (ground (arith, warmup-true (x ∙ ap ok y), p))
      | inr n ↦ cc (warmup-false (x ∙ ap ok n), p)
    ]
  ]

  -- The warm command with `--tarball` exits with 1 where nothing stands at the output path once the
  -- container has run, even if the container and the writing of the archive succeed: the archive is
  -- written under another name.
  pub warm_tarball_fails :
      o.tarball ≡ true
      → path_exists (path_of o.output_file) container.2 ≡ false
      → (execute_warm env o d).0.1 ≡ some 1
  unfolding execute_warm
  warm_tarball_fails t absent = report-fails _ (warmup-ne-ok t absent)

  -- What podman comes to for the command, run after the host directory was made.
  abbrev pub ran : Ran
  ran =
      let (host_cache_dir, d1) = create_date_time_dir env service d in
      (env.podman
        (podman_command (record service { host_cache_dir = host_cache_dir }) (image_of o.rocm)
          o.rocm)
        d1).0

  abbrev pub report_of : Ran → List Message × Option ℕ
  report_of (exited zero) = (starting o.model ∷ successful o.host_cache_dir ∷ [], none)
  report_of (exited (suc n)) = (starting o.model ∷ failed ∷ unexpected (exit 1) ∷ [], some 1)
  report_of no_command = (starting o.model ∷ failed ∷ unexpected (exit 1) ∷ [], some 1)
  report_of (fails e) = (starting o.model ∷ unexpected e ∷ [], some 1)

  container-ran : container.0 ≡ ran_well ran
  unfolding run_container
  container-ran = refl

  report-ran :
      (r : Ran)
      → container.0 ≡ ran_well r
      → o.tarball ≡ false
      → (execute_warm env o d).0 ≡ report_of r
  unfolding execute_warm ran_well
  report-ran (exited zero) x t = ap (warm_report o) (warmup-plain x t)
  report-ran (exited (suc n)) x t = ap (warm_report o) (warmup-false (ground (arith, x)))
  report-ran no_command x t = ap (warm_report o) (warmup-false x)
  report-ran (fails e) x t = ap (warm_report o) (warmup-failed e x)

  -- Without `--tarball` the command reports success exactly if the container exits with 0. If it
  -- exits with another status, or there is no podman, the command prints the failure and then its
  -- own exit as an unexpected error; whatever else was raised is printed; and it exits with 1.
  pub warm_lem : o.tarball ≡ false → (execute_warm env o d).0 ≡ report_of ran
  warm_lem t = report-ran ran container-ran t
