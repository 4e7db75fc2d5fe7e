-- ===== src/Worker/Start.antt =====
-- src/worker.rs: the checks at the start of `run_until_shutdown`, and the crons that the worker runs.
use pgspawn.Prelude.{
  ◌≡◌, refl, Bool, true, false, not, Option, none, some, String, text_eq, if◌then◌else◌, List, [],
  ◌∷◌, any_by, filter_by, Result, ok, err, ◌>>=◌, arith, Bool-cases, inl, inr, All, All-map,
  All-zip, Pairwise, Result-cases, ◌↔◌,
}
use pgspawn.Environment.{Environment}
use pgspawn.Schedule.{CronJob}
use pgspawn.Schedule.Build.{is_empty, is_enabled_in}
use pgspawn.Worker.Config.{
  WorkerConfig, WorkerError, empty_registry, invalid_config, missing_cron_handler,
  duplicate_cron_identifier, empty_cron_environments, validate, IsSound, validate-IsSound,
}

abbrev pub contains : List String → String → Bool
contains names name = any_by (λ n. text_eq n name) names

module _ {Value TimeZone : Type 0} where
  -- The loop over the crons; `cron_identifiers` holds those seen before. Its warning is a log line.
  unfoldable pub check_crons :
      (names cron_identifiers : List String)
      → List (CronJob Value TimeZone)
      → Result (Unit {0}) WorkerError
  check_crons names cron_identifiers [] = ok tt
  check_crons names cron_identifiers (cron ∷ crons) =
      let rest = check_crons names (cron.identifier ∷ cron_identifiers) crons in
      if not (contains names cron.name)
      then err (missing_cron_handler cron.name)
      else if contains cron_identifiers cron.identifier
      then err (duplicate_cron_identifier cron.identifier)
      else if is_empty cron.environments
      then err (empty_cron_environments cron.identifier)
      else rest

  abbrev pub select_crons :
      Option Environment
      → List (CronJob Value TimeZone)
      → Result (List (CronJob Value TimeZone)) WorkerError
  select_crons environment [] = ok []
  select_crons none (cron ∷ crons) =
      err (invalid_config "environment must be set when cron schedules are attached")
  select_crons (some environment) (cron ∷ crons) =
      ok (filter_by (λ c. is_enabled_in c environment) (cron ∷ crons))

  -- The checks in their order, and the crons that are left.
  unfoldable pub start_crons :
      WorkerConfig
      → (names : List String) → List (CronJob Value TimeZone)
      → Result (List (CronJob Value TimeZone)) WorkerError
  start_crons config names crons = do
    checked ← validate config
    if is_empty names
        then err empty_registry
        else do checked ← check_crons names [] crons; select_crons config.environment crons

  abbrev pub IsAttached : List String → CronJob Value TimeZone → Type 0
  IsAttached names c = (contains names c.name ≡ true) × (is_empty c.environments ≡ false)

  abbrev Fits : (names seen : List String) → List (CronJob Value TimeZone) → Type 0
  Fits names seen crons =
      All (λ c. IsAttached names c × (contains seen c.identifier ≡ false)) crons
      × Pairwise (λ c d. text_eq c.identifier d.identifier ≡ false) crons

  check_crons-forth :
      (names seen : List String) (crons : List (CronJob Value TimeZone))
      → check_crons names seen crons ≡ ok tt
      → Fits names seen crons
  unfolding check_crons
  check_crons-forth names seen [] e = (tt, tt)
  check_crons-forth names seen (c ∷ cs) e =
      let rest = check_crons-forth names (c.identifier ∷ seen) cs (ground arith) in
      (
        (
          ((ground arith, ground arith), ground arith),
          All-map cs (λ d a. (a.0, ground (arith, a.1))) rest.0,
        ),
        (All-map cs (λ d a. ground (arith, a.1)) rest.0, rest.1),
      )

  check_crons-back :
      (names seen : List String) (crons : List (CronJob Value TimeZone))
      → Fits names seen crons
      → check_crons names seen crons ≡ ok tt
  unfolding check_crons
  check_crons-back names seen [] e = refl
  check_crons-back names seen (c ∷ cs) e =
      let rest =
        check_crons-back names (c.identifier ∷ seen) cs
          (All-zip cs (λ d a b. (a.0, ground (arith, a.1, b))) e.0.1 e.1.0, e.1.1) in
      ground (arith, rest, e.0.0)

  -- What a start promises: a sound configuration, some handlers, and crons that each have a handler and
  -- an environment and are told apart by their identifiers.
  abbrev pub Starts : WorkerConfig → List String → List (CronJob Value TimeZone) → Type 0
  Starts config names crons =
      IsSound config
      × (is_empty names ≡ false)
      × All (IsAttached names) crons
      × Pairwise (λ c d. text_eq c.identifier d.identifier ≡ false) crons

  -- A start succeeds exactly when the promise holds, with what is selected.
  pub start_crons-Starts :
      (config : WorkerConfig) (names : List String) (crons left : List (CronJob Value TimeZone))
      → (start_crons config names crons ≡ ok left)
        ↔ (Starts config names crons × (select_crons config.environment crons ≡ ok left))
  unfolding start_crons
  start_crons-Starts config names crons left = (
    λ e. elim (Result-cases (validate config)) [
      | inr (x, p) ↦ absurd (ground (arith, p, e))
      | inl (u, p) ↦ elim (Bool-cases (is_empty names)) [
        | inl none_left ↦ absurd (ground (arith, p, e, none_left))
        | inr some_left ↦ elim (Result-cases (check_crons names [] crons)) [
          | inr (x, q) ↦ absurd (ground (arith, p, e, some_left, q))
          | inl (w, q) ↦
              let fits = check_crons-forth names [] crons q in
              (
                (
                  (validate-IsSound config).0 p,
                  some_left,
                  All-map crons (λ c a. a.0) fits.0,
                  fits.1,
                ),
                ground (arith, p, e, some_left, q),
              )
        ]
      ]
    ],
    λ h.
        let (sound, some_left, attached, apart) = h.0 in
        let valid = (validate-IsSound config).1 sound in
        let checked =
          check_crons-back names [] crons (All-map crons (λ c a. (a, refl)) attached, apart) in
        rw (valid, some_left, checked) h.1,
  )
