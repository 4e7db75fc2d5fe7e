-- ===== src/Worker/Selected.antt =====
-- src/worker.rs: which crons a worker starts with.
use pgspawn.Prelude.{
  ◌≡◌, ◌≢◌, refl, sym, subst, ◌⊎◌, inl, inr, true, false, Option, none, some, String, List, [], ◌∷◌,
  arith, ok, ◌↔◌, Bool-cases, any_by, filter_by,
}
use pgspawn.Environment.{Environment, env_eq}
use pgspawn.Schedule.{CronJob}
use pgspawn.Schedule.Build.{is_enabled_in}
use pgspawn.Worker.Config.{WorkerConfig}
use pgspawn.Worker.Start.{start_crons, select_crons, Starts, start_crons-Starts}

-- The environment is among those of the list.
abbrev pub Has : Environment → List Environment → Type 0
Has environment [] = ⊥
Has environment (e ∷ es) = (e ≡ environment) ⊎ Has environment es

env_eq_refl : (e : Environment) → env_eq e e ≡ true
env_eq_refl e = ground arith

env_eq-same : (a b : Environment) → a ≡ b → env_eq a b ≡ true
env_eq-same a b e = subst (λ i. env_eq a i ≡ true) e (env_eq_refl a)

same-env_eq : (a b : Environment) → env_eq a b ≡ true → a ≡ b
same-env_eq a b h = ground (arith, h)

Has-any :
    (environment : Environment) (es : List Environment)
    → Has environment es
    → any_by (λ e. env_eq e environment) es ≡ true
Has-any environment [] h = absurd h
Has-any environment (e ∷ es) (inl same) = ground (arith, env_eq-same e environment same)
Has-any environment (e ∷ es) (inr h) = ground (arith, Has-any environment es h)

any-Has :
    (environment : Environment) (es : List Environment)
    → any_by (λ e. env_eq e environment) es ≡ true
    → Has environment es
any-Has environment [] h = absurd (ground arith)
any-Has environment (e ∷ es) h = elim (Bool-cases (env_eq e environment)) [
  | inl same ↦ inl (same-env_eq e environment same)
  | inr other ↦ inr (any-Has environment es (ground (arith, h, other)))
]

module _ {Value TimeZone : Type 0} where
  -- `left` are the crons that have the environment, in their order.
  abbrev pub Selects : Environment → (crons left : List (CronJob Value TimeZone)) → Type 0
  Selects environment [] left = left ≡ []
  Selects environment (cron ∷ crons) left =
      (Has environment cron.environments
        × ((rest : List (CronJob Value TimeZone)) × (left ≡ cron ∷ rest)
            × Selects environment crons rest))
      ⊎ ((¬ Has environment cron.environments) × Selects environment crons left)

  abbrev enabled : Environment → List (CronJob Value TimeZone) → List (CronJob Value TimeZone)
  enabled environment = filter_by (λ c. is_enabled_in c environment)

  not_enabled :
      (environment : Environment) (cron : CronJob Value TimeZone)
      → is_enabled_in cron environment ≡ false
      → ¬ Has environment cron.environments
  unfolding is_enabled_in
  not_enabled environment cron h has = ground (arith, h, Has-any environment cron.environments has)

  enabled-Selects :
      (environment : Environment) (crons : List (CronJob Value TimeZone))
      → Selects environment crons (enabled environment crons)
  unfolding is_enabled_in
  enabled-Selects environment [] = refl
  enabled-Selects environment (cron ∷ crons) = elim (Bool-cases (is_enabled_in cron environment)) [
    | inl t ↦ inl (
      any-Has environment cron.environments (ground (arith, t)),
      (enabled environment crons, ground (arith, t), enabled-Selects environment crons),
    )
    | inr t ↦ inr (
      not_enabled environment cron (ground (arith, t)),
      subst (Selects environment crons) {x = enabled environment crons} (ground (arith, t))
          (enabled-Selects environment crons),
    )
  ]

  Selects-enabled :
      (environment : Environment) (crons left : List (CronJob Value TimeZone))
      → Selects environment crons left
      → enabled environment crons ≡ left
  unfolding is_enabled_in
  Selects-enabled environment [] left h = sym h
  Selects-enabled environment (cron ∷ crons) left (inl (has, (rest, same, h))) = ground (
    arith,
    same,
    Has-any environment cron.environments has,
    Selects-enabled environment crons rest h,
  )
  Selects-enabled environment (cron ∷ crons) left (inr (lacks, h)) =
      elim (Bool-cases (is_enabled_in cron environment)) [
        | inl t ↦ absurd (lacks (any-Has environment cron.environments (ground (arith, t))))
        | inr t ↦ ground (arith, t, Selects-enabled environment crons left h)
      ]

  -- No crons at all; or an environment is set, and `left` are the crons that have it.
  abbrev pub IsSelection :
      Option Environment → (crons left : List (CronJob Value TimeZone)) → Type 0
  IsSelection environment crons left =
      ((crons ≡ []) × (left ≡ []))
      ⊎ ((crons ≢ []) × ((e : Environment) × (environment ≡ some e) × Selects e crons left))

  select_crons-IsSelection :
      (environment : Option Environment) (crons left : List (CronJob Value TimeZone))
      → select_crons environment crons ≡ ok left
      → IsSelection environment crons left
  select_crons-IsSelection environment [] left h = inl (refl, ground (arith, h))
  select_crons-IsSelection none (c ∷ cs) left h = absurd (ground arith)
  select_crons-IsSelection (some e) (c ∷ cs) left h = inr (
    (λ x. ground (arith, x)),
    (e, refl, subst (Selects e (c ∷ cs)) (ground (arith, h)) (enabled-Selects e (c ∷ cs))),
  )

  IsSelection-select_crons :
      (environment : Option Environment) (crons left : List (CronJob Value TimeZone))
      → IsSelection environment crons left
      → select_crons environment crons ≡ ok left
  IsSelection-select_crons environment [] left (inl (_, e)) = ground (arith, e)
  IsSelection-select_crons environment [] left (inr (x, _)) = absurd (x refl)
  IsSelection-select_crons environment (c ∷ cs) left (inl (x, _)) = absurd (ground (arith, x))
  IsSelection-select_crons none (c ∷ cs) left (inr (_, (e, x, _))) = absurd (ground (arith, x))
  IsSelection-select_crons (some d) (c ∷ cs) left (inr (_, (e, x, h))) = ground (
    arith,
    Selects-enabled d (c ∷ cs) left
        (subst (λ i. Selects i (c ∷ cs) left) {x = e} {y = d} (ground (arith, x)) h),
  )

  -- A worker starts with the crons `left` exactly when the configuration is sound, there are handlers, every
  -- cron has a handler and an environment, no two crons share an identifier, and either there are no crons
  -- at all, or an environment is set and `left` are the crons that have it among theirs, all of them and no
  -- others, in their order.
  pub start_crons-IsSelection :
      (config : WorkerConfig) (names : List String) (crons left : List (CronJob Value TimeZone))
      → (start_crons config names crons ≡ ok left)
        ↔ (Starts config names crons × IsSelection config.environment crons left)
  start_crons-IsSelection config names crons left =
      let both = start_crons-Starts config names crons left in
      (
        (λ h. ((both.0 h).0, select_crons-IsSelection config.environment crons left (both.0 h).1)),
        (λ h. both.1 (h.0, IsSelection-select_crons config.environment crons left h.1)),
      )
