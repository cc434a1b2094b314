-- ===== src/Batch/Settings.antt =====
-- concurrent-execution-handler.ts: the settings that a call checks before it runs anything, and
-- `termination-manager`, which it tells of a fault. `decimal` writes a number in decimal, as the
-- platform does.
use aws_durable_execution_sd.Common.{
  ℕ, zero, suc, ◌≡◌, ◌↔◌, ◌⊎◌, refl, Bool, true, false, ◌&&◌, ◌||◌, Option, none, some, ◌++◌, codes,
  Text, is_some, if◌then◌else◌, arith,
}
use aws_durable_execution_sd.Termination.{TerminationManager, terminate, config_validation_error}
use aws_durable_execution_sd.Batch.{CompletionConfig}

abbrev fault : Text → TerminationManager Text → TerminationManager Text
fault message t =
    (terminate t (record {
      reason = some config_validation_error;
      message = some message;
      error = some message;
    })).0

-- The whole numbers: `pos n` is n, and `negsuc n` is -(n + 1).
pub data ℤ : Type 0 where
  pos negsuc : ℕ → ℤ

-- The settings as the caller gives them; those that pass the checks have a positive limit.
pub record GivenConfig (Percent : Type 0) : Type 0 where
  pub max_concurrency : Option ℤ
  pub completion_config : Option (CompletionConfig Percent)

-- `maxConcurrency <= 0`
abbrev is_at_most_zero : ℤ → Bool
is_at_most_zero (pos zero) = true
is_at_most_zero (pos (suc n)) = false
is_at_most_zero (negsuc n) = true

abbrev pub IsPositive : Option ℤ → Type 0
IsPositive none = Unit {0}
IsPositive (some x) = (n : ℕ) × (x ≡ pos (suc n))

module _ (decimal : ℤ → Text) where
  unfoldable pub validate_max_concurrency :
      Option ℤ → TerminationManager Text → Bool × TerminationManager Text
  unfolding terminate
  validate_max_concurrency none t = (true, t)
  validate_max_concurrency (some limit) t =
      if is_at_most_zero limit
      then (
        false,
        fault
            (codes "Invalid maxConcurrency: "
              ++ decimal limit
              ++ codes ". Must be a positive number or undefined for unlimited concurrency.")
            t,
      )
      else (true, t)

  validate_max_concurrency_lem :
      (limit : Option ℤ) (t : TerminationManager Text)
      → (((validate_max_concurrency limit t).0 ≡ true) ↔ IsPositive limit)
        × ((validate_max_concurrency limit t).0 ≡ true → (validate_max_concurrency limit t).1 ≡ t)
        × ((validate_max_concurrency limit t).0 ≡ false
            → (validate_max_concurrency limit t).1.is_terminated ≡ true)
  unfolding validate_max_concurrency
  validate_max_concurrency_lem none t =
      ((λ _. tt, λ _. refl), λ _. refl, λ h. absurd (ground arith))
  validate_max_concurrency_lem (some (pos zero)) t = (
    (λ h. absurd (ground (arith, h)), λ p. absurd (ground (arith, p.1))),
    λ h. absurd (ground (arith, h)),
    λ h. ground arith,
  )
  validate_max_concurrency_lem (some (pos (suc n))) t =
      ((λ h. (n, refl), λ _. refl), λ _. refl, λ h. absurd (ground (arith, h)))
  validate_max_concurrency_lem (some (negsuc n)) t = (
    (λ h. absurd (ground (arith, h)), λ p. absurd (ground (arith, p.1))),
    λ h. absurd (ground (arith, h)),
    λ h. ground arith,
  )

module _ {Percent : Type 0} (decimal : ℤ → Text) where
  abbrev mixes : CompletionConfig Percent → Bool
  mixes c =
      is_some c.should_complete
      && (is_some c.min_successful
          || is_some c.tolerated_failure_count
          || is_some c.tolerated_failure_percentage)

  unfoldable pub validate_completion_config :
      Option (CompletionConfig Percent) → TerminationManager Text → Bool × TerminationManager Text
  unfolding terminate
  validate_completion_config none t = (true, t)
  validate_completion_config (some c) t =
      if mixes c
      then (
        false,
        fault
            (codes
              "completionConfig.shouldComplete is mutually exclusive with minSuccessful, toleratedFailureCount, and toleratedFailurePercentage")
            t,
      )
      else (true, t)

  -- Both checks of the handler, in its order: whether the call goes on.
  unfoldable pub validate_settings :
      GivenConfig Percent → TerminationManager Text → Bool × TerminationManager Text
  unfolding validate_completion_config validate_max_concurrency
  validate_settings config t =
      let (fine, t') = validate_max_concurrency decimal config.max_concurrency t in
      if fine then validate_completion_config config.completion_config t' else (false, t')

  -- The settings that a call accepts.
  pub record IsValid (config : GivenConfig Percent) : Type 0 where
    pub positive : IsPositive config.max_concurrency
    pub exclusive :
        (c : CompletionConfig Percent)
        → config.completion_config ≡ some c
        → (c.should_complete ≡ none)
          ⊎ ((c.min_successful ≡ none)
              × (c.tolerated_failure_count ≡ none)
              × (c.tolerated_failure_percentage ≡ none))

  -- A call goes on just when its limit is absent or positive, among the whole numbers, and it does
  -- not combine a custom predicate with a threshold; it then leaves the termination manager alone, and
  -- otherwise the invocation is terminated.
  pub validate_settings_iff :
      (config : GivenConfig Percent) (t : TerminationManager Text)
      → (((validate_settings config t).0 ≡ true) ↔ IsValid config)
        × ((validate_settings config t).0 ≡ true → (validate_settings config t).1 ≡ t)
        × ((validate_settings config t).0 ≡ false
            → (validate_settings config t).1.is_terminated ≡ true)
  unfolding validate_settings
  validate_settings_iff config t = (
    (
      λ h. record {
        positive =
            (validate_max_concurrency_lem decimal config.max_concurrency t).0.0 (ground (arith, h));
        exclusive = λ c e. ground (arith, h, e);
      },
      λ v. accepted config.max_concurrency config.completion_config v.positive v.exclusive,
    ),
    ground arith,
    ground arith,
  )
    where
      accepted :
          (limit : Option ℤ) (o : Option (CompletionConfig Percent))
          → IsPositive limit
          → ((c : CompletionConfig Percent)
              → o ≡ some c
              → (c.should_complete ≡ none)
                ⊎ ((c.min_successful ≡ none)
                    × (c.tolerated_failure_count ≡ none)
                    × (c.tolerated_failure_percentage ≡ none)))
          → (let (fine, t') = validate_max_concurrency decimal limit t in
              if fine then validate_completion_config o t' else (false, t')).0
            ≡ true
      accepted (some (pos zero)) o p x = absurd (ground (arith, p.1))
      accepted (some (negsuc n)) o p x = absurd (ground (arith, p.1))
      accepted (some (pos (suc n))) none p x = refl
      accepted none none p x = refl
      accepted (some (pos (suc n))) (some c) p x = ground (arith, x c refl)
      accepted none (some c) p x = ground (arith, x c refl)
