-- ===== src/Commands/Gate.antt =====
-- The policy gate of an update by hand.
use freshdock.Prelude.{
  ℕ, ◌≡◌, ◌≢◌, refl, ap, inl, inr, ◌⊎◌, true, false, not, ◌||◌, Option, ◌∷◌, Text, Result,
  Result-cases, ok, err, Bool-cases, arith,
}
use freshdock.Labels.Values.{Mode, live, nightly, weekly, monthly, watch, off, LabelError}
use freshdock.Labels.{Policy, parse_policy}
use freshdock.Config.{ResolvedSettings, policy_defaults}
use freshdock.Daemon.Types.{ContainerSpec}
use freshdock.Daemon.Calls.{Call, History, Daemon}
use freshdock.Health.{HealthConfig}
use freshdock.Commands.Recreate.{RunError, not_opted_in, labels_or_empty, is_off, update, run_with}

is_off-ne : (mode : Mode) → is_off mode ≡ false → mode ≢ off
is_off-ne mode e is = let both = ap is_off is in cc

ne-is_off : (mode : Mode) → mode ≢ off → is_off mode ≡ false
ne-is_off live ne = refl
ne-is_off nightly ne = refl
ne-is_off weekly ne = refl
ne-is_off monthly ne = refl
ne-is_off watch ne = refl
ne-is_off off ne = absurd (ne refl)

-- The gate's test of a policy that opts in.
passes :
    (policy : Policy)
    → policy.enabled ≡ true
    → policy.mode ≢ off
    → (not policy.enabled || is_off policy.mode) ≡ false
passes policy on ne = rw (on, ne-is_off policy.mode ne)

module _ (d : Daemon) (fuel : ℕ) (name : Text) (health : HealthConfig) (settings : ResolvedSettings)
    (own_id_prefix : Option Text) (h : History) where
  -- The labels opt the container in.
  abbrev pub OptsIn : ContainerSpec → Policy → Type 0
  OptsIn s policy =
      (d.inspect h name ≡ ok s)
      × (parse_policy (labels_or_empty s.config.labels) (policy_defaults settings) ≡ ok policy)
      × (policy.enabled ≡ true)
      × (policy.mode ≢ off)

  -- An update of a container that its labels opt in, or an error after the inspect alone.
  abbrev pub IsGated : Type 0
  IsGated =
      ((s : ContainerSpec) × (policy : Policy) × OptsIn s policy
        × (run_with d fuel name health settings own_id_prefix h
            ≡ update d fuel name health settings own_id_prefix s policy (Call.inspect name ∷ h)))
      ⊎ ((e : RunError) × ((s : ContainerSpec) (policy : Policy) → ¬ (OptsIn s policy))
          × (run_with d fuel name health settings own_id_prefix h ≡ (err e, Call.inspect name ∷ h)))

  -- One inspect has one answer, and it one policy.
  abbrev read : ContainerSpec → Result Policy LabelError
  read s = parse_policy (labels_or_empty s.config.labels) (policy_defaults settings)

  same_policy :
      (s s' : ContainerSpec) → d.inspect h name ≡ ok s → d.inspect h name ≡ ok s' → read s ≡ read s'
  same_policy s s' found found' = let same : s ≡ s' = cc in ap read same

  refused :
      (s : ContainerSpec) (policy : Policy)
      → d.inspect h name ≡ ok s
      → read s ≡ ok policy
      → (not policy.enabled || is_off policy.mode) ≡ true
      → (s' : ContainerSpec) (policy' : Policy) → ¬ (OptsIn s' policy')
  refused s policy found good out s' policy' (found', good', on, ne) =
      let same = same_policy s s' found found' in
      let equal : policy ≡ policy' = cc in let pass = rw (← equal) at (passes policy' on ne) in cc

  -- An update by hand runs exactly where the container's labels, under the fleet's defaults, enable it
  -- in a mode other than `off`; otherwise the one call that is made is the inspect.
  pub run_with-IsGated : IsGated
  unfolding run_with
  run_with-IsGated = elim (Result-cases (d.inspect h name)) [
    | inr (e, failed) ↦
        inr (RunError.docker e, (λ s policy (found, good, on, ne). cc), rw failed refl)
    | inl (s, found) ↦
        elim (Result-cases
          (parse_policy (labels_or_empty s.config.labels) (policy_defaults settings))) [
            | inr (e, bad) ↦ inr (
              RunError.labels e,
              (λ s' policy (found', good, on, ne). let same = same_policy s s' found found' in cc),
              rw (found, bad) refl,
            )
            | inl (policy, good) ↦ elim (Bool-cases (not policy.enabled || is_off policy.mode)) [
              | inl out ↦ inr (
                not_opted_in name policy.enabled policy.mode,
                refused s policy found good out,
                rw (found, good, out) refl,
              )
              | inr into ↦ inl (
                s,
                policy,
                (found, good, ground arith, is_off-ne policy.mode (ground arith)),
                rw (found, good, into) refl,
              )
            ]
          ]
  ]
