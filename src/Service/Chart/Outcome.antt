-- ===== src/Service/Chart/Outcome.antt =====
-- How the attempts to install a chart end.
use abctl.Common.{
  false, Bool-cases, inl, inr, ◌⊎◌, ℕ, zero, suc, ◌+◌, ◌≡◌, refl, arith, List, ◌∷◌, Error, errorf,
  Result, Result-cases, ok, err,
}
use abctl.Effects.{Call, World, ChartSpec, and_then}
use abctl.Effects.Invariants.{Ensures, finally, else-Ensures}
use abctl.Service.{airbyte_namespace, err_helm_stuck}
use abctl.Service.Chart.{
  ChartRequest, chart_spec, is_stuck, delete_release_secrets, after_attempt, attempts,
  install_chart, handle_chart,
}
use abctl.Service.Chart.Attempts.{installs}

module _ (w : World) where
  -- The latest call installed the chart, with that answer.
  abbrev pub IsLatest : ChartSpec → Result ℕ → List Call → Type 0
  IsLatest spec r (Call.install_or_upgrade_chart s ∷ earlier) =
      (s ≡ spec) × (w.ask earlier (Call.install_or_upgrade_chart s) ≡ r)
  IsLatest spec r _ = ⊥

  -- How a loop of `k` attempts ends: the latest one succeeded; or it failed, with another error than
  -- the one that is retried; or all `k` were made, and the loop says that Helm is stuck.
  abbrev pub IsOutcome : ℕ → ℕ → ChartSpec → Result ℕ → List Call → Type 0
  IsOutcome n k spec (ok revision) calls = IsLatest spec (ok revision) calls
  IsOutcome n k spec (err e) calls =
      ((e ≡ err_helm_stuck) × (installs calls ≡ n + k))
      ⊎ ((cause : Error) × (e ≡ errorf "unable to install helm: " cause "")
          × (is_stuck cause ≡ false)
          × IsLatest spec (err cause) calls)

  -- The same, when attempts were made before.
  IsOutcome-later :
      (n k : ℕ) (spec : ChartSpec) (r : Result ℕ) (calls : List Call)
      → IsOutcome (suc n) k spec r calls
      → IsOutcome n (suc k) spec r calls
  IsOutcome-later n k spec (ok revision) calls is = is
  IsOutcome-later n k spec (err e) calls (inl (stuck, all)) = inl (stuck, omega (arith, all))
  IsOutcome-later n k spec (err e) calls (inr other) = inr other

  pub attempts-IsOutcome :
      (k : ℕ) (req : ChartRequest) (calls : List Call)
      → IsOutcome
          (installs calls)
          k
          (chart_spec req)
          (attempts w k req calls).0
          (attempts w k req calls).1
  unfolding attempts and_then after_attempt delete_release_secrets installs
  attempts-IsOutcome zero req calls = inl (refl, omega arith)
  attempts-IsOutcome (suc k) req calls =
      let tried = Call.install_or_upgrade_chart (chart_spec req) ∷ calls in
      elim (Result-cases (w.ask calls (Call.install_or_upgrade_chart (chart_spec req)))) [
        | inr (revision, good) ↦ rw good (refl, good)
        | inl (e, bad) ↦ rw bad (elim (Bool-cases (is_stuck e)) [
          | inl stuck ↦ rw stuck (
              IsOutcome-later (installs calls) k (chart_spec req) _ _ (
                attempts-IsOutcome k req
                  (Call.secret_delete_collection airbyte_namespace "helm.sh/release.v1" ∷ tried)))
          | inr other ↦ rw other (inr (e, refl, other, (refl, bad)))
        ])
      ]

  -- The latest call installed the chart, and gave a revision.
  abbrev pub IsInstalled : ChartSpec → List Call → Type 0
  IsInstalled spec calls = (revision : ℕ) × IsLatest spec (ok revision) calls

  attempts-Installed :
      (req : ChartRequest)
      → Ensures
          (λ (revision : ℕ) calls. IsLatest (chart_spec req) (ok revision) calls)
          (attempts w 3 req)
  attempts-Installed req calls revision h =
      let outcome = attempts-IsOutcome 3 req calls in rw h at outcome

  install_chart-Installed :
      (req : ChartRequest)
      → Ensures (λ (u : Unit {0}) calls. IsInstalled (chart_spec req) calls) (install_chart w req)
  unfolding install_chart and_then
  install_chart-Installed req calls u h = elim (Result-cases (attempts w 3 req calls).0) [
    | inl (e, bad) ↦ let wrong = rw bad at h in cc
    | inr (revision, good) ↦ rw good (revision, attempts-Installed req calls revision good)
  ]

  handle_chart-Installed :
      (req : ChartRequest)
      → req.uninstall_first ≡ false
      → Ensures (λ (u : Unit {0}) calls. IsInstalled (chart_spec req) calls) (handle_chart w req)
  unfolding handle_chart
  handle_chart-Installed req direct =
      finally (λ (u : Unit {0}) calls. IsInstalled (chart_spec req) calls) _ _
        (λ added.
          finally (λ (u : Unit {0}) calls. IsInstalled (chart_spec req) calls) _ _
            (λ chart.
              else-Ensures (λ (u : Unit {0}) calls. IsInstalled (chart_spec req) calls) _ _ direct
                (install_chart-Installed req)))

  -- When handleChart succeeds, and need not uninstall first, its last call installed the chart.
  pub handle_chart_installs :
      (req : ChartRequest) (calls : List Call)
      → req.uninstall_first ≡ false
      → (handle_chart w req calls).0 ≡ ok tt
      → (revision : ℕ) × IsLatest (chart_spec req) (ok revision) (handle_chart w req calls).1
  handle_chart_installs req calls direct h = handle_chart-Installed req direct calls tt h
