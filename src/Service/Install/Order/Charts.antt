-- ===== src/Service/Install/Order/Charts.antt =====
-- A chart's installation keeps to the stage of its repository and its release.
use abctl.Common.{ℕ, zero, suc, ◌≡◌, refl, Result, ok, err}
use abctl.Effects.{Call, World, Program, ChartMetadata, and_then}
use abctl.Service.Chart.{
  ChartRequest, HelmReleaseAction, none, install, uninstall, chart_spec, is_stuck,
  delete_release_secrets, after_attempt, attempts, install_chart, carry_out, uninstall_and_install,
  determine_helm_chart_action, handle_chart,
}
use abctl.Service.Install.Order.{
  repo_stage, release_stage, stage, push, push_free, Keeps, both, either,
}

module _ (w : World) where
  module _ (k : ℕ) (req : ChartRequest) (released : release_stage req.chart_release ≡ k) where
    delete-Keeps : Keeps k (delete_release_secrets w)
    unfolding delete_release_secrets and_then
    delete-Keeps calls s = push_free k _ calls (unfold stage in refl) s

    after_attempt-Keeps :
        (rest : Program ℕ) (r : Result ℕ) → Keeps k rest → Keeps k (after_attempt w rest r)
    unfolding after_attempt
    after_attempt-Keeps rest (ok revision) more = λ calls s. s
    after_attempt-Keeps rest (err e) more =
        either k (is_stuck e) _ _ (both k _ _ delete-Keeps (λ done. more)) (λ calls s. s)

    attempts-Keeps : (n : ℕ) → Keeps k (attempts w n req)
    unfolding attempts
    attempts-Keeps zero = λ calls s. s
    attempts-Keeps (suc n) =
        both k _ _
          (λ calls s.
            push k (Call.install_or_upgrade_chart (chart_spec req)) calls (unfold stage in released)
              s)
          (λ r. after_attempt-Keeps (attempts w n req) r (attempts-Keeps n))

    install_chart-Keeps : Keeps k (install_chart w req)
    unfolding install_chart
    install_chart-Keeps = both k _ _ (attempts-Keeps 3) (λ revision calls s. s)

    carry_out-Keeps : (action : HelmReleaseAction) → Keeps k (carry_out w req action)
    unfolding carry_out
    carry_out-Keeps none = λ calls s. s
    carry_out-Keeps install = install_chart-Keeps
    carry_out-Keeps uninstall =
        both k _ _
          (λ calls s.
            push k (Call.uninstall_release req.chart_release) calls (unfold stage in released) s)
          (λ done. install_chart-Keeps)

    determine-Keeps :
        (chart : ChartMetadata) → Keeps k (determine_helm_chart_action w chart req.chart_release)
    unfolding determine_helm_chart_action and_then
    determine-Keeps chart calls s = push k _ calls (unfold stage in released) s

    pub handle_chart-Keeps : repo_stage req.repo_name ≡ k → Keeps k (handle_chart w req)
    unfolding handle_chart uninstall_and_install
    handle_chart-Keeps at_repo =
        both k _ _
          (λ calls s.
            push k (Call.add_or_update_chart_repo req.repo_name req.repo_url) calls
              (unfold stage in at_repo) s)
          (λ added.
            both k _ _
              (λ calls s.
                push_free k (Call.get_chart req.chart_loc req.chart_version) calls
                  (unfold stage in refl) s)
              (λ chart.
                either k req.uninstall_first _ _
                  (both k _ _ (determine-Keeps chart) carry_out-Keeps) install_chart-Keeps))
