-- ===== src/Service/Chart.antt =====
-- internal/service/install.go: handleChart and determineHelmChartAction.
pub mod Attempts
pub mod Outcome
use abctl.Common.{
  String, Bool, true, ℕ, zero, suc, not, ◌==◌, ◌++◌, has_substring, if◌then◌else◌, List, Error,
  errorf, message, Result, ok, err,
}
use abctl.Effects.{
  Call, World, Program, ChartSpec, ChartMetadata, Release, return, fail, ◌>>=◌, ◌>>◌, try,
  with_error, perform,
}
use abctl.Service.{airbyte_namespace, err_helm_stuck, helm_stuck_message}

pub record ChartRequest : Type 0 where
  pub name : String
  pub uninstall_first : Bool
  pub repo_name : String
  pub repo_url : String
  pub chart_name : String
  pub chart_release : String
  pub chart_loc : String
  pub chart_version : String
  pub namespace : String
  pub values_yaml : String

pub data HelmReleaseAction : Type 0 where
  none : HelmReleaseAction
  install : HelmReleaseAction
  uninstall : HelmReleaseAction

-- The action, from the existing release or the error of looking for it.
unfoldable pub action_of_release : ChartMetadata → Result Release → HelmReleaseAction
action_of_release chart (err e) =
    if has_substring "not found" (message e) then install else uninstall
action_of_release chart (ok rel) =
    if not (rel.status == "deployed")
    then uninstall
    else if not (rel.metadata.version == chart.version)
    then uninstall
    else if not (rel.metadata.app_version == chart.app_version)
    then uninstall
    else none

abbrev pub chart_spec : ChartRequest → ChartSpec
chart_spec req = record {
  release_name = req.chart_release;
  chart_name = req.chart_loc;
  namespace = req.namespace;
  values_yaml = req.values_yaml;
  version = req.chart_version;
}

-- strings.Contains(err.Error(), errHelmStuck.Error())
unfoldable pub is_stuck : Error → Bool
is_stuck e = has_substring helm_stuck_message (message e)

module _ (w : World) where
  -- determineHelmChartAction
  unfoldable pub determine_helm_chart_action : ChartMetadata → String → Program HelmReleaseAction
  unfolding action_of_release
  determine_helm_chart_action chart release_name = do
    r ← try (perform w (Call.get_release release_name))
    return (action_of_release chart r)

  -- The release secrets are removed; an error of that is dropped.
  unfoldable pub delete_release_secrets : Program (Unit {0})
  delete_release_secrets = do
    r ← try (perform w (Call.secret_delete_collection airbyte_namespace "helm.sh/release.v1"))
    return tt

  -- The end of a round: a stuck release is cleaned up and tried again with the rounds that are
  -- left, any other error returned.
  unfoldable pub after_attempt : Program ℕ → Result ℕ → Program ℕ
  after_attempt rest (ok revision) = return revision
  after_attempt rest (err e) =
      if is_stuck e
      then delete_release_secrets >> rest
      else fail (errorf "unable to install helm: " e "")

  -- The loop, for the rounds that are left; after the last one, helmRelease is nil.
  unfoldable pub attempts : ℕ → ChartRequest → Program ℕ
  attempts zero req = fail err_helm_stuck
  attempts (suc n) req =
      let rest = attempts n req in
      try (perform w (Call.install_or_upgrade_chart (chart_spec req))) >>= after_attempt rest

  -- The loop of three attempts.
  unfoldable pub install_chart : ChartRequest → Program (Unit {0})
  install_chart req = do revision ← attempts 3 req; return tt

  -- The switch on the action.
  unfoldable pub carry_out : ChartRequest → HelmReleaseAction → Program (Unit {0})
  carry_out req none = return tt
  carry_out req uninstall = do
    with_error
        (λ e. errorf ("unable to uninstall Helm Release " ++ (req.chart_release ++ ": ")) e "")
        (perform w (Call.uninstall_release req.chart_release))
    install_chart req
  carry_out req install = install_chart req

  unfoldable pub uninstall_and_install : ChartRequest → ChartMetadata → Program (Unit {0})
  uninstall_and_install req chart = do
    action ← determine_helm_chart_action chart req.chart_release
    carry_out req action

  -- handleChart
  unfoldable pub handle_chart : ChartRequest → Program (Unit {0})
  handle_chart req = do
    with_error (λ e. errorf ("unable to add " ++ (req.name ++ " chart repo: ")) e "")
        (perform w (Call.add_or_update_chart_repo req.repo_name req.repo_url))
    chart ←
        with_error
          (λ e. errorf ("unable to fetch helm chart \"" ++ (req.chart_name ++ "\": ")) e "")
          (perform w (Call.get_chart req.chart_loc req.chart_version))
    if req.uninstall_first then uninstall_and_install req chart else install_chart req
