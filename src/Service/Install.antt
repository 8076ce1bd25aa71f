-- ===== src/Service/Install.antt =====
-- internal/service/install.go: Install, and what it does after the charts.
-- The poll of the ingress stands for a request every second until the context of one minute ends.
pub mod Order
pub mod Results
use abctl.Common.{
  String, Bool, true, false, ℕ, zero, suc, ◌==◌, ◌&&◌, ◌||◌, ◌++◌, has_prefix, has_substring,
  if◌then◌else◌, eqb, any, Option, none, some, List, [], ◌∷◌, Error, new, errorf, message, Result,
  ok, err, ℤ, show_int,
}
use abctl.Effects.{
  Call, World, Program, Pod, Response, return, fail, ◌>>=◌, ◌>>◌, try, with_error, from_result,
  perform,
}
use abctl.K8s.Ingress.{ingress}
use abctl.K8s.Client.{namespace_exists, ingress_exists}
use abctl.Service.{
  Manager, InstallOpts, docker_auth, airbyte_namespace, airbyte_chart_release, airbyte_ingress,
  airbyte_bootloader_pod_name, nginx_namespace, nginx_chart_release, nginx_chart_name, pv_minio,
  pv_local, pv_psql, docker_auth_secret_name, err_ingress, err_bootloader_failed,
}
use abctl.Service.Volumes.{
  persistent_volume, persistent_volume_claim, handle_docker_secret, create_secrets, unable,
}
use abctl.Service.Chart.{ChartRequest, handle_chart}

-- helm.BuildNginxValues
unfoldable pub build_nginx_values : ℤ → String
build_nginx_values port =
    "\ncontroller:\n  hostPort:\n    enabled: true\n  service:\n    type: NodePort\n    ports:\n      http: "
    ++ (show_int port
        ++ "\n    httpsPort:\n      enable: false\n  config:\n    proxy-body-size: 10m\n    proxy-read-timeout: \"600\"\n    proxy-send-timeout: \"600\"\n")

unfoldable pub airbyte_chart : InstallOpts → ChartRequest
airbyte_chart opts = record {
  name = "airbyte";
  uninstall_first = false;
  repo_name = "airbyte";
  repo_url = "https://airbytehq.github.io/helm-charts";
  chart_name = "airbyte/airbyte";
  chart_release = airbyte_chart_release;
  chart_loc = opts.airbyte_chart_loc;
  chart_version = opts.helm_chart_version;
  namespace = airbyte_namespace;
  values_yaml = opts.helm_values_yaml;
}

unfoldable pub nginx_chart : ℤ → ChartRequest
unfolding build_nginx_values
nginx_chart port = record {
  name = "nginx";
  uninstall_first = true;
  repo_name = "nginx";
  repo_url = "https://kubernetes.github.io/ingress-nginx";
  chart_name = nginx_chart_name;
  chart_release = nginx_chart_release;
  chart_loc = nginx_chart_name;
  chart_version = "";
  namespace = nginx_namespace;
  values_yaml = build_nginx_values port;
}

-- The names of the pods that failed.
unfoldable pub failed_pods : List Pod → List String
failed_pods [] = []
failed_pods (pod ∷ pods) =
    let rest = failed_pods pods in if pod.phase == "Failed" then pod.name ∷ rest else rest

-- len(failedPods) == 1 && failedPods[0] == common.AirbyteBootloaderPodName
unfoldable pub only_bootloader : List String → Bool
only_bootloader (pod ∷ []) = pod == airbyte_bootloader_pod_name
only_bootloader _ = false

-- A response that shows that Airbyte is alive: 200, or 401 with a header that names abctl.
unfoldable pub is_alive : Option Response → Bool
is_alive none = false
is_alive (some res) =
    eqb res.status_code 200
    || (eqb res.status_code 401 && has_substring "abctl" res.www_authenticate)

abbrev pub url_of : ℤ → String
url_of port = "http://localhost:" ++ show_int port

module _ (w : World) (m : Manager) where
  -- The namespace, at the start of Install.
  unfoldable pub ensure_namespace : Program (Unit {0})
  ensure_namespace = do
    there ← namespace_exists w airbyte_namespace
    if there
        then return tt
        else with_error (λ e. errorf "unable to create airbyte namespace: " e "")
            (perform w (Call.namespace_create airbyte_namespace))

  -- The loop over the pods, for its calls: the logs of the pods of the platform.
  unfoldable pub collect_logs : List Pod → Program (Unit {0})
  collect_logs [] = return tt
  collect_logs (pod ∷ pods) =
      let rest = collect_logs pods in
      if has_prefix "airbyte" pod.name
      then try (perform w (Call.logs_get airbyte_namespace pod.name)) >> rest
      else rest

  -- The end of diagnoseAirbyteChartFailure, from the names of the failed pods.
  unfoldable pub diagnose_pods : Error → List Pod → List String → Program (Unit {0})
  diagnose_pods chart_err pods [] = fail chart_err
  diagnose_pods chart_err pods (pod ∷ more) =
      collect_logs pods
      >> fail (if only_bootloader (pod ∷ more) then err_bootloader_failed else chart_err)

  abbrev pub diagnose_listed : Error → Result (List Pod) → Program (Unit {0})
  diagnose_listed chart_err (err e) = fail chart_err
  diagnose_listed chart_err (ok pods) = diagnose_pods chart_err pods (failed_pods pods)

  -- diagnoseAirbyteChartFailure: it always fails, with the error that it returns.
  unfoldable pub diagnose_airbyte_chart_failure : Error → Program (Unit {0})
  diagnose_airbyte_chart_failure chart_err =
      if m.cancelled
      then fail chart_err
      else try (perform w (Call.pod_list airbyte_namespace)) >>= diagnose_listed chart_err

  -- handleIngress
  unfoldable pub handle_ingress : String → List String → Program (Unit {0})
  handle_ingress chart_version hosts = do
    there ← ingress_exists w airbyte_namespace airbyte_ingress
    if there
        then with_error (λ e. errorf "unable to update existing ingress: " e "")
            (perform w
              (Call.ingress_update airbyte_namespace (ingress m.semver chart_version hosts)))
        else with_error (λ e. errorf "unable to create ingress: " e "")
            (perform w
              (Call.ingress_create airbyte_namespace (ingress m.semver chart_version hosts)))

  -- verifyIngress
  unfoldable pub verify_ingress : Program (Unit {0})
  verify_ingress = do
    responses ←
        with_error (λ e. errorf "browser failed liveness check: " e "")
          (perform w (Call.poll (url_of m.port_http)))
    if any is_alive responses
        then return tt
        else fail (errorf "browser liveness check failed: " (new "context deadline exceeded") "")

  -- launch, whose error is dropped.
  unfoldable pub launch : Program (Unit {0})
  launch = try (perform w (Call.open_browser (url_of m.port_http))) >> return tt

  -- A volume and its claim.
  abbrev volume_and_claim : String → String → Program (Unit {0})
  volume_and_claim volume claim = do
    persistent_volume w m airbyte_namespace volume
    persistent_volume_claim w m airbyte_namespace claim volume

  unfoldable pub create_volumes : InstallOpts → Program (Unit {0})
  create_volumes opts = do
    if opts.local_storage
        then volume_and_claim pv_local "airbyte-storage-pvc"
        else volume_and_claim pv_minio "airbyte-minio-pv-claim-airbyte-minio-0"
    volume_and_claim pv_psql "airbyte-volume-db-airbyte-db-0"

  -- The docker secret, if there is a user and a password, and the secrets from files.
  unfoldable pub create_all_secrets : InstallOpts → Program (Unit {0})
  create_all_secrets opts = do
    if docker_auth opts
        then with_error
            (λ e. errorf ("unable to create '" ++ (docker_auth_secret_name ++ "' secret: ")) e "")
            (handle_docker_secret w m opts.docker_server opts.docker_user opts.docker_pass
              opts.docker_email)
        else return tt
    create_secrets w m opts.secrets

  abbrev pub after_airbyte : Result (Unit {0}) → Program (Unit {0})
  after_airbyte (ok done) = return tt
  after_airbyte (err e) =
      with_error (λ e. errorf "unable to install airbyte chart: " e "")
        (diagnose_airbyte_chart_failure e)

  unfoldable pub install_airbyte : InstallOpts → Program (Unit {0})
  install_airbyte opts = try (handle_chart w (airbyte_chart opts)) >>= after_airbyte

  -- The error of the nginx chart, after a look at the ingress controller's service.
  abbrev nginx_error : Error → Result ℕ → Error
  nginx_error e (ok zero) = errorf "" err_ingress ": could not install nginx chart"
  nginx_error e _ = errorf "unable to install nginx chart: " e ""

  abbrev pub after_nginx : Result (Unit {0}) → Program (Unit {0})
  after_nginx (ok done) = return tt
  after_nginx (err e) =
      if has_substring "client rate limiter Wait returned an error" (message e)
      then try (perform w (Call.service_get nginx_namespace "ingress-nginx-controller"))
        >>= (λ srv. fail (nginx_error e srv))
      else fail (errorf "unable to install nginx chart: " e "")

  unfoldable pub install_nginx : Program (Unit {0})
  install_nginx = try (handle_chart w (nginx_chart m.port_http)) >>= after_nginx

  -- Install
  unfoldable pub install : InstallOpts → Program (Unit {0})
  install opts = do
    ensure_namespace
    create_volumes opts
    create_all_secrets opts
    install_airbyte opts
    install_nginx
    handle_ingress opts.helm_chart_version opts.hosts
    verify_ingress
    if opts.no_browser then return tt else launch
