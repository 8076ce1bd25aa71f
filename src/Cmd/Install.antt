-- ===== src/Cmd/Install.antt =====
-- internal/cmd/local/install.go: the install command.
pub mod Options
pub mod Early
use abctl.Common.{
  String, Bool, true, false, not, if◌then◌else◌, ◌==◌, ◌++◌, is_empty, List, [], ◌∷◌, Option, none,
  some, Error, new, panicked, errorf, Result, ok, err, wrap, ℤ,
}
use abctl.Maps.{YamlIo}
use abctl.Helm.Semver.{Semver}
use abctl.Helm.Chart.{Lookups, ChartResolver, resolve_chart_reference}
use abctl.Helm.Images.{Object, ChartClient, airbyte_repo_url_v1, airbyte_repo_url_v2}
use abctl.Helm.Values.{ValuesOpts, psql17_airbyte_tag, build_airbyte_values}
use abctl.K8s.Volumes.{parse_volume_mounts, ExtraVolumeMount}
use abctl.K8s.Cluster.{KindCluster}
use abctl.Effects.{Call, World, Program, return, try, from_result, with_error, perform, ◌>>=◌, ◌>>◌}
use abctl.Telemetry.{Libraries, Session}
use abctl.Telemetry.Instance.{Client, noop, segment, user, wrap_segment, wrap_noop}
use abctl.Service.{Manager, InstallOpts, docker_auth, docker_auth_secret_name, pv_minio, pv_psql}
use abctl.Service.Data.{support_minio, pg_version, enable_psql17}
use abctl.Service.Setup.{default_manager_client_factory, new_manager, prep_images}
use abctl.Service.Install.{install}
use abctl.Cmd.{System, docker_installed}
use abctl.Cmd.Hosts.{validate_host_flag}
use abctl.Cmd.Cluster.{Provider, ensure_cluster}

pub record InstallCmd : Type 0 where
  pub chart : String
  pub chart_version : String
  pub disable_auth : Bool
  pub docker_email : String
  pub docker_password : String
  pub docker_server : String
  pub docker_username : String
  pub host : List String
  pub insecure_cookies : Bool
  pub low_resource_mode : Bool
  pub no_browser : Bool
  pub port : ℤ
  pub secret : List String
  pub values : String
  pub volume : List String

-- The libraries and the other clients: versions, the chart resolver's look-ups, YAML files, the dry
-- run of the chart, the decoder of its resources; errors.Is for a missing file and strings.TrimRight
-- of "\n"; the telemetry client with its libraries and session; the manager, less its port.
pub record Tools : Type 0 where
  pub semver : Semver
  pub lookups : Lookups
  pub io : YamlIo
  pub chart_client : ChartClient
  pub decode : String → Option Object
  pub is_not_exist : Error → Bool
  pub trim_right : String → String
  pub telemetry : Client
  pub telemetry_libraries : Libraries
  pub session : Session
  pub manager : Manager

abbrev pub resolver : ChartResolver
resolver = record { v1_repo_url = airbyte_repo_url_v1; v2_repo_url = airbyte_repo_url_v2 }

module _ (w : World) (sys : System) (k : KindCluster) (provider : Provider) (t : Tools) where
  -- telClient.Wrap
  abbrev pub wrap_by : Client → String → Program (Unit {0}) → Program (Unit {0})
  wrap_by noop event f = wrap_noop w t.telemetry_libraries f
  wrap_by (segment cfg) event f = wrap_segment w t.telemetry_libraries t.session event f

  -- The loop over the hosts.
  unfoldable pub validate_hosts : List String → Result (Unit {0})
  unfolding validate_host_flag
  validate_hosts [] = ok tt
  validate_hosts (host ∷ hosts) = then_rest (validate_host_flag sys host) (validate_hosts hosts)
    where
      then_rest : Result (Unit {0}) → Result (Unit {0}) → Result (Unit {0})
      then_rest (err e) rest = err e
      then_rest (ok x) rest = rest

  -- setDefaultChartFlags: the chart and its version.
  unfoldable pub set_default_chart_flags : InstallCmd → Result (String × String)
  unfolding resolve_chart_reference
  set_default_chart_flags i =
      wrap "failed to resolve chart flags: "
        (resolve_chart_reference t.semver t.lookups resolver i.chart i.chart_version)

  -- What the manager is asked to install, less the values.
  abbrev pub opts_of : InstallCmd → Bool → Bool → String → InstallOpts
  opts_of i minio psql17 values_yaml = record {
    helm_chart_version = i.chart_version;
    helm_values_yaml = values_yaml;
    airbyte_chart_loc = i.chart;
    secrets = i.secret;
    hosts = i.host;
    local_storage = not minio;
    enable_psql17 = psql17;
    docker_server = i.docker_server;
    docker_user = i.docker_username;
    docker_pass = i.docker_password;
    docker_email = i.docker_email;
    no_browser = i.no_browser;
  }

  abbrev pub values_of : InstallCmd → Bool → Bool → String → ValuesOpts
  values_of i minio psql17 user_id = record {
    values_file = i.values;
    low_resource_mode = i.low_resource_mode;
    insecure_cookies = i.insecure_cookies;
    telemetry_user = user_id;
    image_pull_secret =
        if docker_auth (opts_of i minio psql17 "") then docker_auth_secret_name else "";
    disable_auth = i.disable_auth;
    local_storage = not minio;
    enable_psql17 = psql17;
    port = i.port;
  }

  -- The values, or the panic of maps.FromSlice.
  abbrev pub or_panic : Option (Result String) → Result String
  or_panic none = err (panicked "interface conversion")
  or_panic (some r) = r

  -- installOpts
  unfoldable pub install_opts : InstallCmd → String → Program InstallOpts
  unfolding validate_hosts
  install_opts i user_id = do
    from_result (validate_hosts i.host)
    stat ← try (perform w (Call.stat_dir (t.manager.data_dir ++ ("/" ++ pv_minio))))
    minio ← from_result (support_minio t.is_not_exist stat)
    read ← try (
        perform w
          (Call.read_file (t.manager.data_dir ++ ("/" ++ (pv_psql ++ "/pgdata/PG_VERSION")))))
    psql17 ← from_result (enable_psql17 t.is_not_exist (pg_version t.trim_right read))
    values_yaml ← from_result (
        or_panic
          (build_airbyte_values t.io t.semver (values_of i minio psql17 user_id) i.chart_version))
    return (opts_of i minio psql17 values_yaml)

  abbrev pub override_images : InstallOpts → List String
  override_images opts =
      if opts.enable_psql17 then ("airbyte/db:" ++ psql17_airbyte_tag) ∷ [] else []

  -- The function that Run wraps, after the cluster is there with its port.
  unfoldable pub install_on : InstallCmd → ℤ → Program (Unit {0})
  unfolding set_default_chart_flags install_opts
  install_on i port = do
    default_manager_client_factory w k.kubeconfig provider.context
    (chart, version) ←
        from_result (wrap "failed to set chart defaults: " (set_default_chart_flags i))
    opts ←
        install_opts (record i { chart = chart; chart_version = version; port = port })
          (user t.telemetry)
    m ←
        with_error (λ e. errorf "unable to initialize local command: " e "")
          (new_manager w k.kubeconfig provider.context
            (record { port_http = port; has_k8s = true; has_helm = true }) t.manager)
    prep_images w k t.semver t.chart_client t.decode opts (override_images opts)
    install w m opts

  unfoldable pub run_wrapped : InstallCmd → List ExtraVolumeMount → Program (Unit {0})
  unfolding install_on
  run_wrapped i mounts = do port ← ensure_cluster w sys k provider i.port mounts; install_on i port

  -- Run
  unfoldable pub run : InstallCmd → Program (Unit {0})
  unfolding run_wrapped
  run i = do
    mounts ←
        from_result
          (wrap "failed to parse the extra volume mounts: " (parse_volume_mounts i.volume))
    with_error (λ e. errorf "unable to determine docker installation status: " e "")
        (docker_installed w sys)
    wrap_by t.telemetry "install" (run_wrapped i mounts)
