-- ===== src/Helm/Values.antt =====
-- internal/helm/airbyte_values.go: the values of the Airbyte chart, from the options of the command
-- and the user's values file. `none` is a panic of maps.FromSlice. Tracing is left out.
pub mod Priority
mod Tests
pub mod Defaults
use mathlib.Core.List
use mathlib.Core.Option
use abctl.Common.{
  String, ℕ, Bool, true, false, not, ◌||◌, Option, none, some, List, [], ◌∷◌, if◌then◌else◌, ◌++◌,
  is_empty, ltb, eqb, Error, new, Result, ok, err, wrap, ℤ, pos, negsuc, show_int,
}
use abctl.Maps.{Fields, from_slice, merge, YamlIo, from_yaml_file, to_yaml}
use abctl.Helm.Semver.{Semver}
use abctl.Helm.Chart.{chart_is_v2_plus}

pub record ValuesOpts : Type 0 where
  pub values_file : String
  pub low_resource_mode : Bool
  pub insecure_cookies : Bool
  pub telemetry_user : String
  pub image_pull_secret : String
  pub disable_auth : Bool
  pub local_storage : Bool
  pub enable_psql17 : Bool
  pub port : ℤ

abbrev pub psql17_airbyte_tag : String
psql17_airbyte_tag = "1.7.0-17"

-- `if b { vals = append(vals, more...) }`
abbrev pub when : Bool → List String → List String
when b more = if b then more else []

abbrev append : List String → List String → List String
append xs ys = List.◌++◌ xs ys

-- The values of the low-resource mode, with the names that the chart gives to the connector
-- builder and to the workload launcher.
unfoldable pub low_resource_values : String → String → List String
low_resource_values builder launcher =
    "server.env_vars.JOB_RESOURCE_VARIANT_OVERRIDE=lowresource"
    ∷ "global.jobs.resources.requests.cpu=0"
    ∷ "global.jobs.resources.requests.memory=0"
    ∷ (builder ++ ".enabled=false")
    ∷ (launcher ++ ".env_vars.CHECK_JOB_MAIN_CONTAINER_CPU_REQUEST=0")
    ∷ (launcher ++ ".env_vars.CHECK_JOB_MAIN_CONTAINER_MEMORY_REQUEST=0")
    ∷ (launcher ++ ".env_vars.DISCOVER_JOB_MAIN_CONTAINER_CPU_REQUEST=0")
    ∷ (launcher ++ ".env_vars.DISCOVER_JOB_MAIN_CONTAINER_MEMORY_REQUEST=0")
    ∷ (launcher ++ ".env_vars.SPEC_JOB_MAIN_CONTAINER_CPU_REQUEST=0")
    ∷ (launcher ++ ".env_vars.SPEC_JOB_MAIN_CONTAINER_MEMORY_REQUEST=0")
    ∷ (launcher ++ ".env_vars.SIDECAR_MAIN_CONTAINER_CPU_REQUEST=0")
    ∷ (launcher ++ ".env_vars.SIDECAR_MAIN_CONTAINER_MEMORY_REQUEST=0")
    ∷ []

-- What both builders append behind their first values, in order; the cookie setting differs.
unfoldable pub optional_values : String → String → String → ValuesOpts → List String
unfolding low_resource_values
optional_values builder launcher cookie opts =
    append (when opts.local_storage ("global.storage.type=local" ∷ [])) (
      append (when opts.enable_psql17 (("postgresql.image.tag=" ++ psql17_airbyte_tag) ∷ [])) (
        append (when (not opts.disable_auth) ("global.auth.enabled=true" ∷ [])) (
          append (when opts.low_resource_mode (low_resource_values builder launcher)) (
            append
              (when (not (is_empty opts.image_pull_secret))
                (("global.imagePullSecrets[0].name=" ++ opts.image_pull_secret) ∷ []))
              (when opts.insecure_cookies (cookie ∷ []))))))

-- The list `vals` of buildAirbyteValuesV1.
unfoldable pub values_v1 : ValuesOpts → List String
unfolding optional_values
values_v1 opts =
    ("global.env_vars.AIRBYTE_INSTALLATION_ID=" ++ opts.telemetry_user)
    ∷ "global.jobs.resources.limits.cpu=3"
    ∷ "global.jobs.resources.limits.memory=4Gi"
    ∷ "airbyte-bootloader.env_vars.PLATFORM_LOG_FORMAT=json"
    ∷ optional_values "connector-builder-server" "workload-launcher"
        "global.auth.cookieSecureSetting=\"false\"" opts

-- The list `vals` of buildAirbyteValuesV2.
unfoldable pub values_v2 : ValuesOpts → List String
unfolding optional_values show_int
values_v2 opts =
    "server.env_vars.WEBAPP_URL=http://airbyte-abctl-airbyte-server-svc"
    ∷ ("global.airbyteUrl=" ++ ("http://localhost:" ++ show_int opts.port))
    ∷ ("global.env_vars.AIRBYTE_INSTALLATION_ID=" ++ opts.telemetry_user)
    ∷ "global.jobs.resources.limits.cpu=3"
    ∷ "global.jobs.resources.limits.memory=4Gi"
    ∷ "airbyte-bootloader.env_vars.PLATFORM_LOG_FORMAT=json"
    ∷ optional_values "connectorBuilderServer" "workloadLauncher"
        "global.auth.security.cookieSecureSetting=\"false\"" opts

-- opts.Port <= 0 || opts.Port > 65535
unfoldable pub port_out_of_range : ℤ → Bool
port_out_of_range (pos n) = eqb n 0 || ltb 65535 n
port_out_of_range (negsuc n) = true

module _ (io : YamlIo) where
  -- mergeValuesWithValuesYAML
  unfoldable pub merge_values_with_values_yaml : List String → Fields → Option (Result String)
  merge_values_with_values_yaml values user_values =
      Option.map (λ a. wrap "unable to merge values: " (to_yaml io (merge a user_values)))
        (from_slice values)

  -- The end of both builders: the values file is read, and its values are merged over the others.
  unfoldable pub with_file_values : List String → Result Fields → Option (Result String)
  with_file_values vals (err e) = some (err e)
  with_file_values vals (ok file_vals) = merge_values_with_values_yaml vals file_vals

  -- buildAirbyteValuesV1
  unfoldable pub build_airbyte_values_v1 : ValuesOpts → Option (Result String)
  build_airbyte_values_v1 opts =
      with_file_values (values_v1 opts) (from_yaml_file io opts.values_file)

  -- buildAirbyteValuesV2
  unfoldable pub build_airbyte_values_v2 : ValuesOpts → Option (Result String)
  build_airbyte_values_v2 opts =
      if port_out_of_range opts.port
      then some
          (err (new ("invalid port " ++ (show_int opts.port ++ ": must be between 1 and 65535"))))
      else with_file_values (values_v2 opts) (from_yaml_file io opts.values_file)

  -- BuildAirbyteValues
  unfoldable pub build_airbyte_values : Semver → ValuesOpts → String → Option (Result String)
  build_airbyte_values sv values_opts chart_version =
      if chart_is_v2_plus sv chart_version
      then Option.map (wrap "failed to build values yaml for v2 chart: ")
          (build_airbyte_values_v2 values_opts)
      else Option.map (wrap "failed to build values yaml for v1 chart: ")
          (build_airbyte_values_v1 values_opts)
