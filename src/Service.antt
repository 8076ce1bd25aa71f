-- ===== src/Service.antt =====
-- internal/service: the manager that installs Airbyte in a cluster. Terminal output, spans and the
-- telemetry attributes are left out, and the watcher of events, which only prints.
pub mod Volumes
pub mod Chart
pub mod Install
pub mod Data
pub mod Setup
mod Tests
use abctl.Common.{ℤ, String, Bool, not, ◌&&◌, ◌||◌, List, ◌++◌, is_empty, Error, new, Result}
use abctl.Maps.{Value}
use abctl.Helm.Semver.{Semver}

pub record InstallOpts : Type 0 where
  pub helm_chart_version : String
  pub helm_values_yaml : String
  pub airbyte_chart_loc : String
  pub secrets : List String
  pub hosts : List String
  pub local_storage : Bool
  pub enable_psql17 : Bool
  pub docker_server : String
  pub docker_user : String
  pub docker_pass : String
  pub docker_email : String
  pub no_browser : Bool

-- DockerAuth
unfoldable pub docker_auth : InstallOpts → Bool
docker_auth opts = not (is_empty opts.docker_user) && not (is_empty opts.docker_pass)

-- What the manager knows besides its clients: the port, paths.Data, and the libraries for versions,
-- JSON and base64; and whether the context is cancelled when an installation has failed.
pub record Manager : Type 0 where
  pub port_http : ℤ
  pub data_dir : String
  pub semver : Semver
  pub marshal : Value → Result String
  pub base64 : String → String
  pub cancelled : Bool

-- internal/common/const.go and internal/paths/paths.go
abbrev pub airbyte_namespace : String
airbyte_namespace = "airbyte-abctl"

abbrev pub airbyte_chart_release : String
airbyte_chart_release = "airbyte-abctl"

abbrev pub airbyte_ingress : String
airbyte_ingress = "ingress-abctl"

abbrev pub airbyte_bootloader_pod_name : String
airbyte_bootloader_pod_name = "airbyte-abctl-airbyte-bootloader"

abbrev pub nginx_namespace : String
nginx_namespace = "ingress-nginx"

abbrev pub nginx_chart_release : String
nginx_chart_release = "ingress-nginx"

abbrev pub nginx_chart_name : String
nginx_chart_name = "nginx/ingress-nginx"

abbrev pub docker_auth_secret_name : String
docker_auth_secret_name = "docker-auth"

abbrev pub pv_minio : String
pv_minio = "airbyte-minio-pv"

abbrev pub pv_local : String
pv_local = "airbyte-local-pv"

abbrev pub pv_psql : String
pv_psql = "airbyte-volume-db"

-- internal/abctl/error.go, and errHelmStuck of install.go
abbrev pub err_helm_stuck : Error
err_helm_stuck = new "another helm operation (install/upgrade/rollback) is in progress"

abbrev pub err_ingress : Error
err_ingress = new "error configuring ingress"

abbrev pub err_bootloader_failed : Error
err_bootloader_failed = new "bootloader failed"

abbrev pub helm_stuck_message : String
helm_stuck_message = "another operation (install/upgrade/rollback) is in progress"
