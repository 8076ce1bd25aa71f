-- ===== src/Service/Tests.antt =====
-- Examples of the theorems on the service.
use Prim.Native.Nat.{Ordering}
use abctl.Common.{pos, true, false, List, [], ◌∷◌, Error, new, Result, ok, err}
use abctl.Effects.{Call, Answer, World, Pod}
use abctl.Service.{Manager, InstallOpts, airbyte_bootloader_pod_name, helm_stuck_message}
use abctl.Service.Install

abbrev opts : InstallOpts
opts = record {
  helm_chart_version = "1.8.0";
  helm_values_yaml = "global: {}";
  airbyte_chart_loc = "airbyte/airbyte";
  secrets = "secret.yaml" ∷ [];
  hosts = [];
  local_storage = true;
  enable_psql17 = true;
  docker_server = "";
  docker_user = "";
  docker_pass = "";
  docker_email = "";
  no_browser = true;
}

abbrev manager : Manager
manager = record {
  port_http = pos 8000;
  data_dir = "/home/user/.airbyte/abctl/data";
  semver = record { compare = λ v w. Ordering.eq; is_valid = λ v. true; prerelease = λ v. "" };
  marshal = λ v. ok "{}";
  base64 = λ s. s;
  cancelled = false;
}

abbrev pods : List Pod
pods = record { name = airbyte_bootloader_pod_name; phase = "Failed" } ∷ []

-- A cluster that has nothing and takes everything; and one in which Helm is always stuck.
abbrev answers : (calls : List Call) → (c : Call) → Result (Answer c)
answers calls (Call.pod_list namespace) = ok pods
answers calls (Call.get_chart loc version) =
    ok (record { version = "1.8.0"; app_version = "1.8.0" })
answers calls (Call.install_or_upgrade_chart spec) = ok 1
answers calls (Call.add_or_update_chart_repo name url) = ok tt
answers calls (Call.mkdir_all path mode) = ok tt
answers calls (Call.chmod path mode) = ok tt
answers calls (Call.persistent_volume_create volume) = ok tt
answers calls c = err (new "not found")

abbrev world_of : ((calls : List Call) → (c : Call) → Result (Answer c)) → World
world_of ask = record {
  ask = ask;
  is_not_found = λ e. true;
  unmarshal_secret = λ s. err (new "no secret");
}

abbrev willing : World
willing = world_of answers

abbrev stuck_answers : (calls : List Call) → (c : Call) → Result (Answer c)
stuck_answers calls (Call.install_or_upgrade_chart spec) = err (new helm_stuck_message)
stuck_answers calls (Call.get_chart loc version) =
    ok (record { version = "1.8.0"; app_version = "1.8.0" })
stuck_answers calls (Call.add_or_update_chart_repo name url) = ok tt
stuck_answers calls c = err (new "not found")

abbrev stuck : World
stuck = world_of stuck_answers

abbrev timeout : Error
timeout = new "timed out"
