-- ===== src/Cmd/Tests.antt =====
-- Examples of the theorems on the commands, on a machine without a cluster.
use Prim.Native.Nat.{Ordering}
use mathlib.Core.Option
use abctl.Common.{true, false, none, List, [], ◌∷◌, new, Result, ok, err, pos, ◌≡◌, ◌↔◌, ◌⊎◌, refl}
use abctl.Common.Dict.{lookup, insert}
use abctl.Http.{Net}
use abctl.Airbyte as Airbyte
use abctl.Telemetry.Instance.{noop}
use abctl.Helm.Chart.{chart_is_v2_plus}
use abctl.Helm.Values.{build_airbyte_values, build_airbyte_values_v1}
use abctl.K8s.Cluster.{KindCluster, delete, exists, provider_cluster}
use abctl.K8s.Client.{secret_create_or_update, secret_update_or_create, secret_get}
use abctl.K8s.Restart.{
  restarted_at_name, deployment_restart, deployment_pods, are_restarted, is_unready,
}
use abctl.K8s.Restart.Outcome.{Waits, no_more, IsPoll}
use abctl.Effects.{Call, Answer, World, Program, Secret, return, fail, ◌>>=◌, and_then}
use abctl.Effects.Invariants.{>>=-ok}
use abctl.Common.{Bool, sym, ap, ◌∙◌}
use abctl.Service.{Manager, docker_auth}
use abctl.Cmd.{System}
use abctl.Cmd.Hosts.{host_from}
use abctl.Cmd.Hosts.Language.{HostName, validate_host_flag_iff}
use abctl.Cmd.Cluster.{Provider}
use abctl.Cmd.Cluster.Ready.{IsAbsent, prepared}
use abctl.Common.{cut, split, has_prefix}
use abctl.Maps.{from_slice, merge, put, get, to_yaml, from_yaml_file}
use abctl.Helm.Values.{values_v1, optional_values, with_file_values, merge_values_with_values_yaml}
use abctl.Service.Data.{support_minio, pg_version, enable_psql17}
use abctl.Cmd.Hosts.{validate_host_flag}
use abctl.Cmd.Install.{InstallCmd, Tools, validate_hosts, opts_of, install_opts}
use abctl.Cmd.Install.Options.{IsOptions, install_opts-IsOptions}
use abctl.Cmd.Commands.{
  Outside, secret_password, restart, change_password, update_password, uninstall_cluster,
  uninstall_found, uninstall_by_manager,
}
use abctl.Cmd.Commands.Done.{IsDeleted, IsChanged, uninstall_cluster_done, update_password_restarts}

abbrev sys : System
sys = record {
  errno = λ e. none;
  eaddrinuse = 98;
  is_windows = false;
  is_ip = λ s. false;
  atoi = λ s. ok (pos 8000);
}

validate_host_flag_iff_example :
    (validate_host_flag sys "airbyte.example-1.com" ≡ ok tt)
    ↔ ((sys.is_ip "airbyte.example-1.com" ≡ false) × HostName "airbyte.example-1.com")
validate_host_flag_iff_example = validate_host_flag_iff sys "airbyte.example-1.com"

abbrev cluster : KindCluster
cluster = record {
  name = "airbyte-abctl";
  kubeconfig = "/home/user/.airbyte/abctl/abctl.kubeconfig";
  data_dir = "/home/user/.airbyte/abctl/data";
  marshal_config = λ c. ok "kind: Cluster";
  run_output = λ e. none;
}

abbrev provider : Provider
provider = record { name = "kind"; context = "kind-airbyte-abctl"; dir = λ path. "/home/user" }

-- Port 8000 is free, kind has no cluster, and takes a new one. The server has its new pod.
abbrev answers : (calls : List Call) → (c : Call) → Result (Answer c)
answers calls (Call.mkdir_all path mode) = ok tt
answers calls Call.kind_list = ok ("other" ∷ [])
answers calls (Call.listen port) = ok tt
answers calls (Call.kind_create name kubeconfig image raw_cfg) = ok tt
answers calls (Call.kind_delete name kubeconfig) = ok tt
answers calls (Call.secret_get namespace name) =
    ok (record { namespace = namespace; name = name; secret_type = "Opaque"; data_of = [] })
answers calls (Call.secret_update secret) = ok tt
answers calls (Call.deployment_patch namespace name data_of) = ok "app=server"
answers calls (Call.pod_list_by namespace label) = ok (
    record { phase = "Running"; annotations = (restarted_at_name, "now") ∷ []; conditions = [] }
    ∷ [])
answers calls c = err (new "not found")

abbrev world : World
world = record {
  ask = answers;
  is_not_found = λ e. true;
  unmarshal_secret = λ s. err (new "no secret");
}

-- A cluster that is there.
abbrev installed_answers : (calls : List Call) → (c : Call) → Result (Answer c)
installed_answers calls Call.kind_list = ok ("airbyte-abctl" ∷ [])
installed_answers calls c = answers calls c

abbrev installed : World
installed = record {
  ask = installed_answers;
  is_not_found = λ e. true;
  unmarshal_secret = λ s. err (new "no secret");
}

abbrev manager : Manager
manager = record {
  port_http = pos 8000;
  data_dir = "/home/user/.airbyte/abctl/data";
  semver = record { compare = λ v w. Ordering.lt; is_valid = λ v. true; prerelease = λ v. "" };
  marshal = λ v. ok "{}";
  base64 = λ s. s;
  cancelled = false;
}

abbrev api_json : Airbyte.Json
api_json = record {
  marshal_org_req = λ r. ok "{}";
  marshal_token_request = λ r. ok "{}";
  unmarshal_token_response = λ body. err (new "no token");
  marshal_organization = λ org. ok "{}";
  unmarshal_organization = λ body. err (new "no organization");
}

abbrev no_network : Net
no_network = record { check_url = λ url. ok tt; answer = λ sent req. err (new "no network") }

-- A wait that runs the condition once.
abbrev or_late : Bool → Program (Unit {0})
or_late true = return tt
or_late false = fail (new "context deadline exceeded")

abbrev poll_at_once : Program Bool → Program (Unit {0})
poll_at_once condition = condition >>= or_late

at_once :
    (condition : Program Bool) (s : List Call) (x : Unit {0}) (b : Bool)
    → (condition s).0 ≡ ok b
    → (or_late b (condition s).1).0 ≡ ok x
    → (last : List Call) × Waits condition s last
      × ((condition last).0 ≡ ok true)
      × ((or_late b (condition s).1).1 ≡ (condition last).1)
at_once condition s x true ran h = (s, no_more, ran, refl)
at_once condition s x false ran h = cc

poll_at_once-IsPoll : IsPoll poll_at_once
poll_at_once-IsPoll condition s x h =
    let (b, ran, same) = >>=-ok condition or_late s h in
    rw same (at_once condition s x b ran (ap (λ r. r.0) (sym same) ∙ h))

abbrev outside : Outside
outside = record {
  net = λ calls. no_network;
  json = api_json;
  marshal_patch = λ name value. ok value;
  poll = poll_at_once;
  restarted_at = "now";
}

-- The manager's part fails, as there is no configuration for its client.
uninstall_cluster_done_example :
    IsAbsent installed sys cluster provider (prepared installed sys cluster provider [])
    ⊎ IsDeleted installed sys cluster provider outside
        (uninstall_cluster installed sys cluster provider outside manager true []).1
unfolding uninstall_cluster provider_cluster exists uninstall_found uninstall_by_manager delete
    and_then
uninstall_cluster_done_example =
    uninstall_cluster_done installed sys cluster provider outside manager true [] tt refl

abbrev secret : Secret
secret = record {
  namespace = "airbyte-abctl";
  name = "airbyte-auth-secrets";
  secret_type = "Opaque";
  data_of = (secret_password, "old") ∷ [];
}

abbrev fetched : Secret
fetched = record secret { data_of = [] }

update_password_restarts_example :
    IsChanged world sys cluster provider outside "new" secret fetched
      (update_password world sys cluster provider outside "new" secret []).1
unfolding update_password change_password secret_create_or_update secret_update_or_create secret_get
    restart deployment_restart deployment_pods are_restarted is_unready lookup insert and_then
update_password_restarts_example =
    update_password_restarts world sys cluster provider outside "new" secret [] fetched
      poll_at_once-IsPoll refl refl refl

abbrev command : InstallCmd
command = record {
  chart = "https://airbytehq.github.io/helm-charts/airbyte-1.8.0.tgz";
  chart_version = "1.8.0";
  disable_auth = false;
  docker_email = "";
  docker_password = "";
  docker_server = "";
  docker_username = "";
  host = "airbyte.example" ∷ [];
  insecure_cookies = false;
  low_resource_mode = false;
  no_browser = true;
  port = pos 8000;
  secret = [];
  values = "";
  volume = [];
}

abbrev tools : Tools
tools = record {
  semver = manager.semver;
  lookups = record {
    parse_url = λ s. err (new "no url");
    metadata_for_url = λ s. err (new "no metadata");
    metadata_for_ref = λ s. err (new "no metadata");
    latest_chart = λ s t. err (new "no index");
  };
  io = record {
    read_file = λ path. err (new "not found");
    unmarshal = λ s. ok none;
    marshal = λ m. ok "global: {}";
  };
  chart_client = record {
    add_or_update_chart_repo = λ name url. err (new "no network");
    install_chart_dry_run = λ values name version. err (new "no network");
  };
  decode = λ s. none;
  is_not_exist = λ e. true;
  trim_right = λ s. s;
  telemetry = noop;
  telemetry_libraries = record {
    parse_ulid = λ s. ok s;
    parse_uuid = λ s. ok s;
    unmarshal = λ s. ok none;
    marshal = λ m. ok "{}";
    is_not_exist = λ e. true;
    dir = λ path. path;
    marshal_event = λ id event properties now. ok "{}";
  };
  session = record { analytics_id = "id"; constants = []; attrs = [] };
  manager = manager;
}

install_opts-IsOptions_example :
    IsOptions world sys cluster provider tools command ""
      (opts_of world sys cluster provider tools command false true "global: {}")
unfolding install_opts validate_hosts validate_host_flag host_from support_minio enable_psql17
    pg_version build_airbyte_values build_airbyte_values_v1 with_file_values
    merge_values_with_values_yaml to_yaml from_yaml_file values_v1 optional_values from_slice merge
    put get cut split Option.bind has_prefix chart_is_v2_plus and_then docker_auth
install_opts-IsOptions_example =
    install_opts-IsOptions world sys cluster provider tools command "" []
      (opts_of world sys cluster provider tools command false true "global: {}") refl
