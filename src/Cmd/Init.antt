-- ===== src/Cmd/Init.antt =====
-- internal/cmd/config/init.go: the command that writes the ConfigMap of abctl. The format of a time is a
-- parameter.
pub mod Written
pub mod Whole
use abctl.Common.{
  String, ℕ, Bool, true, false, not, List, [], ◌∷◌, is_empty, if◌then◌else◌, ◌++◌, Error, new,
  errorf, Result, ok, err, has_suffix,
}
use abctl.Effects.{
  Call, World, Program, ConfigMap, return, fail, try, ◌>>=◌, ◌>>◌, with_error, from_result, perform,
}
use abctl.K8s.Client.{Config, abctl_config_from_data, get_current_namespace}
use abctl.Service.Setup.{default_k8s}

pub record InitCmd : Type 0 where
  pub namespace : String
  pub force : Bool
  pub from_configmap : String

-- The loop of findAirbyteEnvConfigMap.
unfoldable pub airbyte_env_name : String → List ConfigMap → Result String
unfolding has_suffix
airbyte_env_name namespace [] =
    err (new ("no ConfigMap with suffix \"-airbyte-env\" found in namespace " ++ namespace))
airbyte_env_name namespace (cm ∷ items) =
    let rest = airbyte_env_name namespace items in
    if has_suffix cm.name "-airbyte-env" then ok cm.name else rest

-- The ConfigMap of abctl, from the configuration that was read and where it was read, and the time.
unfoldable pub abctl_config_map : String → String → Config → String → ConfigMap
abctl_config_map namespace source config now = record {
  namespace = namespace;
  name = "abctl";
  annotations =
      ("abctl.airbyte.com/initialized-from", source)
      ∷ ("abctl.airbyte.com/initialized-at", now)
      ∷ [];
  data_of =
      ("airbyteApiHost", config.airbyte_api_host)
      ∷ ("airbyteURL", config.airbyte_url)
      ∷ ("airbyteAuthURL", config.airbyte_auth_url)
      ∷ [];
}

-- `err == nil && !c.Force`, for the ConfigMap that was looked up.
unfoldable pub is_in_the_way : Bool → Result (List (String × String)) → Bool
is_in_the_way force (ok data_of) = not force
is_in_the_way force (err e) = false

module _ (w : World) where
  -- The namespace of a command: the one it is given, or the current one.
  unfoldable pub namespace_of : String → String → Program String
  unfolding get_current_namespace
  namespace_of complaint namespace =
      if is_empty namespace
      then with_error (λ e. errorf complaint e "") (get_current_namespace w)
      else return namespace

module _ (w : World) (rfc3339 : ℕ → String) where
  -- findAirbyteEnvConfigMap
  unfoldable pub find_airbyte_env_config_map : String → Program String
  unfolding airbyte_env_name
  find_airbyte_env_config_map namespace = do
    items ←
        with_error (λ e. errorf "failed to list ConfigMaps: " e "")
          (perform w (Call.config_map_list namespace))
    from_result (airbyte_env_name namespace items)

  unfoldable pub source_name : String → String → Program String
  unfolding find_airbyte_env_config_map
  source_name namespace from_configmap =
      if is_empty from_configmap
      then with_error (λ e. errorf "failed to auto-detect Airbyte ConfigMap: " e "")
          (find_airbyte_env_config_map namespace)
      else return from_configmap

  -- After the creation: a failed one is followed by an update, if that is forced.
  unfoldable pub after_create : Bool → ConfigMap → Result (Unit {0}) → Program (Unit {0})
  after_create force cm (ok x) = return tt
  after_create force cm (err e) =
      if force
      then with_error (λ e. errorf "failed to create or update abctl ConfigMap: " e "")
          (perform w (Call.config_map_update cm))
      else fail (errorf "failed to create abctl ConfigMap: " e "")

  unfoldable pub write_config_map : Bool → ConfigMap → Program (Unit {0})
  unfolding after_create
  write_config_map force cm = try (perform w (Call.config_map_create cm)) >>= after_create force cm

  -- The end of Run, from the configuration on.
  unfoldable pub store_config : Bool → String → String → Config → Program (Unit {0})
  unfolding is_in_the_way abctl_config_map write_config_map
  store_config force namespace source config = do
    there ← try (perform w (Call.config_map_get namespace "abctl"))
    if is_in_the_way force there
        then fail (
            new (
              "abctl ConfigMap already exists in namespace "
              ++ (namespace ++ ", use --force to overwrite")))
        else perform w Call.time_now >>= λ now.
            write_config_map force (abctl_config_map namespace source config (rfc3339 now))

  -- The configuration that is read from the source's ConfigMap.
  unfoldable pub read_config : String → String → Program Config
  unfolding abctl_config_from_data
  read_config namespace source = do
    data_of ←
        with_error
          (λ e.
            errorf ("failed to read ConfigMap " ++ (namespace ++ ("/" ++ (source ++ ": ")))) e "")
          (perform w (Call.config_map_get namespace source))
    with_error (λ e. errorf "failed to extract configuration: " e "")
        (from_result (abctl_config_from_data data_of))

  -- InitCmd.Run
  unfoldable pub init : InitCmd → Program (Unit {0})
  unfolding namespace_of source_name read_config store_config default_k8s
  init c = do
    namespace ← namespace_of w "failed to get current namespace: " c.namespace
    with_error (λ e. errorf "failed to create k8s client: " e "") (default_k8s w "" "")
    source ← source_name namespace c.from_configmap
    config ← read_config namespace source
    store_config c.force namespace source config
