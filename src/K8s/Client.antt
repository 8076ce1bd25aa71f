-- ===== src/K8s/Client.antt =====
-- internal/k8s/client.go, config.go and namespace.go: what DefaultK8sClient makes of the calls of the
-- ClientSet.
pub mod Secrets
use mathlib.Core.Option.{get_or}
use abctl.Common.{
  String, Bool, true, not, ◌++◌, List, is_empty, if◌then◌else◌, Option, none, some, Error, new,
  errorf, Result, ok, err,
}
use abctl.Common.Dict.{lookup}
use abctl.K8s.Ingress.{Ingress}
use abctl.Effects.{
  Call, Answer, World, Program, Secret, Pod, PersistentVolume, PersistentVolumeClaim, return, fail,
  ◌>>=◌, ◌>>◌, try, with_error, perform,
}

-- The volume that PersistentVolumeCreate asks for.
abbrev pub new_volume : String → String → PersistentVolume
new_volume namespace name = record {
  name = name;
  namespace = namespace;
  host_path = "/var/local-path-provisioner/" ++ name;
  reclaim_policy = "Retain";
  storage_class_name = "standard";
}

module _ (w : World) where
  -- `if err == nil { return true }; return !k8serrors.IsNotFound(err)`
  unfoldable pub found {ℓ} : {A : Type ℓ} → Result A → Bool
  found (ok a) = true
  found (err e) = not (w.is_not_found e)

  -- IngressExists
  unfoldable pub ingress_exists : String → String → Program Bool
  unfolding found
  ingress_exists namespace ingress = do
    r ← try (perform w (Call.ingress_get namespace ingress))
    return (found r)

  -- NamespaceExists
  unfoldable pub namespace_exists : String → Program Bool
  unfolding found
  namespace_exists namespace = do
    r ← try (perform w (Call.namespace_get namespace))
    return (found r)

  -- PersistentVolumeExists, which ignores the namespace.
  unfoldable pub persistent_volume_exists : String → String → Program Bool
  unfolding found
  persistent_volume_exists namespace name = do
    r ← try (perform w (Call.persistent_volume_get name))
    return (found r)

  -- PersistentVolumeClaimExists, which ignores the volume's name.
  unfoldable pub persistent_volume_claim_exists : String → String → String → Program Bool
  unfolding found
  persistent_volume_claim_exists namespace name volume_name = do
    r ← try (perform w (Call.persistent_volume_claim_get namespace name))
    return (found r)

  -- PersistentVolumeCreate
  unfoldable pub persistent_volume_create : String → String → Program (Unit {0})
  persistent_volume_create namespace name =
      perform w (Call.persistent_volume_create (new_volume namespace name))

  -- PersistentVolumeClaimCreate
  unfoldable pub persistent_volume_claim_create : String → String → String → Program (Unit {0})
  persistent_volume_claim_create namespace name volume_name = perform w (
      Call.persistent_volume_claim_create (record {
        namespace = namespace;
        name = name;
        volume_name = volume_name;
        storage_class_name = "standard";
      }))

  -- The three branches of SecretCreateOrUpdate, from the result of the get.
  unfoldable pub secret_update_or_create : Secret → Result Secret → Program (Unit {0})
  secret_update_or_create secret (ok old) =
      with_error (λ e. errorf ("unable to update the secret " ++ (secret.name ++ ": ")) e "")
        (perform w (Call.secret_update secret))
  secret_update_or_create secret (err e) =
      if w.is_not_found e
      then with_error (λ e. errorf ("unable to create the secret " ++ (secret.name ++ ": ")) e "")
          (perform w (Call.secret_create secret))
      else fail
          (errorf ("unexpected error while handling the secret " ++ (secret.name ++ ": ")) e "")

  -- SecretCreateOrUpdate
  unfoldable pub secret_create_or_update : Secret → Program (Unit {0})
  unfolding secret_update_or_create
  secret_create_or_update secret = do
    r ← try (perform w (Call.secret_get secret.namespace secret.name))
    secret_update_or_create secret r

  -- SecretGet
  unfoldable pub secret_get : String → String → Program Secret
  secret_get namespace name =
      with_error (λ e. errorf ("unable to get the secret " ++ (name ++ ": ")) e "")
        (perform w (Call.secret_get namespace name))

-- Config of internal/abctl/config.go.
pub record Config : Type 0 where
  pub airbyte_api_host : String
  pub airbyte_url : String
  pub airbyte_auth_url : String

-- data[key], the empty text for a missing key.
abbrev pub text_at : String → List (String × String) → String
text_at key data_of = get_or (lookup key data_of) ""

-- A configuration from its three keys, the first two required; `complaint` is what is said of one
-- that is missing or empty.
unfoldable pub config_from_keys :
    (String → String) → String → String → String → List (String × String) → Result Config
config_from_keys complaint api_host url auth_url data_of =
    if is_empty (text_at api_host data_of)
    then err (new (complaint api_host))
    else if is_empty (text_at url data_of)
    then err (new (complaint url))
    else ok (record {
      airbyte_api_host = text_at api_host data_of;
      airbyte_url = text_at url data_of;
      airbyte_auth_url = text_at auth_url data_of;
    })

-- AbctlConfigFromData
unfoldable pub abctl_config_from_data : List (String × String) → Result Config
unfolding config_from_keys
abctl_config_from_data =
    config_from_keys (λ key. "required field " ++ (key ++ " not found or empty")) "AIRBYTE_API_HOST"
      "AIRBYTE_URL" "AB_AIRBYTE_AUTH_IDENTITY_PROVIDER_OIDC_ENDPOINTS_AUTHORIZATION_SERVER_ENDPOINT"

-- The end of GetAbctlConfig, from the data of the ConfigMap on.
unfoldable pub config_of_config_map : List (String × String) → Result Config
unfolding config_from_keys
config_of_config_map =
    config_from_keys (λ key. key ++ " not found in abctl config") "airbyteApiHost" "airbyteURL"
      "airbyteAuthURL"

module _ (w : World) where
  -- GetAbctlConfig
  unfoldable pub get_abctl_config : String → Program Config
  unfolding config_of_config_map
  get_abctl_config namespace = do
    data_of ←
        with_error (λ e. errorf "failed to load abctl config: " e " (hint: run 'abctl init' first)")
          (perform w (Call.config_map_get namespace "abctl"))
    λ calls. (config_of_config_map data_of, calls)

-- internal/k8s/namespace.go
unfoldable pub namespace_or_default : String → String
namespace_or_default namespace = if is_empty namespace then "default" else namespace

module _ (w : World) where
  -- GetCurrentNamespace; the namespace of the kubeconfig's context is the answer to a call.
  unfoldable pub get_current_namespace : Program String
  unfolding namespace_or_default
  get_current_namespace = do
    namespace ← perform w Call.current_namespace
    return (namespace_or_default namespace)

  -- IsAbctlInitialized
  unfoldable pub is_abctl_initialized : String → Program (Unit {0})
  is_abctl_initialized namespace = do
    with_error (λ e. errorf "abctl not initialized: " e " (hint: run 'abctl init' first)")
        (perform w (Call.config_map_get namespace "abctl"))
    return tt
