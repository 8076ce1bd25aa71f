-- ===== src/Service/Volumes.antt =====
-- internal/service/install.go: persistent volumes, their claims, and secrets; internal/docker/secret.go.
use abctl.Common.{String, ◌++◌, List, [], ◌∷◌, if◌then◌else◌, Error, errorf}
use abctl.Maps.{Value, str, obj, end, field}
use abctl.Effects.{
  Call, World, Program, Secret, return, ◌>>=◌, ◌>>◌, with_error, from_result, perform,
}
use abctl.K8s.Client.{
  persistent_volume_exists, persistent_volume_claim_exists, persistent_volume_create,
  persistent_volume_claim_create, secret_create_or_update,
}
use abctl.Service.{Manager, airbyte_namespace, docker_auth_secret_name}

-- fmt.Errorf("unable to <what> '<name>': %w", err)
abbrev pub unable : String → String → Error → Error
unable what name e = errorf ("unable to " ++ (what ++ (" '" ++ (name ++ "': ")))) e ""

-- docker.Secret: the map that is marshalled.
unfoldable pub docker_config : (String → String) → String → String → String → String → Value
docker_config base64 server user pass email = obj (
    field "auths"
      (obj (
        field server
          (obj (
            field "username" (str user) (
              field "password" (str pass) (
                field "email" (str email)
                  (field "auth" (str (base64 (user ++ (":" ++ pass)))) end)))))
          end))
      end)

-- The secret of handleDockerSecret.
unfoldable pub docker_secret : String → Secret
docker_secret body = record {
  namespace = airbyte_namespace;
  name = docker_auth_secret_name;
  secret_type = "kubernetes.io/dockerconfigjson";
  data_of = (".dockerconfigjson", body) ∷ [];
}

-- secret.ObjectMeta.Namespace = common.AirbyteNamespace
abbrev pub in_airbyte_namespace : Secret → Secret
in_airbyte_namespace s = record s { namespace = airbyte_namespace }

module _ (w : World) (m : Manager) where
  -- filepath.Join(paths.Data, name)
  abbrev pub volume_dir : String → String
  volume_dir name = m.data_dir ++ ("/" ++ name)

  -- persistentVolume, for a volume that does not exist. Modes are 0o766 and 0o777.
  unfoldable pub new_persistent_volume : String → String → Program (Unit {0})
  new_persistent_volume namespace name = do
    with_error (unable "create persistent volume" name)
        (perform w (Call.mkdir_all (volume_dir name) 502))
    with_error (unable "create persistent volume" name) (persistent_volume_create w namespace name)
    with_error (unable "set permissions for" (volume_dir name))
        (perform w (Call.chmod (volume_dir name) 511))

  -- persistentVolume
  unfoldable pub persistent_volume : String → String → Program (Unit {0})
  persistent_volume namespace name = do
    there ← persistent_volume_exists w namespace name
    if there then return tt else new_persistent_volume namespace name

  unfoldable pub new_persistent_volume_claim : String → String → String → Program (Unit {0})
  new_persistent_volume_claim namespace name volume_name =
      with_error (unable "create persistent volume claim" name)
        (persistent_volume_claim_create w namespace name volume_name)

  -- persistentVolumeClaim
  unfoldable pub persistent_volume_claim : String → String → String → Program (Unit {0})
  persistent_volume_claim namespace name volume_name = do
    there ← persistent_volume_claim_exists w namespace name volume_name
    if there then return tt else new_persistent_volume_claim namespace name volume_name

  -- handleDockerSecret
  unfoldable pub handle_docker_secret : String → String → String → String → Program (Unit {0})
  handle_docker_secret server user pass email = do
    body ←
        with_error (λ e. errorf "unable to create docker secret: " e "")
          (from_result (m.marshal (docker_config m.base64 server user pass email)))
    with_error (λ e. errorf "unable to create docker-auth secret: " e "")
        (secret_create_or_update w (docker_secret body))

  -- One round of the loop over the secret files.
  unfoldable pub create_secret : String → Program (Unit {0})
  create_secret secret_file = do
    raw ←
        with_error (unable "read secret file" secret_file) (perform w (Call.read_file secret_file))
    secret ←
        with_error (unable "unmarshal secret file" secret_file)
          (from_result (w.unmarshal_secret raw))
    with_error (unable "create secret from file" secret_file)
        (secret_create_or_update w (in_airbyte_namespace secret))

  unfoldable pub create_secrets : List String → Program (Unit {0})
  create_secrets [] = return tt
  create_secrets (file ∷ files) = create_secret file >> create_secrets files
