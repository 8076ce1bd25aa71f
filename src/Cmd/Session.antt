-- ===== src/Cmd/Session.antt =====
-- internal/cmd/auth/login.go and logout.go, and checkAirbyteDir of internal/cmd/local/local.go. The
-- state and the code verifier of a login are random texts, and the JSON of a patch is a text.
pub mod Kept
mod Tests
use abctl.Common.{
  String, ℕ, Bool, not, List, is_empty, if◌then◌else◌, ◌++◌, leb, Error, new, errorf, Result, ok,
  err,
}
use abctl.Effects.{
  Call, World, Program, Secret, FileInfo, return, fail, try, ◌>>=◌, ◌>>◌, with_error, from_result,
  perform,
}
use abctl.K8s.Client.{secret_get, secret_create_or_update, get_abctl_config, is_abctl_initialized}
use abctl.Service.Setup.{default_k8s}
use abctl.Auth.{Credentials, Provider}
use abctl.Auth.Refresh.{CredentialsJson, credentials_secret, default_client_id, discover_provider}
use abctl.Auth.Flow.{Flow, Event, authenticate}
use abctl.Cmd.Init.{namespace_of}

pub record LoginCmd : Type 0 where
  pub namespace : String
  pub callback_port : ℕ

-- NewFlow, for its random texts.
unfoldable pub new_flow : String → String → Provider → String → ℕ → Flow
new_flow state code_verifier provider client_id callback_port = record {
  provider = provider;
  client_id = client_id;
  redirect_port = callback_port;
  code_verifier = code_verifier;
  state = state;
}

module _ (w : World) where
  -- How login and logout start: the namespace, the client, and the test for the ConfigMap.
  unfoldable pub opened : String → Program String
  unfolding namespace_of default_k8s is_abctl_initialized
  opened given = do
    namespace ← namespace_of w "failed to get namespace from current context: " given
    with_error (λ e. errorf "failed to create k8s client: " e "") (default_k8s w "" "")
    is_abctl_initialized w namespace
    return namespace

  module _ (json : CredentialsJson) (state code_verifier : String) (event : Event) where
    -- LoginCmd.storeCredentials
    unfoldable pub login_store : String → Credentials → Program (Unit {0})
    unfolding credentials_secret secret_create_or_update
    login_store namespace creds = do
      cred_data ←
          with_error (λ e. errorf "failed to serialize credentials: " e "")
            (from_result (json.to_json creds))
      with_error (λ e. errorf "failed to store credentials secret: " e "")
          (secret_create_or_update w (credentials_secret namespace cred_data))

    -- From the test of the authentication address on.
    unfoldable pub login_at : LoginCmd → String → String → Program (Unit {0})
    unfolding new_flow authenticate login_store discover_provider
    login_at c namespace auth_url =
        if is_empty auth_url
        then fail (new "airbyteAuthURL not configured in abctl ConfigMap")
        else (do
          provider ←
              with_error (λ e. errorf "failed to discover auth provider: " e "")
                (discover_provider w json auth_url)
          creds ←
              with_error (λ e. errorf "authentication failed: " e "")
                (authenticate w
                  (new_flow state code_verifier provider default_client_id c.callback_port) event)
          with_error (λ e. errorf "failed to store credentials: " e "")
              (login_store namespace creds))

    -- LoginCmd.Run
    unfoldable pub login : LoginCmd → Program (Unit {0})
    unfolding opened login_at get_abctl_config
    login c = do
      namespace ← opened c.namespace
      config ← get_abctl_config w namespace
      login_at c namespace config.airbyte_auth_url

  -- The error of a logout that finds no secret, or fails to look.
  unfoldable pub not_logged_in : String → Error → Error
  not_logged_in namespace e =
      if w.is_not_found e
      then new ("not logged in: secret \"abctl-auth\" not found in namespace " ++ namespace)
      else errorf "failed to check for credentials: " e ""

  -- LogoutCmd.Run, with the JSON of the patch that sets the credentials to null.
  unfoldable pub logout : Result String → String → Program (Unit {0})
  unfolding opened not_logged_in secret_get
  logout patch given = do
    namespace ← opened given
    with_error (not_logged_in namespace) (secret_get w namespace "abctl-auth")
    data_of ← with_error (λ e. errorf "failed to create patch: " e "") (from_result patch)
    with_error (λ e. errorf "failed to remove credentials: " e "")
        (perform w (Call.secret_patch namespace "abctl-auth" data_of))

  -- checkAirbyteDir, from the answer to the first call on.
  unfoldable pub fix_airbyte_dir : (Error → Bool) → String → Result FileInfo → Program (Unit {0})
  fix_airbyte_dir is_not_exist airbyte (err e) =
      if is_not_exist e
      then return tt
      else fail (errorf ("unable to determine status of '" ++ (airbyte ++ "': ")) e "")
  fix_airbyte_dir is_not_exist airbyte (ok info) =
      if not info.is_dir
      then fail (new (airbyte ++ " is not a directory"))
      else if leb 0o744 info.perm
      then return tt
      else with_error (λ e. errorf ("unable to change permissions of '" ++ (airbyte ++ "': ")) e "")
          (perform w (Call.chmod airbyte 0o744))

  -- checkAirbyteDir
  unfoldable pub check_airbyte_dir : (Error → Bool) → String → Program (Unit {0})
  unfolding fix_airbyte_dir
  check_airbyte_dir is_not_exist airbyte =
      try (perform w (Call.stat_mode airbyte)) >>= fix_airbyte_dir is_not_exist airbyte
