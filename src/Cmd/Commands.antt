-- ===== src/Cmd/Commands.antt =====
-- internal/cmd/local/credentials.go, deployments.go, uninstall.go and status.go: the functions that
-- the telemetry client wraps, after the check of docker.
pub mod Done
use abctl.Common.{
  String, ℕ, Bool, true, false, not, ◌||◌, if◌then◌else◌, ◌==◌, ◌++◌, is_empty, List, Option, Error,
  new, errorf, Result, ok, err, ℤ, pos, show_int,
}
use abctl.Common.Dict.{lookup, insert}
use abctl.Http.{Net}
use abctl.Airbyte.{Json, Airbyte, Session, new_session, get_org_email, set_org_email}
use abctl.Effects.{
  Call, World, Program, Secret, return, fail, try, from_result, with_error, perform, ◌>>=◌, ◌>>◌,
}
use abctl.K8s.Client.{text_at, secret_create_or_update, secret_get}
use abctl.K8s.Cluster.{KindCluster, delete, exists, provider_cluster}
use abctl.K8s.Restart.{deployment_restart}
use abctl.Service.{Manager, airbyte_namespace}
use abctl.Service.Data.{uninstall, status}
use abctl.Service.Setup.{default_k8s, new_manager}
use abctl.Cmd.{System, get_port}
use abctl.Cmd.Cluster.{Provider}

abbrev pub airbyte_auth_secret_name : String
airbyte_auth_secret_name = "airbyte-auth-secrets"

abbrev pub secret_password : String
secret_password = "instance-admin-password"

abbrev pub secret_client_id : String
secret_client_id = "instance-admin-client-id"

abbrev pub secret_client_secret : String
secret_client_secret = "instance-admin-client-secret"

pub record CredentialsCmd : Type 0 where
  pub email : String
  pub password : String

-- The network by the calls before it, the JSON of the API; the JSON of a restart's patch,
-- wait.PollUntilContextTimeout with its context, and the time of a restart.
pub record Outside : Type 0 where
  pub net : List Call → Net
  pub json : Json
  pub marshal_patch : String → String → Result String
  pub poll : Program Bool → Program (Unit {0})
  pub restarted_at : String

module _ (w : World) (sys : System) (k : KindCluster) (provider : Provider) (out : Outside) where
  unfoldable pub restart : String → Program (Unit {0})
  unfolding deployment_restart
  restart name =
      deployment_restart w out.marshal_patch out.poll airbyte_namespace name out.restarted_at

  -- The e-mail, if one is given; the result is the session of the API client.
  unfoldable pub update_email : Airbyte → String → Program Session
  unfolding set_org_email
  update_email a email calls =
      if is_empty email
      then (ok new_session, calls)
      else after (set_org_email (out.net calls) out.json a email new_session)
    where
      after : Result (Unit {0}) × Session → Result Session × List Call
      after (err e, s) = (err (errorf "unable to udpate the email address: " e ""), calls)
      after (ok x, s) = (ok s, calls)

  -- A new password: the secret is written and fetched again, and the server restarted.
  unfoldable pub change_password : String → Secret → Program Secret
  unfolding secret_create_or_update secret_get restart insert
  change_password password secret = do
    with_error (λ e. errorf "unable to update the password: " e "")
        (secret_create_or_update w
          (record secret { data_of = insert secret_password password secret.data_of }))
    fetched ← secret_get w airbyte_namespace airbyte_auth_secret_name
    with_error (λ e. errorf "unable to restart airbyte-abctl-server: " e "")
        (restart "airbyte-abctl-server")
    return fetched

  -- The password, if one is given and it is not the one there is; the result is the secret after it.
  unfoldable pub update_password : String → Secret → Program Secret
  unfolding change_password lookup
  update_password password secret =
      if is_empty password || password == text_at secret_password secret.data_of
      then return secret
      else change_password password secret

  unfoldable pub org_email : Airbyte → Session → Program String
  unfolding get_org_email
  org_email a s calls = after (get_org_email (out.net calls) out.json a s)
    where
      after : Result String × Session → Result String × List Call
      after (err e, s') = (err (errorf "unable to determine organization email: " e ""), calls)
      after (ok email, s') = (ok (if is_empty email then "[not set]" else email), calls)

  abbrev pub api_of : Secret → ℤ → Airbyte
  api_of secret port = record {
    host = "http://localhost:" ++ show_int port;
    client_id = text_at secret_client_id secret.data_of;
    client_secret = text_at secret_client_secret secret.data_of;
  }

  -- What the command prints: the e-mail and the password.
  unfoldable pub show_credentials : CredentialsCmd → Program (String × String)
  unfolding update_email update_password org_email
  show_credentials cc = do
    secret ← secret_get w airbyte_namespace airbyte_auth_secret_name
    port ← get_port w sys k.name
    s ← update_email (api_of secret port) cc.email
    updated ← update_password cc.password secret
    email ← org_email (api_of secret port) s
    return (email, text_at secret_password updated.data_of)

  abbrev pub with_clients : CredentialsCmd → Result (Unit {0}) → Program (Unit {0})
  with_clients cc (err e) = return tt
  with_clients cc (ok x) = show_credentials cc >> return tt

  -- CredentialsCmd.Run, which succeeds without a cluster.
  unfoldable pub credentials : CredentialsCmd → Program (Unit {0})
  unfolding show_credentials
  credentials cc = try (default_k8s w k.kubeconfig provider.context) >>= with_clients cc

  -- DeploymentsCmd: the deployments are listed, or one is restarted.
  unfoldable pub deployments : String → Program (Unit {0})
  unfolding restart
  deployments name =
      if is_empty name
      then with_error (λ e. errorf "unable to list deployments: " e "")
          (perform w (Call.deployment_list airbyte_namespace))
        >> return tt
      else with_error (λ e. errorf "unable to restart airbyte deployment: " e "") (restart name)

  -- The manager's part of the uninstallation, whose errors are dropped.
  unfoldable pub uninstall_by_manager : Manager → Bool → Program (Unit {0})
  unfolding uninstall
  uninstall_by_manager m persisted =
      try (
        new_manager w k.kubeconfig provider.context
          (record { port_http = pos 0; has_k8s = false; has_helm = false }) m
        >>= λ made. uninstall w made persisted)
      >> return tt

  unfoldable pub uninstall_found : Manager → Bool → Program (Unit {0})
  unfolding uninstall_by_manager delete
  uninstall_found m persisted = do
    uninstall_by_manager m persisted
    with_error (λ e. new ("unable to uninstall cluster " ++ k.name)) (delete w k)

  -- UninstallCmd
  unfoldable pub uninstall_cluster : Manager → Bool → Program (Unit {0})
  unfolding uninstall_found
  uninstall_cluster m persisted = do
    provider_cluster w provider.dir k
    there ← exists w k
    if there then uninstall_found m persisted else return tt

  unfoldable pub status_found : Manager → Program (Unit {0})
  unfolding get_port status
  status_found m = do
    port ← get_port w sys k.name
    made ←
        with_error (λ e. errorf "unable to initialize local command: " e "")
          (new_manager w k.kubeconfig provider.context
            (record { port_http = port; has_k8s = false; has_helm = false }) m)
    status w made

  -- StatusCmd
  unfoldable pub status_cluster : Manager → Program (Unit {0})
  unfolding status_found
  status_cluster m = do
    provider_cluster w provider.dir k
    there ← exists w k
    if there then status_found m else return tt
