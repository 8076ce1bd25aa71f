-- ===== src/Auth/Refresh.antt =====
-- internal/auth/refresh.go: the credentials in the secret abctl-auth, renewed when they expire soon.
-- The JSON of credentials is a parameter: its decoder and its encoder.
pub mod Stored
use abctl.Common.{
  String, Bool, ◌+◌, ◌*◌, ℕ, List, [], ◌∷◌, is_empty, if◌then◌else◌, Option, none, some, Error, new,
  errorf, Result, ok, err, ltb,
}
use abctl.Common.Dict.{lookup}
use abctl.Effects.{
  Call, World, Program, Secret, return, fail, ◌>>=◌, ◌>>◌, with_error, from_result, perform,
}
use abctl.K8s.Client.{Config, secret_get, secret_create_or_update, get_abctl_config}
use abctl.Auth.{
  TokenResponse, Credentials, minute, stated_lifetime, lifetime_or_hour, add_duration, or_default,
  read_token_reply, Provider, read_provider_reply, well_known_url, refresh_form,
}

pub record CredentialsJson : Type 0 where
  pub credentials_from_json : String → Result Credentials
  pub to_json : Credentials → Result String

abbrev pub default_client_id : String
default_client_id = "abctl"

-- needsRefresh, at the time that time.Now() returns.
unfoldable pub needs_refresh : ℕ → Credentials → Bool
needs_refresh now c = ltb c.expires_at (now + 5 * minute)

-- The secret that storeCredentials writes.
unfoldable pub credentials_secret : String → String → Secret
credentials_secret namespace cred_data = record {
  namespace = namespace;
  name = "abctl-auth";
  secret_type = "Opaque";
  data_of = ("credentials", cred_data) ∷ [];
}

-- The new credentials, from the response and the time of the renewal.
unfoldable pub refreshed : ℕ → TokenResponse → Credentials → Credentials
refreshed now tokens c = record {
  access_token = tokens.access_token;
  refresh_token = or_default c.refresh_token tokens.refresh_token;
  token_type = tokens.token_type;
  expires_at = add_duration now (lifetime_or_hour (stated_lifetime tokens.expires_in));
}

-- secret.Data["credentials"], or the error that there are none.
unfoldable pub credentials_data : Option String → Result String
credentials_data none = err (new "credentials not found in secret")
credentials_data (some cred_data) = ok cred_data

module _ (w : World) (json : CredentialsJson) where
  -- storeCredentials
  unfoldable pub store_credentials : String → Credentials → Program (Unit {0})
  store_credentials namespace c = do
    cred_data ←
        with_error (λ e. errorf "failed to serialize credentials: " e "")
          (from_result (json.to_json c))
    secret_create_or_update w (credentials_secret namespace cred_data)

  -- DiscoverProvider
  unfoldable pub discover_provider : String → Program Provider
  discover_provider issuer_url calls = (
    read_provider_reply (w.ask calls (Call.http_get (well_known_url issuer_url))),
    Call.http_get (well_known_url issuer_url) ∷ calls,
  )

  -- RefreshAccessToken
  unfoldable pub refresh_access_token : String → String → String → Program TokenResponse
  refresh_access_token endpoint client_id refresh_token calls = (
    read_token_reply
        (w.ask calls (Call.token_request endpoint (refresh_form client_id refresh_token))),
    Call.token_request endpoint (refresh_form client_id refresh_token) ∷ calls,
  )

  -- The end of refreshAuth, from the tokens on.
  unfoldable pub store_refreshed : String → Credentials → TokenResponse → Program Credentials
  store_refreshed namespace c tokens = do
    now ← perform w Call.time_now
    with_error (λ e. errorf "failed to store refreshed credentials: " e "")
        (store_credentials namespace (refreshed now tokens c))
    return (refreshed now tokens c)

  -- refreshAuth, for credentials with a refresh token.
  unfoldable pub refresh_with_token : String → Credentials → Program Credentials
  refresh_with_token namespace c = do
    config ← with_error (λ e. errorf "failed to load config: " e "") (get_abctl_config w namespace)
    provider ←
        with_error (λ e. errorf "failed to discover provider: " e "")
          (discover_provider config.airbyte_auth_url)
    tokens ← refresh_access_token provider.token_endpoint default_client_id c.refresh_token
    store_refreshed namespace c tokens

  -- refreshAuth
  unfoldable pub refresh_auth : String → Credentials → Program Credentials
  refresh_auth namespace c =
      if is_empty c.refresh_token
      then fail (new "no refresh token available")
      else refresh_with_token namespace c

  -- The credentials in the secret.
  unfoldable pub load_credentials : String → Program Credentials
  load_credentials namespace = do
    secret ←
        with_error (λ e. errorf "not authenticated: " e " (run 'abctl auth login')")
          (secret_get w namespace "abctl-auth")
    cred_data ← from_result (credentials_data (lookup "credentials" secret.data_of))
    with_error (λ e. errorf "failed to parse credentials: " e "")
        (from_result (json.credentials_from_json cred_data))

  -- The refresh, if the credentials need one.
  unfoldable pub refresh_if_needed : String → Credentials → ℕ → Program Credentials
  refresh_if_needed namespace c now =
      if needs_refresh now c
      then with_error
          (λ e. errorf "token refresh failed: " e " (run 'abctl auth login' to re-authenticate)")
          (refresh_auth namespace c)
      else return c

  -- EnsureValidAuth
  unfoldable pub ensure_valid_auth : String → Program Credentials
  ensure_valid_auth namespace = do
    c ← load_credentials namespace
    now ← perform w Call.time_now
    refresh_if_needed namespace c now
