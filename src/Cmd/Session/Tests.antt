-- ===== src/Cmd/Session/Tests.antt =====
-- Examples of the theorems on init and login, in a cluster that Airbyte runs in.
use abctl.Common.{String, ℕ, true, [], ◌∷◌, new, pos, List, Result, ok, err, ◌≡◌, refl}
use abctl.Common.Dict.{lookup}
use abctl.Effects.{Call, Answer, World, and_then}
use abctl.Auth.{read_token_reply, read_provider_reply}
use abctl.Auth.Refresh.{CredentialsJson, discover_provider}
use abctl.Auth.Flow.{
  Event, requested, authenticate, await_code, handle_callback, exchange_code,
  exchange_code_for_tokens,
}
use abctl.K8s.Client.{
  config_from_keys, config_of_config_map, get_abctl_config, is_abctl_initialized,
  secret_create_or_update, secret_update_or_create,
}
use abctl.Service.Setup.{default_k8s}
use abctl.Cmd.Init.{InitCmd, namespace_of}
use abctl.Cmd.Session.{LoginCmd, opened, login, login_at, login_store}
use abctl.Cmd.Session.Kept.{IsNamed, IsLoggedIn, login-IsLoggedIn}

-- The cluster has the two ConfigMaps, refuses to create a second, and takes what is written.
abbrev answers : (calls : List Call) → (c : Call) → Result (Answer c)
answers calls (Call.config_map_get namespace name) = ok (
    ("AIRBYTE_API_HOST", "https://airbyte.example/api")
    ∷ ("AIRBYTE_URL", "https://airbyte.example")
    ∷ ("airbyteApiHost", "https://airbyte.example/api")
    ∷ ("airbyteURL", "https://airbyte.example")
    ∷ ("airbyteAuthURL", "https://airbyte.example/auth")
    ∷ [])
answers calls (Call.config_map_update cm) = ok tt
answers calls (Call.rest_config kubeconfig context) = ok tt
answers calls Call.new_clientset = ok tt
answers calls Call.time_now = ok 0
answers calls (Call.http_get url) = ok (record {
  status_code = 200;
  provider = ok (record {
    authorization_endpoint = "https://airbyte.example/auth/authorize";
    token_endpoint = "https://airbyte.example/auth/token";
  });
})
answers calls (Call.token_request endpoint form) = ok (record {
  status_code = 200;
  token = ok (record {
    access_token = "access";
    token_type = "";
    expires_in = pos 600;
    refresh_token = "refresh";
  });
  failure = err (new "none");
})
answers calls (Call.secret_create secret) = ok tt
answers calls c = err (new "not found")

abbrev world : World
world = record {
  ask = answers;
  is_not_found = λ e. true;
  unmarshal_secret = λ s. err (new "no secret");
}

abbrev midnight : ℕ → String
midnight now = "1970-01-01T00:00:00Z"

abbrev command : InitCmd
command = record { namespace = "airbyte"; force = true; from_configmap = "airbyte-env" }

abbrev json : CredentialsJson
json = record { credentials_from_json = λ s. err (new "not read here"); to_json = λ c. ok "{}" }

abbrev login_command : LoginCmd
login_command = record { namespace = "airbyte"; callback_port = 8085 }

abbrev callback : Event
callback = requested (record { state = "state"; error = ""; error_description = ""; code = "code" })

logged_in : (login world json "state" "verifier" callback login_command []).0 ≡ ok tt
unfolding login opened namespace_of default_k8s is_abctl_initialized get_abctl_config
    config_of_config_map config_from_keys lookup login_at discover_provider read_provider_reply
    authenticate await_code handle_callback exchange_code exchange_code_for_tokens read_token_reply
    login_store secret_create_or_update secret_update_or_create and_then
logged_in = refl

login-IsLoggedIn_example :
    (namespace : String) × IsNamed world login_command.namespace namespace
    × IsLoggedIn world json "state" "verifier" callback login_command namespace
        (login world json "state" "verifier" callback login_command []).1
login-IsLoggedIn_example =
    login-IsLoggedIn world json "state" "verifier" callback login_command [] logged_in
