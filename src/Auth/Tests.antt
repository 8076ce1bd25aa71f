-- ===== src/Auth/Tests.antt =====
-- Examples of the theorems on tokens.
use abctl.Common.{
  false, some, ℕ, ◌+◌, ◌*◌, ◌≤◌, pos, List, [], ◌∷◌, length, ◌≡◌, refl, ◌⊎◌, arith, new, Result, ok,
  err,
}
use abctl.Common.Dict.{lookup}
use abctl.Effects
use abctl.Effects.{Call, Answer, and_then}
use abctl.Auth.{
  TokenResponse, Credentials, TokenReply, is_expired, stated_lifetime, read_token_reply,
  refresh_form, hour,
}
use abctl.Auth.Client.{
  World, Client, ensure_valid_token, send, retry, after_answer, after_ensure, do_request, header,
}
use abctl.Auth.Client.Renewal.{first_reading, second_reading, IsRenewed, ensure_valid_token-ok}
use abctl.Auth.Client.Requests.{
  latest_answer, latest_header, do_request_answered, do_request_bounded,
}
use abctl.Auth.Client.Rejected.{retry_renews}
use abctl.Auth.Refresh.{
  CredentialsJson, needs_refresh, load_credentials, refresh_if_needed, ensure_valid_auth,
  credentials_data,
}
use abctl.Auth.Refresh.Stored.{IsFresh, IsStored, ensure_valid_auth_usable}
use abctl.K8s.Client.{secret_get}
use abctl.Auth.Flow.{Flow, Callback, requested, exchange_call, authenticate}
use abctl.Auth.Flow.Exchange.{IsAccepted, authenticate_calls}

abbrev tokens : TokenResponse
tokens = record { access_token = "new"; token_type = ""; expires_in = pos 600; refresh_token = "" }

abbrev good_reply : Result TokenReply
good_reply = ok (record { status_code = 200; token = ok tokens; failure = err (new "none") })

abbrev expired : Credentials
expired = record {
  access_token = "old";
  refresh_token = "refresh";
  token_type = "Bearer";
  expires_at = 0;
}

abbrev client : Client
client = record {
  client_id = "abctl";
  credentials = expired;
  readings = 0;
  renewals = [];
  sent = [];
}

-- The API takes every token, or none.
abbrev friendly : World
friendly = record {
  clock = λ n. 1000 * hour;
  token_reply = λ n form. good_reply;
  answer = λ n h. ok 200;
}

abbrev unfriendly : World
unfriendly = record {
  clock = λ n. 1000 * hour;
  token_reply = λ n form. good_reply;
  answer = λ n h. ok 401;
}

answered : (do_request friendly client).0 ≡ ok 200
unfolding do_request ensure_valid_token after_ensure after_answer send read_token_reply is_expired
    stated_lifetime
answered = refl

do_request_answered_example :
    (latest_answer friendly (do_request friendly client).1.sent ≡ some (ok 200))
    × (latest_header friendly (do_request friendly client).1.sent
        ≡ some (header friendly (do_request friendly client).1.credentials))
do_request_answered_example = do_request_answered friendly client 200 answered

do_request_bounded_example :
    (length (do_request unfriendly client).1.sent ≤ length client.sent + 2)
    × (length (do_request unfriendly client).1.renewals ≤ length client.renewals + 2)
do_request_bounded_example = do_request_bounded unfriendly client

onwards : (k : ℕ) → unfriendly.clock k ≤ unfriendly.clock (k + 1)
onwards k = omega arith

retry_renews_example :
    ((retry unfriendly client).1.renewals
      ≡ refresh_form client.client_id client.credentials.refresh_token ∷ client.renewals)
    × (((retry unfriendly client).1.sent ≡ client.sent)
        ⊎ ((retry unfriendly client).1.sent
            ≡ header unfriendly (retry unfriendly client).1.credentials ∷ client.sent))
retry_renews_example = retry_renews unfriendly client onwards refl

ensured : (ensure_valid_token friendly client).0 ≡ ok tt
unfolding ensure_valid_token read_token_reply is_expired stated_lifetime
ensured = refl

ensure_valid_token-ok_example :
    (((ensure_valid_token friendly client).1.credentials ≡ client.credentials)
      × ((is_expired (first_reading friendly client) client.credentials ≡ false)
          ⊎ (is_expired (second_reading friendly client) client.credentials ≡ false)))
    ⊎ IsRenewed friendly client (ensure_valid_token friendly client).1
ensure_valid_token-ok_example = ensure_valid_token-ok friendly client ensured

-- A cluster that holds fresh credentials.
abbrev fresh : Credentials
fresh = record {
  access_token = "token";
  refresh_token = "";
  token_type = "Bearer";
  expires_at = 1000 * hour;
}

abbrev answers : (calls : List Call) → (c : Call) → Result (Answer c)
answers calls (Call.secret_get namespace name) = ok (record {
  namespace = namespace;
  name = name;
  secret_type = "Opaque";
  data_of = ("credentials", "{}") ∷ [];
})
answers calls (Call.token_request endpoint form) = good_reply
answers calls Call.time_now = ok 0
answers calls c = err (new "no answer")

abbrev cluster : Effects.World
cluster = record {
  ask = answers;
  is_not_found = λ e. false;
  unmarshal_secret = λ s. err (new "no secret");
}

abbrev json : CredentialsJson
json = record { credentials_from_json = λ s. ok fresh; to_json = λ c. ok "{}" }

loaded : (ensure_valid_auth cluster json "airbyte-abctl" []).0 ≡ ok fresh
unfolding ensure_valid_auth load_credentials refresh_if_needed needs_refresh secret_get
    credentials_data lookup and_then
loaded = refl

ensure_valid_auth_usable_example :
    IsFresh cluster json fresh (ensure_valid_auth cluster json "airbyte-abctl" []).1
    ⊎ IsStored cluster json "airbyte-abctl" fresh
        (ensure_valid_auth cluster json "airbyte-abctl" []).1
ensure_valid_auth_usable_example =
    ensure_valid_auth_usable cluster json "airbyte-abctl" [] fresh loaded

abbrev login : Flow
login = record {
  provider = record {
    authorization_endpoint = "https://a/auth";
    token_endpoint = "https://a/token";
  };
  client_id = "abctl";
  redirect_port = 8085;
  code_verifier = "verifier";
  state = "state";
}

abbrev callback : Callback
callback = record { state = "state"; error = ""; error_description = ""; code = "code" }

authenticate_calls_example :
    ((authenticate cluster login (requested callback) []).1 ≡ [])
    ⊎ ((r : Callback) × (requested callback ≡ requested r)
        × IsAccepted login r
        × (((authenticate cluster login (requested callback) []).1
              ≡ exchange_call login r.code ∷ [])
            ⊎ ((authenticate cluster login (requested callback) []).1
                ≡ Call.time_now ∷ exchange_call login r.code ∷ [])))
authenticate_calls_example = authenticate_calls cluster login (requested callback) []
