-- ===== src/Airbyte.antt =====
-- internal/airbyte/api.go: the client of the API of Airbyte, for one goroutine; Concurrent has the
-- token with several. The client keeps its token, and the requests that it has sent are kept beside
-- it, the latest first. encoding/json is a record of functions.
mod Tests
pub mod Emails
pub mod Concurrent
pub mod Written
pub mod Bearing
use abctl.Common.{
  String, Option, some, none, Bool, if◌then◌else◌, List, [], ◌∷◌, ◌++◌, decimal, eqb, is_empty,
  Error, new, errorf, Result, ok, err, wrap,
}
use abctl.Effects.{Stateful, return, fail, from_result, with_error, ◌>>=◌, ◌>>◌}
use abctl.Http.{Request, Reply, Net, new_request, add_header}

abbrev pub path_token : String
path_token = "/api/v1/applications/token"

abbrev pub path_org_get : String
path_org_get = "/api/v1/organizations/get"

abbrev pub path_org_set : String
path_org_set = "/api/v1/organizations/update"

abbrev pub grant_type : String
grant_type = "client_credentials"

abbrev pub org_id : String
org_id = "00000000-0000-0000-0000-000000000000"

pub record OrgReq : Type 0 where
  pub org_id : String

pub record TokenRequest : Type 0 where
  pub grant_type : String
  pub client_id : String
  pub client_secret : String

pub record TokenResponse : Type 0 where
  pub access_token : String

pub record Organization : Type 0 where
  pub id : String
  pub name : String
  pub email : String
  pub pba : Bool
  pub billing : Bool
  pub sso_realm : String

-- json.Marshal and json.Unmarshal at the types of the client. A decoder gives a value whose missing
-- members are zero.
pub record Json : Type 0 where
  pub marshal_org_req : OrgReq → Result String
  pub marshal_token_request : TokenRequest → Result String
  pub unmarshal_token_response : String → Result TokenResponse
  pub marshal_organization : Organization → Result String
  pub unmarshal_organization : String → Result Organization

-- What New is given, and nothing changes.
pub record Airbyte : Type 0 where
  pub host : String
  pub client_id : String
  pub client_secret : String

-- What changes: the token, and the requests that were sent.
pub record Session : Type 0 where
  pub token : String
  pub sent : List Request

-- New without an option, and with WithToken.
abbrev pub new_session : Session
new_session = record { token = ""; sent = [] }

abbrev pub with_token : String → Session → Session
with_token token s = record s { token = token }

-- The headers of a request without a token, and of one with it.
abbrev pub json_headers : Request → Request
json_headers req =
    add_header "accept" "application/json" (add_header "content-type" "application/json" req)

abbrev pub bearer_headers : String → Request → Request
bearer_headers token req = add_header "Authorization" ("Bearer " ++ token) (json_headers req)

-- fmt.Errorf("before: %w", err)
abbrev pub wrapped {ℓ κ} : {S : Type ℓ} {A : Type κ} → String → Stateful S A → Stateful S A
wrapped before m = with_error (λ e. errorf before e "") m

module _ (net : Net) (json : Json) (a : Airbyte) where
  -- a.h.Do
  unfoldable pub send : Request → Stateful Session Reply
  send req s = (net.answer s.sent req, record s { sent = req ∷ s.sent })

  unfoldable pub store_token : String → Stateful Session String
  store_token token s = (ok token, record s { token = token })

  abbrev pub token_request : TokenRequest
  token_request = record {
    grant_type = grant_type;
    client_id = a.client_id;
    client_secret = a.client_secret;
  }

  -- fetchToken, from the point where the token is known to be missing.
  unfoldable pub request_token : Stateful Session String
  request_token = do
    data_of ←
        from_result
          (wrap "unable to marshal token request: " (json.marshal_token_request token_request))
    req ← from_result (
        wrap "unable to create token request: "
          (new_request net "POST" (a.host ++ path_token) (some data_of)))
    res ← wrapped "unable to send token request: " (send (json_headers req))
    body ← from_result (wrap "unable to read token response: " res.body)
    token_res ←
        from_result (wrap "unable to decode token request: " (json.unmarshal_token_response body))
    store_token token_res.access_token

  -- The check under the lock.
  unfoldable pub token_under_lock : Stateful Session String
  token_under_lock s = if is_empty s.token then request_token s else (ok s.token, s)

  unfoldable pub fetch_token : Stateful Session String
  fetch_token s = if is_empty s.token then token_under_lock s else (ok s.token, s)

  unfoldable pub get_org : Stateful Session Organization
  get_org = do
    token ← wrapped "unable to fetch token: " fetch_token
    data_of ← from_result (
        wrap "unable to marshal organization request: "
          (json.marshal_org_req (record { org_id = org_id })))
    req ← from_result (
        wrap "unable to create organization request: "
          (new_request net "POST" (a.host ++ path_org_get) (some data_of)))
    res ← wrapped "unable to send organization request: " (send (bearer_headers token req))
    body ← from_result (wrap "unable to read organization response: " res.body)
    from_result (wrap "unable to decode organization request: " (json.unmarshal_organization body))

  unfoldable pub check_status : Reply → Result (Unit {0})
  check_status res =
      if eqb res.status_code 200
      then ok tt
      else err (new ("unexpected status code: " ++ decimal res.status_code))

  unfoldable pub set_org : Organization → Stateful Session (Unit {0})
  set_org org = do
    token ← wrapped "unable to fetch token: " fetch_token
    data_of ←
        from_result
          (wrap "unable to marshal organization request: " (json.marshal_organization org))
    req ← from_result (
        wrap "unable to create organization request: "
          (new_request net "POST" (a.host ++ path_org_set) (some data_of)))
    res ← wrapped "unable to send organization request: " (send (bearer_headers token req))
    from_result (check_status res)

  unfoldable pub get_org_email : Stateful Session String
  get_org_email = do org ← wrapped "failed to get organization: " get_org; return org.email

  unfoldable pub set_org_email : String → Stateful Session (Unit {0})
  set_org_email email = do
    org ← wrapped "failed to get organization: " get_org
    wrapped "failed to update organization: " (set_org (record org { email = email }))
