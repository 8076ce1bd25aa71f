-- ===== src/Api.antt =====
-- internal/api: the client of the control plane, over the HTTP client with the base URL.
-- A response's decoder is given the reading of its body, which may have failed.
pub mod Answers
mod Tests
use abctl.Common.{
  String, ℕ, Bool, ◌||◌, if◌then◌else◌, eqb, ◌++◌, decimal, Option, none, some, List, [], ◌∷◌,
  Error, new, errorf, Result, ok, err, wrap,
}
use abctl.Effects.{Stateful, return, fail, from_result, with_error, ◌>>=◌}
use abctl.Http.{Request, Reply, Net, new_request, add_header, UrlLibrary, client_do}
use abctl.Http as Http

abbrev pub dataplanes_path : String
dataplanes_path = "/api/v1/dataplanes"

pub record DataplaneSpec : Type 0 where
  pub name : String
  pub kind : String
  pub config : List (String × String)

pub record Dataplane : Type 0 where
  pub id : String
  pub name : String
  pub kind : String
  pub status : String
  pub config : List (String × String)

-- encoding/json at the types of the client.
pub record Json : Type 0 where
  pub marshal_spec : DataplaneSpec → Result String
  pub decode_dataplane : Result String → Result Dataplane
  pub decode_dataplanes : Result String → Result (List Dataplane)

-- string(body), of what could be read
abbrev pub body_text : Result String → String
body_text (ok body) = body
body_text (err e) = ""

-- The error of a status that was not expected.
unfoldable pub api_error : Reply → Error
api_error resp = new ("API error " ++ (decimal resp.status_code ++ (": " ++ body_text resp.body)))

-- The response, if its status is as expected.
unfoldable pub expect : (ℕ → Bool) → Reply → Result Reply
unfolding api_error
expect is_expected resp = if is_expected resp.status_code then ok resp else err (api_error resp)

module _ {ℓ} {S : Type ℓ} (net : Net) (urls : UrlLibrary) (json : Json) (c : Http.Client S) where
  -- The request and its response, with the errors that each operation gives them.
  unfoldable pub exchange : Result Request → (ℕ → Bool) → Stateful S Reply
  unfolding expect client_do
  exchange built is_expected = do
    req ← from_result (wrap "failed to create request: " built)
    resp ← with_error (λ e. errorf "request failed: " e "") (client_do urls c req)
    from_result (expect is_expected resp)

  unfoldable pub get_dataplane : String → Stateful S Dataplane
  unfolding exchange
  get_dataplane id = do
    resp ← exchange (new_request net "GET" (dataplanes_path ++ ("/" ++ id)) none) (λ n. eqb n 200)
    from_result (wrap "failed to decode response: " (json.decode_dataplane resp.body))

  unfoldable pub list_dataplanes : Stateful S (List Dataplane)
  unfolding exchange
  list_dataplanes = do
    resp ← exchange (new_request net "GET" dataplanes_path none) (λ n. eqb n 200)
    from_result (wrap "failed to decode response: " (json.decode_dataplanes resp.body))

  -- The request of CreateDataplane, with its header.
  abbrev pub json_request : Result Request → Result Request
  json_request (err e) = err e
  json_request (ok req) = ok (add_header "Content-Type" "application/json" req)

  unfoldable pub create_dataplane : DataplaneSpec → Stateful S Dataplane
  unfolding exchange
  create_dataplane spec = do
    req_body ← from_result (wrap "failed to marshal request: " (json.marshal_spec spec))
    resp ←
        exchange (json_request (new_request net "POST" dataplanes_path (some req_body)))
          (λ n. eqb n 201)
    from_result (wrap "failed to decode response: " (json.decode_dataplane resp.body))

  unfoldable pub delete_dataplane : String → Stateful S (Unit {0})
  unfolding exchange
  delete_dataplane id = do
    resp ←
        exchange (new_request net "DELETE" (dataplanes_path ++ ("/" ++ id)) none)
          (λ n. eqb n 204 || eqb n 200)
    return tt
