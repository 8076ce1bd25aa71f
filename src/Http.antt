-- ===== src/Http.antt =====
-- internal/http/client.go: requests with a base URL; and what net/http and net/url give it.
-- A URL stands for its text.
use abctl.Common.{
  String, ℕ, Option, List, [], ◌∷◌, Result, ok, ◌>>=◌, >>=-eq-ok, ok-injective, ◌≡◌, sym,
}
use abctl.Effects.{Stateful}

pub record Request : Type 0 where
  pub method : String
  pub url : String
  pub headers : List (String × String)
  pub body : Option String

-- A response: its status, and the reading of its body, which may fail.
pub record Reply : Type 0 where
  pub status_code : ℕ
  pub body : Result String

-- HTTPDoer, over the state of what is behind it.
pub record HttpDoer {ℓ} (S : Type ℓ) : Type ℓ where
  pub do_request : Request → Stateful S Reply

-- The other side: its answer to a request, after the requests before it (the latest first).
pub record Net : Type 0 where
  pub check_url : String → Result (Unit {0})
  pub answer : List Request → Request → Result Reply

-- The client of net/http: what it sends is kept.
unfoldable pub transport : Net → HttpDoer (List Request)
transport net = record { do_request = λ req sent. (net.answer sent req, req ∷ sent) }

-- http.NewRequestWithContext, which refuses a URL that it cannot parse.
unfoldable pub new_request : Net → String → String → Option String → Result Request
new_request net method url body =
    net.check_url url >>= λ _. ok (record { method = method; url = url; headers = []; body = body })

-- req.Header.Add
unfoldable pub add_header : String → String → Request → Request
add_header name value req = record req { headers = (name, value) ∷ req.headers }

-- url.Parse, and URL.ResolveReference from the base.
pub record UrlLibrary : Type 0 where
  pub parse : String → Result String
  pub resolve_reference : String → String → String

pub record Client {ℓ} (S : Type ℓ) : Type ℓ where
  pub doer : HttpDoer S
  pub base_url : String

unfoldable pub new_client {ℓ} : {S : Type ℓ} → UrlLibrary → String → HttpDoer S → Result (Client S)
new_client urls base_url doer =
    urls.parse base_url >>= λ parsed. ok (record { doer = doer; base_url = parsed })

-- Do: the doer gets the request with the URL resolved.
unfoldable pub client_do {ℓ} : {S : Type ℓ} → UrlLibrary → Client S → Request → Stateful S Reply
client_do urls c req =
    c.doer.do_request (record req { url = urls.resolve_reference c.base_url req.url })

-- The request that is built is the one that was asked for.
pub new_request-ok :
    (net : Net) (method url : String) (body : Option String) {req : Request}
    → new_request net method url body ≡ ok req
    → req ≡ record { method = method; url = url; headers = []; body = body }
unfolding new_request
new_request-ok net method url body h =
    let (x, fine, built) = >>=-eq-ok (net.check_url url) _ h in sym (ok-injective built)
