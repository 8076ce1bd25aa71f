-- ===== src/Auth/Flow.antt =====
-- internal/auth/flow.go: the browser login. The callback server, the context and the timer are the
-- event that the select takes first; of the requests to the callback address, it takes the first.
pub mod Exchange
use Prim.Native.Nat.{ℕ}
use abctl.Common.{
  String, Bool, not, ◌+◌, List, [], ◌∷◌, is_empty, if◌then◌else◌, ◌==◌, ◌++◌, Error, new, errorf,
  Result, ok, err, pos, show_int,
}
use abctl.Effects.{
  Call, World, Program, return, fail, ◌>>=◌, ◌>>◌, with_error, from_result, perform,
}
use abctl.Auth.{
  TokenResponse, Credentials, Provider, stated_lifetime, lifetime_or_hour, add_duration, or_default,
  read_token_reply, exchange_form,
}

pub record Flow : Type 0 where
  pub provider : Provider
  pub client_id : String
  pub redirect_port : ℕ
  pub code_verifier : String
  pub state : String

-- The parameters of a request to the callback address; the empty text for one that is missing.
pub record Callback : Type 0 where
  pub state : String
  pub error : String
  pub error_description : String
  pub code : String

abbrev pub callback_path : String
callback_path = "/callback"

unfoldable pub redirect_uri : Flow → String
redirect_uri f = "http://localhost:" ++ (show_int (pos f.redirect_port) ++ callback_path)

-- The handler of the callback: what it sends, on the channel of codes or on that of errors. What it
-- writes to the browser is left out.
unfoldable pub handle_callback : Flow → Callback → Result String
handle_callback f r =
    if not (r.state == f.state)
    then err (new "invalid state parameter")
    else if not (r.error == "")
    then err (new ("authentication error: " ++ (r.error ++ (" - " ++ r.error_description))))
    else if r.code == ""
    then err (new "no authorization code received")
    else ok r.code

-- What ends the wait of `Authenticate`.
pub data Event : Type 0 where
  requested : Callback → Event
  cancelled : Error → Event
  timed_out : Event

-- The select: the code, or the error to return.
unfoldable pub await_code : Flow → Event → Result String
unfolding handle_callback
await_code f (requested r) = handle_callback f r
await_code f (cancelled e) = err e
await_code f timed_out = err (new "authentication timeout after 5 minutes")

-- buildAuthURL: the parameters, in the order that Encode gives them. The challenge of the verifier
-- (SHA-256 and base64) is a parameter.
unfoldable pub auth_params : (String → String) → Flow → List (String × String)
unfolding redirect_uri
auth_params generate_code_challenge f =
    ("client_id", f.client_id)
    ∷ ("code_challenge", generate_code_challenge f.code_verifier)
    ∷ ("code_challenge_method", "S256")
    ∷ ("redirect_uri", redirect_uri f)
    ∷ ("response_type", "code")
    ∷ ("scope", "openid profile email offline_access")
    ∷ ("state", f.state)
    ∷ []

-- The credentials of a response, at the time of the exchange.
unfoldable pub exchanged : ℕ → TokenResponse → Credentials
exchanged now tokens = record {
  access_token = tokens.access_token;
  refresh_token = tokens.refresh_token;
  token_type = or_default "Bearer" tokens.token_type;
  expires_at = add_duration now (lifetime_or_hour (stated_lifetime tokens.expires_in));
}

abbrev pub exchange_call : Flow → String → Call
exchange_call f code =
    Call.token_request f.provider.token_endpoint
      (exchange_form f.client_id code (redirect_uri f) f.code_verifier)

module _ (w : World) where
  -- ExchangeCodeForTokens
  unfoldable pub exchange_code_for_tokens : Flow → String → Program TokenResponse
  exchange_code_for_tokens f code calls = (
    read_token_reply (
        w.ask calls (
          Call.token_request f.provider.token_endpoint
            (exchange_form f.client_id code (redirect_uri f) f.code_verifier))),
    exchange_call f code ∷ calls,
  )

  -- exchangeCode
  unfoldable pub exchange_code : Flow → String → Program Credentials
  unfolding exchange_code_for_tokens
  exchange_code f code = do
    tokens ←
        with_error (λ e. errorf "failed to exchange code for tokens: " e "")
          (exchange_code_for_tokens f code)
    now ← perform w Call.time_now
    return (exchanged now tokens)

  -- Authenticate, from the select on.
  unfoldable pub authenticate : Flow → Event → Program Credentials
  unfolding exchange_code
  authenticate f event = do code ← from_result (await_code f event); exchange_code f code
