-- ===== src/Auth.antt =====
-- internal/auth/auth.go: tokens, credentials and their expiry.
-- A time is a number of nanoseconds from the year 1. `now.After(t.Add(-d))` is `t < now + d`, which needs no
-- negative times.
pub mod Client
pub mod Refresh
pub mod Flow
mod Tests
use abctl.Common.{
  String, Option, none, some, ℕ, zero, suc, ◌+◌, ◌-◌, ◌*◌, leb, Bool, true, false, if◌then◌else◌,
  ◌++◌, eqb, ltb, Error, new, errorf, Result, ok, err, ◌>>=◌, wrap, ℤ, pos, negsuc, show_int,
  is_empty, List, [], ◌∷◌,
}
use Prim.Native.Nat.{◌%◌, ◌^◌}

-- What the program reads of a token response.
pub record TokenResponse : Type 0 where
  pub access_token : String
  pub token_type : String
  pub expires_in : ℤ
  pub refresh_token : String

pub record Credentials : Type 0 where
  pub access_token : String
  pub refresh_token : String
  pub token_type : String
  pub expires_at : ℕ

abbrev pub second : ℕ
second = 1000000000

abbrev pub minute : ℕ
minute = 60 * second

abbrev pub hour : ℕ
hour = 60 * minute

-- IsExpired, at the time that time.Now() returns.
unfoldable pub is_expired : ℕ → Credentials → Bool
is_expired now c = ltb c.expires_at (now + minute)

-- time.Duration(n) * time.Second, in 64 bits.
unfoldable pub seconds : ℕ → ℤ
seconds n =
    let d = n * second % 2 ^ 64 in
    if leb d 9223372036854775807 then pos d else negsuc (18446744073709551615 - d)

-- t.Add(d). A time counts from the year 1, and a duration is less than 293 years, so that the clock's
-- times stay above 0.
abbrev pub add_duration : ℕ → ℤ → ℕ
add_duration t (pos d) = t + d
add_duration t (negsuc d) = t - suc d

-- if tokens.ExpiresIn > 0 { … }: the lifetime that a response states, if it states one.
unfoldable pub stated_lifetime : ℤ → Option ℤ
unfolding seconds
stated_lifetime (pos zero) = none
stated_lifetime (pos (suc n)) = some (seconds (suc n))
stated_lifetime (negsuc n) = none

-- The lifetime, or one hour if the response states none.
unfoldable pub lifetime_or_hour : Option ℤ → ℤ
lifetime_or_hour none = pos hour
lifetime_or_hour (some t) = t

-- `if s == "" { s = default }`
abbrev pub or_default : String → String → String
or_default default s = if is_empty s then default else s

-- The response to a token request: its status, and its body decoded as a token, or as an error and
-- its description.
pub record TokenReply : Type 0 where
  pub status_code : ℕ
  pub token : Result TokenResponse
  pub failure : Result (String × String)

abbrev pub token_error : Result (String × String) → ℕ → Error
token_error (ok (error, description)) status =
    new ("token request failed: " ++ (error ++ (" - " ++ description)))
token_error (err e) status =
    errorf ("failed to decode error response for status code " ++ (show_int (pos status) ++ ": ")) e
      ""

-- doTokenRequest, from the result of the request on.
unfoldable pub read_token_reply : Result TokenReply → Result TokenResponse
read_token_reply (err e) = wrap "token request failed: " (err e)
read_token_reply (ok r) =
    if eqb r.status_code 200
    then wrap "failed to decode token response: " r.token
    else err (token_error r.failure r.status_code)

-- What the program uses of a provider; and the response to a discovery request: its status, and its
-- body decoded.
pub record Provider : Type 0 where
  pub authorization_endpoint : String
  pub token_endpoint : String

pub record ProviderReply : Type 0 where
  pub status_code : ℕ
  pub provider : Result Provider

abbrev pub well_known_url : String → String
well_known_url issuer_url = issuer_url ++ "/.well-known/openid-configuration"

-- DiscoverProvider, from the result of the request on.
unfoldable pub read_provider_reply : Result ProviderReply → Result Provider
read_provider_reply (err e) = wrap "failed to fetch provider configuration: " (err e)
read_provider_reply (ok r) =
    if eqb r.status_code 200
    then wrap "failed to decode provider configuration: " r.provider
    else err (new ("discovery failed with status " ++ show_int (pos r.status_code)))

-- The form that ExchangeCodeForTokens sends. url.Values sorts it by key when it is encoded.
unfoldable pub exchange_form : String → String → String → String → List (String × String)
exchange_form client_id code redirect_uri code_verifier =
    let rest : List (String × String) =
      if is_empty code_verifier then [] else ("code_verifier", code_verifier) ∷ [] in
    ("grant_type", "authorization_code")
    ∷ ("client_id", client_id)
    ∷ ("code", code)
    ∷ ("redirect_uri", redirect_uri)
    ∷ rest

-- The form that RefreshAccessToken sends.
unfoldable pub refresh_form : String → String → List (String × String)
refresh_form client_id refresh_token =
    ("grant_type", "refresh_token")
    ∷ ("client_id", client_id)
    ∷ ("refresh_token", refresh_token)
    ∷ []
