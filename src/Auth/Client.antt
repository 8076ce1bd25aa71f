-- ===== src/Auth/Client.antt =====
-- internal/auth/client.go: an HTTP client that renews its access token. The readings of the clock,
-- the replies to token requests and the answers of the API are the world, by how many there have
-- been; the lock is left out, as one goroutine is followed.
pub mod Renewal
pub mod Requests
pub mod Rejected
use abctl.Common.{
  String, Option, none, some, ℕ, ◌+◌, ℤ, ◌-◌, Bool, true, false, if◌then◌else◌, ◌++◌, eqb, Error,
  new, Result, ok, err, wrap, List, ◌∷◌, length, is_empty,
}
use abctl.Auth.{
  TokenResponse, TokenReply, Credentials, is_expired, stated_lifetime, add_duration, or_default,
  hour, read_token_reply, refresh_form,
}

-- The reply to a token request, by the number of token requests before it; and the answer to an API
-- request (its status code), by the number of requests before it.
pub record World : Type 0 where
  pub clock : ℕ → ℕ
  pub token_reply : ℕ → List (String × String) → Result TokenReply
  pub answer : ℕ → String → Result ℕ

-- The client's credentials, and what it has done: readings of the clock, forms of token requests
-- and headers of API requests, the latest first.
pub record Client : Type 0 where
  pub client_id : String
  pub credentials : Credentials
  pub readings : ℕ
  pub renewals : List (List (String × String))
  pub sent : List String

-- The credentials after a renewal, with their expiry.
unfoldable pub renewed : TokenResponse → ℕ → Credentials → Credentials
renewed tokens expires_at c = record {
  access_token = tokens.access_token;
  refresh_token = or_default c.refresh_token tokens.refresh_token;
  token_type = or_default "Bearer" tokens.token_type;
  expires_at = expires_at;
}

module _ (w : World) where
  -- time.Now()
  abbrev pub now : Client → ℕ
  now c = w.clock c.readings

  abbrev pub tick : Client → Client
  tick c = record c { readings = c.readings + 1 }

  -- The update of the credentials, from the reply to the token request.
  -- The expiry stays as it was if the response states no lifetime.
  unfoldable pub store_with : Option ℤ → TokenResponse → Client → Client
  store_with none tokens c = record c {
    credentials = renewed tokens c.credentials.expires_at c.credentials;
  }
  store_with (some lifetime) tokens c = record (tick c) {
    credentials = renewed tokens (add_duration (now c) lifetime) c.credentials;
  }

  unfoldable pub store_tokens : Result TokenResponse → Client → Result (Unit {0}) × Client
  unfolding store_with
  store_tokens (err e) c = (wrap "token refresh failed: " (err e), c)
  store_tokens (ok tokens) c = (ok tt, store_with (stated_lifetime tokens.expires_in) tokens c)

  -- RefreshAccessToken, and what follows it.
  unfoldable pub renew : Client → Result (Unit {0}) × Client
  unfolding store_tokens
  renew c =
      let form = refresh_form c.client_id c.credentials.refresh_token in
      store_tokens (read_token_reply (w.token_reply (length c.renewals) form))
        (record c { renewals = form ∷ c.renewals })

  -- The second check of the expiry, under the lock.
  unfoldable pub renew_if_expired : Client → Result (Unit {0}) × Client
  unfolding renew
  renew_if_expired c = if is_expired (now c) c.credentials then renew (tick c) else (ok tt, tick c)

  -- ensureValidToken
  unfoldable pub ensure_valid_token : Client → Result (Unit {0}) × Client
  unfolding renew_if_expired
  ensure_valid_token c =
      if is_expired (now c) c.credentials
      then (if is_empty c.credentials.refresh_token
          then (err (new "access token expired and no refresh token available"), tick c)
          else renew_if_expired (tick c))
      else (ok tt, tick c)

  -- The Authorization header.
  abbrev pub header : Credentials → String
  header c = c.token_type ++ (" " ++ c.access_token)

  -- The request with the header set, and its answer.
  unfoldable pub send : Client → Result ℕ × Client
  send c = (
    w.answer (length c.sent) (header c.credentials),
    record c { sent = header c.credentials ∷ c.sent },
  )

  -- c.credentials.ExpiresAt = time.Now().Add(-time.Hour)
  unfoldable pub force_expiry : Client → Client
  force_expiry c = record (tick c) {
    credentials = record c.credentials { expires_at = now c - hour };
  }

  abbrev pub then_send : String → Result (Unit {0}) × Client → Result ℕ × Client
  then_send before (err e, c) = (wrap before (err e), c)
  then_send before (ok _, c) = send c

  -- The second attempt, after a 401.
  unfoldable pub retry : Client → Result ℕ × Client
  unfolding ensure_valid_token force_expiry send
  retry c = then_send "failed to refresh token after 401: " (ensure_valid_token (force_expiry c))

  unfoldable pub after_answer : Result ℕ × Client → Result ℕ × Client
  unfolding retry
  after_answer (err e, c) = (err e, c)
  after_answer (ok status, c) = if eqb status 401 then retry c else (ok status, c)

  unfoldable pub after_ensure : Result (Unit {0}) × Client → Result ℕ × Client
  unfolding after_answer
  after_ensure (err e, c) = (wrap "failed to get valid token: " (err e), c)
  after_ensure (ok _, c) = after_answer (send c)

  -- Do
  unfoldable pub do_request : Client → Result ℕ × Client
  unfolding after_ensure
  do_request c = after_ensure (ensure_valid_token c)
