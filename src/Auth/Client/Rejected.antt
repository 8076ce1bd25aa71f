-- ===== src/Auth/Client/Rejected.antt =====
-- `Do` after the API answered 401.
use abctl.Common.{
  ℕ, ◌+◌, ◌≤◌, true, false, Bool-cases, inl, inr, ◌⊎◌, ◌≡◌, refl, sym, ap, ◌∙◌, arith, Result, ok,
  err, String, List, ◌∷◌, length, is_empty, eqb,
}
use abctl.Auth.{is_expired, refresh_form}
use abctl.Auth.Client.{
  World, Client, now, header, ensure_valid_token, send, force_expiry, then_send, retry,
  after_answer, after_ensure, do_request,
}
use abctl.Auth.Client.Renewal.{renewals-ensure_valid_token}
use abctl.Auth.Client.Requests.{sent-ensure, length-then_send}

module _ (w : World) where
  then_send-ok :
      (before : String) (p : Result (Unit {0}) × Client) {s : ℕ}
      → (then_send w before p).0 ≡ ok s
      → length (then_send w before p).1.sent ≡ length p.1.sent + 1
  unfolding send
  then_send-ok before (err e, c) h = cc
  then_send-ok before (ok x, c) h = omega arith

  sent-force_expiry : (c : Client) → (force_expiry w c).sent ≡ c.sent
  unfolding force_expiry
  sent-force_expiry c = refl

  retry-ok :
      (c : Client) {s : ℕ} → (retry w c).0 ≡ ok s → length (retry w c).1.sent ≡ length c.sent + 1
  unfolding retry
  retry-ok c h =
      let f = force_expiry w c in
      let same = ap length (sent-ensure w f ∙ sent-force_expiry c) in
      rw (sym same) (then_send-ok "failed to refresh token after 401: " (ensure_valid_token w f) h)

  after_answer-unauthorized :
      (p : Result ℕ × Client)
      → (after_answer w p).0 ≡ ok 401
      → length (after_answer w p).1.sent ≡ length p.1.sent + 1
  unfolding after_answer
  after_answer-unauthorized (err e, c) h = cc
  after_answer-unauthorized (ok status, c) h = elim (Bool-cases (eqb status 401)) [
    | inl again ↦ rw again (retry-ok c (rw again at h))
    | inr other ↦ ground arith
  ]

  after_ensure-unauthorized :
      (p : Result (Unit {0}) × Client)
      → (after_ensure w p).0 ≡ ok 401
      → length (after_ensure w p).1.sent ≡ length p.1.sent + 2
  unfolding after_ensure
  after_ensure-unauthorized (err e, c) h = cc
  after_ensure-unauthorized (ok x, c) h =
      let more = after_answer-unauthorized (send w c) h in unfold send in omega (arith, more)

  -- `Do` returns the status 401 only after two requests: the first 401 is never the result.
  pub do_request_unauthorized :
      (c : Client)
      → (do_request w c).0 ≡ ok 401
      → length (do_request w c).1.sent ≡ length c.sent + 2
  unfolding do_request
  do_request_unauthorized c h =
      rw (sym (ap length (sent-ensure w c))) (after_ensure-unauthorized (ensure_valid_token w c) h)

  -- An expiry one hour ago is past at every later reading of the clock.
  force_expiry_expires :
      (c : Client) {t : ℕ} → now w c ≤ t → is_expired t (force_expiry w c).credentials ≡ true
  unfolding force_expiry is_expired
  force_expiry_expires c h = ground arith

  renewals-then_send :
      (before : String) (p : Result (Unit {0}) × Client)
      → (then_send w before p).1.renewals ≡ p.1.renewals
  renewals-then_send before p = (length-then_send w before p).1

  sent-then_send :
      (before : String) (p : Result (Unit {0}) × Client) {l : List String}
      → p.1.sent ≡ l
      → ((then_send w before p).1.sent ≡ l)
        ⊎ ((then_send w before p).1.sent ≡ header w (then_send w before p).1.credentials ∷ l)
  unfolding send
  sent-then_send before (err e, c) same = inl same
  sent-then_send before (ok x, c) same = inr (ap (λ l. header w c.credentials ∷ l) same)

  -- With a refresh token, and a clock that does not go back, the second attempt makes exactly one
  -- token request, with that refresh token, whatever the expiry that the client had stored. Its API
  -- request, if it sends one, comes after that: it carries the token that the client then holds.
  pub retry_renews :
      (c : Client)
      → ((k : ℕ) → w.clock k ≤ w.clock (k + 1))
      → is_empty c.credentials.refresh_token ≡ false
      → ((retry w c).1.renewals ≡ refresh_form c.client_id c.credentials.refresh_token ∷ c.renewals)
        × (((retry w c).1.sent ≡ c.sent)
            ⊎ ((retry w c).1.sent ≡ header w (retry w c).1.credentials ∷ c.sent))
  retry_renews c onwards given =
      let f = force_expiry w c in
      let t1 = onwards c.readings in
      let t2 = onwards (c.readings + 1) in
      let first = force_expiry_expires c t1 in
      let second =
        force_expiry_expires c {t = w.clock (c.readings + 1 + 1)} (omega (arith, t1, t2)) in
      let same = sent-ensure w f ∙ sent-force_expiry c in
      unfold retry force_expiry in
      (
        renewals-then_send "failed to refresh token after 401: " (ensure_valid_token w f)
            ∙ renewals-ensure_valid_token w f
            ∙ rw (first, second, given) refl,
        sent-then_send "failed to refresh token after 401: " (ensure_valid_token w f) same,
      )
