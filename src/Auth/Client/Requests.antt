-- ===== src/Auth/Client/Requests.antt =====
-- What `Do` sends, and what it returns.
use abctl.Common.{
  String, Option, none, some, ℕ, ◌+◌, ◌≤◌, Bool-cases, inl, inr, ◌≡◌, refl, sym, ap, ◌∙◌, arith,
  Result, ok, err, List, [], ◌∷◌, length, eqb,
}
use abctl.Auth.Client.{
  World, Client, ensure_valid_token, header, send, force_expiry, then_send, retry, after_answer,
  after_ensure, do_request,
}
use abctl.Auth.Client.Renewal.{length-ensure}

module _ (w : World) where
  -- The answer to the latest request that was sent.
  abbrev pub latest_answer : List String → Option (Result ℕ)
  latest_answer [] = none
  latest_answer (h ∷ earlier) = some (w.answer (length earlier) h)

  abbrev pub latest_header : List String → Option String
  latest_header [] = none
  latest_header (h ∷ earlier) = some h

  -- `p` is the result of a request with the header of the final credentials.
  abbrev pub IsAnswered : Result ℕ × Client → Type 0
  IsAnswered (r, c) =
      (latest_answer c.sent ≡ some r) × (latest_header c.sent ≡ some (header w c.credentials))

  then_send-IsAnswered :
      (before : String) (p : Result (Unit {0}) × Client) {s : ℕ}
      → (then_send w before p).0 ≡ ok s
      → IsAnswered (then_send w before p)
  then_send-IsAnswered before (err e, c) h = cc
  then_send-IsAnswered before (ok x, c) h = unfold send in (refl, refl)

  pub sent-ensure : (c : Client) → (ensure_valid_token w c).1.sent ≡ c.sent
  unfolding ensure_valid_token
  sent-ensure c = ground arith

  pub length-then_send :
      (before : String) (p : Result (Unit {0}) × Client)
      → (length (then_send w before p).1.sent ≤ length p.1.sent + 1)
        × ((then_send w before p).1.renewals ≡ p.1.renewals)
  unfolding send
  length-then_send before (err e, c) = (omega arith, refl)
  length-then_send before (ok x, c) = (omega arith, refl)

  after_answer-IsAnswered :
      (p : Result ℕ × Client) {s : ℕ}
      → ((r : ℕ) → p.0 ≡ ok r → IsAnswered p)
      → (after_answer w p).0 ≡ ok s
      → IsAnswered (after_answer w p)
  unfolding after_answer
  after_answer-IsAnswered (err e, c) answered h = cc
  after_answer-IsAnswered (ok status, c) answered h = elim (Bool-cases (eqb status 401)) [
    | inl again ↦ rw again (
        unfold retry in
        then_send-IsAnswered "failed to refresh token after 401: "
          (ensure_valid_token w (force_expiry w c)) (rw again at h))
    | inr other ↦ rw other (answered status refl)
  ]

  after_ensure-IsAnswered :
      (p : Result (Unit {0}) × Client) {s : ℕ}
      → (after_ensure w p).0 ≡ ok s
      → IsAnswered (after_ensure w p)
  unfolding after_ensure
  after_ensure-IsAnswered (err e, c) h = cc
  after_ensure-IsAnswered (ok x, c) h =
      after_answer-IsAnswered (send w c) (λ r eq. unfold send in (refl, refl)) h

  -- A status that `Do` returns is the answer of the API to the latest request sent, and that
  -- request carried the token of the credentials that the client holds in the end.
  pub do_request_answered :
      (c : Client) (status : ℕ)
      → (do_request w c).0 ≡ ok status
      → (latest_answer (do_request w c).1.sent ≡ some (ok status))
        × (latest_header (do_request w c).1.sent ≡ some (header w (do_request w c).1.credentials))
  unfolding do_request
  do_request_answered c status h =
      let answered = after_ensure-IsAnswered (ensure_valid_token w c) h in
      (answered.0 ∙ ap some h, answered.1)

  -- What a call may add to the requests: `a` API requests and `t` token requests at most.
  abbrev AddsAtMost : ℕ → ℕ → Client → Client → Type 0
  AddsAtMost a t c c' =
      (length c'.sent ≤ length c.sent + a) × (length c'.renewals ≤ length c.renewals + t)

  force_expiry-same :
      (c : Client) → ((force_expiry w c).sent ≡ c.sent) × ((force_expiry w c).renewals ≡ c.renewals)
  unfolding force_expiry
  force_expiry-same c = (refl, refl)

  retry-AddsAtMost : (c : Client) → AddsAtMost 1 1 c (retry w c).1
  unfolding retry
  retry-AddsAtMost c =
      let f = force_expiry w c in
      let p = ensure_valid_token w f in
      let sent = length-then_send "failed to refresh token after 401: " p in
      let same = force_expiry-same c in
      (
        rw (sym (ap length (sent-ensure f ∙ same.0))) (sent.0),
        rw (sent.1, sym (ap length same.1)) (length-ensure w f),
      )

  after_answer-AddsAtMost : (p : Result ℕ × Client) → AddsAtMost 1 1 p.1 (after_answer w p).1
  unfolding after_answer
  after_answer-AddsAtMost (err e, c) = (omega arith, omega arith)
  after_answer-AddsAtMost (ok status, c) = elim (Bool-cases (eqb status 401)) [
    | inl again ↦ rw again (retry-AddsAtMost c)
    | inr other ↦ rw other (omega arith, omega arith)
  ]

  after_ensure-AddsAtMost :
      (p : Result (Unit {0}) × Client) → AddsAtMost 2 1 p.1 (after_ensure w p).1
  unfolding after_ensure
  after_ensure-AddsAtMost (err e, c) = (omega arith, omega arith)
  after_ensure-AddsAtMost (ok x, c) =
      let more = after_answer-AddsAtMost (send w c) in
      unfold send in (omega (arith, more.0), omega (arith, more.1))

  -- `Do` sends at most two API requests and at most two token requests, whatever the answers are.
  pub do_request_bounded :
      (c : Client)
      → (length (do_request w c).1.sent ≤ length c.sent + 2)
        × (length (do_request w c).1.renewals ≤ length c.renewals + 2)
  unfolding do_request
  do_request_bounded c =
      let p = ensure_valid_token w c in
      let more = after_ensure-AddsAtMost p in
      let same = ap length (sent-ensure c) in
      let asked = length-ensure w c in (rw (sym same) (more.0), omega (arith, more.1, asked))
