-- ===== src/Auth/Client/Renewal.antt =====
-- What `ensureValidToken` does with the credentials.
use abctl.Common.{
  ℕ, ◌+◌, ◌≤◌, Bool, true, false, Bool-cases, inl, inr, ◌⊎◌, ◌&&◌, not, if◌then◌else◌, ◌≡◌, refl,
  arith, Error, Result, ok, err, ◌∷◌, length, is_empty,
}
use abctl.Auth.{TokenResponse, is_expired, read_token_reply, refresh_form, or_default}
use abctl.Auth.Client.{
  World, Client, renewed, now, tick, store_tokens, renew_if_expired, ensure_valid_token,
}

module _ (w : World) where
  store_tokens-error :
      (r : Result TokenResponse) (c : Client) {e : Error}
      → (store_tokens w r c).0 ≡ err e
      → (store_tokens w r c).1.credentials ≡ c.credentials
  unfolding store_tokens
  store_tokens-error (err bad) c h = refl
  store_tokens-error (ok tokens) c h = cc

  -- The reply to the token request that the client makes next.
  abbrev pub next_reply : Client → Result TokenResponse
  next_reply c =
      read_token_reply
        (w.token_reply (length c.renewals) (refresh_form c.client_id c.credentials.refresh_token))

  -- An expired token with a refresh token at hand is renewed; what the request returns decides.
  ensure_expired :
      (c : Client)
      → is_expired (now w c) c.credentials ≡ true
      → is_empty c.credentials.refresh_token ≡ false
      → ensure_valid_token w c ≡ renew_if_expired w (tick w c)
  unfolding ensure_valid_token
  ensure_expired c expired given = rw expired (rw given refl)

  length-store_tokens :
      (r : Result TokenResponse) (c : Client)
      → length (store_tokens w r c).1.renewals ≡ length c.renewals
  unfolding store_tokens
  length-store_tokens r c = ground arith

  -- A call that fails leaves the credentials as they were.
  pub ensure_valid_token-error :
      (c : Client) (e : Error)
      → (ensure_valid_token w c).0 ≡ err e
      → (ensure_valid_token w c).1.credentials ≡ c.credentials
  unfolding ensure_valid_token
  ensure_valid_token-error c e h = ground (
    arith,
    store_tokens-error (next_reply (tick w (tick w c)))
        (record (tick w (tick w c)) {
          renewals = refresh_form c.client_id c.credentials.refresh_token ∷ c.renewals;
        })
        {e = e},
  )

  pub length-ensure :
      (c : Client) → length (ensure_valid_token w c).1.renewals ≤ length c.renewals + 1
  unfolding ensure_valid_token
  length-ensure c = ground arith

  -- The readings of the clock at which a call checks the expiry.
  abbrev pub first_reading : Client → ℕ
  first_reading c = w.clock c.readings

  abbrev pub second_reading : Client → ℕ
  second_reading c = w.clock (c.readings + 1)

  -- When a call makes a token request.
  abbrev pub needs_renewal : Client → Bool
  needs_renewal c =
      is_expired (first_reading c) c.credentials
      && (not (is_empty c.credentials.refresh_token) && is_expired (second_reading c) c.credentials)

  -- A call makes at most one token request: exactly if the token is expired at both readings and
  -- there is a refresh token, and with that token.
  pub renewals-ensure_valid_token :
      (c : Client)
      → (ensure_valid_token w c).1.renewals ≡ (
          if needs_renewal c
          then refresh_form c.client_id c.credentials.refresh_token ∷ c.renewals
          else c.renewals)
  unfolding ensure_valid_token
  renewals-ensure_valid_token c = ground arith

  -- The credentials are those of the reply to the token request.
  pub record IsRenewed (c c' : Client) : Type 0 where
    pub tokens : TokenResponse
    pub replied : next_reply c ≡ ok tokens
    pub access_token : c'.credentials.access_token ≡ tokens.access_token
    pub refresh_token :
        c'.credentials.refresh_token ≡ or_default c.credentials.refresh_token tokens.refresh_token
    pub token_type : c'.credentials.token_type ≡ or_default "Bearer" tokens.token_type

  -- The client just after the token request was sent.
  asked : Client → Client
  asked c = record (tick w (tick w c)) {
    renewals = refresh_form c.client_id c.credentials.refresh_token ∷ c.renewals;
  }

  store_tokens-IsRenewed :
      (c : Client) (r : Result TokenResponse)
      → next_reply c ≡ r
      → (store_tokens w r (asked c)).0 ≡ ok tt
      → IsRenewed c (store_tokens w r (asked c)).1
  unfolding store_tokens asked renewed
  store_tokens-IsRenewed c (err e) replied h = cc
  store_tokens-IsRenewed c (ok tokens) replied h = record {
    tokens = tokens;
    replied = replied;
    access_token = ground arith;
    refresh_token = ground arith;
    token_type = ground arith;
  }

  -- After a call that succeeds, either the credentials are as before and were not expired at one of
  -- the two readings of the clock, or they are those of the token reply: its access token, its
  -- refresh token or else the old one, its token type or else "Bearer".
  pub ensure_valid_token-ok :
      (c : Client)
      → (ensure_valid_token w c).0 ≡ ok tt
      → (((ensure_valid_token w c).1.credentials ≡ c.credentials)
          × ((is_expired (first_reading c) c.credentials ≡ false)
              ⊎ (is_expired (second_reading c) c.credentials ≡ false)))
        ⊎ IsRenewed c (ensure_valid_token w c).1
  unfolding ensure_valid_token
  ensure_valid_token-ok c h = elim (Bool-cases (is_expired (first_reading c) c.credentials)) [
    | inr fresh ↦ inl (rw fresh refl, inl fresh)
    | inl old ↦ elim (Bool-cases (is_empty c.credentials.refresh_token)) [
      | inl no_token ↦ let bad = rw (old, no_token) at h in cc
      | inr given ↦ elim (Bool-cases (is_expired (second_reading c) c.credentials)) [
        | inr fresh ↦ inl (rw (old, given, fresh) refl, inr fresh)
        | inl still ↦
            rw (old, given, still)
              (inr (unfold asked in store_tokens-IsRenewed c _ refl (rw (old, given, still) at h)))
      ]
    ]
  ]
