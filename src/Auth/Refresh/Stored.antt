-- ===== src/Auth/Refresh/Stored.antt =====
-- What `EnsureValidAuth` returns is what the cluster holds.
use abctl.Common.{
  String, false, Bool-cases, inl, inr, ◌⊎◌, ℕ, List, ◌∷◌, ok, Result-cases, ◌≡◌, refl, sym,
  is_empty, ok-injective,
}
use abctl.Effects.{Call, World, and_then, perform, ◌>>=◌}
use abctl.Effects.Invariants.{Ensures, finally, with_error-Ensures}
use abctl.K8s.Client.Secrets.{IsWritten, secret_create_or_update-IsWritten}
use abctl.Auth.{Credentials, TokenResponse}
use abctl.Auth.Refresh.{
  CredentialsJson, needs_refresh, credentials_secret, refreshed, store_credentials, store_refreshed,
  refresh_with_token, refresh_auth, refresh_if_needed, ensure_valid_auth,
}

module _ (w : World) (json : CredentialsJson) where
  -- The credentials are in the secret that was written last.
  abbrev pub IsStored : String → Credentials → List Call → Type 0
  IsStored namespace c calls =
      (cred_data : String) × (json.to_json c ≡ ok cred_data)
      × IsWritten w (credentials_secret namespace cred_data) calls

  store_credentials-IsStored :
      (namespace : String) (c : Credentials) (calls : List Call)
      → (store_credentials w json namespace c calls).0 ≡ ok tt
      → IsStored namespace c (store_credentials w json namespace c calls).1
  unfolding store_credentials and_then
  store_credentials-IsStored namespace c calls h = elim (Result-cases (json.to_json c)) [
    | inl (e, bad) ↦ let wrong = rw bad at h in cc
    | inr (cred_data, encoded) ↦
        rw encoded (cred_data, refl, secret_create_or_update-IsWritten w _ calls (rw encoded at h))
  ]

  store_refreshed-IsStored :
      (namespace : String) (c : Credentials) (tokens : TokenResponse) (calls : List Call)
      (c' : Credentials)
      → (store_refreshed w json namespace c tokens calls).0 ≡ ok c'
      → IsStored namespace c' (store_refreshed w json namespace c tokens calls).1
  unfolding store_refreshed and_then
  store_refreshed-IsStored namespace c tokens calls c' h =
      elim (Result-cases (w.ask calls Call.time_now)) [
        | inl (e, bad) ↦ let wrong = rw bad at h in cc
        | inr (now, read) ↦ rw read (
            let after = Call.time_now ∷ calls in
            let h2 = rw read at h in
            elim (Result-cases
              (store_credentials w json namespace (refreshed now tokens c) after).0) [
                | inl (e, bad) ↦ let wrong = rw bad at h2 in cc
                | inr (x, stored) ↦
                    rw (stored, sym (ok-injective (rw stored at h2)))
                      (store_credentials-IsStored namespace (refreshed now tokens c) after stored)
              ])
      ]

  refresh_with_token-Stored :
      (namespace : String) (c : Credentials)
      → Ensures (IsStored namespace) (refresh_with_token w json namespace c)
  unfolding refresh_with_token
  refresh_with_token-Stored namespace c = finally (IsStored namespace) _ _ (λ config.
      finally (IsStored namespace) _ _
        (λ provider. finally (IsStored namespace) _ _ (store_refreshed-IsStored namespace c)))

  refresh_auth-Stored :
      (namespace : String) (c : Credentials)
      → Ensures (IsStored namespace) (refresh_auth w json namespace c)
  unfolding refresh_auth
  refresh_auth-Stored namespace c calls a h = elim (Bool-cases (is_empty c.refresh_token)) [
    | inl no_token ↦ let wrong = rw no_token at h in cc
    | inr given ↦ rw given (refresh_with_token-Stored namespace c calls a (rw given at h))
  ]

  -- The latest call read the clock, and the credentials need no refresh at that time.
  abbrev pub IsFresh : Credentials → List Call → Type 0
  IsFresh c (Call.time_now ∷ earlier) =
      (now : ℕ) × (w.ask earlier Call.time_now ≡ ok now) × (needs_refresh now c ≡ false)
  IsFresh c _ = ⊥

  abbrev pub IsUsable : String → Credentials → List Call → Type 0
  IsUsable namespace c calls = IsFresh c calls ⊎ IsStored namespace c calls

  refresh_if_needed-Usable :
      (namespace : String) (old : Credentials) (now : ℕ) (earlier : List Call)
      → w.ask earlier Call.time_now ≡ ok now
      → (c : Credentials)
      → (refresh_if_needed w json namespace old now (Call.time_now ∷ earlier)).0 ≡ ok c
      → IsUsable namespace c
          (refresh_if_needed w json namespace old now (Call.time_now ∷ earlier)).1
  unfolding refresh_if_needed
  refresh_if_needed-Usable namespace old now earlier read c h =
      let calls = Call.time_now ∷ earlier in
      elim (Bool-cases (needs_refresh now old)) [
        | inl late ↦ rw late (
            inr (
              with_error-Ensures (IsStored namespace) _ (refresh_auth w json namespace old)
                (refresh_auth-Stored namespace old) calls c (rw late at h)))
        | inr fresh ↦ rw fresh (inl (now, read, rw (sym (ok-injective (rw fresh at h))) fresh))
      ]

  read_clock-Usable :
      (namespace : String) (old : Credentials)
      → Ensures
          (IsUsable namespace)
          (perform w Call.time_now >>= refresh_if_needed w json namespace old)
  unfolding and_then
  read_clock-Usable namespace old calls c h = elim (Result-cases (w.ask calls Call.time_now)) [
    | inl (e, bad) ↦ let wrong = rw bad at h in cc
    | inr (now, read) ↦
        rw read (refresh_if_needed-Usable namespace old now calls read c (rw read at h))
  ]

  ensure_valid_auth-Usable :
      (namespace : String) → Ensures (IsUsable namespace) (ensure_valid_auth w json namespace)
  unfolding ensure_valid_auth
  ensure_valid_auth-Usable namespace =
      finally (IsUsable namespace) _ _ (read_clock-Usable namespace)

  -- The credentials that EnsureValidAuth returns either need no refresh, at the time that its last
  -- call read, or its last call has stored them in the secret abctl-auth.
  pub ensure_valid_auth_usable :
      (namespace : String) (calls : List Call) (c : Credentials)
      → (ensure_valid_auth w json namespace calls).0 ≡ ok c
      → IsFresh c (ensure_valid_auth w json namespace calls).1
        ⊎ IsStored namespace c (ensure_valid_auth w json namespace calls).1
  ensure_valid_auth_usable namespace calls c h = ensure_valid_auth-Usable namespace calls c h
