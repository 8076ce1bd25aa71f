-- ===== src/K8s/Client/Secrets.antt =====
-- What SecretCreateOrUpdate writes.
use abctl.Common.{Bool-cases, inl, inr, true, List, [], ◌∷◌, Error, Result, ok, err, ◌≡◌, refl}
use abctl.Effects.{Call, World, Secret, and_then, with_error}
use abctl.K8s.Client.{secret_update_or_create, secret_create_or_update}

module _ (w : World) where
  -- The latest calls looked for the secret and wrote it, and the cluster took it: it was updated if it
  -- was there, and created if the cluster said that it was not found.
  pub data IsWritten (s : Secret) : List Call → Type 0 where
    updated :
        {before : List Call} (old : Secret)
        → w.ask before (Call.secret_get s.namespace s.name) ≡ ok old
        → w.ask (Call.secret_get s.namespace s.name ∷ before) (Call.secret_update s) ≡ ok tt
        → IsWritten s (Call.secret_update s ∷ Call.secret_get s.namespace s.name ∷ before)
    created :
        {before : List Call} (e : Error)
        → w.ask before (Call.secret_get s.namespace s.name) ≡ err e
        → w.is_not_found e ≡ true
        → w.ask (Call.secret_get s.namespace s.name ∷ before) (Call.secret_create s) ≡ ok tt
        → IsWritten s (Call.secret_create s ∷ Call.secret_get s.namespace s.name ∷ before)

  accepted :
      (f : Error → Error) (r : Result (Unit {0}))
      → (with_error f (λ (h : List Call). (r, h)) []).0 ≡ ok tt
      → r ≡ ok tt
  accepted f (ok x) h = refl
  accepted f (err e) h = cc

  secret_update_or_create-IsWritten :
      (s : Secret) (r : Result Secret) (before : List Call)
      → w.ask before (Call.secret_get s.namespace s.name) ≡ r
      → (secret_update_or_create w s r (Call.secret_get s.namespace s.name ∷ before)).0 ≡ ok tt
      → IsWritten s (secret_update_or_create w s r (Call.secret_get s.namespace s.name ∷ before)).1
  unfolding secret_update_or_create
  secret_update_or_create-IsWritten s (ok old) before got h =
      updated old got (accepted _ (w.ask _ (Call.secret_update s)) h)
  secret_update_or_create-IsWritten s (err e) before got h = elim (Bool-cases (w.is_not_found e)) [
    | inl missing ↦
        rw missing
          (created e got missing (accepted _ (w.ask _ (Call.secret_create s)) (rw missing at h)))
    | inr other ↦ let bad = rw other at h in cc
  ]

  -- A SecretCreateOrUpdate that succeeds has written exactly that secret last: it updated it if the
  -- cluster had given it just before, and created it if the cluster had said that it is not found;
  -- after any other error it does not succeed.
  pub secret_create_or_update-IsWritten :
      (s : Secret) (calls : List Call)
      → (secret_create_or_update w s calls).0 ≡ ok tt
      → IsWritten s (secret_create_or_update w s calls).1
  unfolding secret_create_or_update and_then
  secret_create_or_update-IsWritten s calls h =
      secret_update_or_create-IsWritten s (w.ask calls (Call.secret_get s.namespace s.name)) calls
        refl h
