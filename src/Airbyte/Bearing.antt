-- ===== src/Airbyte/Bearing.antt =====
-- The token that a client holds: it is what every request carries.
use abctl.Common.{String, false, List, [], ◌∷◌, ◌++◌, is_empty, ok, ◌≡◌, refl}
use abctl.Effects.Invariants.{Takes, keep, after_result, after_known}
use abctl.Http.{Request, Net, add_header}
use abctl.Airbyte.{
  Organization, Json, Airbyte, Session, bearer_headers, wrapped, send, fetch_token, get_org,
  set_org, get_org_email, set_org_email,
}
use abctl.Airbyte.Emails.{Op, get_email, set_email, call, run}

-- The request carries the token, in the header that was added last.
abbrev pub Carries : String → Request → Type 0
Carries t req =
    (others : List (String × String)) × (req.headers ≡ (("Authorization", "Bearer " ++ t) ∷ others))

-- The requests sent since `base` carry the token.
pub data Bearing (t : String) (base : List Request) : List Request → Type 0 where
  start : Bearing t base base
  later :
      {req : Request} {sent : List Request}
      → Carries t req
      → Bearing t base sent
      → Bearing t base (req ∷ sent)

module _ (net : Net) (json : Json) (a : Airbyte) (t : String) (base : List Request) where
  abbrev Held : Session → Type 0
  Held s = (s.token ≡ t) × Bearing t base s.sent

  fetch_token-held :
      (s : Session) → is_empty t ≡ false → s.token ≡ t → fetch_token net json a s ≡ (ok t, s)
  unfolding fetch_token
  fetch_token-held s some_token eq = rw (eq, some_token) refl

  send-Held :
      (req : Request)
      → Carries t req
      → Takes Held Held (wrapped "unable to send organization request: " (send net json a req))
  unfolding send
  send-Held req carries s h = (h.0, later carries h.1)

  get_org-Held : is_empty t ≡ false → Takes Held Held (get_org net json a)
  unfolding get_org
  get_org-Held some_token s h =
      after_known Held _ (fetch_token net json a) _ s (fetch_token-held s some_token h.0) (
        after_result Held _ _
          (λ data_of. after_result Held _ _ (λ req.
            keep {P = Held} _ _ (send-Held (bearer_headers t req) (unfold add_header in (_, refl)))
              (λ res. after_result Held _ _ (λ body calls kept. kept))))
          s h)

  set_org-Held :
      (org : Organization) → is_empty t ≡ false → Takes Held Held (set_org net json a org)
  unfolding set_org
  set_org-Held org some_token s h =
      after_known Held _ (fetch_token net json a) _ s (fetch_token-held s some_token h.0) (
        after_result Held _ _
          (λ data_of. after_result Held _ _ (λ req.
            keep {P = Held} _ _ (send-Held (bearer_headers t req) (unfold add_header in (_, refl)))
              (λ res calls kept. kept)))
          s h)

  call-Held : (op : Op) → is_empty t ≡ false → Takes Held Held (call net json a op)
  unfolding call get_org_email set_org_email
  call-Held get_email some_token =
      keep {P = Held} _ _ (keep {P = Held} _ _ (get_org-Held some_token) (λ org calls kept. kept))
        (λ e calls kept. kept)
  call-Held (set_email e) some_token =
      keep {P = Held} _ _
        (keep {P = Held} _ _ (get_org-Held some_token)
          (λ org. set_org-Held (record org { email = e }) some_token))
        (λ x calls kept. kept)

  run-Held :
      (ops : List Op) (s : Session) → is_empty t ≡ false → Held s → Held (run net json a ops s).1
  unfolding run
  run-Held [] s some_token h = h
  run-Held (op ∷ ops) s some_token h =
      run-Held ops (call net json a op s).1 some_token (call-Held op some_token s h)

-- A client that holds a token keeps it through any sequence of GetOrgEmail and SetOrgEmail, whatever
-- the answers are, and each request that it sends from then on carries that token: no other token is
-- asked for.
pub run-Bearing :
    (net : Net) (json : Json) (a : Airbyte) (ops : List Op) (s : Session)
    → is_empty s.token ≡ false
    → ((run net json a ops s).1.token ≡ s.token)
      × Bearing s.token s.sent (run net json a ops s).1.sent
run-Bearing net json a ops s some_token =
    run-Held net json a s.token s.sent ops s some_token (refl, start)
