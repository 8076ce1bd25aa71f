-- ===== src/Airbyte/Emails.antt =====
-- The e-mail of the organization, against a server that stores the organization.
use abctl.Common.{
  String, some, List, [], ◌∷◌, ◌++◌, is_empty, Bool-cases, inl, inr, Result, ok, ◌≡◌, refl, sym, ap,
  ◌∙◌,
}
use abctl.Effects.{Stateful, and_then, from_result, ◌>>=◌}
use abctl.Http.{Request, Net, new_request, add_header}
use abctl.Airbyte.{
  json_headers, bearer_headers, path_token, path_org_get, path_org_set, org_id, TokenResponse,
  Organization, Json, Airbyte, Session, send, store_token, token_request, request_token,
  token_under_lock, fetch_token, get_org, check_status, set_org, get_org_email, set_org_email,
}

-- The calls that a user makes, and what a call gives.
pub data Op : Type 0 where
  get_email : Op
  set_email : String → Op

pub data Outcome : Type 0 where
  email_of : String → Outcome
  email_set : Outcome

-- The specification: an organization whose e-mail is read and written, and nothing else of it.
unfoldable pub replay : List Op → Organization → List (Result Outcome) × Organization
replay [] org = ([], org)
replay (get_email ∷ ops) org =
    let rest = replay ops org in (ok (email_of org.email) ∷ rest.0, rest.1)
replay (set_email e ∷ ops) org =
    let rest = replay ops (record org { email = e }) in (ok email_set ∷ rest.0, rest.1)

module _ (net : Net) (json : Json) (a : Airbyte) where
  -- One call, with its result in one type.
  unfoldable pub call : Op → Stateful Session Outcome
  call get_email = get_org_email net json a >>= λ e. from_result (ok (email_of e))
  call (set_email e) = set_org_email net json a e >>= λ x. from_result (ok email_set)

  -- A sequence of calls, each with its own result.
  unfoldable pub run : List Op → Session → List (Result Outcome) × Session
  run [] s = ([], s)
  run (op ∷ ops) s =
      let first = call op s in let rest = run ops first.1 in (first.0 ∷ rest.0, rest.1)

  -- The documented behaviour of the API: a token request is granted, `get` returns the organization
  -- that is stored, `update` stores the one that it is sent; and JSON has a text for what is sent.
  pub record IsServer (stored : List Request → Organization) : Type 0 where
    pub url_parses : (path : String) → net.check_url (a.host ++ path) ≡ ok tt
    pub encodes_token_request :
        (data_of : String) × (json.marshal_token_request (token_request net json a) ≡ ok data_of)
    pub encodes_org_req :
        (data_of : String) × (json.marshal_org_req (record { org_id = org_id }) ≡ ok data_of)
    pub encodes_organization :
        (sent : List Request) (e : String)
        → (data_of : String) × (json.marshal_organization (record (stored sent) { email = e })
            ≡ ok data_of)
          × (json.unmarshal_organization data_of ≡ ok (record (stored sent) { email = e }))
    pub grants :
        (sent : List Request) (req : Request)
        → req.url ≡ a.host ++ path_token
        → (status : _) × (body : String) × (tokens : TokenResponse) × (net.answer sent req
            ≡ ok (record { status_code = status; body = ok body }))
          × (json.unmarshal_token_response body ≡ ok tokens)
          × (stored (req ∷ sent) ≡ stored sent)
    pub gets :
        (sent : List Request) (req : Request)
        → req.url ≡ a.host ++ path_org_get
        → (status : _) × (body : String) × (net.answer sent req
            ≡ ok (record { status_code = status; body = ok body }))
          × (json.unmarshal_organization body ≡ ok (stored sent))
          × (stored (req ∷ sent) ≡ stored sent)
    pub updates :
        (sent : List Request) (req : Request) (data_of : String) (org : Organization)
        → req.url ≡ a.host ++ path_org_set
        → req.body ≡ some data_of
        → json.unmarshal_organization data_of ≡ ok org
        → (body : Result String) × (net.answer sent req
            ≡ ok (record { status_code = 200; body = body }))
          × (stored (req ∷ sent) ≡ org)

  module _ (stored : List Request → Organization) (server : IsServer stored) where
    -- The stored organization is read through the requests sent so far.
    abbrev now : Session → Organization
    now s = stored s.sent

    -- `m` gives `b` and leaves `org` stored.
    abbrev Gives {ℓ} : {B : Type ℓ} → B → Organization → Result B × Session → Type ℓ
    Gives b org r = (r.0 ≡ ok b) × (now r.1 ≡ org)

    -- A request with a body, before its headers.
    abbrev posted : String → String → Request
    posted path body = record {
      method = "POST";
      url = a.host ++ path;
      headers = [];
      body = some body;
    }

    request_token-Gives :
        (s : Session) → (token : String) × Gives token (now s) (request_token net json a s)
    unfolding request_token new_request add_header send store_token and_then
    request_token-Gives s =
        let enc = server.encodes_token_request in
        let req = json_headers (posted path_token enc.0) in
        let (status, body, tokens, answered, decoded, same) = server.grants s.sent req refl in
        (
          tokens.access_token,
          rw (enc.1, server.url_parses path_token, answered, decoded) (refl, same),
        )

    token_under_lock-Gives :
        (s : Session) → (token : String) × Gives token (now s) (token_under_lock net json a s)
    unfolding token_under_lock
    token_under_lock-Gives s = elim (Bool-cases (is_empty s.token)) [
      | inl missing ↦ rw missing (request_token-Gives s)
      | inr there ↦ rw there (s.token, (refl, refl))
    ]

    fetch_token-Gives :
        (s : Session) → (token : String) × Gives token (now s) (fetch_token net json a s)
    unfolding fetch_token
    fetch_token-Gives s = elim (Bool-cases (is_empty s.token)) [
      | inl missing ↦ rw missing (token_under_lock-Gives s)
      | inr there ↦ rw there (s.token, (refl, refl))
    ]

    get_org-Gives : (s : Session) → Gives (now s) (now s) (get_org net json a s)
    unfolding get_org new_request add_header send and_then
    get_org-Gives s =
        let (token, (gave, kept)) = fetch_token-Gives s in
        let enc = server.encodes_org_req in
        let req = bearer_headers token (posted path_org_get enc.0) in
        let sent = (fetch_token net json a s).1.sent in
        let (status, body, answered, decoded, same) = server.gets sent req refl in
        rw (gave, enc.1, server.url_parses path_org_get, answered, decoded)
          (ap ok kept, same ∙ kept)

    set_org-Gives :
        (e : String) (s : Session)
        → Gives tt
            (record (now s) { email = e })
            (set_org net json a (record (now s) { email = e }) s)
    unfolding set_org check_status new_request add_header send and_then
    set_org-Gives e s =
        let (token, (gave, kept)) = fetch_token-Gives s in
        let (data_of, encoded, decoded) = server.encodes_organization s.sent e in
        let req = bearer_headers token (posted path_org_set data_of) in
        let sent = (fetch_token net json a s).1.sent in
        let (body, answered, same) =
          server.updates sent req data_of (record (now s) { email = e }) refl refl decoded in
        rw (gave, encoded, server.url_parses path_org_set, answered) (refl, same)

    set_org-Gives-at :
        (o : Organization) (e : String) (s : Session)
        → now s ≡ o
        → Gives tt (record o { email = e }) (set_org net json a (record o { email = e }) s)
    set_org-Gives-at o e s stands = rw (sym stands) (set_org-Gives e s)

    get_email-Gives : (s : Session) → Gives (email_of (now s).email) (now s) (call get_email s)
    unfolding call get_org_email and_then
    get_email-Gives s = let (gave, kept) = get_org-Gives s in rw gave (refl, kept)

    set_email-Gives :
        (e : String) (s : Session)
        → Gives email_set (record (now s) { email = e }) (call (set_email e) s)
    unfolding call set_org_email and_then
    set_email-Gives e s =
        let (gave, kept) = get_org-Gives s in
        let sets = set_org-Gives-at (now s) e (get_org net json a s).1 kept in
        rw (gave, sets.0) (refl, sets.1)

    -- On a server that stores the organization, any sequence of GetOrgEmail and SetOrgEmail gives
    -- what the specification gives on the stored organization, and leaves it as the specification
    -- does: every call succeeds, a read sees the latest write, and only the e-mail changes.
    pub run_refines :
        (ops : List Op) (s : Session)
        → ((run ops s).0 ≡ (replay ops (now s)).0) × (now (run ops s).1 ≡ (replay ops (now s)).1)
    unfolding run replay
    run_refines [] s = (refl, refl)
    run_refines (get_email ∷ ops) s =
        let (gave, kept) = get_email-Gives s in
        let (results, left) = run_refines ops (call get_email s).1 in
        rw (gave, results, left, kept) (refl, refl)
    run_refines (set_email e ∷ ops) s =
        let (gave, kept) = set_email-Gives e s in
        let (results, left) = run_refines ops (call (set_email e) s).1 in
        rw (gave, results, left, kept) (refl, refl)
