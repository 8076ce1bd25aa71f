-- ===== src/Airbyte/Tests.antt =====
-- Examples of the theorems on the API client, with a server that keeps the e-mail of its organization.
use abctl.Common.{
  String, true, false, if◌then◌else◌, ◌==◌, Option, none, some, List, [], ◌∷◌, ok, ◌⊎◌, inl, inr,
  ok-injective, ◌≡◌, refl,
}
use abctl.Effects.{and_then}
use abctl.Http.{Request, Net, new_request, add_header}
use abctl.Airbyte.{
  Organization, Json, Airbyte, Session, new_session, with_token, send, store_token, request_token,
  token_under_lock, fetch_token, get_org, check_status, set_org, set_org_email,
}
use abctl.Airbyte.Emails.{Op, get_email, set_email, run, replay, IsServer, run_refines}
use abctl.Airbyte.Bearing.{Bearing, run-Bearing}
use abctl.Airbyte.Written.{IsUpdated, set_org_email_written}
use abctl.Airbyte.Concurrent.{
  System, Reach, start, later, pick, read_some, read_none, lock, missing, ask, store,
}
use abctl.Airbyte.Concurrent.Invariant.{tokens_agree, session_stays}

abbrev organization : Organization
organization = record {
  id = "00000000-0000-0000-0000-000000000000";
  name = "Default";
  email = "old@example.com";
  pba = false;
  billing = true;
  sso_realm = "realm";
}

-- The e-mail that the requests have left.
abbrev body_of : Option String → String
body_of none = ""
body_of (some body) = body

unfoldable email_after : List Request → String
email_after [] = "old@example.com"
email_after (req ∷ sent) =
    let earlier = email_after sent in
    if req.url == "http://h/api/v1/organizations/update" then body_of req.body else earlier

abbrev stored : List Request → Organization
stored sent = record organization { email = email_after sent }

-- An organization is written as its e-mail.
abbrev json : Json
json = record {
  marshal_org_req = λ r. ok "{}";
  marshal_token_request = λ r. ok "{}";
  unmarshal_token_response = λ body. ok (record { access_token = "secret" });
  marshal_organization = λ org. ok org.email;
  unmarshal_organization = λ body. ok (record organization { email = body });
}

abbrev net : Net
net = record {
  check_url = λ url. ok tt;
  answer = λ sent req. ok (record { status_code = 200; body = ok (email_after sent) });
}

abbrev airbyte : Airbyte
airbyte = record { host = "http://h"; client_id = "id"; client_secret = "s" }

server : IsServer net json airbyte stored
unfolding email_after
server = record {
  url_parses = λ path. refl;
  encodes_token_request = ("{}", refl);
  encodes_org_req = ("{}", refl);
  encodes_organization = λ sent e. (e, refl, refl);
  grants = λ sent req url.
      (200, email_after sent, record { access_token = "secret" }, refl, refl, rw url refl);
  gets = λ sent req url. (200, email_after sent, refl, refl, rw url refl);
  updates = λ sent req data_of org url body decoded.
      (ok (email_after sent), refl, rw (url, body) (ok-injective decoded));
}

abbrev ops : List Op
ops = get_email ∷ set_email "new@example.com" ∷ get_email ∷ []

run_refines_example :
    ((run net json airbyte ops new_session).0 ≡ (replay ops (stored [])).0)
    × (stored (run net json airbyte ops new_session).1.sent ≡ (replay ops (stored [])).1)
run_refines_example = run_refines net json airbyte stored server ops new_session

abbrev with_secret : Session
with_secret = with_token "secret" new_session

run-Bearing_example :
    ((run net json airbyte ops with_secret).1.token ≡ "secret")
    × Bearing "secret" [] (run net json airbyte ops with_secret).1.sent
run-Bearing_example = run-Bearing net json airbyte ops with_secret refl

set_org_email_written_example :
    (org : Organization) × ((get_org net json airbyte new_session).0 ≡ ok org)
    × IsUpdated net json airbyte
        (record org { email = "new@example.com" })
        (set_org_email net json airbyte "new@example.com" new_session).1
unfolding set_org_email get_org set_org fetch_token token_under_lock request_token store_token send
    check_status new_request add_header and_then email_after
set_org_email_written_example =
    set_org_email_written net json airbyte "new@example.com" new_session tt refl

-- A read that races with the write gives the token before it or the one after it.
abbrev Racing : String → String → Type 0
Racing held t = (t ≡ "") ⊎ (t ≡ held)

-- One goroutine asks for the token, and is about to store it; then both have it.
unfoldable asked_once : (s : System net json airbyte Racing) × Reach net json airbyte Racing "" s
unfolding request_token new_request add_header send store_token and_then email_after
asked_once = (
  _,
  later
      (later (later (later start (pick 0 (read_none (inl refl) refl))) (pick 0 (lock refl)))
        (pick 0 (missing refl)))
      (pick 0 ask),
)

unfoldable both_done : (s : System net json airbyte Racing) × Reach net json airbyte Racing "" s
unfolding asked_once request_token new_request add_header send store_token and_then email_after
both_done = (
  _,
  later (later asked_once.1 (pick 0 (store {t = "secret"}))) (pick 1 (read_some (inr refl) refl)),
)

tokens_agree_example : ◌≡◌ {A = String} "secret" "secret"
unfolding both_done asked_once
tokens_agree_example =
    tokens_agree net json airbyte Racing "" (λ held t reads. reads) both_done.1 0 1 "secret"
      "secret" refl refl refl refl

session_stays_example : both_done.0.shared.session ≡ both_done.0.shared.session
unfolding both_done asked_once
session_stays_example =
    session_stays net json airbyte Racing "" both_done.1 refl (pick 2 (read_some (inr refl) refl))
