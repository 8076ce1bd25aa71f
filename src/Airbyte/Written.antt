-- ===== src/Airbyte/Written.antt =====
-- What SetOrgEmail writes when it succeeds, whatever the answers are.
use abctl.Common.{
  String, errorf, some, List, ◌∷◌, ◌++◌, ok, wrap-eq-ok, ◌≡◌, refl, sym, ap, ◌∙◌, arith,
}
use abctl.Effects.{Stateful, from_result, ◌>>=◌}
use abctl.Effects.Invariants.{
  Ensures, finally, result-Ensures, >>=-ok, with_error-ok, with_error-Ensures,
}
use abctl.Http.{Request, Reply, Net, new_request-ok, add_header}
use abctl.Airbyte.{
  path_org_set, Organization, Json, Airbyte, Session, bearer_headers, wrapped, send, check_status,
  get_org, set_org, set_org_email,
}

wrapped-ok {ℓ κ} :
    {S : Type ℓ} {A : Type κ} (before : String) (m : Stateful S A) (s : S) {b : A}
    → (wrapped before m s).0 ≡ ok b
    → (m s).0 ≡ ok b
wrapped-ok before m s h = with_error-ok (λ e. errorf before e "") m s h

module _ (net : Net) (json : Json) (a : Airbyte) where
  -- The latest request is an update to `org`, and its answer has status 200.
  pub record IsUpdated (org : Organization) (s : Session) : Type 0 where
    pub req : Request
    pub earlier : List Request
    pub data_of : String
    pub reply : Reply
    pub latest : s.sent ≡ req ∷ earlier
    pub to_update : req.url ≡ a.host ++ path_org_set
    pub encoded : json.marshal_organization org ≡ ok data_of
    pub carried : req.body ≡ some data_of
    pub answered : net.answer earlier req ≡ ok reply
    pub accepted : reply.status_code ≡ 200

  check_status-ok :
      (res : Reply) {x : Unit {0}} → check_status net json a res ≡ ok x → res.status_code ≡ 200
  unfolding check_status
  check_status-ok res h = ground arith

  exchange-IsUpdated :
      (org : Organization) (data_of token : String) (req : Request)
      → json.marshal_organization org ≡ ok data_of
      → req.url ≡ a.host ++ path_org_set
      → req.body ≡ some data_of
      → Ensures
          (λ x s. IsUpdated org s)
          (wrapped "unable to send organization request: "
              (send net json a (bearer_headers token req))
            >>= λ res. from_result (check_status net json a res))
  unfolding send
  exchange-IsUpdated org data_of token req encoded to_update carried s x h =
      let (res, got, same) =
        >>=-ok
          (wrapped "unable to send organization request: "
            (send net json a (bearer_headers token req)))
          (λ res. from_result (check_status net json a res)) s h in
      rw same (record {
        req = bearer_headers token req;
        earlier = s.sent;
        data_of = data_of;
        reply = res;
        latest = refl;
        to_update = unfold add_header in to_update;
        encoded = encoded;
        carried = unfold add_header in carried;
        answered = wrapped-ok _ (send net json a (bearer_headers token req)) s got;
        accepted = check_status-ok res (ap (λ r. r.0) (sym same) ∙ h);
      })

  set_org-IsUpdated :
      (org : Organization) → Ensures (λ x s. IsUpdated org s) (set_org net json a org)
  unfolding set_org
  set_org-IsUpdated org =
      let Q = λ (x : Unit {0}) (s : Session). IsUpdated org s in
      finally Q _ _ (λ token. result-Ensures Q _ _ (λ data_of encoded.
        result-Ensures Q _ _ (λ req built.
          let eq = new_request-ok net "POST" _ _ (wrap-eq-ok _ _ built) in
          exchange-IsUpdated org data_of token req (wrap-eq-ok _ _ encoded) (ap (λ r. r.url) eq)
            (ap (λ r. r.body) eq))))

  -- When SetOrgEmail succeeds, getOrg gave an organization, and the latest request is an update to
  -- that organization with the e-mail replaced and nothing else, which was answered with status 200.
  pub set_org_email_written :
      (email : String) (s : Session) (x : Unit {0})
      → (set_org_email net json a email s).0 ≡ ok x
      → (org : Organization) × ((get_org net json a s).0 ≡ ok org)
        × IsUpdated (record org { email = email }) (set_org_email net json a email s).1
  unfolding set_org_email
  set_org_email_written email s x h =
      let write = λ (org : Organization).
        wrapped "failed to update organization: "
          (set_org net json a (record org { email = email })) in
      let got = >>=-ok (wrapped "failed to get organization: " (get_org net json a)) write s h in
      let org = got.0 in
      (
        org,
        wrapped-ok _ (get_org net json a) s got.1,
        rw got.2 (
            with_error-Ensures (λ x s. IsUpdated (record org { email = email }) s) _ _
              (set_org-IsUpdated (record org { email = email })) _ x
              (ap (λ r. r.0) (sym got.2) ∙ h)),
      )
