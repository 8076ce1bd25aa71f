-- ===== src/Update/Newer.antt =====
-- What `check` tells its caller.
use mathlib.Core.Path.{subst}
use abctl.Common.{
  ap, String, true, false, Bool-cases, inl, inr, ◌⊎◌, ◌≡◌, sym, ◌∙◌, arith, ◌==◌, eqb, ok,
  ok-injective, >>=-eq-ok, wrap, wrap-eq-ok,
}
use abctl.Helm.Semver.{Semver}
use abctl.Update.{Doer, Response, url, valid_tag, tag_of_response, latest, check, is_older}

valid_tag-eq-ok :
    (sv : Semver) (t : String) {tag : String}
    → valid_tag sv t ≡ ok tag
    → (t ≡ tag) × (sv.is_valid tag ≡ true)
unfolding valid_tag
valid_tag-eq-ok sv t {tag} h = elim (Bool-cases (sv.is_valid t)) [
  | inl good ↦
      let same : t ≡ tag = ok-injective (rw good at h) in
      (same, subst (λ (x : String). sv.is_valid x ≡ true) same good)
  | inr bad ↦ let wrong = rw bad at h in cc
]

tag_of_response-eq-ok :
    (sv : Semver) (res : Response) {tag : String}
    → tag_of_response sv res ≡ ok tag
    → (res.status_code ≡ 200) × (res.tag_name ≡ ok tag) × (sv.is_valid tag ≡ true)
unfolding tag_of_response
tag_of_response-eq-ok sv res {tag} h = elim (Bool-cases (eqb res.status_code 200)) [
  | inl good ↦
      let (t, decoded, checked) = >>=-eq-ok _ (valid_tag sv) (rw good at h) in
      let (same, valid) = valid_tag-eq-ok sv t checked in
      (ground arith, wrap-eq-ok _ _ decoded ∙ ap (λ (x : String). ok x) same, valid)
  | inr bad ↦ let wrong = rw bad at h in cc
]

module _ (sv : Semver) (doer : Doer) where
  -- A tag that `latest` returns comes from a response with status 200, and is a valid version.
  pub record IsLatest (tag : String) : Type 1 where
    pub request : doer.Request
    pub response : Response
    pub created : doer.new_request url ≡ ok request
    pub answered : doer.do_request request ≡ ok response
    pub status : response.status_code ≡ 200
    pub decoded : response.tag_name ≡ ok tag
    pub valid : sv.is_valid tag ≡ true

  latest-IsLatest : {tag : String} → latest sv doer ≡ ok tag → IsLatest tag
  unfolding latest
  latest-IsLatest h =
      let (request, created, h') = >>=-eq-ok (wrap _ (doer.new_request url)) _ h in
      let (response, answered, h'') = >>=-eq-ok (wrap _ (doer.do_request request)) _ h' in
      let (status, decoded, valid) = tag_of_response-eq-ok sv response h'' in
      record {
        request = request;
        response = response;
        created = wrap-eq-ok _ _ created;
        answered = wrap-eq-ok _ _ answered;
        status = status;
        decoded = decoded;
        valid = valid;
      }

  -- A check that succeeds reports either a valid tag that is newer than the version, of a response
  -- with status 200, or nothing, and then such a tag was read and is not newer.
  pub check_sound :
      (version answer : String)
      → check sv doer version ≡ ok answer
      → (tag : String) × IsLatest tag
        × (((is_older sv doer version tag ≡ true) × (answer ≡ tag))
            ⊎ ((is_older sv doer version tag ≡ false) × (answer ≡ "")))
  unfolding check
  check_sound version answer h = elim (Bool-cases (version == "dev")) [
    | inl dev ↦ let wrong = rw dev at h in cc
    | inr other ↦
        let (tag, found, told) = >>=-eq-ok (latest sv doer) _ (rw other at h) in
        (
          tag,
          latest-IsLatest found,
          elim (Bool-cases (is_older sv doer version tag)) [
            | inl old ↦ inl (old, sym (ok-injective (rw old at told)))
            | inr up_to_date ↦ inr (up_to_date, sym (ok-injective (rw up_to_date at told)))
          ],
        )
  ]
