-- ===== src/Api/Answers.antt =====
-- What a dataplane operation has sent when it succeeds.
use abctl.Common.{
  String, ℕ, Bool, true, ◌||◌, eqb, ◌++◌, Option, none, some, List, ◌∷◌, errorf, Result,
  Result-cases, ok, err, ok-injective, ◌≡◌, refl, sym, ap, ◌∙◌, inl, inr, arith,
}
use abctl.Effects.{Stateful, and_then, from_result, with_error, ◌>>=◌}
use abctl.Effects.Invariants.{>>=-ok, with_error-ok}
use abctl.Http.{
  Request, Reply, Net, transport, new_request, new_request-ok, add_header, UrlLibrary, client_do,
}
use abctl.Http as Http
use abctl.Api.{
  DataplaneSpec, Dataplane, Json, dataplanes_path, expect, exchange, get_dataplane, list_dataplanes,
  json_request, create_dataplane, delete_dataplane,
}

expect-fits :
    (fits : ℕ → Bool) (resp : Reply) {reply : Reply}
    → expect fits resp ≡ ok reply
    → fits resp.status_code ≡ true
unfolding expect
expect-fits fits resp h = ground arith

-- An operation of the client, with the method, the path and the statuses of the API's documentation.
pub data Op : Type 0 where
  get_op : String → Op
  list_op : Op
  create_op : DataplaneSpec → Op
  delete_op : String → Op

abbrev pub method_of : Op → String
method_of (get_op id) = "GET"
method_of list_op = "GET"
method_of (create_op spec) = "POST"
method_of (delete_op id) = "DELETE"

abbrev pub path_of : Op → String
path_of (get_op id) = "/api/v1/dataplanes/" ++ id
path_of list_op = "/api/v1/dataplanes"
path_of (create_op spec) = "/api/v1/dataplanes"
path_of (delete_op id) = "/api/v1/dataplanes/" ++ id

abbrev pub succeeds_with : Op → ℕ → Bool
succeeds_with (get_op id) n = eqb n 200
succeeds_with list_op n = eqb n 200
succeeds_with (create_op spec) n = eqb n 201
succeeds_with (delete_op id) n = eqb n 204 || eqb n 200

module _ (net : Net) (urls : UrlLibrary) (json : Json) (base_url : String) where
  abbrev pub client : Http.Client (List Request)
  client = record { doer = transport net; base_url = base_url }

  -- An operation, without what it gives.
  unfoldable pub call : Op → Stateful (List Request) (Unit {0})
  call (get_op id) = get_dataplane net urls json client id >>= λ d. from_result (ok tt)
  call list_op = list_dataplanes net urls json client >>= λ d. from_result (ok tt)
  call (create_op spec) = create_dataplane net urls json client spec >>= λ d. from_result (ok tt)
  call (delete_op id) = delete_dataplane net urls json client id

  -- One request was sent, for the method and the path under the base URL, and its answer has a
  -- status that `fits`.
  pub record IsAnswered (method path : String) (fits : ℕ → Bool) (before after : List Request)
      : Type 0 where
    pub req : Request
    pub reply : Reply
    pub one : after ≡ req ∷ before
    pub by_method : req.method ≡ method
    pub to_path : req.url ≡ urls.resolve_reference base_url path
    pub answered : net.answer before req ≡ ok reply
    pub fitting : fits reply.status_code ≡ true

  exchange-IsAnswered :
      (req : Request) (fits : ℕ → Bool) (before : List Request) (reply : Reply)
      → (exchange net urls json client (ok req) fits before).0 ≡ ok reply
      → IsAnswered req.method req.url fits before
          (exchange net urls json client (ok req) fits before).1
  unfolding exchange client_do transport and_then
  exchange-IsAnswered req fits before reply h =
      let out = record req { url = urls.resolve_reference base_url req.url } in
      let asked = with_error (λ e. errorf "request failed: " e "") (client_do urls client req) in
      let (resp, got, same) = >>=-ok asked (λ resp. from_result (expect fits resp)) before h in
      record {
        req = out;
        reply = resp;
        one = ap (λ r. r.1) same;
        by_method = refl;
        to_path = refl;
        answered =
            with_error-ok (λ e. errorf "request failed: " e "") (client_do urls client req) before
              got;
        fitting = expect-fits fits resp (ap (λ r. r.0) (sym same) ∙ h);
      }

  -- What is built and sent, when the rest succeeds.
  built-IsAnswered :
      (built : Result Request) (method path : String) (fits : ℕ → Bool) (before : List Request)
      (reply : Reply)
      → ((req : Request) → built ≡ ok req → (req.method ≡ method) × (req.url ≡ path))
      → (exchange net urls json client built fits before).0 ≡ ok reply
      → IsAnswered method path fits before (exchange net urls json client built fits before).1
  built-IsAnswered (err e) method path fits before reply asks h = unfold exchange and_then in cc
  built-IsAnswered (ok req) method path fits before reply asks h =
      let (by, to) = asks req refl in
      let sent = exchange-IsAnswered req fits before reply h in
      record {
        req = sent.req;
        reply = sent.reply;
        one = sent.one;
        by_method = sent.by_method ∙ by;
        to_path = sent.to_path ∙ ap (urls.resolve_reference base_url) to;
        answered = sent.answered;
        fitting = sent.fitting;
      }

  -- The rest of an operation, which is pure, once the response is there.
  then_decoded {ℓ} :
      {A : Type ℓ} (built : Result Request) (method path : String) (fits : ℕ → Bool)
      (decode : Reply → Result A) (before : List Request) {a : A}
      → ((req : Request) → built ≡ ok req → (req.method ≡ method) × (req.url ≡ path))
      → ((exchange net urls json client built fits >>= λ resp. from_result (decode resp)) before).0
        ≡ ok a
      → IsAnswered method path fits before
          ((exchange net urls json client built fits >>= λ resp. from_result (decode resp))
            before).1
  then_decoded built method path fits decode before asks h =
      let (reply, got, same) =
        >>=-ok (exchange net urls json client built fits) (λ resp. from_result (decode resp)) before
          h in
      rw same (built-IsAnswered built method path fits before reply asks got)

  -- The requests of the operations have their method and path.
  plain-asks :
      (method path : String) (body : Option String) (req : Request)
      → new_request net method path body ≡ ok req
      → (req.method ≡ method) × (req.url ≡ path)
  plain-asks method path body req h =
      let eq = new_request-ok net method path body h in (ap (λ r. r.method) eq, ap (λ r. r.url) eq)

  json-asks :
      (method path : String) (body : Option String) (req : Request)
      → json_request net urls json client (new_request net method path body) ≡ ok req
      → (req.method ≡ method) × (req.url ≡ path)
  json-asks method path body req h = elim (Result-cases (new_request net method path body)) [
    | inl (e, failed) ↦ let gone = (rw failed at h) in cc
    | inr (plain, built) ↦
        let (by, to) = plain-asks method path body plain built in
        let eq = ok-injective (rw built at h) in
        (
          ap (λ r. r.method) (sym eq) ∙ unfold add_header in by,
          ap (λ r. r.url) (sym eq) ∙ unfold add_header in to,
        )
  ]

  created :
      (spec : DataplaneSpec) (before : List Request) {d : Dataplane}
      → (create_dataplane net urls json client spec before).0 ≡ ok d
      → IsAnswered "POST" dataplanes_path
          (λ n. eqb n 201)
          before
          (create_dataplane net urls json client spec before).1
  unfolding create_dataplane and_then
  created spec before h = elim (Result-cases (json.marshal_spec spec)) [
    | inl (e, failed) ↦ let gone = (rw failed at h) in cc
    | inr (body, encoded) ↦
        rw encoded
          (then_decoded _ "POST" _ _ _ before (json-asks "POST" _ (some body)) (rw encoded at h))
  ]

  -- An operation on dataplanes that succeeds has sent one request, with its method and its path under
  -- the base URL, and the answer to it has a status of success: 200 to read, 201 to create, 204 or
  -- 200 to delete.
  pub call-IsAnswered :
      (op : Op) (before : List Request) (x : Unit {0})
      → (call op before).0 ≡ ok x
      → IsAnswered (method_of op) (path_of op) (succeeds_with op) before (call op before).1
  unfolding call
  call-IsAnswered (get_op id) before x h =
      let m = get_dataplane net urls json client id in
      let (d, got, same) = >>=-ok m (λ d. from_result (ok tt)) before h in
      rw same
        (unfold get_dataplane in then_decoded _ "GET" _ _ _ before (plain-asks "GET" _ none) got)
  call-IsAnswered list_op before x h =
      let m = list_dataplanes net urls json client in
      let (d, got, same) = >>=-ok m (λ d. from_result (ok tt)) before h in
      rw same
        (unfold list_dataplanes in then_decoded _ "GET" _ _ _ before (plain-asks "GET" _ none) got)
  call-IsAnswered (create_op spec) before x h =
      let m = create_dataplane net urls json client spec in
      let (d, got, same) = >>=-ok m (λ d. from_result (ok tt)) before h in
      rw same (created spec before got)
  call-IsAnswered (delete_op id) before x h =
      unfold delete_dataplane in
      then_decoded _ "DELETE" _ _ (λ resp. ok tt) before (plain-asks "DELETE" _ none)
        (unfold delete_dataplane in h)
