-- ===== src/Api/Tests.antt =====
-- Examples of the theorems on the control plane's client.
use abctl.Common.{◌++◌, [], new, ok, err, refl}
use abctl.Effects.{and_then}
use abctl.Http.{Net, UrlLibrary, transport, new_request, client_do}
use abctl.Api.{Json, exchange, expect, delete_dataplane}
use abctl.Api.Answers.{delete_op, call, IsAnswered, succeeds_with, call-IsAnswered}

abbrev net : Net
net = record {
  check_url = λ url. ok tt;
  answer = λ sent req. ok (record { status_code = 204; body = ok "" });
}

abbrev urls : UrlLibrary
urls = record { parse = λ url. ok url; resolve_reference = λ base path. base ++ path }

abbrev json : Json
json = record {
  marshal_spec = λ spec. ok "{}";
  decode_dataplane = λ body. err (new "no dataplane");
  decode_dataplanes = λ body. ok [];
}

call-IsAnswered_example :
    IsAnswered net urls json "https://api" "DELETE" "/api/v1/dataplanes/7"
      (succeeds_with (delete_op "7"))
      []
      (call net urls json "https://api" (delete_op "7") []).1
unfolding call delete_dataplane exchange expect client_do transport new_request and_then
call-IsAnswered_example = call-IsAnswered net urls json "https://api" (delete_op "7") [] tt refl
