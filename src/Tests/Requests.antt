-- ===== src/Tests/Requests.antt =====
-- A server that accepts no access token and renews every one.
use tax_professional_managem.Common.{ℕ, ◌+◌, ◌≤◌, ◌≡◌, refl, true, [], none, some}
use tax_professional_managem.ApiClient.{
  Platform, Network, Response, Body, AuthResult, ApiState, request, request_with_meta, do_refresh,
  take_refresh,
}
use tax_professional_managem.ApiClient.Laws.{
  fetches, request_at_most_thrice, request_with_meta_unbounded,
}

abbrev refusal : Response ℕ
refusal = record { status = 401; json = some (Body.failure "UNAUTHORIZED" "no") }

abbrev renewal : Response AuthResult
renewal = record {
  status = 200;
  json = some (Body.success (record { access_token = "new"; refresh_token = none }));
}

abbrev server : Network ℕ
server = record { answer = λ es. some refusal; refresh_answer = λ es. some renewal }

abbrev start : ApiState
start = record {
  platform = Platform.web;
  access_token = some "old";
  refresh_token = none;
  events = [];
}

request_at_most_thrice_example : fetches (request server true start).1 ≤ fetches start + 3
request_at_most_thrice_example = request_at_most_thrice server true start

renews : (s : ApiState) → (do_refresh server s).0 ≡ true
unfolding do_refresh take_refresh
renews s = refl

request_with_meta_unbounded_example : (request_with_meta server 50 start).0 ≡ none
request_with_meta_unbounded_example =
    request_with_meta_unbounded server 50 start (λ es. refl) renews
