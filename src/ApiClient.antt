-- ===== src/ApiClient.antt =====
-- packages/api-client/src/client.ts: how the web and desktop clients send a request, and how they
-- get a new access token when the old one has expired. One request runs at a time here, so that the
-- promise that concurrent ones share is left out.
pub mod Laws
use tax_professional_managem.Common.{
  ℕ, zero, suc, ◌+◌, Bool, true, false, not, ◌&&◌, List, [], ◌∷◌, ◌++◌, Option, none, some, ltb,
  leb, ◌==◌, if◌then◌else◌, String,
}
use tax_professional_managem.Common.Text.{Text, codes}

pub data Platform : Type 0 where
  web desktop : Platform

-- The JSON of an answer: `ApiSuccess` or `ApiErrorBody`.
pub data Body (A : Type 0) : Type 0 where
  success : A → Body A
  failure : String → String → Body A

-- `json` is `none` where the body is no JSON.
pub record Response (A : Type 0) : Type 0 where
  pub status : ℕ
  pub json : Option (Body A)

pub record AuthResult : Type 0 where
  pub access_token : String
  pub refresh_token : Option String

-- What has been sent with which token, and which callbacks have run, the first one first.
pub data Event : Type 0 where
  requested : Option String → Event
  refreshed : Option String → Event
  rotated : String → Event
  session_expired : Event

pub record ApiState : Type 0 where
  pub platform : Platform
  pub access_token : Option String
  pub refresh_token : Option String
  pub events : List Event

-- `fetch`, `none` where it throws: the network may answer by all that has happened so far.
pub record Network (A : Type 0) : Type 0 where
  pub answer : List Event → Option (Response A)
  pub refresh_answer : List Event → Option (Response AuthResult)

-- `ApiError`, with the code and the status, or what `fetch` throws.
pub data Outcome (A : Type 0) : Type 0 where
  value : A → Outcome A
  api_error : String → ℕ → Outcome A
  network_error : Outcome A

abbrev pub is_ok : ℕ → Bool
is_ok status = leb 200 status && ltb status 300

abbrev pub record_event : Event → ApiState → ApiState
record_event e s = record s { events = s.events ++ (e ∷ []) }

-- The body of a refresh: only a desktop client sends its token itself.
abbrev pub sent_token : Platform → Option String → Option String
sent_token Platform.web token = none
sent_token Platform.desktop token = token

abbrev pub store_refresh : Option String → ApiState → ApiState
store_refresh none s = s
store_refresh (some token) s =
    record_event (rotated token) (record s { refresh_token = some token })

abbrev pub store_tokens : AuthResult → ApiState → ApiState
store_tokens a s = store_refresh a.refresh_token (record s { access_token = some a.access_token })

abbrev pub take_tokens : Bool → Option (Body AuthResult) → ApiState → Bool × ApiState
take_tokens true (some (success a)) s = (true, store_tokens a s)
take_tokens true (some (failure code message)) s = (false, s)
take_tokens true none s = (false, s)
take_tokens false json s = (false, s)

-- What `doRefresh` makes of an answer: whether there is a new token.
unfoldable pub take_refresh : Option (Response AuthResult) → ApiState → Bool × ApiState
take_refresh none s = (false, s)
take_refresh (some r) s = take_tokens (is_ok r.status) r.json s

unfoldable pub do_refresh : {A : Type 0} → Network A → ApiState → Bool × ApiState
do_refresh net s =
    let sent = record_event (refreshed (sent_token s.platform s.refresh_token)) s in
    take_refresh (net.refresh_answer sent.events) sent

module _ {A : Type 0} where
  abbrev settle_json : ℕ → Option (Body A) → Outcome A
  settle_json status none = api_error "UNKNOWN_ERROR" status
  settle_json status (some (failure code message)) = api_error code status
  settle_json status (some (success a)) =
      if is_ok status then value a else api_error "UNKNOWN_ERROR" status

  unfoldable pub settle : Option (Response A) → Outcome A
  settle none = network_error
  settle (some r) = settle_json r.status r.json

  abbrev pub is_unauthorized : Option (Response A) → Bool
  is_unauthorized none = false
  is_unauthorized (some r) = r.status == 401

  abbrev pub send : Network A → ApiState → Option (Response A) × ApiState
  send net s =
      let sent = record_event (requested s.access_token) s in (net.answer sent.events, sent)

  -- The call with `skipAuthRetry`.
  unfoldable pub request_again : Network A → ApiState → Outcome A × ApiState
  request_again net s = let (r, sent) = send net s in (settle r, sent)

  abbrev pub retry : Network A → Option (Response A) → Bool × ApiState → Outcome A × ApiState
  retry net r (true, s) = request_again net s
  retry net r (false, s) = (settle r, record_event session_expired s)

  -- `request`, where `may_refresh` tells that the path is not that of the refresh itself.
  unfoldable pub request : Network A → Bool → ApiState → Outcome A × ApiState
  request net may_refresh s =
      let (r, sent) = send net s in
      if is_unauthorized r && may_refresh
      then retry net r (do_refresh net sent)
      else (settle r, sent)

  -- `requestFormData`
  abbrev pub request_form_data : Network A → ApiState → Outcome A × ApiState
  request_form_data net s = request net true s

  -- `requestWithMeta`, which calls itself as often as there are new tokens: `none` where `fuel`
  -- calls have not been enough.
  unfoldable pub request_with_meta : Network A → ℕ → ApiState → Option (Outcome A) × ApiState
  request_with_meta net zero s = (none, s)
  request_with_meta net (suc fuel) s =
      let (r, sent) = send net s in
      let (renewed, later) = do_refresh net sent in
      let again = request_with_meta net fuel later in
      if not (is_unauthorized r)
      then (some (settle r), sent)
      else if renewed
      then again
      else (some (settle r), record_event session_expired later)

-- `path.startsWith("/auth/refresh")`
abbrev pub starts_with : Text → Text → Bool
starts_with [] text = true
starts_with (c ∷ cs) [] = false
starts_with (c ∷ cs) (d ∷ ds) = (c == d) && starts_with cs ds

abbrev pub may_refresh : Text → Bool
may_refresh path = not (starts_with (codes "/auth/refresh") path)
