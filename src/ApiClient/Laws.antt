-- ===== src/ApiClient/Laws.antt =====
-- How often a request of packages/api-client/src/client.ts is sent.
use tax_professional_managem.Common.{
  ℕ, zero, suc, ◌+◌, ◌≤◌, ◌≡◌, refl, Bool, true, false, ◌&&◌, List, [], ◌∷◌, ◌++◌, Option, none,
  some, arith, String, inl, inr, Bool-cases, if◌then◌else◌,
}
use tax_professional_managem.Common.Table.{count_where}
use tax_professional_managem.ApiClient.{
  Network, Response, Event, requested, refreshed, rotated, session_expired, ApiState, do_refresh,
  take_refresh, is_unauthorized, send, request_again, request, request_with_meta, AuthResult,
  take_tokens, store_refresh, Body, success, failure, is_ok, sent_token, record_event, retry,
}

abbrev pub is_fetch : Event → Bool
is_fetch (requested token) = true
is_fetch (refreshed token) = true
is_fetch (rotated token) = false
is_fetch session_expired = false

-- How often something went over the network.
abbrev pub fetches : ApiState → ℕ
fetches s = count_where is_fetch s.events

count-append :
    (es : List Event) (e : Event)
    → count_where is_fetch (es ++ (e ∷ []))
      ≡ count_where is_fetch es + (if is_fetch e then 1 else 0)
count-append [] e = omega arith
count-append (x ∷ es) e = omega (arith, count-append es e)

store_refresh-fetches :
    (token : Option String) (s : ApiState) → fetches (store_refresh token s) ≡ fetches s
store_refresh-fetches none s = refl
store_refresh-fetches (some token) s = omega (arith, count-append s.events (rotated token))

take_tokens-fetches :
    (good : Bool) (json : Option (Body AuthResult)) (s : ApiState)
    → fetches (take_tokens good json s).1 ≡ fetches s
take_tokens-fetches true none s = refl
take_tokens-fetches true (some (success a)) s =
    store_refresh-fetches a.refresh_token (record s { access_token = some a.access_token })
take_tokens-fetches true (some (failure code message)) s = refl
take_tokens-fetches false json s = refl

take_refresh-fetches :
    (r : Option (Response AuthResult)) (s : ApiState) → fetches (take_refresh r s).1 ≡ fetches s
unfolding take_refresh
take_refresh-fetches none s = refl
take_refresh-fetches (some r) s = take_tokens-fetches (is_ok r.status) r.json s

module _ {A : Type 0} (net : Network A) where
  do_refresh-fetches : (s : ApiState) → fetches (do_refresh net s).1 ≡ fetches s + 1
  unfolding do_refresh
  do_refresh-fetches s =
      let e = refreshed (sent_token s.platform s.refresh_token) in
      let kept =
        take_refresh-fetches (net.refresh_answer (s.events ++ (e ∷ []))) (record_event e s) in
      omega (arith, kept, count-append s.events e)

  retry-fetches :
      (r : Option (Response A)) (renewed : Bool) (s : ApiState)
      → fetches (retry net r (renewed, s)).1 ≤ fetches s + 1
  unfolding request_again
  retry-fetches r true s = omega (arith, count-append s.events (requested s.access_token))
  retry-fetches r false s = omega (arith, count-append s.events session_expired)

  -- A request goes over the network at most three times, whatever is answered: once, once more to
  -- refresh the token, and once again.
  pub request_at_most_thrice :
      (may_refresh : Bool) (s : ApiState) → fetches (request net may_refresh s).1 ≤ fetches s + 3
  unfolding request
  request_at_most_thrice may_refresh s =
      let (r, sent) = send net s in
      let once = count-append s.events (requested s.access_token) in
      elim (Bool-cases (is_unauthorized r && may_refresh)) [
        | inl again ↦
            let (renewed, later) = do_refresh net sent in
            rw again (omega (arith, retry-fetches r renewed later, do_refresh-fetches sent, once))
        | inr done ↦ rw done (omega (arith, once))
      ]

  -- `requestWithMeta` has no such bound: while each request is answered by 401 and each refresh by
  -- a new token, it goes on, and no number of calls is enough for it to return.
  pub request_with_meta_unbounded :
      (fuel : ℕ) (s : ApiState)
      → ((es : List Event) → is_unauthorized (net.answer es) ≡ true)
      → ((t : ApiState) → (do_refresh net t).0 ≡ true)
      → (request_with_meta net fuel s).0 ≡ none
  unfolding request_with_meta
  request_with_meta_unbounded zero s refused renewed = refl
  request_with_meta_unbounded (suc fuel) s refused renewed =
      let sent = record_event (requested s.access_token) s in
      let later = (do_refresh net sent).1 in
      rw (refused sent.events, renewed sent)
        (request_with_meta_unbounded fuel later refused renewed)
