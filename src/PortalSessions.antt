-- ===== src/PortalSessions.antt =====
-- apps/api/src/portal-sessions/portal-sessions.service.ts: the session in which the desktop
-- application gets a credential in plaintext, for a token that is good once and for a minute.
-- `redeem_check`, `redeem_claim` and `redeem_release` are the stretches of a redemption between
-- which another request may come; the claim is one statement of the database.
pub mod Redemption
pub mod Schedule
use tax_professional_managem.Common.{
  ℕ, ◌+◌, Bool, true, false, not, ◌&&◌, List, [], ◌∷◌, ◌++◌, Option, none, some, ltb, ◌==◌,
  if◌then◌else◌, keep, is_some, is_none, String, str_eq,
}
use tax_professional_managem.Common.Table.{find_first, update_where, count_where}
use tax_professional_managem.Types.{AuditAction, CredentialStatus}
use tax_professional_managem.Db.{
  Db, Client, Credential, PortalAccount, PortalSession, PortalSessionStatus, PortalSessionEvent,
}
use tax_professional_managem.Db.Action.{
  Action, ok, not_found, unauthorized, internal, client_not_found, portal_account_not_found,
  no_active_credential, portal_session_not_found, invalid_session_token, session_token_expired,
  token_already_used, pure, throw, gets, or_throw, throw_if, modify, ◌>>=◌, ◌>>◌, RequestMeta, log,
  entry,
}
use tax_professional_managem.Compliance.{require_client}
use tax_professional_managem.Credentials.{
  Plaintext, CryptoEnv, decrypt_for_portal_session, mark_used, record_access, is_portal_account,
}

abbrev pub one_time_token_ttl_ms : ℕ
one_time_token_ttl_ms = 60000

abbrev pub is_active_credential : CredentialStatus → Bool
is_active_credential CredentialStatus.active = true
is_active_credential _ = false

abbrev pub is_usable_credential : ℕ → ℕ → Credential → Bool
is_usable_credential organization account c =
    (c.portal_account_id == account)
    && (c.organization_id == organization)
    && is_active_credential c.status
    && is_none c.deleted_at

-- `findFirst`, newest first, in rows that are in the order of their creation.
abbrev pub or_found : Option Credential → Option Credential → Option Credential
or_found none other = other
or_found (some c) other = some c

abbrev pub find_newest : (Credential → Bool) → List Credential → Option Credential
find_newest p [] = none
find_newest p (c ∷ cs) = or_found (find_newest p cs) (if p c then some c else none)

unfoldable pub insert_session : ℕ → ℕ → ℕ → ℕ → String → ℕ → Action PortalSession
insert_session organization client credential actor token_hash expires_at db =
    let row : PortalSession = record {
      id = db.next_id;
      organization_id = organization;
      client_id = client;
      credential_id = credential;
      initiated_by_id = actor;
      status = PortalSessionStatus.pending;
      one_time_token_hash = token_hash;
      one_time_token_used_at = none;
      expires_at = expires_at;
    } in
    (
      ok row,
      record db { next_id = db.next_id + 1; portal_sessions = db.portal_sessions ++ (row ∷ []) },
    )

unfoldable pub insert_event : ℕ → String → Action (Unit {0})
insert_event id event_type = modify (λ db. record db {
  portal_events =
      db.portal_events ++ (record { portal_session_id = id; event_type = event_type } ∷ []);
})

pub record CreatedSession : Type 0 where
  pub id : ℕ
  pub one_time_token : String
  pub expires_at : ℕ

abbrev pub is_account_of : ℕ → ℕ → ℕ → PortalAccount → Bool
is_account_of organization client id a =
    is_portal_account organization id a && (a.client_id == client)

-- `raw` is the random token.
unfoldable pub create : CryptoEnv → ℕ → String → ℕ → ℕ → ℕ → ℕ → RequestMeta → Action CreatedSession
create env now raw organization client account actor meta = do
  require_client organization client
  found ← gets (λ db. find_first (is_account_of organization client account) db.portal_accounts)
  or_throw found (not_found portal_account_not_found)
  newest ← gets (λ db. find_newest (is_usable_credential organization account) db.credentials)
  credential ← or_throw newest (not_found no_active_credential)
  session ←
      insert_session organization client credential.id actor (env.auth.tokens.hash raw)
        (now + one_time_token_ttl_ms)
  insert_event session.id "opened"
  log now meta (
      entry (some organization) (some actor) AuditAction.portal_opened "portal_session"
        (some session.id) true)
  log now meta (
      entry (some organization) (some actor) AuditAction.portal_session_started "portal_session"
        (some session.id) true)
  pure (record { id = session.id; one_time_token = raw; expires_at = session.expires_at })

-- What `get` selects: everything but the hash of the token, with the events.
pub record SessionView : Type 0 where
  pub id : ℕ
  pub organization_id : ℕ
  pub client_id : ℕ
  pub credential_id : ℕ
  pub initiated_by_id : ℕ
  pub status : PortalSessionStatus
  pub one_time_token_used_at : Option ℕ
  pub expires_at : ℕ
  pub events : List PortalSessionEvent

abbrev pub session_view : List PortalSessionEvent → PortalSession → SessionView
session_view events s = record {
  id = s.id;
  organization_id = s.organization_id;
  client_id = s.client_id;
  credential_id = s.credential_id;
  initiated_by_id = s.initiated_by_id;
  status = s.status;
  one_time_token_used_at = s.one_time_token_used_at;
  expires_at = s.expires_at;
  events = keep (λ e. e.portal_session_id == s.id) events;
}

abbrev pub is_session_of : ℕ → ℕ → PortalSession → Bool
is_session_of organization id s = (s.id == id) && (s.organization_id == organization)

unfoldable pub get : ℕ → ℕ → Action SessionView
get organization id = do
  found ← gets (λ db. find_first (is_session_of organization id) db.portal_sessions)
  session ← or_throw found (not_found portal_session_not_found)
  gets (λ db. session_view db.portal_events session)

abbrev pub is_portal_session : ℕ → PortalSession → Bool
is_portal_session id s = s.id == id

abbrev pub set_status : PortalSessionStatus → PortalSession → PortalSession
set_status status s = record s { status = status }

-- `update` of the status of one row, which fails where there is none.
unfoldable pub update_status : ℕ → PortalSessionStatus → Action (Unit {0})
update_status id status = do
  found ← gets (λ db. find_first (is_portal_session id) db.portal_sessions)
  or_throw found internal
  modify (λ db. record db {
    portal_sessions = update_where (is_portal_session id) (set_status status) db.portal_sessions;
  })

unfoldable pub redeem_check : CryptoEnv → ℕ → ℕ → String → Action PortalSession
redeem_check env now id raw = do
  found ← gets (λ db. find_first (is_portal_session id) db.portal_sessions)
  session ← or_throw found (not_found portal_session_not_found)
  throw_if (not (str_eq session.one_time_token_hash (env.auth.tokens.hash raw)))
      (unauthorized invalid_session_token)
  if ltb session.expires_at now
      then update_status id PortalSessionStatus.expired
        >> throw (unauthorized session_token_expired)
      else pure session

abbrev pub is_unused : ℕ → PortalSession → Bool
is_unused id s = (s.id == id) && is_none s.one_time_token_used_at

abbrev pub set_used : ℕ → PortalSession → PortalSession
set_used now s = record s {
  one_time_token_used_at = some now;
  status = PortalSessionStatus.credential_issued;
}

-- `updateMany`: the number of rows that it has changed.
unfoldable pub claim_unused : ℕ → ℕ → Action ℕ
claim_unused now id db = (
  ok (count_where (is_unused id) db.portal_sessions),
  record db { portal_sessions = update_where (is_unused id) (set_used now) db.portal_sessions },
)

unfoldable pub redeem_claim : ℕ → ℕ → Action (Unit {0})
redeem_claim now id = do
  count ← claim_unused now id
  throw_if (count == 0) (unauthorized token_already_used)

unfoldable pub redeem_release : CryptoEnv → ℕ → RequestMeta → PortalSession → Action Plaintext
redeem_release env now meta s = do
  plaintext ← decrypt_for_portal_session env s.organization_id s.credential_id
  mark_used now s.credential_id
  record_access s.credential_id s.organization_id s.initiated_by_id "USED" (some s.id)
  log now meta (
      entry (some s.organization_id) (some s.initiated_by_id) AuditAction.credential_used
        "credential" (some s.credential_id) true)
  pure plaintext

unfoldable pub redeem_credential : CryptoEnv → ℕ → ℕ → String → RequestMeta → Action Plaintext
redeem_credential env now id raw meta = do
  session ← redeem_check env now id raw
  redeem_claim now id
  redeem_release env now meta session

-- `PORTAL_SESSION_EVENT_TYPES` that have a status of their own.
unfoldable pub status_by_event : String → Option PortalSessionStatus
status_by_event event_type =
    if str_eq event_type "awaiting_user_challenge"
    then some PortalSessionStatus.awaiting_user_challenge
    else if str_eq event_type "completed"
    then some PortalSessionStatus.completed
    else if str_eq event_type "failed"
    then some PortalSessionStatus.failed
    else none

abbrev pub move_status : ℕ → Option PortalSessionStatus → Action (Unit {0})
move_status id none = pure tt
move_status id (some status) = update_status id status

unfoldable pub report_event : ℕ → ℕ → ℕ → String → ℕ → RequestMeta → Action (Unit {0})
report_event now organization id event_type actor meta = do
  found ← gets (λ db. find_first (is_session_of organization id) db.portal_sessions)
  or_throw found (not_found portal_session_not_found)
  insert_event id event_type
  move_status id (status_by_event event_type)
  if str_eq event_type "completed"
      then log now meta (
          entry (some organization) (some actor) AuditAction.portal_session_completed
            "portal_session" (some id) true)
      else (if str_eq event_type "failed"
          then log now meta (
              entry (some organization) (some actor) AuditAction.portal_session_failed
                "portal_session" (some id) false)
          else pure tt)
