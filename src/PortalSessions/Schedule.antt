-- ===== src/PortalSessions/Schedule.antt =====
-- Requests that interleave at the portal sessions, and what each of them leaves as it is: a token
-- that has been used stays used.
use tax_professional_managem.Common.{
  ℕ, ◌≤◌, ◌<◌, ◌≡◌, Bool, false, List, [], ◌∷◌, Option, none, some, arith, any, any-append, String,
}
use tax_professional_managem.Common.Table.{update_where, any-update}
use tax_professional_managem.Db.{Db, PortalSession, PortalSessionStatus, Credential}
use tax_professional_managem.Db.Action.{modify, RequestMeta, AuditEntry, log}
use tax_professional_managem.Db.Action.Effects.{IsEffect, Effect, effect_rules}
use tax_professional_managem.Compliance.{require_client}
use tax_professional_managem.Credentials.{
  CryptoEnv, update_credential, record_access, require_full_record, decrypt_for_portal_session,
  mark_used, remove,
}
use tax_professional_managem.PortalSessions.{
  is_unused, set_status, set_used, insert_session, insert_event, create, update_status,
  redeem_check, claim_unused, redeem_claim, redeem_release, report_event, move_status,
}

-- No row of session `id` can be claimed.
abbrev pub IsSpent : ℕ → List PortalSession → Type 0
IsSpent id sessions = any (is_unused id) sessions ≡ false

-- Only identifiers that have been given out are spoken of: a new row takes a new one.
pub record Spends (db db' : Db) : Type 0 where
  pub spent :
      (id : ℕ) → id < db.next_id → IsSpent id db.portal_sessions → IsSpent id db'.portal_sessions
  pub ids : db.next_id ≤ db'.next_id

pub Spends-IsEffect : IsEffect Spends
Spends-IsEffect = record {
  unchanged = λ db. record { spent = λ id lt h. h; ids = omega arith };
  after = λ a b c ab bc. record {
    spent = λ id lt h. bc.spent id (omega (arith, ab.ids)) (ab.spent id lt h);
    ids = omega (arith, ab.ids, bc.ids);
  };
}

-- What does not touch the sessions.
log-Spends : (now : ℕ) (meta : RequestMeta) (e : AuditEntry) → Effect Spends (log now meta e)
unfolding log
log-Spends now meta e = record { at = λ db. record { spent = λ id lt h. h; ids = omega arith } }

record_access-Spends :
    (id organization user : ℕ) (action : String) (portal_session : Option ℕ)
    → Effect Spends (record_access id organization user action portal_session)
unfolding record_access modify
record_access-Spends id organization user action portal_session = record {
  at = λ db. record { spent = λ id lt h. h; ids = omega arith };
}

insert_event-Spends : (id : ℕ) (event_type : String) → Effect Spends (insert_event id event_type)
unfolding insert_event modify
insert_event-Spends id event_type = record {
  at = λ db. record { spent = λ id lt h. h; ids = omega arith };
}

modify_credentials-Spends :
    (p : Credential → Bool) (f : Credential → Credential)
    → Effect Spends (modify (λ db. record db { credentials = update_where p f db.credentials }))
unfolding modify
modify_credentials-Spends p f = record {
  at = λ db. record { spent = λ id lt h. h; ids = omega arith };
}

-- What does.
insert_session-Spends :
    (organization client credential actor : ℕ) (token_hash : String) (expires_at : ℕ)
    → Effect Spends (insert_session organization client credential actor token_hash expires_at)
unfolding insert_session
insert_session-Spends organization client credential actor token_hash expires_at = record {
  at = λ db. record { spent = λ id lt h. rw (any-append, h) (ground arith); ids = omega arith };
}

modify_status-Spends :
    (p : PortalSession → Bool) (status : PortalSessionStatus)
    → Effect Spends (
        modify (λ db. record db {
          portal_sessions = update_where p (set_status status) db.portal_sessions;
        }))
unfolding modify
modify_status-Spends p status = record {
  at = λ db. record {
    spent =
        λ id lt h. any-update (is_unused id) p (set_status status) db.portal_sessions (λ s e. e) h;
    ids = omega arith;
  };
}

claim_unused-Spends : (now id : ℕ) → Effect Spends (claim_unused now id)
unfolding claim_unused
claim_unused-Spends now id = record {
  at = λ db. record {
    spent = λ k lt h.
        any-update (is_unused k) (is_unused id) (set_used now) db.portal_sessions
          (λ s e. ground arith) h;
    ids = omega arith;
  };
}

ruleset row_rules = (
  effect_rules, Spends-IsEffect, log-Spends, record_access-Spends, insert_event-Spends,
  modify_credentials-Spends, insert_session-Spends, modify_status-Spends, claim_unused-Spends,
)

update_status-Spends :
    (id : ℕ) (status : PortalSessionStatus) → Effect Spends (update_status id status)
unfolding update_status
update_status-Spends id status = search row_rules depth 12

update_credential-Spends :
    (id : ℕ) (f : Credential → Credential) → Effect Spends (update_credential id f)
unfolding update_credential
update_credential-Spends id f = search row_rules depth 12

move_status-Spends : (id : ℕ) (o : Option PortalSessionStatus) → Effect Spends (move_status id o)
move_status-Spends id none = search row_rules
move_status-Spends id (some status) = update_status-Spends id status

ruleset portal_rules =
    (row_rules, update_status-Spends, update_credential-Spends, move_status-Spends)

create-Spends :
    (env : CryptoEnv) (now : ℕ) (raw : String) (organization client account actor : ℕ)
    (meta : RequestMeta)
    → Effect Spends (create env now raw organization client account actor meta)
unfolding create require_client
create-Spends env now raw organization client account actor meta = search portal_rules depth 30

redeem_check-Spends :
    (env : CryptoEnv) (now id : ℕ) (raw : String) → Effect Spends (redeem_check env now id raw)
unfolding redeem_check
redeem_check-Spends env now id raw = search portal_rules depth 16

pub redeem_claim-Spends : (now id : ℕ) → Effect Spends (redeem_claim now id)
unfolding redeem_claim
redeem_claim-Spends now id = search portal_rules depth 16

pub redeem_release-Spends :
    (env : CryptoEnv) (now : ℕ) (meta : RequestMeta) (s : PortalSession)
    → Effect Spends (redeem_release env now meta s)
unfolding redeem_release decrypt_for_portal_session require_full_record mark_used
redeem_release-Spends env now meta s = search portal_rules depth 20

report_event-Spends :
    (now organization id : ℕ) (event_type : String) (actor : ℕ) (meta : RequestMeta)
    → Effect Spends (report_event now organization id event_type actor meta)
unfolding report_event
report_event-Spends now organization id event_type actor meta = search portal_rules depth 20

remove-Spends :
    (now organization id actor : ℕ) (meta : RequestMeta)
    → Effect Spends (remove now organization id actor meta)
unfolding remove require_full_record
remove-Spends now organization id actor meta = search portal_rules depth 20

-- A request, or a stretch of one.
pub data Call : Type 0 where
  opens : String → ℕ → ℕ → ℕ → ℕ → Call
  checks : ℕ → String → Call
  claims : ℕ → Call
  releases : PortalSession → Call
  reports : ℕ → ℕ → String → ℕ → Call
  removes : ℕ → ℕ → ℕ → Call

unfoldable pub step : CryptoEnv → RequestMeta → ℕ × Call → Db → Db
step env meta (now, opens raw organization client account actor) db =
    (create env now raw organization client account actor meta db).1
step env meta (now, checks id raw) db = (redeem_check env now id raw db).1
step env meta (now, claims id) db = (redeem_claim now id db).1
step env meta (now, releases s) db = (redeem_release env now meta s db).1
step env meta (now, reports organization id event_type actor) db =
    (report_event now organization id event_type actor meta db).1
step env meta (now, removes organization id actor) db = (remove now organization id actor meta db).1

unfoldable pub run : CryptoEnv → RequestMeta → List (ℕ × Call) → Db → Db
run env meta [] db = db
run env meta (c ∷ cs) db = run env meta cs (step env meta c db)

step-Spends :
    (env : CryptoEnv) (meta : RequestMeta) (c : ℕ × Call) (db : Db) → Spends db (step env meta c db)
unfolding step
step-Spends env meta (now, opens raw organization client account actor) db =
    (create-Spends env now raw organization client account actor meta).at db
step-Spends env meta (now, checks id raw) db = (redeem_check-Spends env now id raw).at db
step-Spends env meta (now, claims id) db = (redeem_claim-Spends now id).at db
step-Spends env meta (now, releases s) db = (redeem_release-Spends env now meta s).at db
step-Spends env meta (now, reports organization id event_type actor) db =
    (report_event-Spends now organization id event_type actor meta).at db
step-Spends env meta (now, removes organization id actor) db =
    (remove-Spends now organization id actor meta).at db

pub run-Spends :
    (env : CryptoEnv) (meta : RequestMeta) (cs : List (ℕ × Call)) (db : Db)
    → Spends db (run env meta cs db)
unfolding run
run-Spends env meta [] db = Spends-IsEffect.unchanged db
run-Spends env meta (c ∷ cs) db =
    Spends-IsEffect.after db (step env meta c db) (run env meta cs (step env meta c db))
      (step-Spends env meta c db) (run-Spends env meta cs (step env meta c db))
