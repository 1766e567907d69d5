-- ===== src/Tokens.antt =====
-- apps/api/src/auth/token.service.ts: sessions, and refresh tokens that are rotated at each use.
-- Each await is a definition of its own, and another request may come between any two of them
-- (Schedule); `rotate_check`, `rotate_claim`, `rotate_issue` and `kill_family` put several together,
-- as they run where no other request comes between. SHA-256, the random tokens and the signature of
-- access tokens are what the caller brings along.
pub mod Rows
pub mod Schedule
pub mod Rotation
pub mod Revocation
pub mod Reuse
use tax_professional_managem.Common.{
  ℕ, ◌+◌, ◌*◌, Bool, true, false, ◌&&◌, List, [], ◌∷◌, ◌++◌, map, Option, none, some, ltb, ◌==◌,
  if◌then◌else◌, not, keep, includes, is_some, is_none, String, str_eq,
}
use tax_professional_managem.Common.Table.{find_first, update_where, count_where}
use tax_professional_managem.Dates.Civil.{day_ms}
use tax_professional_managem.Db.{Db, Session, RefreshToken}
use tax_professional_managem.Db.Action.{
  Action, AppError, ok, err, unauthorized, internal, invalid_refresh_token, refresh_token_expired,
  session_revoked, refresh_token_reuse_detected, pure, throw, gets, or_throw, throw_if, transaction,
  ◌>>=◌, ◌>>◌,
}

-- The claims of an access token.
pub record Claims : Type 0 where
  pub sub : ℕ
  pub org_id : Option ℕ
  pub session_id : ℕ

-- `hash` is SHA-256 in hexadecimal digits, `sign` is `jwt.sign` with the private key, and
-- `refresh_token_ttl_days` is the configured number, 0 where none is set.
pub record TokenEnv : Type 0 where
  pub hash : String → String
  pub sign : Claims → String
  pub refresh_token_ttl_days : ℕ

pub record IssuedTokens : Type 0 where
  pub access_token : String
  pub refresh_token : String
  pub expires_in : ℕ
  pub session_id : ℕ

-- `15 * 60`
abbrev pub access_token_ttl_seconds : ℕ
access_token_ttl_seconds = 900

abbrev pub refresh_ttl_days : TokenEnv → ℕ
refresh_ttl_days env = if env.refresh_token_ttl_days == 0 then 30 else env.refresh_token_ttl_days

unfoldable pub sign_access_token : TokenEnv → ℕ → Option ℕ → ℕ → String
sign_access_token env user organization session =
    env.sign (record { sub = user; org_id = organization; session_id = session })

abbrev pub is_session : ℕ → Session → Bool
is_session id s = s.id == id

-- Rows that are inserted take the next identifier.
unfoldable pub insert_session : ℕ → Option ℕ → ℕ → ℕ → Action Session
insert_session user organization now expires_at db =
    let row : Session = record {
      id = db.next_id;
      user_id = user;
      organization_id = organization;
      last_seen_at = now;
      expires_at = expires_at;
      revoked_at = none;
    } in
    (ok row, record db { next_id = db.next_id + 1; sessions = db.sessions ++ (row ∷ []) })

unfoldable pub insert_token : ℕ → String → ℕ → ℕ → Action RefreshToken
insert_token session token_hash family expires_at db =
    let row : RefreshToken = record {
      id = db.next_id;
      session_id = session;
      token_hash = token_hash;
      family_id = family;
      expires_at = expires_at;
      revoked_at = none;
      replaced_by_id = none;
    } in
    (
      ok row,
      record db { next_id = db.next_id + 1; refresh_tokens = db.refresh_tokens ++ (row ∷ []) },
    )

-- `update` and `updateMany` of the two tables.
unfoldable pub update_sessions : (Session → Bool) → (Session → Session) → Action (Unit {0})
update_sessions p f db = (ok tt, record db { sessions = update_where p f db.sessions })

unfoldable pub update_tokens :
    (RefreshToken → Bool) → (RefreshToken → RefreshToken) → Action (Unit {0})
update_tokens p f db = (ok tt, record db { refresh_tokens = update_where p f db.refresh_tokens })

abbrev pub revoke_token : ℕ → RefreshToken → RefreshToken
revoke_token now t = record t { revoked_at = some now }

abbrev pub revoke_session_row : ℕ → Session → Session
revoke_session_row now s = record s { revoked_at = some now }

-- Sets `revokedAt` on the live tokens that pass the test.
unfoldable pub revoke_tokens : ℕ → (RefreshToken → Bool) → Action (Unit {0})
unfolding update_tokens
revoke_tokens now p = update_tokens (λ t. p t && is_none t.revoked_at) (revoke_token now)

-- `session.update` of one row, which fails where there is none.
unfoldable pub update_session : ℕ → (Session → Session) → Action Session
unfolding update_sessions ◌>>=◌
update_session id f = do
  found ← gets (λ db. find_first (is_session id) db.sessions)
  session ← or_throw found internal
  update_sessions (is_session id) f
  pure (f session)

unfoldable pub create_session : TokenEnv → ℕ → ℕ → Option ℕ → String → ℕ → Action IssuedTokens
create_session env now user organization raw family = do
  session ← insert_session user organization now (now + refresh_ttl_days env * day_ms)
  insert_token session.id (env.hash raw) family (now + refresh_ttl_days env * day_ms)
  pure (record {
    access_token = sign_access_token env user organization session.id;
    refresh_token = raw;
    expires_in = access_token_ttl_seconds;
    session_id = session.id;
  })

-- The two statements of `killFamily`.
abbrev pub kill_tokens : ℕ → ℕ → Action (Unit {0})
kill_tokens now family = revoke_tokens now (λ t. t.family_id == family)

abbrev pub kill_session : ℕ → ℕ → Action (Unit {0})
kill_session now session = update_session session (revoke_session_row now) >> pure tt

unfoldable pub kill_family : ℕ → ℕ → ℕ → Action (Unit {0})
kill_family now family session = do kill_tokens now family; kill_session now session

-- The reading part of a rotation: the token that was presented, and its session.
unfoldable pub rotate_check : TokenEnv → ℕ → String → Action (RefreshToken × Session)
rotate_check env now raw = do
  found ← gets (λ db. find_first (λ t. str_eq t.token_hash (env.hash raw)) db.refresh_tokens)
  existing ← or_throw found (unauthorized invalid_refresh_token)
  owner ← gets (λ db. find_first (is_session existing.session_id) db.sessions)
  session ← or_throw owner internal
  if ltb existing.expires_at now
      then kill_family now existing.family_id existing.session_id
        >> throw (unauthorized refresh_token_expired)
      else pure tt
  throw_if (is_some session.revoked_at) (unauthorized session_revoked)
  pure (existing, session)

abbrev pub is_claimable : ℕ → RefreshToken → Bool
is_claimable id t = (t.id == id) && is_none t.revoked_at

-- The conditional `updateMany`: how many rows it changed.
unfoldable pub claim_token : ℕ → ℕ → Action ℕ
claim_token now id = do
  count ← gets (λ db. count_where (is_claimable id) db.refresh_tokens)
  revoke_tokens now (λ t. t.id == id)
  pure count

-- The claim, and what follows if it changed no row.
unfoldable pub rotate_claim : ℕ → RefreshToken → Action (Unit {0})
rotate_claim now existing = do
  count ← claim_token now existing.id
  if count == 0
      then kill_family now existing.family_id existing.session_id
        >> throw (unauthorized refresh_token_reuse_detected)
      else pure tt

abbrev pub set_replaced_by : ℕ → RefreshToken → RefreshToken
set_replaced_by id t = record t { replaced_by_id = some id }

abbrev pub see_session : ℕ → Session → Session
see_session now s = record s { last_seen_at = now }

abbrev pub move_session : ℕ → Session → Session
move_session organization s = record s { organization_id = some organization }

-- The successor's row.
unfoldable pub issue_token : TokenEnv → String → RefreshToken → Action RefreshToken
issue_token env new_raw existing =
    insert_token existing.session_id (env.hash new_raw) existing.family_id existing.expires_at

-- The transaction at the end of a rotation.
unfoldable pub link_token : ℕ → ℕ → RefreshToken → Action (Unit {0})
link_token now id existing = transaction (do
  update_tokens (λ t. t.id == existing.id) (set_replaced_by id)
  update_session existing.session_id (see_session now) >> pure tt)

unfoldable pub rotate_issue : TokenEnv → ℕ → String → RefreshToken × Session → Action IssuedTokens
rotate_issue env now new_raw (existing, session) = do
  new_token ← issue_token env new_raw existing
  link_token now new_token.id existing
  pure (record {
    access_token =
        sign_access_token env session.user_id session.organization_id existing.session_id;
    refresh_token = new_raw;
    expires_in = access_token_ttl_seconds;
    session_id = existing.session_id;
  })

unfoldable pub rotate_refresh_token : TokenEnv → ℕ → String → String → Action IssuedTokens
rotate_refresh_token env now raw new_raw = do
  (existing, session) ← rotate_check env now raw
  rotate_claim now existing
  rotate_issue env now new_raw (existing, session)

unfoldable pub revoke_session : ℕ → ℕ → Action (Unit {0})
revoke_session now id =
    transaction
      (do update_session id (revoke_session_row now); revoke_tokens now (λ t. t.session_id == id))

abbrev pub is_live_of : ℕ → Session → Bool
is_live_of user s = (s.user_id == user) && is_none s.revoked_at

-- The transaction of `revokeAllSessionsForUser`, with the sessions that were read before.
abbrev pub revoke_listed : ℕ → ℕ → List ℕ → Action (Unit {0})
revoke_listed now user ids = transaction (do
  update_sessions (is_live_of user) (revoke_session_row now)
  revoke_tokens now (λ t. includes ids t.session_id))

unfoldable pub revoke_all_sessions_for_user : ℕ → ℕ → Action (Unit {0})
revoke_all_sessions_for_user now user = do
  ids ← gets (λ db. map (λ (s : Session). s.id) (keep (is_live_of user) db.sessions))
  revoke_listed now user ids

-- A session that is there, is not revoked and has not run out.
abbrev pub is_usable : ℕ → Option Session → Bool
is_usable now none = false
is_usable now (some s) = is_none s.revoked_at && not (ltb s.expires_at now)

unfoldable pub reissue_access_token_for_organization : TokenEnv → ℕ → ℕ → ℕ → Action (String × ℕ)
reissue_access_token_for_organization env now id organization = do
  current ← gets (λ db. find_first (is_session id) db.sessions)
  throw_if (not (is_usable now current)) (unauthorized session_revoked)
  session ← update_session id (move_session organization)
  pure (sign_access_token env session.user_id (some organization) id, access_token_ttl_seconds)
