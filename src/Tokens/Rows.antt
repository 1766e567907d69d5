-- ===== src/Tokens/Rows.antt =====
-- What every stretch of the token service leaves as it is: a revoked session stays revoked, and a
-- refresh token that has been used or revoked is never usable again.
use tax_professional_managem.Common.{
  ℕ, ◌≤◌, ◌<◌, ◌≡◌, refl, ap, Bool, true, false, List, [], ◌∷◌, ◌++◌, Option, none, some, arith,
  any, any-append, is_some, ◌==◌, inl, inr, Option-cases, String,
}
use mathlib.Core.Option.{map as map_option}
use tax_professional_managem.Common.Table.{
  find_first, update_where, updated, find_first-append, find_first-update, any-update,
}
use tax_professional_managem.Db.{Db, Session, RefreshToken}
use tax_professional_managem.Db.Action.Effects.{IsEffect, Effect, effect_rules}
use tax_professional_managem.Tokens.{
  TokenEnv, is_session, insert_session, insert_token, update_sessions, update_tokens, revoke_token,
  revoke_tokens, revoke_session_row, update_session, set_replaced_by, see_session, move_session,
  is_claimable, kill_tokens, kill_session, kill_family, claim_token, issue_token, link_token,
  revoke_listed, rotate_claim, rotate_issue, revoke_session,
}

abbrev pub revoked_row : Option Session → Bool
revoked_row none = false
revoked_row (some s) = is_some s.revoked_at

-- Session `id` is there, and it is revoked.
abbrev pub is_revoked : ℕ → List Session → Bool
is_revoked id sessions = revoked_row (find_first (is_session id) sessions)

-- No row of token `id` can be claimed.
abbrev pub IsSpent : ℕ → List RefreshToken → Type 0
IsSpent id tokens = any (is_claimable id) tokens ≡ false

-- Session `id` is there.
abbrev pub is_there : ℕ → List Session → Bool
is_there id sessions = any (is_session id) sessions

-- Only identifiers that have been given out are spoken of: a new row takes a new one.
pub record Advances (db db' : Db) : Type 0 where
  pub revoked : (id : ℕ) → is_revoked id db.sessions ≡ true → is_revoked id db'.sessions ≡ true
  pub spent :
      (id : ℕ) → id < db.next_id → IsSpent id db.refresh_tokens → IsSpent id db'.refresh_tokens
  pub ids : db.next_id ≤ db'.next_id
  pub kept : (id : ℕ) → is_there id db.sessions ≡ true → is_there id db'.sessions ≡ true

pub Advances-IsEffect : IsEffect Advances
Advances-IsEffect = record {
  unchanged = λ db. record {
    revoked = λ id h. h;
    spent = λ id lt h. h;
    ids = omega arith;
    kept = λ id h. h;
  };
  after = λ a b c ab bc. record {
    revoked = λ id h. bc.revoked id (ab.revoked id h);
    spent = λ id lt h. bc.spent id (omega (arith, ab.ids)) (ab.spent id lt h);
    ids = omega (arith, ab.ids, bc.ids);
    kept = λ id h. bc.kept id (ab.kept id h);
  };
}

is_revoked-append :
    (id : ℕ) (xs ys : List Session) → is_revoked id xs ≡ true → is_revoked id (xs ++ ys) ≡ true
is_revoked-append id xs ys h = elim (Option-cases (find_first (is_session id) xs)) [
  | inl missing ↦ cc (ap revoked_row missing)
  | inr (s, found) ↦ rw (find_first-append (is_session id) xs ys s found) (rw found at h)
]

revoked_row-map :
    (q : Session → Bool) (f : Session → Session) (o : Option Session)
    → ((s : Session) → is_some s.revoked_at ≡ true → is_some (f s).revoked_at ≡ true)
    → revoked_row o ≡ true
    → revoked_row (map_option (updated q f) o) ≡ true
revoked_row-map q f none keeps h = h
revoked_row-map q f (some s) keeps h = ground (arith, keeps s)

pub is_revoked-update :
    (id : ℕ) (q : Session → Bool) (f : Session → Session) (xs : List Session)
    → ((s : Session) → (f s).id ≡ s.id)
    → ((s : Session) → is_some s.revoked_at ≡ true → is_some (f s).revoked_at ≡ true)
    → is_revoked id xs ≡ true
    → is_revoked id (update_where q f xs) ≡ true
is_revoked-update id q f xs same keeps h =
    rw (find_first-update (is_session id) q f xs (λ s. ap (λ (k : ℕ). k == id) (same s)))
      (revoked_row-map q f (find_first (is_session id) xs) keeps h)

pub insert_session-Advances :
    (user : ℕ) (organization : Option ℕ) (now expires_at : ℕ)
    → Effect Advances (insert_session user organization now expires_at)
unfolding insert_session
insert_session-Advances user organization now expires_at = record {
  at = λ db. record {
    revoked = λ id h. is_revoked-append id db.sessions _ h;
    spent = λ id lt h. h;
    ids = omega arith;
    kept = λ id h. rw (any-append, h) refl;
  };
}

pub insert_token-Advances :
    (session : ℕ) (token_hash : String) (family expires_at : ℕ)
    → Effect Advances (insert_token session token_hash family expires_at)
unfolding insert_token
insert_token-Advances session token_hash family expires_at = record {
  at = λ db. record {
    revoked = λ id h. h;
    spent = λ id lt h. rw (any-append, h) (ground arith);
    ids = omega arith;
    kept = λ id h. h;
  };
}

is_there-update :
    (id : ℕ) (q : Session → Bool) (f : Session → Session) (xs : List Session)
    → ((s : Session) → (f s).id ≡ s.id)
    → is_there id xs ≡ true
    → is_there id (update_where q f xs) ≡ true
is_there-update id q f [] same h = h
is_there-update id q f (x ∷ xs) same h = ground (arith, same x, is_there-update id q f xs same)

pub update_sessions-Advances :
    (p : Session → Bool) (f : Session → Session)
    → ((s : Session) → (f s).id ≡ s.id)
    → ((s : Session) → is_some s.revoked_at ≡ true → is_some (f s).revoked_at ≡ true)
    → Effect Advances (update_sessions p f)
unfolding update_sessions
update_sessions-Advances p f same keeps = record {
  at = λ db. record {
    revoked = λ id h. is_revoked-update id p f db.sessions same keeps h;
    spent = λ id lt h. h;
    ids = omega arith;
    kept = λ id h. is_there-update id p f db.sessions same h;
  };
}

pub update_tokens-Advances :
    (p : RefreshToken → Bool) (f : RefreshToken → RefreshToken)
    → ((t : RefreshToken) (id : ℕ) → is_claimable id (f t) ≡ true → is_claimable id t ≡ true)
    → Effect Advances (update_tokens p f)
unfolding update_tokens
update_tokens-Advances p f keeps = record {
  at = λ db. record {
    revoked = λ id h. h;
    spent = λ id lt h. any-update (is_claimable id) p f db.refresh_tokens (λ t e. keeps t id e) h;
    ids = omega arith;
    kept = λ id h. h;
  };
}

pub revoke_tokens-Advances :
    (now : ℕ) (p : RefreshToken → Bool) → Effect Advances (revoke_tokens now p)
unfolding revoke_tokens
revoke_tokens-Advances now p = update_tokens-Advances _ (revoke_token now) (λ t id e. ground arith)

replace-Advances :
    (p : RefreshToken → Bool) (id : ℕ) → Effect Advances (update_tokens p (set_replaced_by id))
replace-Advances p id = update_tokens-Advances p (set_replaced_by id) (λ t k e. e)

revoke_sessions-Advances :
    (p : Session → Bool) (now : ℕ) → Effect Advances (update_sessions p (revoke_session_row now))
revoke_sessions-Advances p now =
    update_sessions-Advances p (revoke_session_row now) (λ s. refl) (λ s h. refl)

ruleset row_rules = (
  effect_rules, Advances-IsEffect, insert_session-Advances, insert_token-Advances,
  revoke_tokens-Advances, replace-Advances, revoke_sessions-Advances,
)

update_session-Advances :
    (id : ℕ) (f : Session → Session)
    → Effect Advances (update_sessions (is_session id) f)
    → Effect Advances (update_session id f)
unfolding update_session
update_session-Advances id f h = search row_rules

revoke_one-Advances : (id now : ℕ) → Effect Advances (update_session id (revoke_session_row now))
revoke_one-Advances id now = update_session-Advances id (revoke_session_row now) (search row_rules)

see-Advances : (id now : ℕ) → Effect Advances (update_session id (see_session now))
see-Advances id now =
    update_session-Advances id (see_session now)
      (update_sessions-Advances _ (see_session now) (λ s. refl) (λ s h. h))

move-Advances :
    (id organization : ℕ) → Effect Advances (update_session id (move_session organization))
move-Advances id organization =
    update_session-Advances id (move_session organization)
      (update_sessions-Advances _ (move_session organization) (λ s. refl) (λ s h. h))

ruleset token_rules = (row_rules, revoke_one-Advances, see-Advances, move-Advances)

kill_family-Advances : (now family session : ℕ) → Effect Advances (kill_family now family session)
unfolding kill_family
kill_family-Advances now family session = search token_rules

-- The stretches between two awaits.
pub kill_tokens-Advances : (now family : ℕ) → Effect Advances (kill_tokens now family)
kill_tokens-Advances now family = search token_rules

pub kill_session-Advances : (now id : ℕ) → Effect Advances (kill_session now id)
kill_session-Advances now id = search token_rules

pub claim_token-Advances : (now id : ℕ) → Effect Advances (claim_token now id)
unfolding claim_token
claim_token-Advances now id = search token_rules depth 12

pub issue_token-Advances :
    (env : TokenEnv) (new_raw : String) (t : RefreshToken)
    → Effect Advances (issue_token env new_raw t)
unfolding issue_token
issue_token-Advances env new_raw t = search token_rules

pub link_token-Advances : (now id : ℕ) (t : RefreshToken) → Effect Advances (link_token now id t)
unfolding link_token
link_token-Advances now id t = search token_rules depth 12

pub revoke_listed-Advances :
    (now user : ℕ) (ids : List ℕ) → Effect Advances (revoke_listed now user ids)
revoke_listed-Advances now user ids = search token_rules depth 12

pub revoke_session-Advances : (now id : ℕ) → Effect Advances (revoke_session now id)
unfolding revoke_session
revoke_session-Advances now id = search token_rules depth 12

pub move_session-Advances :
    (id organization : ℕ) → Effect Advances (update_session id (move_session organization))
move_session-Advances id organization = search token_rules

-- The claim and the issue of a rotation as they run in one go.
pub rotate_claim-Advances : (now : ℕ) (t : RefreshToken) → Effect Advances (rotate_claim now t)
unfolding rotate_claim
rotate_claim-Advances now t =
    search (token_rules, kill_family-Advances, claim_token-Advances) depth 12

pub rotate_issue-Advances :
    (env : TokenEnv) (now : ℕ) (new_raw : String) (t : RefreshToken) (s : Session)
    → Effect Advances (rotate_issue env now new_raw (t, s))
unfolding rotate_issue
rotate_issue-Advances env now new_raw t s =
    search (token_rules, issue_token-Advances, link_token-Advances) depth 12
