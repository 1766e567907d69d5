-- ===== src/Access/Laws.antt =====
-- What the guards let through.
use mathlib.Core.Path.{subst}
use tax_professional_managem.Common.{
  ℕ, ◌≡◌, refl, sym, ap, ◌∙◌, Bool, true, false, not, Option, none, some, arith, ◌==◌, inl, inr,
  Bool-cases, Option-cases, String,
}
use tax_professional_managem.Common.Table.{find_first}
use tax_professional_managem.Types.Rbac.{Permission, has_permission_code}
use tax_professional_managem.Db.{Db, Member, Role}
use tax_professional_managem.Db.Action.{Result, ok, ◌>>=◌}
use tax_professional_managem.Db.Action.Effects.{
  IsEffect, Effect, effect_rules, bind_ok, pure_ok, or_throw_ok, throw_if_ok,
}
use tax_professional_managem.Tokens.{Claims}
use tax_professional_managem.Auth.{is_active_member}
use tax_professional_managem.Access.{
  AuthContext, Route, is_membership, get_permissions_for_member, has_permission, jwt_auth_guard,
  tenant_scope_guard, require_permission, check_required, permissions_guard, admit,
}

-- The guards only read.
record Reads (db db' : Db) : Type 0 where
  same : db' ≡ db

Reads-IsEffect : IsEffect Reads
Reads-IsEffect = record {
  unchanged = λ db. record { same = refl };
  after = λ a b c h k. record { same = k.same ∙ h.same };
}

ruleset read_rules = (effect_rules, Reads-IsEffect)

has_permission-Reads :
    (user organization : ℕ) (p : Permission) → Effect Reads (has_permission user organization p)
unfolding has_permission get_permissions_for_member
has_permission-Reads user organization p = search read_rules

require_permission-Reads :
    (p : Permission) (c : Option AuthContext) → Effect Reads (require_permission p c)
require_permission-Reads p none = search read_rules
require_permission-Reads p (some c) = search (read_rules, has_permission-Reads) depth 12

check_required-Reads :
    (p : Option Permission) (c : Option AuthContext) → Effect Reads (check_required p c)
check_required-Reads none c = search read_rules
check_required-Reads (some p) c = require_permission-Reads p c

tenant_scope_guard-Reads :
    (route : Route) (c : Option AuthContext) → Effect Reads (tenant_scope_guard route c)
unfolding tenant_scope_guard
tenant_scope_guard-Reads route c = search read_rules

admit-Reads :
    (verify : String → Option Claims) (route : Route) (bearer : Option String)
    → Effect Reads (admit verify route bearer)
unfolding admit jwt_auth_guard tenant_scope_guard permissions_guard
admit-Reads verify route bearer = search (read_rules, check_required-Reads) depth 16

-- An active membership of the organization whose role has the permission.
pub record IsPermitted (user organization : ℕ) (p : Permission) (db : Db) : Type 0 where
  pub member : Member
  pub role : Role
  pub found : find_first (is_membership user organization) db.members ≡ some member
  pub active : is_active_member member.status ≡ true
  pub of_role : find_first (λ (r : Role). r.id == member.role_id) db.roles ≡ some role
  pub granted : has_permission_code p role.permissions ≡ true

has_permission_lem :
    (user organization : ℕ) (p : Permission) (db db' : Db)
    → has_permission user organization p db ≡ (ok true, db')
    → IsPermitted user organization p db
unfolding has_permission get_permissions_for_member ◌>>=◌
has_permission_lem user organization p db db' e =
    elim (Option-cases (find_first (is_membership user organization) db.members)) [
      | inl missing ↦ ground arith
      | inr (m, found) ↦ elim (Bool-cases (is_active_member m.status)) [
        | inr off ↦ ground arith
        | inl active ↦ elim (Option-cases (find_first (λ (r : Role). r.id == m.role_id) db.roles)) [
          | inl no_role ↦ ground arith
          | inr (r, of_role) ↦ record {
            member = m;
            role = r;
            found = found;
            active = active;
            of_role = of_role;
            granted = ground arith;
          }
        ]
      ]
    ]

-- Who a request comes from.
pub record IsAuthenticated (verify : String → Option Claims) (bearer : Option String)
    (c : AuthContext) : Type 0 where
  pub token : String
  pub claims : Claims
  pub sent : bearer ≡ some token
  pub verified : verify token ≡ some claims
  pub user : c.user_id ≡ claims.sub
  pub organization : c.organization_id ≡ claims.org_id
  pub session : c.session_id ≡ claims.session_id

jwt_auth_guard_ok :
    (verify : String → Option Claims) (route : Route) (bearer : Option String) (db db' : Db)
    (o : Option AuthContext)
    → route.is_public ≡ false
    → jwt_auth_guard verify route bearer db ≡ (ok o, db')
    → (c : AuthContext) × (o ≡ some c) × IsAuthenticated verify bearer c × (db' ≡ db)
unfolding jwt_auth_guard ◌>>=◌
jwt_auth_guard_ok verify route bearer db db' o private e = elim (Option-cases bearer) [
  | inl missing ↦ ground arith
  | inr (token, sent) ↦ elim (Option-cases (verify token)) [
    | inl bad ↦ ground arith
    | inr (claims, verified) ↦ (
      record {
        user_id = claims.sub;
        organization_id = claims.org_id;
        session_id = claims.session_id;
      },
      ground arith,
      record {
        token = token;
        claims = claims;
        sent = sent;
        verified = verified;
        user = refl;
        organization = refl;
        session = refl;
      },
      ground arith,
    )
  ]
]

require_permission_ok :
    (p : Permission) (c : AuthContext) (db db' : Db)
    → require_permission p (some c) db ≡ (ok tt, db')
    → (organization : ℕ) × (c.organization_id ≡ some organization)
      × IsPermitted c.user_id organization p db
require_permission_ok p c db db' e =
    let (organization, db1, s1, e1) = bind_ok _ _ db db' e in
    let (allowed, db2, s2, e2) = bind_ok _ _ db1 db' e1 in
    let (named, same) = or_throw_ok c.organization_id _ s1 in
    let (refused, _) = throw_if_ok (not allowed) _ e2 in
    let is_allowed : allowed ≡ true = ground arith in
    (
      organization,
      named,
      subst (IsPermitted c.user_id organization p) same (
          has_permission_lem c.user_id organization p db1 db2
            (s2 ∙ ap (λ (b : Bool). (ok b, db2)) is_allowed)),
    )

-- A request that reaches a handler with a required permission carries a token that verifies. Its
-- user is an active member of the organization that the token names, and the member's role has the
-- permission at that moment; the guards write nothing.
pub admit-IsPermitted :
    (verify : String → Option Claims) (route : Route) (bearer : Option String) (p : Permission)
    (db db' : Db) (o : Option AuthContext)
    → route.is_public ≡ false
    → route.required ≡ some p
    → admit verify route bearer db ≡ (ok o, db')
    → (c : AuthContext) × (organization : ℕ) × (o ≡ some c)
      × IsAuthenticated verify bearer c
      × (c.organization_id ≡ some organization)
      × IsPermitted c.user_id organization p db
      × (db' ≡ db)
unfolding admit permissions_guard
admit-IsPermitted verify route bearer p db db' o private required e =
    let (o1, db1, s1, e1) = bind_ok _ _ db db' e in
    let (_, db2, s2, e2) = bind_ok _ _ db1 db' e1 in
    let (_, db3, s3, e3) = bind_ok _ _ db2 db' e2 in
    let (c, is_c, authenticated, same1) =
      jwt_auth_guard_ok verify route bearer db db1 o1 private s1 in
    let same2 : db2 ≡ db =
      sym (ap (λ (r : Result (Unit {0}) × Db). r.1) s2)
      ∙ ((tenant_scope_guard-Reads route o1).at db1).same
      ∙ same1 in
    let checked : require_permission p (some c) db2 ≡ (ok tt, db3) =
      subst (λ x. check_required (some p) x db2 ≡ (ok tt, db3)) is_c
        (subst (λ x. check_required x o1 db2 ≡ (ok tt, db3)) required s3) in
    let (organization, named, permitted) = require_permission_ok p c db2 db3 checked in
    let (same_o, _) = pure_ok e3 in
    (
      c,
      organization,
      sym same_o ∙ is_c,
      authenticated,
      named,
      subst (IsPermitted c.user_id organization p) same2 permitted,
      sym (ap (λ (r : Result (Option AuthContext) × Db). r.1) e)
          ∙ ((admit-Reads verify route bearer).at db).same,
    )
