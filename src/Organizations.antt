-- ===== src/Organizations.antt =====
-- apps/api/src/organizations/organizations.service.ts: the members of an organization and their
-- roles.
pub mod Laws
use tax_professional_managem.Common.{
  ℕ, ◌+◌, Bool, true, false, not, ◌&&◌, ◌||◌, List, [], ◌∷◌, ◌++◌, Option, none, some, ◌==◌,
  if◌then◌else◌, keep, is_some, is_none, opt_eq, String, str_eq,
}
use tax_professional_managem.Common.Table.{find_first, update_where}
use tax_professional_managem.Types.{AuditAction}
use tax_professional_managem.Db.{Db, User, Organization, Role, Member, MemberStatus}
use tax_professional_managem.Db.Action.{
  Action, ok, not_found, conflict, organization_not_found, user_not_found, already_a_member,
  role_not_found, member_not_found, internal, pure, gets, or_throw, throw_if, modify, ◌>>=◌, ◌>>◌,
  RequestMeta, log, entry,
}
use tax_professional_managem.Auth.{insert_member}

unfoldable pub get_current : ℕ → Action Organization
get_current organization = do
  found ← gets (λ db. find_first (λ (o : Organization). o.id == organization) db.organizations)
  or_throw found (not_found organization_not_found)

-- The members in the order of their creation.
unfoldable pub list_members : ℕ → Action (List Member)
list_members organization =
    gets (λ db. keep (λ (m : Member). m.organization_id == organization) db.members)

-- A role of the organization, or a global role of the system.
abbrev pub is_in_scope : ℕ → ℕ → Role → Bool
is_in_scope organization id r =
    (r.id == id)
    && (opt_eq r.organization_id organization || (is_none r.organization_id && r.is_system))

-- `PLATFORM_ONLY_ROLES`
abbrev pub is_platform_only : Role → Bool
is_platform_only r = str_eq r.name "SUPER_ADMIN"

abbrev pub is_refused_role : Option Role → Bool
is_refused_role none = true
is_refused_role (some r) = is_platform_only r

unfoldable pub require_assignable_role : ℕ → ℕ → Action (Unit {0})
require_assignable_role organization id = do
  found ← gets (λ db. find_first (is_in_scope organization id) db.roles)
  throw_if (is_refused_role found) (not_found role_not_found)

abbrev pub is_own_member : ℕ → ℕ → Member → Bool
is_own_member organization id m = (m.id == id) && (m.organization_id == organization)

unfoldable pub require_member : ℕ → ℕ → Action Member
require_member organization id = do
  found ← gets (λ db. find_first (is_own_member organization id) db.members)
  or_throw found (not_found member_not_found)

abbrev pub is_membership_of : ℕ → ℕ → Member → Bool
is_membership_of organization user m = (m.organization_id == organization) && (m.user_id == user)

unfoldable pub invite_member : ℕ → ℕ → String → ℕ → ℕ → RequestMeta → Action Member
invite_member now organization email role invited_by meta = do
  require_assignable_role organization role
  found ← gets (λ db. find_first (λ (u : User). str_eq u.email email) db.users)
  user ← or_throw found (not_found user_not_found)
  existing ← gets (λ db. find_first (is_membership_of organization user.id) db.members)
  throw_if (is_some existing) (conflict already_a_member)
  member ← insert_member organization user.id role MemberStatus.invited (some invited_by) none
  log now meta (
      entry (some organization) (some invited_by) AuditAction.member_invited "organization_member"
        (some member.id) true)
  pure member

-- `update` of one row, which fails where there is none.
unfoldable pub update_member : ℕ → (Member → Member) → Action Member
update_member id f = do
  found ← gets (λ db. find_first (λ (m : Member). m.id == id) db.members)
  row ← or_throw found internal
  modify (λ db. record db { members = update_where (λ m. m.id == id) f db.members })
  pure (f row)

-- An invited member becomes active, and no other changes its status.
abbrev pub accepted : MemberStatus → MemberStatus
accepted MemberStatus.invited = MemberStatus.active
accepted MemberStatus.active = MemberStatus.active
accepted MemberStatus.disabled = MemberStatus.disabled

abbrev pub joined : ℕ → Option ℕ → Option ℕ
joined now none = some now
joined now (some t) = some t

-- The new values come from the row that was read.
abbrev pub set_role : ℕ → ℕ → Member → Member → Member
set_role now role seen m = record m {
  role_id = role;
  status = accepted seen.status;
  joined_at = joined now seen.joined_at;
}

unfoldable pub change_role : ℕ → ℕ → ℕ → ℕ → ℕ → RequestMeta → Action Member
change_role now organization id role actor meta = do
  member ← require_member organization id
  require_assignable_role organization role
  updated ← update_member member.id (set_role now role member)
  log now meta (
      entry (some organization) (some actor) AuditAction.member_role_changed "organization_member"
        (some member.id) true)
  pure updated

abbrev pub set_disabled : Member → Member
set_disabled m = record m { status = MemberStatus.disabled }

unfoldable pub remove_member : ℕ → ℕ → ℕ → ℕ → RequestMeta → Action Member
remove_member now organization id actor meta = do
  member ← require_member organization id
  updated ← update_member member.id set_disabled
  log now meta (
      entry (some organization) (some actor) AuditAction.member_removed "organization_member"
        (some member.id) true)
  pure updated
