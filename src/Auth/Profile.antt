-- ===== src/Auth/Profile.antt =====
-- `me` of apps/api/src/auth/auth.service.ts.
use tax_professional_managem.Common.{ℕ, Bool, ◌&&◌, List, [], ◌∷◌, ◌==◌, String, keep}
use tax_professional_managem.Common.Table.{find_first}
use tax_professional_managem.Db.{User, UserStatus, Organization, Role, Member}
use tax_professional_managem.Db.Action.{
  Action, not_found, internal, user_not_found, pure, gets, or_throw, ◌>>=◌,
}
use tax_professional_managem.Auth.{is_active_member}

pub record MembershipView : Type 0 where
  pub organization_id : ℕ
  pub organization_name : String
  pub role : String

-- The flag of a second factor is left out.
pub record ProfileView : Type 0 where
  pub id : ℕ
  pub email : String
  pub full_name : String
  pub status : UserStatus
  pub memberships : List MembershipView

abbrev is_current : ℕ → Member → Bool
is_current user m = (m.user_id == user) && is_active_member m.status

-- The foreign keys give every member an organization and a role.
unfoldable pub membership_views : List Member → Action (List MembershipView)
membership_views [] = pure []
membership_views (m ∷ ms) = do
  organization ←
      gets (λ db. find_first (λ (o : Organization). o.id == m.organization_id) db.organizations)
  joined_organization ← or_throw organization internal
  role ← gets (λ db. find_first (λ (r : Role). r.id == m.role_id) db.roles)
  joined_role ← or_throw role internal
  rest ← membership_views ms
  pure (
      record {
        organization_id = m.organization_id;
        organization_name = joined_organization.name;
        role = joined_role.name;
      }
      ∷ rest)

unfoldable pub me : ℕ → Action ProfileView
me user_id = do
  found ← gets (λ db. find_first (λ (u : User). u.id == user_id) db.users)
  user ← or_throw found (not_found user_not_found)
  members ← gets (λ db. keep (is_current user_id) db.members)
  memberships ← membership_views members
  pure (record {
    id = user.id;
    email = user.email;
    full_name = user.full_name;
    status = user.status;
    memberships = memberships;
  })
