-- ===== src/Organizations/Laws.antt =====
-- A role that a caller names is only ever given within the organization's scope.
use mathlib.Core.Logic.Or
use mathlib.Core.List.{Mem, mem-cons}
use tax_professional_managem.Common.{
  ℕ, ◌≡◌, refl, ap, Bool, ◌&&◌, ◌||◌, Option, none, some, true, false, arith, String, str_eq, inl,
  inr, Option-cases, Bool-cases, List, [], ◌∷◌, ◌++◌, any, ◌==◌, ==_self, opt_eq, is_none, ◌⊎◌,
}
use tax_professional_managem.Common.Table.{
  find_first, find_first_sound, update_where, any-append_last,
}
use mathlib.Core.Path.{subst, sym}
use tax_professional_managem.Types.{AuditAction}
use tax_professional_managem.Db.{Db, Member, MemberStatus, Role}
use tax_professional_managem.Db.Action.{ok, RequestMeta, ◌>>=◌, ◌>>◌, log, entry, pure}
use tax_professional_managem.Db.Action.Effects.{bind_ok}
use tax_professional_managem.Auth.{insert_member}
use tax_professional_managem.Organizations.{
  is_in_scope, require_assignable_role, require_member, invite_member, change_role, update_member,
  set_role,
}

-- A role that an organization may give: it has the identifier, it is the organization's own or a
-- global one of the system, and it is not the platform's.
pub record IsAssignable (organization role : ℕ) (db : Db) : Type 0 where
  pub row : Role
  pub stored : Mem row db.roles
  pub id : row.id ≡ role
  pub scoped :
      (row.organization_id ≡ some organization)
      ⊎ ((row.organization_id ≡ none) × (row.is_system ≡ true))
  pub not_platform : str_eq row.name "SUPER_ADMIN" ≡ false

find_first-Mem : (p : Role → Bool) (rs : List Role) (r : Role) → find_first p rs ≡ some r → Mem r rs
find_first-Mem p [] r e = cc
find_first-Mem p (x ∷ xs) r e = elim (Bool-cases (p x)) [
  | inl hit ↦ let same : r ≡ x = ground arith in mem-cons.1 (Or.inl same)
  | inr miss ↦ mem-cons.1 (Or.inr (find_first-Mem p xs r (ground arith)))
]

in_scope :
    (organization : ℕ) (owner : Option ℕ) (system : Bool)
    → (opt_eq owner organization || (is_none owner && system)) ≡ true
    → (owner ≡ some organization) ⊎ ((owner ≡ none) × (system ≡ true))
in_scope organization none system h = inr (refl, ground arith)
in_scope organization (some o) system h =
    inl (let same : o ≡ organization = ground arith in ap some same)

require_assignable_role-IsAssignable :
    (organization role : ℕ) (db db' : Db)
    → require_assignable_role organization role db ≡ (ok tt, db')
    → IsAssignable organization role db × (db' ≡ db)
unfolding require_assignable_role ◌>>=◌
require_assignable_role-IsAssignable organization role db db' e =
    elim (Option-cases (find_first (is_in_scope organization role) db.roles)) [
      | inl missing ↦ ground arith
      | inr (row, found) ↦
          let fits = find_first_sound (is_in_scope organization role) db.roles row found in
          (
            record {
              row = row;
              stored = find_first-Mem (is_in_scope organization role) db.roles row found;
              id = ground arith;
              scoped = in_scope organization row.organization_id row.is_system (ground arith);
              not_platform = ground arith;
            },
            ground arith,
          )
    ]

require_member_same :
    (organization id : ℕ) (db db' : Db) (m : Member)
    → require_member organization id db ≡ (ok m, db')
    → db' ≡ db
unfolding require_member ◌>>=◌
require_member_same organization id db db' m e = ground arith

-- A member's row with that role.
abbrev pub has_role : ℕ → ℕ → Member → Bool
has_role id role m = (m.id == id) && (m.role_id == role)

updated-has_role :
    (now id role : ℕ) (seen row : Member) (ms : List Member)
    → find_first (λ (m : Member). m.id == id) ms ≡ some row
    → any (has_role id role) (update_where (λ m. m.id == id) (set_role now role seen) ms) ≡ true
updated-has_role now id role seen row [] e = cc
updated-has_role now id role seen row (m ∷ ms) e = elim (Bool-cases (m.id == id)) [
  | inl hit ↦ ground (arith, hit, ==_self role)
  | inr miss ↦ ground (arith, updated-has_role now id role seen row ms)
]

invited-has_role :
    (now organization role actor : ℕ) (user : ℕ) (meta : RequestMeta) (db db' : Db) (m : Member)
    → (do
      row ← insert_member organization user role MemberStatus.invited (some actor) none
      log now meta (
          entry
            (some organization)
            (some actor)
            AuditAction.member_invited
            "organization_member"
            (some row.id)
            true)
      pure row)
        db
      ≡ (ok m, db')
    → (m.role_id ≡ role) × (any (has_role m.id role) db'.members ≡ true)
unfolding insert_member log ◌>>=◌
invited-has_role now organization role actor user meta db db' m e =
    let row : Member = record {
      id = db.next_id;
      organization_id = organization;
      user_id = user;
      role_id = role;
      status = MemberStatus.invited;
      invited_by = some actor;
      joined_at = none;
    } in
    let same : row ≡ m = ground arith in
    let table : db'.members ≡ db.members ++ (row ∷ []) = ground arith in
    (
      sym (ap (λ (x : Member). x.role_id) same),
      rw table (
          any-append_last (has_role m.id role) db.members row
            (rw (ap (λ (x : Member). x.id) same, ==_self m.id, ==_self role) refl)),
    )

invite_member-IsAssignable :
    (now organization role actor : ℕ) (email : String) (meta : RequestMeta) (db db' : Db)
    (m : Member)
    → invite_member now organization email role actor meta db ≡ (ok m, db')
    → IsAssignable organization role db
      × (m.role_id ≡ role)
      × (any (has_role m.id role) db'.members ≡ true)
unfolding invite_member
invite_member-IsAssignable now organization role actor email meta db db' m e =
    let (_, db1, checked, rest) = bind_ok _ _ db db' e in
    let (fits, same) = require_assignable_role-IsAssignable organization role db db1 checked in
    let (found, db2, _, rest2) = bind_ok _ _ db1 db' rest in
    let (user, db3, _, rest3) = bind_ok _ _ db2 db' rest2 in
    let (x, db4, _, rest4) = bind_ok _ _ db3 db' rest3 in
    let (_, db5, _, rest5) = bind_ok _ _ db4 db' rest4 in
    let (named, kept) = invited-has_role now organization role actor user.id meta db5 db' m rest5 in
    (fits, named, kept)

changed-has_role :
    (now organization role actor : ℕ) (seen : Member) (meta : RequestMeta) (db db' : Db)
    (m : Member)
    → (do
      updated ← update_member seen.id (set_role now role seen)
      log now meta (
          entry
            (some organization)
            (some actor)
            AuditAction.member_role_changed
            "organization_member"
            (some seen.id)
            true)
      pure updated)
        db
      ≡ (ok m, db')
    → (m.role_id ≡ role) × (any (has_role m.id role) db'.members ≡ true)
unfolding update_member log ◌>>=◌
changed-has_role now organization role actor seen meta db db' m e =
    elim (Option-cases (find_first (λ (m : Member). m.id == seen.id) db.members)) [
      | inl missing ↦ ground arith
      | inr (row, found) ↦
          let same : set_role now role seen row ≡ m = ground arith in
          let hit = find_first_sound (λ (m : Member). m.id == seen.id) db.members row found in
          let id : seen.id ≡ m.id = ground (arith, ap (λ (x : Member). x.id) same) in
          let table : db'.members
              ≡ update_where (λ m. m.id == seen.id) (set_role now role seen) db.members =
            ground arith in
          (
            sym (ap (λ (x : Member). x.role_id) same),
            rw table (
                subst
                  (λ k.
                    any (has_role k role)
                      (update_where (λ m. m.id == seen.id) (set_role now role seen) db.members)
                    ≡ true)
                  id (updated-has_role now seen.id role seen row db.members found)),
          )
    ]

change_role-IsAssignable :
    (now organization id role actor : ℕ) (meta : RequestMeta) (db db' : Db) (m : Member)
    → change_role now organization id role actor meta db ≡ (ok m, db')
    → IsAssignable organization role db
      × (m.role_id ≡ role)
      × (any (has_role m.id role) db'.members ≡ true)
unfolding change_role
change_role-IsAssignable now organization id role actor meta db db' m e =
    let (seen, db1, found, rest) = bind_ok _ _ db db' e in
    let (_, db2, checked, rest2) = bind_ok _ _ db1 db' rest in
    let (fits, _) = require_assignable_role-IsAssignable organization role db1 db2 checked in
    let (named, kept) = changed-has_role now organization role actor seen meta db2 db' m rest2 in
    (
      subst (IsAssignable organization role) (require_member_same organization id db db1 seen found)
          fits,
      named,
      kept,
    )

pub given_role-IsAssignable :
    (now organization id role actor : ℕ) (email : String) (meta : RequestMeta) (db db' : Db)
    (m : Member)
    → (invite_member now organization email role actor meta db ≡ (ok m, db'))
      ⊎ (change_role now organization id role actor meta db ≡ (ok m, db'))
    → IsAssignable organization role db
      × (m.role_id ≡ role)
      × (any (has_role m.id role) db'.members ≡ true)
given_role-IsAssignable now organization id role actor email meta db db' m (inl e) =
    invite_member-IsAssignable now organization role actor email meta db db' m e
given_role-IsAssignable now organization id role actor email meta db db' m (inr e) =
    change_role-IsAssignable now organization id role actor meta db db' m e
