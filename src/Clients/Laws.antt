-- ===== src/Clients/Laws.antt =====
-- The clients of one firm are out of the reach of the others.
use tax_professional_managem.Common.{
  ℕ, ◌≡◌, refl, true, List, [], ◌∷◌, Option, none, some, arith, All, All-keep, String, is_none,
}
use mathlib.Core.Path.{subst}
use tax_professional_managem.Common.Table.{find_first, All-order}
use tax_professional_managem.Common.Paging.{Page}
use tax_professional_managem.Common.Paging.Laws.{All-page}
use tax_professional_managem.Db.{Db, Client}
use tax_professional_managem.Db.Action.{ok, err, not_found, client_not_found, RequestMeta, ◌>>=◌}
use tax_professional_managem.Db.Action.Effects.{bind_ok, pure_ok, gets_ok}
use tax_professional_managem.Compliance.{is_live_client}
use tax_professional_managem.Clients.Pii.{
  ClientEnv, ClientView, SearchIndexes, view_of, to_client_view,
}
use tax_professional_managem.Clients.Service.{
  require_client_row, get_client, UpdateClientDto, update_client, remove_client, client_views,
}
use tax_professional_managem.Clients.Team.{
  CreateContactDto, add_contact, list_contacts, assign_client, unassign_client,
}
use tax_professional_managem.Clients.Listing.{
  NameEnv, ClientListFilters, is_listed_client, listed_clients, list_clients, known_client_cursor,
}

-- A client that is not among the organization's live ones is not found by any operation on a
-- client, its contacts or its assignments, and nothing at all is written or decrypted.
pub client_refused :
    (env : ClientEnv) (now organization id actor member : ℕ) (dto : UpdateClientDto)
    (contact : CreateContactDto) (role : Option String) (meta : RequestMeta) (db : Db)
    → find_first (is_live_client organization id) db.clients ≡ none
    → (get_client env now organization id db ≡ (err (not_found client_not_found), db))
      × (update_client env now organization id dto actor meta db
          ≡ (err (not_found client_not_found), db))
      × (remove_client now organization id actor meta db ≡ (err (not_found client_not_found), db))
      × (add_contact env now organization id contact db ≡ (err (not_found client_not_found), db))
      × (list_contacts env now organization id db ≡ (err (not_found client_not_found), db))
      × (assign_client now organization id member role actor meta db
          ≡ (err (not_found client_not_found), db))
      × (unassign_client now organization id member actor meta db
          ≡ (err (not_found client_not_found), db))
unfolding get_client update_client remove_client add_contact list_contacts assign_client
    unassign_client require_client_row ◌>>=◌
client_refused env now organization id actor member dto contact role meta db missing = (
  rw missing refl,
  rw missing refl,
  rw missing refl,
  rw missing refl,
  rw missing refl,
  rw missing refl,
  rw missing refl,
)

-- A row that may be shown to the members of an organization.
abbrev pub IsVisible : ℕ → Client → Type 0
IsVisible organization c = (c.organization_id ≡ organization) × (c.deleted_at ≡ none)

abbrev pub IsVisibleView : ℕ → ClientView → Type 0
IsVisibleView organization v = (v.organization_id ≡ organization) × (v.deleted_at ≡ none)

client_views-IsVisible :
    (env : ClientEnv) (now organization : ℕ) (cs : List Client) (db db' : Db) (vs : List ClientView)
    → All (IsVisible organization) cs
    → client_views env now cs db ≡ (ok vs, db')
    → All (IsVisibleView organization) vs
unfolding client_views to_client_view
client_views-IsVisible env now organization [] db db' vs h e =
    subst (All (IsVisibleView organization)) (pure_ok e).0 tt
client_views-IsVisible env now organization (c ∷ cs) db db' vs h e =
    let (v, db1, viewed, e1) = bind_ok _ _ db db' e in
    let (rest, db2, views, e2) = bind_ok _ _ db1 db' e1 in
    let (pii, db3, decrypted, e3) = bind_ok _ _ db db1 viewed in
    let later = client_views-IsVisible env now organization cs db1 db2 rest h.1 views in
    let shown : view_of c pii ≡ v = (pure_ok e3).0 in
    subst (All (IsVisibleView organization)) (pure_ok e2).0
      (subst (IsVisibleView organization) shown h.0, later)

null : (o : Option ℕ) → is_none o ≡ true → o ≡ none
null none e = refl
null (some n) e = cc

listed-IsVisible :
    (names : NameEnv) (organization : ℕ) (filters : ClientListFilters)
    (indexes : Option SearchIndexes) (db : Db)
    → All (IsVisible organization) (listed_clients names organization filters indexes db)
listed-IsVisible names organization filters indexes db = All-order (IsVisible organization) _ _ (
    All-keep (IsVisible organization) (is_listed_client names organization filters indexes db)
      db.clients (λ c e. (ground arith, null c.deleted_at (ground arith))))

-- Whatever the filters, the search and the cursor, which may name a client of another firm: every
-- client on a page that is returned is one of the organization's own, and not deleted.
pub list_clients-IsVisible :
    (env : ClientEnv) (names : NameEnv) (now organization : ℕ) (filters : ClientListFilters)
    (db db' : Db) (page : Page ClientView)
    → list_clients env names now organization filters db ≡ (ok page, db')
    → All (IsVisibleView organization) page.items
unfolding list_clients
list_clients-IsVisible env names now organization filters db db' page e =
    let (indexes, db1, searched, e1) = bind_ok _ _ db db' e in
    let (rows, db2, read, e2) = bind_ok _ _ db1 db' e1 in
    let (views, db3, viewed, e3) = bind_ok _ _ db2 db' e2 in
    let visible : All (IsVisible organization) rows.items =
      subst (λ (p : Page Client). All (IsVisible organization) p.items) (gets_ok _ read).0
        (All-page (IsVisible organization) (λ (c : Client). c.id) filters.limit
          (known_client_cursor organization filters.cursor db1)
          (listed_clients names organization filters indexes db1)
          (listed-IsVisible names organization filters indexes db1)) in
    subst (λ (p : Page ClientView). All (IsVisibleView organization) p.items) (pure_ok e3).0
      (client_views-IsVisible env now organization rows.items db2 db3 views visible viewed)
