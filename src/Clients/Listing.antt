-- ===== src/Clients/Listing.antt =====
-- `list` of apps/api/src/clients/clients.service.ts, with its filters and its search.
use tax_professional_managem.Common.{
  ℕ, Bool, ◌&&◌, ◌||◌, List, any, Option, none, some, ◌==◌, if◌then◌else◌, is_none, keep, String,
}
use tax_professional_managem.Common.Text.{Text}
use tax_professional_managem.Common.Table.{order_by}
use tax_professional_managem.Common.Paging.{Page, page_of}
use tax_professional_managem.Types.{
  EntityType, ClientStatus, entity_type_index, client_status_index,
}
use tax_professional_managem.Db.{Db, Client, ClientAssignment}
use tax_professional_managem.Db.Action.{Action, pure, gets, ◌>>=◌}
use tax_professional_managem.Tasks.{given}
use tax_professional_managem.Clients.Pii.{
  ClientEnv, ClientView, SearchIndexes, search_indexes, matches_index,
}
use tax_professional_managem.Clients.Service.{client_views}

pub record ClientListFilters : Type 0 where
  pub status : Option ClientStatus
  pub entity_type : Option EntityType
  pub assigned_to : Option ℕ
  pub search : Option Text
  pub cursor : Option ℕ
  pub limit : Option ℕ

-- The database's case-insensitive search in a column, and its order of names.
pub record NameEnv : Type 0 where
  pub contains : String → Text → Bool
  pub before : String → String → Bool

abbrev pub is_assigned : ℕ → ℕ → ClientAssignment → Bool
is_assigned member client a =
    (a.client_id == client) && (a.organization_member_id == member) && is_none a.unassigned_at

abbrev pub is_listed_client :
    NameEnv → ℕ → ClientListFilters → Option SearchIndexes → Db → Client → Bool
is_listed_client names organization filters indexes db c =
    (c.organization_id == organization)
    && is_none c.deleted_at
    && given filters.status (λ s. client_status_index c.status == client_status_index s)
    && given filters.entity_type (λ e. entity_type_index c.entity_type == entity_type_index e)
    && given filters.assigned_to (λ member. any (is_assigned member c.id) db.assignments)
    && given filters.search (λ search. names.contains c.name search || matches_index indexes c)

abbrev pub listed_clients :
    NameEnv → ℕ → ClientListFilters → Option SearchIndexes → Db → List Client
listed_clients names organization filters indexes db =
    order_by (λ a b. names.before a.name b.name)
      (keep (is_listed_client names organization filters indexes db) db.clients)

-- The cursor, if it names a row of the organization.
abbrev pub known_client_cursor : ℕ → Option ℕ → Db → Option ℕ
known_client_cursor organization none db = none
known_client_cursor organization (some id) db =
    if any (λ (c : Client). (c.id == id) && (c.organization_id == organization)) db.clients
    then some id
    else none

unfoldable pub indexes_for : ClientEnv → ℕ → ℕ → Option Text → Action (Option SearchIndexes)
indexes_for env now organization none = pure none
indexes_for env now organization (some search) = search_indexes env now organization search

unfoldable pub list_clients :
    ClientEnv → NameEnv → ℕ → ℕ → ClientListFilters → Action (Page ClientView)
list_clients env names now organization filters = do
  indexes ← indexes_for env now organization filters.search
  page ← gets (λ db.
      page_of (λ (c : Client). c.id) filters.limit
        (known_client_cursor organization filters.cursor db)
        (listed_clients names organization filters indexes db))
  views ← client_views env now page.items
  pure (record {
    items = views;
    next_cursor = page.next_cursor;
    has_more = page.has_more;
    total = page.total;
  })
