-- ===== src/Tests/Lists.antt =====
-- Pages of the firm's clients, and of numbers.
use tax_professional_managem.Common.{
  ℕ, suc, ◌≡◌, refl, true, false, List, [], ◌∷◌, none, some, All, length, arith,
}
use tax_professional_managem.Common.Paging.{Page}
use tax_professional_managem.Common.Paging.Laws.{all_pages, all_pages_lem}
use tax_professional_managem.Db.Action.{ok, ◌>>=◌}
use tax_professional_managem.Clients.Pii.{
  ClientEnv, ClientView, empty_pii, view_of, to_client_view, decrypt_client, decrypt_columns,
}
use tax_professional_managem.Clients.Service.{client_views}
use tax_professional_managem.Clients.Listing.{NameEnv, ClientListFilters, list_clients, indexes_for}
use tax_professional_managem.Clients.Laws.{IsVisibleView, list_clients-IsVisible}
use tax_professional_managem.Common.Paging.{page_of}
use tax_professional_managem.Tests.{firm, client}
use tax_professional_managem.Tests.Keys.{key_env}

abbrev client_env : ClientEnv
client_env = record {
  keys = key_env;
  nonce = λ n. [];
  stringify = λ pii. [];
  parse = λ text. some empty_pii;
  stringify_contact = λ pii. [];
  parse_contact = λ text. none;
}

abbrev names : NameEnv
names = record { contains = λ name search. true; before = λ a b. true }

abbrev no_filters : ClientListFilters
no_filters = record {
  status = none;
  entity_type = none;
  assigned_to = none;
  search = none;
  cursor = none;
  limit = some 10;
}

abbrev listed : Page ClientView
listed = record {
  items = view_of client empty_pii ∷ [];
  next_cursor = none;
  has_more = false;
  total = 1;
}

lists : list_clients client_env names 0 2 no_filters firm ≡ (ok listed, firm)
unfolding list_clients indexes_for client_views to_client_view decrypt_client decrypt_columns
    page_of ◌>>=◌
lists = refl

list_clients-IsVisible_example : All (IsVisibleView 2) listed.items
list_clients-IsVisible_example =
    list_clients-IsVisible client_env names 0 2 no_filters firm firm listed lists

abbrev numbers : List ℕ
numbers = 3 ∷ 1 ∷ 2 ∷ []

all_pages_lem_example :
    all_pages (λ (n : ℕ). n) (suc (length numbers)) (some 2) none numbers ≡ numbers
all_pages_lem_example =
    all_pages_lem (λ (n : ℕ). n) (some 2) numbers (omega arith)
      ((refl, (refl, tt)), ((refl, tt), (tt, tt)))
