-- ===== src/Documents.antt =====
-- apps/api/src/documents/documents.service.ts: the files of a firm. The bytes of a file are in the
-- object storage, under a key that ends in a fresh identifier.
pub mod Kinds
pub mod Laws
use tax_professional_managem.Common.{
  ℕ, ◌+◌, ◌*◌, Bool, true, false, ◌&&◌, ◌||◌, List, [], ◌∷◌, ◌++◌, reverse, any, Option, none, some,
  ltb, ◌==◌, if◌then◌else◌, is_none, keep, not, opt_eq, String,
}
use tax_professional_managem.Common.Text.{Text, text_eq}
use tax_professional_managem.Common.Table.{find_first, update_where, order_by}
use tax_professional_managem.Common.Paging.{Page, page_of}
use tax_professional_managem.Types.{AuditAction}
use tax_professional_managem.Db.{Db, Document, DocumentCategory}
use tax_professional_managem.Db.Action.{
  Action, not_found, bad_request, internal, document_not_found, document_category_not_found,
  empty_file, file_too_large, unsupported_file_type, upload_rejected, pure, gets, or_throw,
  throw_if, modify, fresh_id, ◌>>=◌, ◌>>◌, RequestMeta, log, entry,
}
use tax_professional_managem.Tasks.{given, require_task_client}
use tax_professional_managem.Compliance.{require_client}
use Kinds.{split_tags, detect_type}

-- `file-type`, the scanner and the storage: the type that the first bytes give away, whether a file
-- is clean, the link to a file, whether the storage takes a file, and the digest of its bytes.
pub record FileEnv : Type 0 where
  pub sniff : Text → Option String
  pub is_clean : Text → Bool
  pub presign : ℕ → String → Option String
  pub is_stored : Text → Bool
  pub sha256 : Text → String

-- What Multer hands over: `mimetype` is what the client declares.
pub record UploadedFile : Type 0 where
  pub buffer : Text
  pub size : ℕ
  pub mimetype : String
  pub originalname : String

abbrev pub is_open_category : ℕ → DocumentCategory → Bool
is_open_category organization c = is_none c.organization_id || opt_eq c.organization_id organization

-- `before` is the database's order of names.
unfoldable pub list_categories : (String → String → Bool) → ℕ → Action (List DocumentCategory)
list_categories before organization = gets (λ db.
    order_by (λ (a b : DocumentCategory). before a.name b.name)
      (keep (is_open_category organization) db.categories))

abbrev pub category_row : ℕ → ℕ → String → DocumentCategory
category_row id organization name = record {
  id = id;
  organization_id = some organization;
  name = name;
}

unfoldable pub create_category : ℕ → String → Action DocumentCategory
create_category organization name = do
  id ← fresh_id
  modify
      (λ db. record db { categories = db.categories ++ (category_row id organization name ∷ []) })
  pure (category_row id organization name)

pub record DocumentListFilters : Type 0 where
  pub client_id : Option ℕ
  pub category_id : Option ℕ
  pub tag : Option Text
  pub search : Option Text
  pub cursor : Option ℕ
  pub limit : Option ℕ

-- `contains` is the database's case-insensitive search in a column.
abbrev pub is_listed_document : (String → Text → Bool) → ℕ → DocumentListFilters → Document → Bool
is_listed_document contains organization filters d =
    (d.organization_id == organization)
    && is_none d.deleted_at
    && given filters.client_id (λ client. opt_eq d.client_id client)
    && given filters.category_id (λ category. opt_eq d.category_id category)
    && given filters.tag (λ tag. any (λ t. text_eq t tag) d.tags)
    && given filters.search (λ search. contains d.file_name search)

abbrev pub is_document : ℕ → ℕ → Document → Bool
is_document organization id d = (d.id == id) && (d.organization_id == organization)

abbrev pub known_document_cursor : ℕ → Option ℕ → Db → Option ℕ
known_document_cursor organization none db = none
known_document_cursor organization (some id) db =
    if any (is_document organization id) db.documents then some id else none

-- The newest row of the table is the last one.
unfoldable pub list_documents :
    (String → Text → Bool) → ℕ → DocumentListFilters → Action (Page Document)
list_documents contains organization filters = gets (λ db.
    page_of (λ (d : Document). d.id) filters.limit
      (known_document_cursor organization filters.cursor db)
      (keep (is_listed_document contains organization filters) (reverse db.documents)))

abbrev pub is_client_document : ℕ → ℕ → Document → Bool
is_client_document organization client d =
    (d.organization_id == organization) && opt_eq d.client_id client && is_none d.deleted_at

unfoldable pub list_client_documents : ℕ → ℕ → Action (List Document)
list_client_documents organization client = do
  require_client organization client
  gets (λ db. keep (is_client_document organization client) (reverse db.documents))

abbrev pub is_live_document : ℕ → ℕ → Document → Bool
is_live_document organization id d = is_document organization id d && is_none d.deleted_at

-- `requireDocument`, which `get` returns.
unfoldable pub require_document : ℕ → ℕ → Action Document
require_document organization id = do
  found ← gets (λ db. find_first (is_live_document organization id) db.documents)
  or_throw found (not_found document_not_found)

abbrev pub log_document :
    ℕ → RequestMeta → ℕ → ℕ → AuditAction → Option ℕ → Bool → Action (Unit {0})
log_document now meta organization actor action id succeeded =
    log now meta (entry (some organization) (some actor) action "document" id succeeded)

unfoldable pub get_download_url : FileEnv → ℕ → ℕ → ℕ → ℕ → RequestMeta → Action String
get_download_url env now organization id actor meta = do
  d ← require_document organization id
  url ← or_throw (env.presign d.storage_key d.file_name) internal
  log_document now meta organization actor AuditAction.document_downloaded (some id) true
  pure url

-- `if (dto.categoryId) …`
unfoldable pub require_category : ℕ → Option ℕ → Action (Unit {0})
require_category organization none = pure tt
require_category organization (some id) = do
  found ← gets (λ db.
      find_first (λ (c : DocumentCategory). (c.id == id) && is_open_category organization c)
        db.categories)
  or_throw found (not_found document_category_not_found)
  pure tt

-- `MAX_FILE_SIZE_BYTES`
abbrev pub max_file_size_bytes : ℕ
max_file_size_bytes = 26214400

-- What failed the scan is logged, and nothing is stored.
unfoldable pub require_clean : FileEnv → ℕ → ℕ → UploadedFile → ℕ → RequestMeta → Action (Unit {0})
require_clean env now organization file actor meta =
    if env.is_clean file.buffer then pure tt else do
      log_document now meta organization actor AuditAction.document_uploaded none false
      throw_if true (bad_request upload_rejected)

pub record UploadDto : Type 0 where
  pub category_id : Option ℕ
  pub tags : Option Text

abbrev pub document_row :
    FileEnv → ℕ → ℕ → ℕ → Option ℕ → UploadedFile → UploadDto → String → ℕ → Document
document_row env id key organization client file dto type actor = record {
  id = id;
  organization_id = organization;
  client_id = client;
  category_id = dto.category_id;
  file_name = file.originalname;
  storage_key = key;
  mime_type = type;
  size_bytes = file.size;
  checksum_sha256 = env.sha256 file.buffer;
  tags = split_tags dto.tags;
  uploaded_by_id = actor;
  deleted_at = none;
}

unfoldable pub store_object : FileEnv → ℕ → UploadedFile → Action (Unit {0})
store_object env key file = do
  throw_if (not (env.is_stored file.buffer)) internal
  modify (λ db. record db { objects = db.objects ++ (key ∷ []) })

-- The first half of `upload`: the checks, and the type that the file is found to have.
unfoldable pub check_upload :
    FileEnv → ℕ → ℕ → Option ℕ → UploadedFile → UploadDto → ℕ → RequestMeta → Action String
check_upload env now organization client file dto actor meta = do
  require_task_client organization client
  require_category organization dto.category_id
  throw_if (file.size == 0) (bad_request empty_file)
  throw_if (ltb max_file_size_bytes file.size) (bad_request file_too_large)
  type ←
      or_throw (detect_type (env.sniff file.buffer) file.mimetype file.buffer)
        (bad_request unsupported_file_type)
  require_clean env now organization file actor meta
  pure type

-- The second half: the object, the row and the log.
unfoldable pub store_document :
    FileEnv
    → ℕ
    → ℕ
    → Option ℕ
    → UploadedFile
    → UploadDto
    → String
    → ℕ
    → RequestMeta
    → Action Document
store_document env now organization client file dto type actor meta = do
  key ← fresh_id
  store_object env key file
  id ← fresh_id
  modify (λ db. record db {
    documents =
        db.documents ++ (document_row env id key organization client file dto type actor ∷ []);
  })
  log_document now meta organization actor AuditAction.document_uploaded (some id) true
  pure (document_row env id key organization client file dto type actor)

unfoldable pub upload :
    FileEnv → ℕ → ℕ → Option ℕ → UploadedFile → UploadDto → ℕ → RequestMeta → Action Document
upload env now organization client file dto actor meta = do
  type ← check_upload env now organization client file dto actor meta
  store_document env now organization client file dto type actor meta

abbrev pub set_document_deleted : ℕ → Document → Document
set_document_deleted now d = record d { deleted_at = some now }

unfoldable pub remove_document : ℕ → ℕ → ℕ → ℕ → RequestMeta → Action (Unit {0})
remove_document now organization id actor meta = do
  require_document organization id
  modify (λ db. record db {
    documents = update_where (λ (d : Document). d.id == id) (set_document_deleted now) db.documents;
  })
  log_document now meta organization actor AuditAction.document_deleted (some id) true
