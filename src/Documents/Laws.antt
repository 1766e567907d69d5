-- ===== src/Documents/Laws.antt =====
-- What is stored through `upload` of apps/api/src/documents/documents.service.ts, and what is not.
use tax_professional_managem.Common.{
  ℕ, ◌≤◌, ◌≡◌, refl, Bool, true, false, ◌&&◌, [], ◌∷◌, ◌++◌, Option, none, some, arith, String, inl,
  inr, Bool-cases, ltb, ◌==◌, if◌then◌else◌,
}
use mathlib.Core.Path.{subst, sym}
use tax_professional_managem.Common.Text.{Text}
use tax_professional_managem.Types.{AuditAction}
use tax_professional_managem.Db.{Db, Document}
use tax_professional_managem.Db.Action.{
  ok, err, bad_request, upload_rejected, RequestMeta, ◌>>=◌, log, entry, audit_row,
}
use tax_professional_managem.Db.Action.Effects.{bind_ok, pure_ok, or_throw_ok, throw_if_ok}
use tax_professional_managem.Documents.{
  FileEnv, UploadedFile, UploadDto, upload, check_upload, store_document, document_row,
  max_file_size_bytes, require_clean, require_category,
}
use tax_professional_managem.Documents.Kinds.{
  detect_type, is_allowed, allowed_binary_mime_types, allowed_text_mime_types,
  looks_like_printable_text,
}
use tax_professional_managem.Tasks.{require_task_client}

-- The type of a file: what the bytes give away, which must be allowed; only where they give nothing
-- away what the client declares, if that is an allowed text type and the bytes look like text.
pub IsTypeOf : Option String → String → Text → String → Type 0
IsTypeOf (some sniffed) declared buffer type =
    (type ≡ sniffed) × (is_allowed allowed_binary_mime_types type ≡ true)
IsTypeOf none declared buffer type =
    (type ≡ declared)
    × (is_allowed allowed_text_mime_types type ≡ true)
    × (looks_like_printable_text buffer ≡ true)

some_if :
    {A : Type 0} (b : Bool) (x y : A) → (if b then some x else none) ≡ some y → (b ≡ true) × (x ≡ y)
some_if true x y e = (refl, cc)
some_if false x y e = cc

detect_type-IsTypeOf :
    (sniffed : Option String) (declared : String) (buffer : Text) (type : String)
    → detect_type sniffed declared buffer ≡ some type
    → IsTypeOf sniffed declared buffer type
unfolding detect_type IsTypeOf
detect_type-IsTypeOf none declared buffer type e =
    let (good, same) =
      some_if (is_allowed allowed_text_mime_types declared && looks_like_printable_text buffer)
        declared type e in
    (
      sym same,
      subst (λ t. is_allowed allowed_text_mime_types t ≡ true) same (ground arith),
      ground arith,
    )
detect_type-IsTypeOf (some sniffed) declared buffer type e =
    let (good, same) = some_if (is_allowed allowed_binary_mime_types sniffed) sniffed type e in
    (sym same, subst (λ t. is_allowed allowed_binary_mime_types t ≡ true) same good)

require_clean_ok :
    (env : FileEnv) (now organization : ℕ) (file : UploadedFile) (actor : ℕ) (meta : RequestMeta)
    (db db' : Db)
    → require_clean env now organization file actor meta db ≡ (ok tt, db')
    → env.is_clean file.buffer ≡ true
unfolding require_clean log ◌>>=◌
require_clean_ok env now organization file actor meta db db' e =
    elim (Bool-cases (env.is_clean file.buffer)) [ inl clean ↦ clean | inr foul ↦ ground arith ]

positive : (n : ℕ) → (n == 0) ≡ false → 1 ≤ n
positive n h = ground arith

at_most : (n bound : ℕ) → ltb bound n ≡ false → n ≤ bound
at_most n bound h = ground arith

-- What the checks have found.
record IsChecked (env : FileEnv) (file : UploadedFile) (type : String) : Type 0 where
  not_empty : 1 ≤ file.size
  small : file.size ≤ 26214400
  clean : env.is_clean file.buffer ≡ true
  known : IsTypeOf (env.sniff file.buffer) file.mimetype file.buffer type

module _ (env : FileEnv) (now organization : ℕ) (client : Option ℕ) (file : UploadedFile)
    (dto : UploadDto) (actor : ℕ) (meta : RequestMeta) where
  check_upload_ok :
      (db db' : Db) (type : String)
      → check_upload env now organization client file dto actor meta db ≡ (ok type, db')
      → IsChecked env file type
  unfolding check_upload
  check_upload_ok db db' type e =
      let (_, db1, _, e1) = bind_ok _ _ db db' e in
      let (_, db2, _, e2) = bind_ok _ _ db1 db' e1 in
      let (_, db3, full, e3) = bind_ok _ _ db2 db' e2 in
      let (_, db4, small, e4) = bind_ok _ _ db3 db' e3 in
      let (found, db5, detected, e5) = bind_ok _ _ db4 db' e4 in
      let (_, db6, clean, e6) = bind_ok _ _ db5 db' e5 in
      let same : found ≡ type = (pure_ok e6).0 in
      subst (IsChecked env file) same (record {
        not_empty = positive file.size (throw_if_ok (file.size == 0) _ full).0;
        small =
            at_most file.size max_file_size_bytes
              (throw_if_ok (ltb max_file_size_bytes file.size) _ small).0;
        clean = require_clean_ok env now organization file actor meta db5 db6 clean;
        known =
            detect_type-IsTypeOf (env.sniff file.buffer) file.mimetype file.buffer found
              (or_throw_ok _ _ detected).0;
      })

  -- What the second half returns is the row.
  store_document_ok :
      (type : String) (db db' : Db) (d : Document)
      → store_document env now organization client file dto type actor meta db ≡ (ok d, db')
      → (id : ℕ) × (key : ℕ) × (document_row env id key organization client file dto type actor ≡ d)
  unfolding store_document
  store_document_ok type db db' d e =
      let (key, db7, _, e7) = bind_ok _ _ db db' e in
      let (_, db8, _, e8) = bind_ok _ _ db7 db' e7 in
      let (id, db9, _, e9) = bind_ok _ _ db8 db' e8 in
      let (_, db10, _, e10) = bind_ok _ _ db9 db' e9 in
      let (_, db11, _, e11) = bind_ok _ _ db10 db' e10 in (id, key, (pure_ok e11).0)

-- A document that has been let in.
pub record IsAccepted (env : FileEnv) (organization : ℕ) (client : Option ℕ) (file : UploadedFile)
    (d : Document) : Type 0 where
  pub not_empty : 1 ≤ file.size
  pub small : file.size ≤ 26214400
  pub clean : env.is_clean file.buffer ≡ true
  pub known : IsTypeOf (env.sniff file.buffer) file.mimetype file.buffer d.mime_type
  pub owner : d.organization_id ≡ organization
  pub of_client : d.client_id ≡ client
  pub digest : d.checksum_sha256 ≡ env.sha256 file.buffer

-- Nothing gets into the documents unchecked: a file that an upload returns has between 1 byte and
-- 25 MB and has passed the scan; its type is the one that the bytes give away, an allowed one, or,
-- where they give none away, the declared one, an allowed text type with bytes that look like text;
-- the document is the organization's, of that client,
-- with the digest of the bytes.
pub upload-IsAccepted :
    (env : FileEnv) (now organization : ℕ) (client : Option ℕ) (file : UploadedFile)
    (dto : UploadDto) (actor : ℕ) (meta : RequestMeta) (db db' : Db) (d : Document)
    → upload env now organization client file dto actor meta db ≡ (ok d, db')
    → IsAccepted env organization client file d
unfolding upload
upload-IsAccepted env now organization client file dto actor meta db db' d e =
    let (type, db1, checks, stores) = bind_ok _ _ db db' e in
    let c = check_upload_ok env now organization client file dto actor meta db db1 type checks in
    let (id, key, row) =
      store_document_ok env now organization client file dto actor meta type db1 db' d stores in
    subst (IsAccepted env organization client file) row (record {
      not_empty = c.not_empty;
      small = c.small;
      clean = c.clean;
      known = c.known;
      owner = refl;
      of_client = refl;
      digest = refl;
    })

-- A file that fails the scan is refused with UPLOAD_REJECTED and not stored: neither the storage
-- nor any table changes, but for one entry of the audit log, which tells of the failure.
pub upload_rejected_lem :
    (env : FileEnv) (now organization : ℕ) (file : UploadedFile) (dto : UploadDto) (actor : ℕ)
    (meta : RequestMeta) (db : Db) (type : String)
    → dto.category_id ≡ none
    → (file.size == 0) ≡ false
    → ltb max_file_size_bytes file.size ≡ false
    → detect_type (env.sniff file.buffer) file.mimetype file.buffer ≡ some type
    → env.is_clean file.buffer ≡ false
    → upload env now organization none file dto actor meta db ≡ (
      err (bad_request upload_rejected),
      record db {
        audit_logs =
            db.audit_logs
            ++ (audit_row now meta (
                  entry
                    (some organization)
                    (some actor)
                    AuditAction.document_uploaded
                    "document"
                    none
                    false)
                ∷ []);
      },
    )
unfolding upload check_upload require_category require_clean require_task_client log ◌>>=◌
upload_rejected_lem env now organization file dto actor meta db type category full small known
      foul =
    rw (category, full, small, known, foul) refl
