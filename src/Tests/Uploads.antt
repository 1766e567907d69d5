-- ===== src/Tests/Uploads.antt =====
-- The upload of a short text.
use tax_professional_managem.Common.{◌≡◌, refl, true, none, some}
use tax_professional_managem.Common.Text.{codes}
use tax_professional_managem.Db.{Db, Document}
use tax_professional_managem.Db.Action.{Result, ok, ◌>>=◌, log}
use tax_professional_managem.Documents.{
  FileEnv, UploadedFile, UploadDto, upload, check_upload, store_document, store_object,
  require_category, require_clean, document_row,
}
use tax_professional_managem.Documents.Kinds.{detect_type, looks_like_printable_text}
use tax_professional_managem.Documents.Laws.{IsAccepted, upload-IsAccepted}
use tax_professional_managem.Tasks.{require_task_client}
use tax_professional_managem.Tests.{firm, meta}

abbrev file_env : FileEnv
file_env = record {
  sniff = λ buffer. none;
  is_clean = λ buffer. true;
  presign = λ key name. some "link";
  is_stored = λ buffer. true;
  sha256 = λ buffer. "digest";
}

abbrev note : UploadedFile
note = record { buffer = codes "Hello"; size = 5; mimetype = "text/plain"; originalname = "n.txt" }

abbrev tagged : UploadDto
tagged = record { category_id = none; tags = some (codes "a, b") }

abbrev uploaded : Result Document × Db
uploaded = upload file_env 7 2 none note tagged 1 meta firm

abbrev note_row : Document
note_row = document_row file_env 21 20 2 none note tagged "text/plain" 1

uploads : uploaded ≡ (ok note_row, uploaded.1)
unfolding upload check_upload store_document store_object require_category require_clean
    require_task_client detect_type looks_like_printable_text log ◌>>=◌
uploads = refl

upload-IsAccepted_example : IsAccepted file_env 2 none note note_row
upload-IsAccepted_example =
    upload-IsAccepted file_env 7 2 none note tagged 1 meta firm uploaded.1 note_row uploads
