-- ===== src/Documents/Kinds.antt =====
-- Which files apps/api/src/documents/documents.service.ts accepts, by their bytes rather than by
-- their name.
use tax_professional_managem.Common.{
  ℕ, ◌+◌, ◌*◌, Bool, true, false, not, ◌&&◌, ◌||◌, List, [], ◌∷◌, map, any, Option, none, some, ltb,
  ◌==◌, if◌then◌else◌, length, reverse, String, str_eq,
}
use tax_professional_managem.Common.Text.{Text}
use tax_professional_managem.Common.Table.{delete_where}
use tax_professional_managem.Common.Paging.{take}
use tax_professional_managem.DataProtection.Cipher.{is_space}

-- `ALLOWED_BINARY_MIME_TYPES`
abbrev pub allowed_binary_mime_types : List String
allowed_binary_mime_types =
    "application/pdf" ∷ "image/jpeg" ∷ "image/png" ∷ "image/gif" ∷ "image/webp"
    ∷ "application/vnd.openxmlformats-officedocument.wordprocessingml.document"
    ∷ "application/vnd.openxmlformats-officedocument.spreadsheetml.sheet"
    ∷ "application/vnd.openxmlformats-officedocument.presentationml.presentation" ∷ []

-- `ALLOWED_TEXT_MIME_TYPES`
abbrev pub allowed_text_mime_types : List String
allowed_text_mime_types = "text/plain" ∷ "text/csv" ∷ []

abbrev pub is_allowed : List String → String → Bool
is_allowed types t = any (λ a. str_eq a t) types

-- Tab, newline and carriage return are no control characters here.
abbrev pub is_control : ℕ → Bool
is_control b = (ltb b 32 && not (b == 9) && not (b == 10) && not (b == 13)) || (b == 127)

abbrev pub control_chars : Text → ℕ
control_chars [] = 0
control_chars (b ∷ bs) = (if is_control b then 1 else 0) + control_chars bs

-- `controlChars / sample.length < 0.01` on the first 8192 bytes.
unfoldable pub looks_like_printable_text : Text → Bool
looks_like_printable_text [] = false
looks_like_printable_text (b ∷ bs) =
    let sample = take 8192 (b ∷ bs) in ltb (control_chars sample * 100) (length sample)

-- `detectAndValidateMimeType`, from what has been sniffed; `none` where it throws.
unfoldable pub detect_type : Option String → String → Text → Option String
detect_type (some sniffed) declared buffer =
    if is_allowed allowed_binary_mime_types sniffed then some sniffed else none
detect_type none declared buffer =
    if is_allowed allowed_text_mime_types declared && looks_like_printable_text buffer
    then some declared
    else none

abbrev pub begin_word : ℕ → List Text → List Text
begin_word c [] = (c ∷ []) ∷ []
begin_word c (w ∷ ws) = (c ∷ w) ∷ ws

-- `split(",")`
abbrev pub split_commas : Text → List Text
split_commas [] = [] ∷ []
split_commas (c ∷ cs) = if c == b',' then [] ∷ split_commas cs else begin_word c (split_commas cs)

abbrev pub trim_start : Text → Text
trim_start [] = []
trim_start (c ∷ cs) = let rest = trim_start cs in if is_space c then rest else c ∷ cs

abbrev pub trim : Text → Text
trim t = reverse (trim_start (reverse (trim_start t)))

abbrev pub is_blank : Text → Bool
is_blank [] = true
is_blank (c ∷ cs) = false

-- `tags.split(",").map(trim).filter(Boolean)`; an empty text is as good as none.
unfoldable pub split_tags : Option Text → List Text
split_tags none = []
split_tags (some tags) = delete_where is_blank (map trim (split_commas tags))
