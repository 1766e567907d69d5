-- ===== src/Compliance/Index/Requests.antt =====
-- Requests to the compliance service, one after another.
use tax_professional_managem.Common.{ℕ, Bool, List, [], ◌∷◌}
use tax_professional_managem.Common.Text.{Text}
use tax_professional_managem.Db.{Db}
use tax_professional_managem.Db.Action.{RequestMeta}
use tax_professional_managem.Compliance.{ComplianceEnv, generate, generate_for_all_clients}
use tax_professional_managem.Compliance.Items.{CreateItemDto, UpdateItemDto, create, update, remove}
use tax_professional_managem.Compliance.Index.{IsUnique}
use tax_professional_managem.Compliance.Index.Keeps.{
  KeepsIndex, generate-KeepsIndex, generate_all-KeepsIndex, create-KeepsIndex, update-KeepsIndex,
  remove-KeepsIndex,
}

-- A request to the service that may write.
pub data Call : Type 0 where
  generates : ℕ → ℕ → Text → List ℕ → Bool → Call
  generates_all : ℕ → Text → Bool → Call
  creates : ℕ → ℕ → CreateItemDto → Call
  updates : ℕ → ℕ → UpdateItemDto → Call
  removes : ℕ → ℕ → Call

module _ (env : ComplianceEnv) (actor : ℕ) (meta : RequestMeta) where
  unfoldable pub step : ℕ × Call → Db → Db
  step (now, generates organization client financial_year ids past) db =
      (generate env now organization client financial_year ids past actor meta db).1
  step (now, generates_all organization financial_year past) db =
      (generate_for_all_clients env now organization financial_year past actor meta db).1
  step (now, creates organization client dto) db =
      (create now organization client dto actor meta db).1
  step (now, updates organization id dto) db = (update now organization id dto actor meta db).1
  step (now, removes organization id) db = (remove now organization id actor meta db).1

  unfoldable pub run : List (ℕ × Call) → Db → Db
  run [] db = db
  run (c ∷ cs) db = run cs (step c db)

  step-KeepsIndex : (c : ℕ × Call) (db : Db) → KeepsIndex db (step c db)
  unfolding step
  step-KeepsIndex (now, generates organization client financial_year ids past) db =
      (generate-KeepsIndex env now organization client financial_year ids past actor meta).at db
  step-KeepsIndex (now, generates_all organization financial_year past) db =
      (generate_all-KeepsIndex env now organization financial_year past actor meta).at db
  step-KeepsIndex (now, creates organization client dto) db =
      (create-KeepsIndex now organization client dto actor meta).at db
  step-KeepsIndex (now, updates organization id dto) db =
      (update-KeepsIndex now organization id dto actor meta).at db
  step-KeepsIndex (now, removes organization id) db =
      (remove-KeepsIndex now organization id actor meta).at db

  -- Whatever requests the compliance service answers or refuses, in whatever order, no two filings
  -- of a client are ever tracked for the same type, financial year and period. (Filings without a
  -- period, such as those that `create` makes, are exempt: a null period equals no other.)
  pub run-IsUnique :
      (cs : List (ℕ × Call)) (db : Db)
      → IsUnique db.compliance_items
      → IsUnique (run cs db).compliance_items
  unfolding run
  run-IsUnique [] db u = u
  run-IsUnique (c ∷ cs) db u = run-IsUnique cs (step c db) ((step-KeepsIndex c db).unique u)
