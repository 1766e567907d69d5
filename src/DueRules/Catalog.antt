-- ===== src/DueRules/Catalog.antt =====
-- The catalog of recurring filings in apps/api/src/compliance/due-rules.ts, entry by entry.
use tax_professional_managem.Common.{ℕ, List, [], ◌∷◌, none, some, leb, if◌then◌else◌, String}
use tax_professional_managem.Common.Text.{Text, codes}
use tax_professional_managem.DueRules.{
  DueRule, FixedDate, Category, gst, income_tax, tds, mca, pf_esi, Periodicity, CatalogEntry,
}

abbrev fixed_date : Text → ℕ → ℕ → ℕ → FixedDate
fixed_date period month day year_offset = record {
  period = period;
  month = month;
  day = day;
  year_offset = year_offset;
}

abbrev pub annual : ℕ → ℕ → ℕ → DueRule
annual month day year_offset =
    DueRule.fixed (fixed_date (codes "ANNUAL") month day year_offset ∷ [])

-- Due on `day` of the month after each quarter ends.
abbrev after_quarter : ℕ → DueRule
after_quarter day = DueRule.fixed (
    fixed_date (codes "Q1") 7 day 0
    ∷ fixed_date (codes "Q2") 10 day 0
    ∷ fixed_date (codes "Q3") 1 day 1
    ∷ fixed_date (codes "Q4") 4 day 1
    ∷ [])

-- The third quarter's date lies in the start year from April on, and in the end year before.
abbrev third_quarter_offset : ℕ → ℕ
third_quarter_offset month = if leb 4 month then 0 else 1

abbrev quarters : ℕ × ℕ → ℕ × ℕ → ℕ × ℕ → ℕ × ℕ → DueRule
quarters (m1, d1) (m2, d2) (m3, d3) (m4, d4) = DueRule.fixed (
    fixed_date (codes "Q1") m1 d1 0
    ∷ fixed_date (codes "Q2") m2 d2 0
    ∷ fixed_date (codes "Q3") m3 d3 (third_quarter_offset m3)
    ∷ fixed_date (codes "Q4") m4 d4 1
    ∷ [])

abbrev tds_return : DueRule
tds_return = quarters (7, 31) (10, 31) (1, 31) (5, 31)

abbrev entry : String → String → Category → Periodicity → DueRule → CatalogEntry
entry code name category periodicity rule = record {
  code = code;
  name = name;
  category = category;
  periodicity = periodicity;
  rule = rule;
}

-- `COMPLIANCE_CATALOG`
unfoldable pub compliance_catalog : List CatalogEntry
compliance_catalog =
    entry "GSTR1" "GSTR-1 (Monthly)" gst Periodicity.monthly (DueRule.monthly 11 none none)
    ∷ entry "GSTR1_QRMP" "GSTR-1 (Quarterly, QRMP)" gst Periodicity.quarterly (after_quarter 13)
    ∷ entry "GSTR3B" "GSTR-3B (Monthly)" gst Periodicity.monthly (DueRule.monthly 20 none none)
    ∷ entry "GSTR3B_QRMP" "GSTR-3B (Quarterly, QRMP — 22nd/24th by state)" gst Periodicity.quarterly
        (after_quarter 22)
    ∷ entry "PMT06" "PMT-06 (QRMP monthly tax payment)" gst Periodicity.monthly
        (DueRule.monthly 25 (some (4 ∷ 5 ∷ 7 ∷ 8 ∷ 10 ∷ 11 ∷ 1 ∷ 2 ∷ [])) none)
    ∷ entry "CMP08" "CMP-08 (Composition quarterly statement)" gst Periodicity.quarterly
        (after_quarter 18)
    ∷ entry "GSTR4" "GSTR-4 (Composition annual return)" gst Periodicity.annual (annual 6 30 1)
    ∷ entry "GSTR7" "GSTR-7 (TDS under GST)" gst Periodicity.monthly (DueRule.monthly 10 none none)
    ∷ entry "GSTR8" "GSTR-8 (TCS by e-commerce operator)" gst Periodicity.monthly
        (DueRule.monthly 10 none none)
    ∷ entry "GSTR9" "GSTR-9 (Annual return)" gst Periodicity.annual (annual 12 31 1)
    ∷ entry "GSTR9C" "GSTR-9C (Reconciliation statement)" gst Periodicity.annual (annual 12 31 1)
    ∷ entry "ITR" "ITR — non-audit cases" income_tax Periodicity.annual (annual 7 31 1)
    ∷ entry "ITR_AUDIT" "ITR — audit cases & companies" income_tax Periodicity.annual
        (annual 10 31 1)
    ∷ entry "ITR_TP" "ITR — transfer pricing cases" income_tax Periodicity.annual (annual 11 30 1)
    ∷ entry "TAX_AUDIT" "Tax audit report (Form 3CA/3CB-3CD)" income_tax Periodicity.annual
        (annual 9 30 1)
    ∷ entry "FORM_3CEB" "Transfer pricing report (Form 3CEB)" income_tax Periodicity.annual
        (annual 10 31 1)
    ∷ entry "ADVANCE_TAX" "Advance tax instalment" income_tax Periodicity.quarterly
        (quarters (6, 15) (9, 15) (12, 15) (3, 15))
    ∷ entry "SFT" "SFT — Form 61A (financial transactions)" income_tax Periodicity.annual
        (annual 5 31 1)
    ∷ entry "TDS_PAYMENT" "TDS/TCS deposit (Challan 281)" tds Periodicity.monthly
        (DueRule.monthly 7 none (some (record { period_month = 3; day = 30 } ∷ [])))
    ∷ entry "TDS_24Q" "TDS return — Form 24Q (Salary)" tds Periodicity.quarterly (tds_return)
    ∷ entry "TDS_26Q" "TDS return — Form 26Q (Non-salary)" tds Periodicity.quarterly (tds_return)
    ∷ entry "TDS_27Q" "TDS return — Form 27Q (Non-residents)" tds Periodicity.quarterly (tds_return)
    ∷ entry "TCS_27EQ" "TCS return — Form 27EQ" tds Periodicity.quarterly
        (quarters (7, 15) (10, 15) (1, 15) (5, 15))
    ∷ entry "FORM16" "Form 16 (Salary TDS certificate)" tds Periodicity.annual (annual 6 15 1)
    ∷ entry "FORM16A" "Form 16A (Non-salary TDS certificate)" tds Periodicity.quarterly
        (quarters (8, 15) (11, 15) (2, 15) (6, 15))
    ∷ entry "AGM" "Annual General Meeting" mca Periodicity.annual (annual 9 30 1)
    ∷ entry "ADT1" "ADT-1 (Auditor appointment, 15 days from AGM)" mca Periodicity.annual
        (annual 10 15 1)
    ∷ entry "AOC4" "AOC-4 (Financial statements, 30 days from AGM)" mca Periodicity.annual
        (annual 10 30 1)
    ∷ entry "AOC4_CFS" "AOC-4 CFS (Consolidated financial statements)" mca Periodicity.annual
        (annual 10 30 1)
    ∷ entry "MGT7" "MGT-7 / MGT-7A (Annual return, 60 days from AGM)" mca Periodicity.annual
        (annual 11 29 1)
    ∷ entry "DPT3" "DPT-3 (Return of deposits / outstanding loans)" mca Periodicity.annual
        (annual 6 30 1)
    ∷ entry "DIR3_KYC" "DIR-3 KYC (Director / designated partner KYC)" mca Periodicity.annual
        (annual 9 30 1)
    ∷ entry "MSME1" "MSME-1 (Dues to MSME suppliers, half-yearly)" mca Periodicity.half_yearly
        (DueRule.fixed (fixed_date (codes "H1") 10 31 0 ∷ fixed_date (codes "H2") 4 30 1 ∷ []))
    ∷ entry "LLP_FORM11" "LLP Form 11 (Annual return)" mca Periodicity.annual (annual 5 30 1)
    ∷ entry "LLP_FORM8" "LLP Form 8 (Statement of account & solvency)" mca Periodicity.annual
        (annual 10 30 1)
    ∷ entry "PF_RETURN" "PF return & payment (ECR)" pf_esi Periodicity.monthly
        (DueRule.monthly 15 none none)
    ∷ entry "ESI_RETURN" "ESI contribution" pf_esi Periodicity.monthly
        (DueRule.monthly 15 none none)
    ∷ []
