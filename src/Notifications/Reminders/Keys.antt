-- ===== src/Notifications/Reminders/Keys.antt =====
-- The dedupe keys of apps/api/src/notifications/deadline-sweep.service.ts, taken apart at their
-- colons.
use tax_professional_managem.Common.{
  ℕ, zero, suc, ◌+◌, ◌-◌, ◌*◌, ◌/◌, ◌%◌, ◌<◌, ◌≡◌, refl, sym, ap, ◌∙◌, false, [], ◌∷◌, ◌++◌, arith,
  ◌==◌, ltb, if◌then◌else◌, All, All-append, append_assoc, Bool-cases, inl, inr,
}
use tax_professional_managem.Common.Int.{ℤ, pos, negsuc}
use tax_professional_managem.Common.Text.{Text, codes, decimal, decimal_onto}
use tax_professional_managem.Notifications.Reminders.{
  reminder_stage, dedupe_key, first_point, reminder_days,
}

abbrev HasNoColon : Text → Type 0
HasNoColon t = All (λ c. (c == 58) ≡ false) t

abbrev before_colon : Text → Text
before_colon [] = []
before_colon (c ∷ cs) = if c == 58 then [] else c ∷ before_colon cs

abbrev after_colon : Text → Text
after_colon [] = []
after_colon (c ∷ cs) = if c == 58 then cs else after_colon cs

parts_of :
    (t rest : Text)
    → HasNoColon t
    → (before_colon (t ++ (58 ∷ rest)) ≡ t) × (after_colon (t ++ (58 ∷ rest)) ≡ rest)
parts_of [] rest h = (refl, refl)
parts_of (c ∷ cs) rest h =
    let (before, after) = parts_of cs rest h.1 in rw h.0 (ap (λ t. c ∷ t) before, after)

decimal_onto-HasNoColon :
    (fuel n : ℕ) (rest : Text) → HasNoColon rest → HasNoColon (decimal_onto fuel n rest)
unfolding decimal_onto
decimal_onto-HasNoColon zero n rest h = h
decimal_onto-HasNoColon (suc fuel) n rest h = elim (Bool-cases (ltb n 10)) [
  | inl small ↦ rw small (ground arith, h)
  | inr big ↦
      rw big (decimal_onto-HasNoColon fuel (n / 10) ((n % 10 + 48) ∷ rest) (ground arith, h))
]

decimal-HasNoColon : (n : ℕ) → HasNoColon (decimal n)
unfolding decimal
decimal-HasNoColon n = decimal_onto-HasNoColon (n + 1) n [] tt

-- The number that digits write, after `acc`.
abbrev read : ℕ → Text → ℕ
read acc [] = acc
read acc (c ∷ cs) = read (acc * 10 + (c - 48)) cs

read-decimal_onto :
    (fuel n : ℕ) (rest : Text) → n < fuel → read 0 (decimal_onto fuel n rest) ≡ read n rest
unfolding decimal_onto
read-decimal_onto zero n rest h = absurd (omega arith)
read-decimal_onto (suc fuel) n rest h = elim (Bool-cases (ltb n 10)) [
  | inl small ↦ rw small (ap (λ k. read k rest) (omega arith))
  | inr big ↦ rw big (
      read-decimal_onto fuel (n / 10) ((n % 10 + 48) ∷ rest) (ground arith)
      ∙ ap (λ k. read k rest) (omega arith))
]

decimal-injective : (m n : ℕ) → decimal m ≡ decimal n → m ≡ n
unfolding decimal
decimal-injective m n e =
    sym (read-decimal_onto (m + 1) m [] (omega arith))
    ∙ ap (read 0) e
    ∙ read-decimal_onto (n + 1) n [] (omega arith)

reminder_stage-HasNoColon : (days : ℤ) → HasNoColon (reminder_stage days)
unfolding reminder_stage
reminder_stage-HasNoColon (negsuc n) = (refl, (refl, (refl, (refl, (refl, (refl, (refl, tt)))))))
reminder_stage-HasNoColon (pos n) =
    All-append (λ c. (c == 58) ≡ false) (codes "due") (decimal (first_point n reminder_days))
      (refl, (refl, (refl, tt))) (decimal-HasNoColon (first_point n reminder_days))

dedupe_key_parts :
    (prefix : Text) (id : ℕ) (days : ℤ) (user : ℕ)
    → dedupe_key prefix id days user
      ≡ prefix ++ (58 ∷ (decimal id ++ (58 ∷ (reminder_stage days ++ (58 ∷ decimal user)))))
unfolding dedupe_key
dedupe_key_parts prefix id days user =
    let a = decimal id in
    let b = reminder_stage days in
    let c = decimal user in
    append_assoc (prefix ++ codes ":" ++ a ++ codes ":" ++ b) (codes ":") c
    ∙ append_assoc (prefix ++ codes ":" ++ a ++ codes ":") b (58 ∷ c)
    ∙ append_assoc (prefix ++ codes ":" ++ a) (codes ":") (b ++ (58 ∷ c))
    ∙ append_assoc (prefix ++ codes ":") a (58 ∷ (b ++ (58 ∷ c)))
    ∙ append_assoc prefix (codes ":") (a ++ (58 ∷ (b ++ (58 ∷ c))))

-- A key tells the thing that it is about and the user.
pub dedupe_key-injective :
    (prefix : Text) (id id' : ℕ) (days days' : ℤ) (user user' : ℕ)
    → All (λ c. (c == 58) ≡ false) prefix
    → dedupe_key prefix id days user ≡ dedupe_key prefix id' days' user'
    → (id ≡ id') × (user ≡ user')
dedupe_key-injective prefix id id' days days' user user' plain e =
    let whole =
      sym (dedupe_key_parts prefix id days user) ∙ e ∙ dedupe_key_parts prefix id' days' user' in
    let s = reminder_stage days ++ (58 ∷ decimal user) in
    let s' = reminder_stage days' ++ (58 ∷ decimal user') in
    let first : decimal id ++ (58 ∷ s) ≡ decimal id' ++ (58 ∷ s') =
      sym (parts_of prefix (decimal id ++ (58 ∷ s)) plain).1
      ∙ ap after_colon whole
      ∙ (parts_of prefix (decimal id' ++ (58 ∷ s')) plain).1 in
    let (a, b) = parts_of (decimal id) s (decimal-HasNoColon id) in
    let (a', b') = parts_of (decimal id') s' (decimal-HasNoColon id') in
    let ids : decimal id ≡ decimal id' = sym a ∙ ap before_colon first ∙ a' in
    let second : s ≡ s' = sym b ∙ ap after_colon first ∙ b' in
    let (_, c) = parts_of (reminder_stage days) (decimal user) (reminder_stage-HasNoColon days) in
    let (_, c') =
      parts_of (reminder_stage days') (decimal user') (reminder_stage-HasNoColon days') in
    (
      decimal-injective id id' ids,
      decimal-injective user user' (sym c ∙ ap after_colon second ∙ c'),
    )
