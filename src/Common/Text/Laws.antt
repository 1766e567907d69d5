-- ===== src/Common/Text/Laws.antt =====
-- Equality and the decimal notation of texts.
use tax_professional_managem.Common.{
  ℕ, suc, ◌+◌, ◌-◌, ◌/◌, ◌%◌, ◌<◌, ◌≤◌, ◌≡◌, refl, ◌↔◌, true, [], ◌∷◌, le→ltb, lt→ltb, arith,
}
use tax_professional_managem.Common.Text.{Text, text_eq, decimal_onto, decimal}

pub text_eq-eq : (s t : Text) → text_eq s t ≡ true → s ≡ t
unfolding text_eq
text_eq-eq [] [] e = refl
text_eq-eq [] (y ∷ t) e = cc
text_eq-eq (x ∷ s) [] e = cc
text_eq-eq (x ∷ s) (y ∷ t) e = ground (arith, text_eq-eq s t)

pub text_eq_self : (s : Text) → text_eq s s ≡ true
unfolding text_eq
text_eq_self [] = refl
text_eq_self (x ∷ s) = ground (arith, text_eq_self s)

pub text_eq_iff : (s t : Text) → (text_eq s t ≡ true) ↔ (s ≡ t)
text_eq_iff s t = (text_eq-eq s t, λ e. cc (text_eq_self s))

pub text_eq_comm : (s t : Text) → text_eq s t ≡ text_eq t s
unfolding text_eq
text_eq_comm [] [] = refl
text_eq_comm [] (y ∷ t) = refl
text_eq_comm (x ∷ s) [] = refl
text_eq_comm (x ∷ s) (y ∷ t) = ground (arith, text_eq_comm s t)

-- Four digits are written for the numbers from 1000 to 9999.
pub decimal_four :
    (n : ℕ)
    → 1000 ≤ n
    → n < 10000
    → decimal n
      ≡ (n / 1000 + b'0') ∷ (n / 100 % 10 + b'0') ∷ (n / 10 % 10 + b'0') ∷ (n % 10 + b'0') ∷ []
unfolding decimal decimal_onto
decimal_four n lo hi =
    let rounds : n + 1 ≡ suc (suc (suc (suc (n - 3)))) = omega arith in
    let tens : n / 10 / 10 ≡ n / 100 = omega arith in
    let hundreds : n / 100 / 10 ≡ n / 1000 = omega arith in
    rw (
      rounds,
      le→ltb n 10 (omega arith),
      le→ltb (n / 10) 10 (omega arith),
      tens,
      le→ltb (n / 100) 10 (omega arith),
      hundreds,
      lt→ltb (n / 1000) 10 (omega arith),
    )
