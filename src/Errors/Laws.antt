-- ===== src/Errors/Laws.antt =====
-- What the filter of apps/api/src/common/filters keeps from the clients.
use tax_professional_managem.Common.{◌≡◌, true, arith, ◌==◌}
use tax_professional_managem.Errors.{Exception, answer_for, unexpected}

-- Whatever has been thrown, an answer with status 500 says nothing of it but that an unexpected
-- error occurred.
pub answer_for_hides :
    (e : Exception) → ((answer_for e).status == 500) ≡ true → (answer_for e).message ≡ unexpected
unfolding answer_for
answer_for_hides e h = ground arith
