-- ===== src/Common/Tests.antt =====
-- compareAndIncreaseOnly with another thread that writes in between.
use test.Prelude.{◌≡◌, [], ◌∷◌}
use test.Prelude.{some, none, arith, inl}
use test.Common.Validators.{check_message, check_message-none}

-- "a b!" is no name of the pattern that the checks speak of.
check_message-none_example : check_message (97 ∷ 32 ∷ 98 ∷ 33 ∷ []) (some (1 ∷ [])) 131072 ≡ none
check_message-none_example = (check_message-none (97 ∷ 32 ∷ 98 ∷ 33 ∷ []) (1 ∷ []) 131072).1 (
  (inl ((λ e. cc), (λ e. cc), (λ e. cc), λ e. cc), omega arith, λ e. cc),
  (omega arith, omega arith),
)
