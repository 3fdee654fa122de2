-- ===== src/Consumer/Concurrently/Batches.antt =====
-- The requests into which submitConsumeRequest cuts its messages.
use test.Prelude.{
  ℕ, zero, suc, ◌≤◌, ◌≡◌, refl, ap, ◌∙◌, arith, List, [], ◌∷◌, ◌++◌, length, take, drop,
  take-append-drop, length-take, length-drop, min,
}
use test.Message.MessageExt.{MessageExt}
use test.Consumer.Concurrently.{batches, submit_consume_request}

abbrev pub joined : List (List MessageExt) → List MessageExt
joined [] = []
joined (b ∷ bs) = b ++ joined bs

abbrev pub AllSized : ℕ → List (List MessageExt) → Type 0
AllSized n [] = Unit {0}
AllSized n (b ∷ bs) = ((1 ≤ length b) × (length b ≤ n)) × AllSized n bs

enough_fuel :
    (fuel n : ℕ) (msgs : List MessageExt)
    → length msgs ≤ fuel
    → 1 ≤ n
    → (joined (batches fuel n msgs) ≡ msgs) × AllSized n (batches fuel n msgs)
unfolding batches
enough_fuel zero n [] h p = (refl, tt)
enough_fuel zero n (msg ∷ msgs) h p = absurd (omega (arith, h))
enough_fuel (suc fuel) n [] h p = (refl, tt)
enough_fuel (suc fuel) n (msg ∷ msgs) h p =
    let size : length (take n (msg ∷ msgs)) ≡ min n (length (msg ∷ msgs)) =
      length-take n (msg ∷ msgs) in
    let rest =
      enough_fuel fuel n (drop n (msg ∷ msgs)) (omega (arith, length-drop n (msg ∷ msgs), h, p))
        p in
    (
      ap (λ l. take n (msg ∷ msgs) ++ l) rest.0 ∙ take-append-drop n (msg ∷ msgs),
      ((omega (arith, size, p), omega (arith, size)), rest.1),
    )

-- With a batch size that is not 0, submitConsumeRequest hands every message to exactly one request, in
-- order; each request has one message at least and no more than the batch size.
pub submit_consume_request-joined :
    (batch_size : ℕ) (msgs : List MessageExt)
    → 1 ≤ batch_size
    → (joined (submit_consume_request batch_size msgs) ≡ msgs)
      × AllSized batch_size (submit_consume_request batch_size msgs)
unfolding submit_consume_request
submit_consume_request-joined batch_size msgs p =
    enough_fuel (length msgs) batch_size msgs (omega arith) p
