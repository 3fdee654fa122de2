-- ===== src/Common/Validators.antt =====
-- src/common/Validators.cpp, with isBlank of src/common/UtilAll.cpp: the checks of a message before it
-- is sent and of a group. The exceptions are told apart by what they say.
use test.Prelude.{
  ℕ, ◌≡◌, ◌≢◌, ◌≤◌, ◌↔◌, ◌⊎◌, inl, inr, sym, ap, ◌∙◌, Bool-cases, refl, arith, Bytes, Bool, true,
  false, ◌||◌, Option, none, some, [], ◌∷◌, length, ltb, ◌==◌, if◌then◌else◌,
}
use test.SortedMap.Keys.{same_bytes, same_bytes_iff}

-- " \t\r\n"
abbrev pub is_whitespace : ℕ → Bool
is_whitespace c = (c == 32) || (c == 9) || (c == 13) || (c == 10)

unfoldable pub is_blank : Bytes → Bool
is_blank [] = true
is_blank (c ∷ text) = let rest = is_blank text in if is_whitespace c then rest else false

-- "TBW102"
abbrev pub default_topic : Bytes
default_topic = b'T' ∷ b'B' ∷ b'W' ∷ b'1' ∷ b'0' ∷ b'2' ∷ []

abbrev pub character_max_length : ℕ
character_max_length = 255

pub data Violation : Type 0 where
  topic_is_blank topic_is_too_long topic_is_default topic_has_illegal_characters : Violation
  group_is_blank group_is_too_long group_has_illegal_characters : Violation
  body_is_null body_is_empty body_is_too_long : Violation

-- The pattern "^[a-zA-Z0-9_-]+$" is not blank, and no text is matched against it.
unfoldable pub regular_expression_matcher : Bytes → Bool
regular_expression_matcher origin = if is_blank origin then false else true

-- checkTopic; `none` where it returns.
unfoldable pub check_topic : Bytes → Option Violation
check_topic topic =
    if is_blank topic
    then some topic_is_blank
    else if ltb character_max_length (length topic)
    then some topic_is_too_long
    else if same_bytes topic default_topic
    then some topic_is_default
    else if regular_expression_matcher topic
    then none
    else some topic_has_illegal_characters

unfoldable pub check_group : Bytes → Option Violation
check_group group =
    if is_blank group
    then some group_is_blank
    else if regular_expression_matcher group
    then if ltb character_max_length (length group) then some group_is_too_long else none
    else some group_has_illegal_characters

-- checkMessage; the body is NULL or of some length, and `max_message_size` is not negative.
abbrev pub check_body : Option Bytes → ℕ → Option Violation
check_body none max_message_size = some body_is_null
check_body (some body) max_message_size =
    if length body == 0
    then some body_is_empty
    else if ltb max_message_size (length body)
    then some body_is_too_long
    else none

abbrev pub or_else : Option Violation → Option Violation → Option Violation
or_else none next = next
or_else (some v) next = some v

unfoldable pub check_message : Bytes → Option Bytes → ℕ → Option Violation
check_message topic body max_message_size =
    or_else (check_topic topic) (check_body body max_message_size)

-- A text with a character in it that is no space, tab, carriage return or line feed.
abbrev pub HasInk : Bytes → Type 0
HasInk [] = ⊥
HasInk (c ∷ text) = ((c ≢ 32) × (c ≢ 9) × (c ≢ 13) × (c ≢ 10)) ⊎ HasInk text

is_whitespace-true :
    (c : ℕ) → is_whitespace c ≡ true → ((c ≢ 32) × (c ≢ 9) × (c ≢ 13) × (c ≢ 10)) → ⊥
is_whitespace-true c e h = ground (arith, h.0, h.1, h.2, h.3)

is_whitespace-false : (c : ℕ) → is_whitespace c ≡ false → (c ≢ 32) × (c ≢ 9) × (c ≢ 13) × (c ≢ 10)
is_whitespace-false c e =
    ((λ f. ground arith), (λ f. ground arith), (λ f. ground arith), λ f. ground arith)

is_blank-HasInk : (text : Bytes) → (is_blank text ≡ false) ↔ HasInk text
unfolding is_blank
is_blank-HasInk [] = ((λ e. absurd (cc e)), λ h. absurd h)
is_blank-HasInk (c ∷ text) =
    let rest = is_blank-HasInk text in
    elim (Bool-cases (is_whitespace c)) [
      | inl e ↦ (
        (λ h. inr (rest.0 (sym (ap (λ b. if b then is_blank text else false) e) ∙ h))),
        λ h. ap (λ b. if b then is_blank text else false) e ∙ inked c text e rest h,
      )
      | inr e ↦ (
        (λ h. inl (is_whitespace-false c e)),
        λ h. ap (λ b. if b then is_blank text else false) e,
      )
    ]
  where
    inked :
        (c : ℕ) (text : Bytes)
        → is_whitespace c ≡ true
        → (is_blank text ≡ false) ↔ HasInk text
        → HasInk (c ∷ text)
        → is_blank text ≡ false
    inked c text e rest (inl h) = absurd (is_whitespace-true c e h)
    inked c text e rest (inr h) = rest.1 h

check_topic-none :
    (topic : Bytes)
    → (check_topic topic ≡ none) ↔ (HasInk topic × (length topic ≤ 255) × (topic ≢ default_topic))
unfolding check_topic regular_expression_matcher
check_topic-none topic = (
  (λ h. (
    (is_blank-HasInk topic).0 (ground arith),
    ground arith,
    λ e. ground (arith, same_bytes_iff topic default_topic),
  )),
  λ h. passes ((is_blank-HasInk topic).1 h.0) (h.1, h.2),
)
  where
    passes :
        is_blank topic ≡ false
        → (length topic ≤ 255) × (topic ≢ default_topic)
        → check_topic topic ≡ none
    passes b h = ground (arith, h.0, h.1, same_bytes_iff topic default_topic)

check_body-none :
    (body : Bytes) (n : ℕ)
    → (check_body (some body) n ≡ none) ↔ ((1 ≤ length body) × (length body ≤ n))
check_body-none body n = ((λ h. (ground arith, ground arith)), λ h. ground arith)

-- A message with a body passes checkMessage exactly if its topic has a character that is not a space,
-- tab, carriage return or line feed, 255 characters at most and is not the default topic, and its body has one byte at least
-- and the greatest size at most. Any characters pass.
pub check_message-none :
    (topic body : Bytes) (max_message_size : ℕ)
    → (check_message topic (some body) max_message_size ≡ none) ↔ (
        (HasInk topic × (length topic ≤ 255) × (topic ≢ default_topic))
        × ((1 ≤ length body) × (length body ≤ max_message_size)))
unfolding check_message
check_message-none topic body n =
    both (check_topic topic) (check_topic-none topic) (check_body-none body n)
  where
    both :
        {A B : Type 0} {y : Option Violation} (x : Option Violation)
        → (x ≡ none) ↔ A
        → (y ≡ none) ↔ B
        → (or_else x y ≡ none) ↔ (A × B)
    both none f g = ((λ h. (f.0 refl, g.0 h)), λ h. g.1 h.1)
    both (some v) f g = ((λ h. absurd (cc h)), λ h. absurd (cc (f.1 h.0)))
