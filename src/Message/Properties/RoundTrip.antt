-- ===== src/Message/Properties/RoundTrip.antt =====
-- That the text of properties is read back as them.
use test.Prelude.{
  ℕ, ◌≡◌, ◌≢◌, refl, sym, ap, ◌∙◌, subst, arith, Bytes, [], ◌∷◌, ◌++◌, append_assoc, append-nil,
}
use test.SortedMap.{Map, IsOrdered}
use test.SortedMap.Splits.{insert-last, Below-middle}
use test.SortedMap.Keys.{bytes_order}
use test.Message.Properties.{
  split, put_property, put_properties, message_properties_to_string, string_to_message_properties,
}

-- The byte does not stand in the text.
abbrev pub Free : ℕ → Bytes → Type 0
Free d [] = Unit {0}
Free d (c ∷ text) = (c ≢ d) × Free d text

abbrev pub AllFree : Map Bytes Bytes → Type 0
AllFree [] = Unit {0}
AllFree ((name, value) ∷ properties) =
    (Free 1 name × Free 2 name × Free 1 value × Free 2 value) × AllFree properties

split-front : (d : ℕ) (a rest : Bytes) → Free d a → split d (a ++ d ∷ rest) ≡ a ∷ split d rest
unfolding split
split-front d [] rest h = ground arith
split-front d (c ∷ a) rest h = ground (arith, split-front d a rest h.1)

split-whole : (d : ℕ) (a : Bytes) → Free d a → split d a ≡ a ∷ []
unfolding split
split-whole d [] h = refl
split-whole d (c ∷ a) h = ground (arith, split-whole d a h.1)

Free-append : (d : ℕ) (a b : Bytes) → Free d a → Free d b → Free d (a ++ b)
Free-append d [] b h k = k
Free-append d (c ∷ a) b h k = (h.0, Free-append d a b h.1 k)

piece-parts :
    (name value : Bytes)
    → Free 1 name
    → Free 1 value
    → split 1 (name ++ 1 ∷ value) ≡ name ∷ value ∷ []
piece-parts name value n v = split-front 1 name value n ∙ ap (λ l. name ∷ l) (split-whole 1 value v)

read-append :
    (m acc : Map Bytes Bytes)
    → AllFree m
    → IsOrdered (acc ++ m)
    → put_properties (split 2 (message_properties_to_string m)) acc ≡ acc ++ m
unfolding message_properties_to_string put_properties split
read-append [] acc f h = sym (append-nil acc)
read-append ((name, value) ∷ m) acc f h =
    ap (λ ps. put_properties ps acc)
      (split-front 2 (name ++ 1 ∷ value) (message_properties_to_string m)
        (Free-append 2 name (1 ∷ value) f.0.1 ((λ e. cc e), f.0.3)))
    ∙ ap
        (λ parts.
          put_properties (split 2 (message_properties_to_string m)) (put_property parts acc))
        (piece-parts name value f.0.0 f.0.2)
    ∙ ap (put_properties (split 2 (message_properties_to_string m)))
        (insert-last name value acc (Below-middle name value acc m h))
    ∙ read-append m (acc ++ (name, value) ∷ []) f.1
        (subst (λ s. IsOrdered s) (sym (append_assoc acc ((name, value) ∷ []) m)) h)
    ∙ append_assoc acc ((name, value) ∷ []) m

-- The text of a message's properties is read back, into an empty map, as the same properties; if
-- neither separator stands in a name or a value.
pub string_to_message_properties-message_properties_to_string :
    (properties : Map Bytes Bytes)
    → IsOrdered properties
    → AllFree properties
    → string_to_message_properties [] (message_properties_to_string properties) ≡ properties
unfolding string_to_message_properties
string_to_message_properties-message_properties_to_string properties h f =
    read-append properties [] f h
