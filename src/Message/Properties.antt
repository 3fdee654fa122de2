-- ===== src/Message/Properties.antt =====
-- src/message/MessageDecoder.cpp (messageProperties2String, string2messageProperties) and Split of
-- src/common/UtilAll.cpp: the text of a message's properties. A property is its name, a byte 1, its
-- value and a byte 2. Split's search for the delimiter is a recursion on the text.
pub mod RoundTrip
use test.Prelude.{ℕ, ◌==◌, Bytes, Bool, List, [], ◌∷◌, ◌++◌, if◌then◌else◌}
use test.SortedMap.{Map, insert}
use test.SortedMap.Keys.{bytes_order}

abbrev pub name_value_separator : ℕ
name_value_separator = 1

abbrev pub property_separator : ℕ
property_separator = 2

abbrev pub on_first : ℕ → List Bytes → List Bytes
on_first c [] = (c ∷ []) ∷ []
on_first c (piece ∷ pieces) = (c ∷ piece) ∷ pieces

-- Split: the pieces between the delimiters, of which there is one at least.
unfoldable pub split : ℕ → Bytes → List Bytes
split delimiter [] = [] ∷ []
split delimiter (c ∷ text) =
    let rest = split delimiter text in if c == delimiter then [] ∷ rest else on_first c rest

unfoldable pub message_properties_to_string : Map Bytes Bytes → Bytes
message_properties_to_string [] = []
message_properties_to_string ((name, value) ∷ properties) =
    (name ++ name_value_separator ∷ value)
    ++ property_separator ∷ message_properties_to_string properties

-- A piece with other than two parts is skipped.
abbrev pub put_property : List Bytes → Map Bytes Bytes → Map Bytes Bytes
put_property (name ∷ value ∷ []) properties = insert name value properties
put_property parts properties = properties

unfoldable pub put_properties : List Bytes → Map Bytes Bytes → Map Bytes Bytes
put_properties [] properties = properties
put_properties (piece ∷ pieces) properties =
    put_properties pieces (put_property (split name_value_separator piece) properties)

-- string2messageProperties, into a map
unfoldable pub string_to_message_properties : Map Bytes Bytes → Bytes → Map Bytes Bytes
string_to_message_properties properties text =
    put_properties (split property_separator text) properties
