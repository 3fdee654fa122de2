-- ===== src/Message/Tests.antt =====
-- The equality of two concrete queues.
use test.Prelude.{◌≡◌, refl, [], ◌∷◌}
use test.Prelude.Int.{pos}
use test.Prelude.{Bytes}
use test.SortedMap.{Map}
use test.SortedMap.Keys.{cmp_bytes, bytes_order}
use test.Message.Properties.{message_properties_to_string, string_to_message_properties}
use test.Message.Properties.RoundTrip.{string_to_message_properties-message_properties_to_string}
use test.Message.MessageQueue.{MessageQueue}

abbrev queue : MessageQueue
queue = record { topic = 116 ∷ []; broker_name = 98 ∷ []; queue_id = pos 1 }

abbrev properties : Map Bytes Bytes
properties = (97 ∷ [], 49 ∷ []) ∷ (98 ∷ [], []) ∷ []

string_to_message_properties-message_properties_to_string_example :
    string_to_message_properties [] (message_properties_to_string properties) ≡ properties
unfolding cmp_bytes
string_to_message_properties-message_properties_to_string_example =
    string_to_message_properties-message_properties_to_string properties ((refl, tt), (tt, tt))
      (
        (((λ e. cc), tt), ((λ e. cc), tt), ((λ e. cc), tt), ((λ e. cc), tt)),
        ((((λ e. cc), tt), ((λ e. cc), tt), tt, tt), tt),
      )
