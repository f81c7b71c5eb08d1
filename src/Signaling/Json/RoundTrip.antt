-- ===== src/Signaling/Json/RoundTrip.antt =====
-- What one peer serialises the other one parses.
use fubble.Base.{◌≡◌, String, some, text_discrete, arith}
use fubble.Signaling.Message.{
  Message, offer, answer, ice_candidate, create_offer, registration, want_to_negotiate,
}
use fubble.Signaling.Json.{JsonLibrary, ok, parse, serialize}

-- Every message survives the wire: its text parses to the message itself.
pub parse-serialize : (lib : JsonLibrary) (m : Message) → parse lib (serialize lib m) ≡ ok m
unfolding parse serialize text_discrete
parse-serialize lib (offer o) = simp (lib.at-object, lib.as_text-text, lib.parse_text-dump)
parse-serialize lib (answer a) = simp (lib.at-object, lib.as_text-text, lib.parse_text-dump)
parse-serialize lib (ice_candidate c) =
    simp (lib.at-object, lib.as_text-text, lib.as_number-number, lib.parse_text-dump)
parse-serialize lib create_offer = simp (lib.at-object, lib.as_text-text, lib.parse_text-dump)
parse-serialize lib (registration r) = simp (lib.at-object, lib.as_text-text, lib.parse_text-dump)
parse-serialize lib want_to_negotiate = simp (lib.at-object, lib.as_text-text, lib.parse_text-dump)

-- The word that `serialize` writes as the type of a message.
abbrev pub tag : Message → String
tag (offer o) = "offer"
tag (answer a) = "answer"
tag (ice_candidate c) = "ice_candidate"
tag create_offer = "create_offer"
tag (registration r) = "registration"
tag want_to_negotiate = "want_to_negotiate"

-- A text is read as a message only if it parses and its type is the word for that message.
pub parse_sound :
    (lib : JsonLibrary) (w : lib.Text) (m : Message)
    → parse lib w ≡ ok m
    → (j : lib.Json) × (lib.parse_text w ≡ some j) × (lib.as_text (lib.at j "type") ≡ some (tag m))
unfolding parse
parse_sound lib w m h = ground arith
