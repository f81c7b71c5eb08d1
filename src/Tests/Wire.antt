-- ===== src/Tests/Wire.antt =====
-- Messages as text, with a JSON library whose texts are its values.
use fubble.Base.{
  same, if◌then◌else◌, arith, ℤ, ◌≡◌, refl, String, Option, none, some, List, [], ◌∷◌, ◌++◌,
}
use fubble.Signaling.Message.{Message, offer}
use fubble.Signaling.Json.{JsonLibrary, lookup, parse, serialize, ok}
use fubble.Signaling.Json.RoundTrip.{parse-serialize, parse_sound}
use fubble.Signaling.ReadLoop.{message}
use fubble.Signaling.ReadLoop.Server
use fubble.Signaling.ReadLoop.Ends.{arriving, outcome, readable, ending, server_run_ends}

mutual
  data Value : Type 0 where
    null : Value
    text : String → Value
    number : ℤ → Value
    object : Members → Value

  data Members : Type 0 where
    nothing : Members
    member : String → Value → Members → Members

abbrev members : List (String × Value) → Members
members [] = nothing
members ((k, v) ∷ l) = member k v (members l)

abbrev find : String → Members → Value
find k nothing = null
find k (member j v l) = if same j k then v else find k l

abbrev at : Value → String → Value
at (object l) k = find k l
at _ k = null

abbrev as_text : Value → Option String
as_text (text s) = some s
as_text _ = none

abbrev as_number : Value → Option ℤ
as_number (number n) = some n
as_number _ = none

find_lem :
    (k : String) (l : List (String × Value))
    → find k (members l) ≡ elim (lookup k l) [ none ↦ null | some v ↦ v ]
find_lem k [] = refl
find_lem k ((j, v) ∷ l) = ground (arith, find_lem k l)

abbrev values : JsonLibrary
values = record {
  Json = Value;
  Text = Value;
  null = null;
  text = text;
  number = number;
  object = λ l. object (members l);
  at = at;
  as_text = as_text;
  as_number = as_number;
  dump = λ j. j;
  parse_text = λ j. some j;
  at-object = find_lem;
  as_text-text = λ s. refl;
  as_number-number = λ n. refl;
  parse_text-dump = λ j. refl;
}

abbrev an_offer : Message
an_offer = offer (record { sdp = "v=0" })

parse-serialize_example : parse values (serialize values an_offer) ≡ ok an_offer
parse-serialize_example = parse-serialize values an_offer

parse_sound_example :
    (j : Value) × (some (serialize values an_offer) ≡ some j)
    × (as_text (at j "type") ≡ some "offer")
parse_sound_example =
    parse_sound values (serialize values an_offer) an_offer (parse-serialize values an_offer)

server_run_ends_example :
    Server.run values (arriving values (an_offer ∷ []) (message null ∷ []))
    ≡ outcome
        ((an_offer ∷ []) ++ readable values (message null ∷ []))
        (ending values (message null ∷ []))
server_run_ends_example = server_run_ends values (an_offer ∷ []) (message null ∷ [])
