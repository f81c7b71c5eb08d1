-- ===== src/Tests/Reading.antt =====
-- Sync responses as JSON, with a library whose values are trees.
use fubble.Base.{
  ℕ, ◌≡◌, refl, Bool, true, false, same, String, Option, none, some, List, [], ◌∷◌, ◌++◌,
  if◌then◌else◌, text_discrete,
}
use fubble.Signaling.Json.{lookup}
use fubble.Matrix.{new_room, sync, on_events}
use fubble.Matrix.Reading.{Libraries, Outcome, ok, thrown, undefined, done, threw, sync_json}
use fubble.Matrix.Reading.Described.{written, meanings, response, room_part, sync_json-written}
use fubble.Matrix.Reading.Wire.{Envelope, Wire, note, named, membership, setting, banned}
use fubble.Matrix.Reading.Lost.{redacted, sync_json-redacted}

mutual
  data Value : Type 0 where
    null : Value
    text : String → Value
    number : ℕ → Value
    object : Members → Value
    array : Items → Value

  data Members : Type 0 where
    no_member : Members
    member : String → Value → Members → Members

  data Items : Type 0 where
    no_item : Items
    item : Value → Items → Items

abbrev members : List (String × Value) → Members
members [] = no_member
members ((k, v) ∷ l) = member k v (members l)

abbrev items_of : List Value → Items
items_of [] = no_item
items_of (v ∷ l) = item v (items_of l)

abbrev list_of : Items → List Value
list_of no_item = []
list_of (item v l) = v ∷ list_of l

list_of-items_of : (l : List Value) → list_of (items_of l) ≡ l
list_of-items_of [] = refl
list_of-items_of (v ∷ l) = rw (list_of-items_of l) refl

abbrev search_member : String → Members → Option Value
search_member k no_member = none
search_member k (member j v l) = if same j k then some v else search_member k l

search_member-members :
    (l : List (String × Value)) (k : String) → search_member k (members l) ≡ lookup k l
search_member-members [] k = refl
search_member-members ((j, v) ∷ l) k = rw (search_member-members l k) refl

abbrev find : Value → String → Option Value
find (object l) k = search_member k l
find _ k = none

abbrev at : Value → String → Outcome Value
at (object l) k = elim (search_member k l) [ none ↦ undefined | some v ↦ ok v ]
at _ k = thrown

abbrev at_copy : Value → String → Outcome Value
at_copy (object l) k = elim (search_member k l) [ none ↦ ok null | some v ↦ ok v ]
at_copy null k = ok null
at_copy _ k = thrown

abbrev items : Value → List Value
items (array l) = list_of l
items _ = []

abbrev as_text : Value → Outcome String
as_text (text s) = ok s
as_text _ = thrown

abbrev as_number : Value → Outcome ℕ
as_number (number n) = ok n
as_number _ = thrown

-- It tells the types of matrix from others.
abbrev starts_with : String → String → Bool
starts_with t p =
    if same t "m.room.message"
    then true
    else (if same t "m.room.member" then true else same t "m.room.name")

starts_with_message : starts_with "m.room.message" "m." ≡ true
unfolding text_discrete
starts_with_message = refl

starts_with_member : starts_with "m.room.member" "m." ≡ true
unfolding text_discrete
starts_with_member = refl

starts_with_name : starts_with "m.room.name" "m." ≡ true
unfolding text_discrete
starts_with_name = refl

abbrev trees : Libraries
trees = record {
  Json = Value;
  null = null;
  text = text;
  number = number;
  object = λ l. object (members l);
  array = λ l. array (items_of l);
  at = at;
  at_copy = at_copy;
  find = find;
  items = items;
  as_text = as_text;
  as_number = as_number;
  dump = λ j. "{}";
  starts_with = starts_with;
  at-object = λ l k. rw (search_member-members l k, at) refl;
  at_copy-object = λ l k. rw (search_member-members l k, at_copy) refl;
  at_copy-null = λ k. refl;
  find-object = search_member-members;
  items-array = list_of-items_of;
  items-null = refl;
  as_text-text = λ s. refl;
  as_text-null = refl;
  as_number-number = λ n. refl;
  starts_with-message = starts_with_message;
  starts_with-member = starts_with_member;
  starts_with-name = starts_with_name;
}

abbrev by_ann : Envelope
by_ann = record { sender = "ann"; origin_server_ts = 7; event_id = "e"; room_id = none }

abbrev a_timeline : List (Wire Value)
a_timeline =
    membership by_ann "ann" banned none
    ∷ note by_ann "m.image" "cat.png"
    ∷ setting by_ann "io.fubble.audio_state" "ann" null
    ∷ []

abbrev a_state : List (Wire Value)
a_state = named by_ann "kitchen" ∷ []

setting_differs : starts_with "io.fubble.audio_state" "m." ≡ false
unfolding text_discrete
setting_differs = refl

sync_json-written_example :
    let s =
      sync
        (record { timeline = meanings trees a_timeline; state = meanings trees a_state })
        (new_room "r") in
    sync_json trees
      (response trees "r" (room_part trees (written trees a_timeline) (written trees a_state)) [])
      (new_room "r")
    ≡ done s.0 s.1
sync_json-written_example =
    sync_json-written trees a_timeline a_state (new_room "r") [] (tt, (tt, (setting_differs, tt)))
      (tt, tt)

sync_json-redacted_example :
    let s = on_events (meanings trees a_state) (new_room "r") in
    sync_json trees
      (response trees "r"
        (room_part trees
          (written trees a_state ++ redacted trees by_ann ∷ written trees a_timeline)
          (written trees a_state))
        [])
      (new_room "r")
    ≡ threw s.0 s.1
sync_json-redacted_example =
    sync_json-redacted trees a_state by_ann (written trees a_timeline) (written trees a_state)
      (new_room "r") [] (tt, tt)
