-- ===== src/Matrix/Reading.antt =====
-- What a room reads of a sync response, before the events are parsed: fubble/matrix/events.cpp and the
-- reading in fubble/matrix/room.cpp and fubble/matrix/chat.cpp. The JSON library is a parameter; so is
-- `starts_with` of boost. What is done when an exception is thrown stays done. The names of users,
-- which are updated on the way, are left out.
pub mod Wire
pub mod Described
pub mod Lost
use fubble.Base.{
  ℕ, ◌≡◌, Bool, true, false, String, same, Option, none, some, List, [], ◌∷◌, if◌then◌else◌,
}
use fubble.Signaling.Json.{lookup}
use fubble.Matrix.{
  JoinState, invite, join, leave, Room, Signal, Custom, Message, Event, member, room_name, message,
  custom, on_event, append_signals, sync_custom,
}

-- `thrown`: the library's `type_error`. `undefined`: `operator[]` of a constant value with a key that
-- is not there.
pub data Outcome (A : Type 0) : Type 0 where
  ok : A → Outcome A
  thrown undefined : Outcome A

infixl 5 ◌>>=◌
abbrev pub ◌>>=◌ : {A B : Type 0} → Outcome A → (A → Outcome B) → Outcome B
ok a >>= f = f a
thrown >>= f = thrown
undefined >>= f = undefined

-- What the code uses of nlohmann::json: `at` is `operator[]` of a constant value and `at_copy` that of
-- a value of one's own, where a missing key gives null; `items` is what a range-for goes through. And
-- `boost::starts_with`.
pub record Libraries : Type 1 where
  pub Json : Type 0
  pub null : Json
  pub text : String → Json
  pub number : ℕ → Json
  pub object : List (String × Json) → Json
  pub array : List Json → Json
  pub at : Json → String → Outcome Json
  pub at_copy : Json → String → Outcome Json
  pub find : Json → String → Option Json
  pub items : Json → List Json
  pub as_text : Json → Outcome String
  pub as_number : Json → Outcome ℕ
  pub dump : Json → String
  pub starts_with : String → String → Bool
  -- Documented: what a key of an object gives, what null gives, and that conversions give back what
  -- was put in.
  pub at-object :
      (l : List (String × Json)) (k : String)
      → at (object l) k ≡ elim (lookup k l) [ none ↦ undefined | some v ↦ ok v ]
  pub at_copy-object :
      (l : List (String × Json)) (k : String)
      → at_copy (object l) k ≡ elim (lookup k l) [ none ↦ ok null | some v ↦ ok v ]
  pub at_copy-null : (k : String) → at_copy null k ≡ ok null
  pub find-object : (l : List (String × Json)) (k : String) → find (object l) k ≡ lookup k l
  pub items-array : (l : List Json) → items (array l) ≡ l
  pub items-null : items null ≡ []
  pub as_text-text : (s : String) → as_text (text s) ≡ ok s
  pub as_text-null : as_text null ≡ thrown
  pub as_number-number : (n : ℕ) → as_number (number n) ≡ ok n
  pub starts_with-message : starts_with "m.room.message" "m." ≡ true
  pub starts_with-member : starts_with "m.room.member" "m." ≡ true
  pub starts_with-name : starts_with "m.room.name" "m." ≡ true

-- `event::room_event`.
pub record RoomEvent : Type 0 where
  pub origin_server_ts : ℕ
  pub sender : String
  pub room_id : Option String
  pub event_id : String
  pub type : String

-- What `parse` returns.
pub data Parsed : Type 0 where
  nothing : Parsed
  room_event : RoomEvent → String → Parsed
  room_state_event : Custom → Parsed

-- How the handling of events ends: the room and its signals so far.
pub data Handled : Type 0 where
  done threw : Room → List Signal → Handled
  lost : Handled

-- `s` are the signals so far.
abbrev pub attempt : {A : Type 0} → Outcome A → Room → List Signal → (A → Handled) → Handled
attempt (ok a) r s f = f a
attempt thrown r s f = threw r s
attempt undefined r s f = lost

abbrev pub after : List Signal → Room × List Signal → Handled
after s (r, s') = done r (append_signals s s')

abbrev pub prepend : List Signal → Handled → Handled
prepend s (done r s') = done r (append_signals s s')
prepend s (threw r s') = threw r (append_signals s s')
prepend s lost = lost

abbrev pub and_then : Handled → (Room → Handled) → Handled
and_then (done r s) f = prepend s (f r)
and_then (threw r s) f = threw r s
and_then lost f = lost

-- A membership of another word, which an assertion is against, is taken for joined.
unfoldable pub read_join_state : String → JoinState
read_join_state membership =
    if same membership "leave"
    then leave
    else (if same membership "join"
        then join
        else (if same membership "invite" then invite else join))

-- `room_states_impl::sync_event`, if it is a state event.
unfoldable pub sync_event : Parsed → Room → Room × List Signal
unfolding on_event
sync_event (room_state_event c) r = on_event (custom c) r
sync_event _ r = (r, [])

module _ (lib : Libraries) where
  open lib use {Json, at, at_copy, find, items, as_text, as_number, dump, starts_with}

  abbrev pub text_at : Json → String → Outcome String
  text_at j k = do v ← at j k; as_text v

  abbrev pub number_at : Json → String → Outcome ℕ
  number_at j k = do v ← at j k; as_number v

  abbrev pub text_at_copy : Json → String → Outcome String
  text_at_copy j k = do v ← at_copy j k; as_text v

  -- The text at a key that may be missing.
  abbrev pub text_if : Option Json → Outcome (Option String)
  text_if none = ok none
  text_if (some v) = do t ← as_text v; ok (some t)

  unfoldable pub parse_room_event : Json → Outcome RoomEvent
  parse_room_event event = do
    ts ← number_at event "origin_server_ts"
    sender ← text_at event "sender"
    room_id ← text_if (find event "room_id")
    event_id ← text_at event "event_id"
    type ← text_at event "type"
    ok (record {
      origin_server_ts = ts;
      sender = sender;
      room_id = room_id;
      event_id = event_id;
      type = type;
    })

  -- `event_parser_impl::on_event_m_room_message`.
  unfoldable pub parse_message : Json → Outcome Parsed
  unfolding parse_room_event
  parse_message event = do
    result ← parse_room_event event
    content ← at event "content"
    type ← text_at_copy content "msgtype"
    if same type "m.text"
        then (do body ← text_at_copy content "body"; ok (room_event result body))
        else ok nothing

  unfoldable pub parse_state_event : Json → Outcome Parsed
  unfolding parse_room_event
  parse_state_event event = do
    result ← parse_room_event event
    key ← text_at event "state_key"
    if starts_with result.type "m." then ok nothing else (do
      content ← at event "content"
      ok (
          room_state_event (record {
            type = result.type;
            key = key;
            content = dump content;
            timestamp = result.origin_server_ts;
          })))

  abbrev pub contains : Option Json → Bool
  contains none = false
  contains (some v) = true

  unfoldable pub parse : Json → Outcome Parsed
  unfolding parse_message parse_state_event
  parse event = do
    type ← text_at event "type"
    if same type "m.room.message"
        then parse_message event
        else (if contains (find event "state_key") then parse_state_event event else ok nothing)

  -- `chat::on_event_m_room_message`.
  unfoldable pub read_message : Json → Outcome Event
  read_message event = do
    content ← at event "content"
    body ← text_at_copy content "body"
    ts ← number_at event "origin_server_ts"
    sender ← text_at event "sender"
    ok (message (record { body = body; timestamp = ts; sender = sender }))

  -- `room::on_event_m_room_member`, up to the members.
  unfoldable pub read_member : Json → Outcome Event
  unfolding read_join_state
  read_member event = do
    user_id ← text_at event "state_key"
    ts ← number_at event "origin_server_ts"
    content ← at event "content"
    membership ← text_at content "membership"
    display_name ← text_if (find content "displayname")
    ok (member user_id (read_join_state membership) ts)

  -- `room::on_event_m_room_name`.
  unfoldable pub read_name : Json → Outcome Event
  read_name event = do
    content ← at event "content"
    name ← text_at content "name"
    ok (room_name name)

  abbrev pub handle : Outcome Event → Room → List Signal → Handled
  handle e r s = attempt e r s (λ e'. after s (on_event e' r))

  -- The comparisons of the type in turn.
  unfoldable pub by_type : String → Json → Room → List Signal → Handled
  unfolding read_message read_member read_name
  by_type type event r s =
      if same type "m.room.message"
      then handle (read_message event) r s
      else (if same type "m.room.member"
          then handle (read_member event) r s
          else (if same type "m.room.name" then handle (read_name event) r s else done r s))

  unfoldable pub on_json_event : Json → Room → Handled
  unfolding parse by_type sync_event
  on_json_event event r = attempt (parse event) r [] (λ parsed.
      attempt (text_at event "type") (sync_event parsed r).0 (sync_event parsed r).1
        (λ type. by_type type event (sync_event parsed r).0 (sync_event parsed r).1))

  unfoldable pub on_json_events : List Json → Room → Handled
  unfolding on_json_event
  on_json_events [] r = done r []
  on_json_events (e ∷ es) r = and_then (on_json_event e r) (λ r'. on_json_events es r')

  -- `our_room[part]["events"]` of a copy.
  unfoldable pub events_at : Json → String → Outcome (List Json)
  events_at our_room part = do
    p ← at_copy our_room part
    events ← at_copy p "events"
    ok (items events)

  -- The room's part of the response, timeline before state.
  unfoldable pub sync_room : Json → Room → Handled
  unfolding events_at on_json_events
  sync_room our_room r = attempt (events_at our_room "timeline") r [] (λ timeline.
      and_then (on_json_events timeline r)
        (λ r'. attempt (events_at our_room "state") r' [] (λ state. on_json_events state r')))

  unfoldable pub sync_json : Json → Room → Handled
  unfolding sync_room
  sync_json content r = attempt (at content "rooms") r [] (λ rooms.
      attempt (at rooms "join") r [] (λ joined_rooms. elim (find joined_rooms r.id) [
        | none ↦ done r []
        | some our_room ↦ sync_room our_room r
      ]))
