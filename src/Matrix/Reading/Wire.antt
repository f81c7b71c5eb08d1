-- ===== src/Matrix/Reading/Wire.antt =====
-- Events as the specification of matrix describes them, their JSON and their meaning.
use fubble.Base.{
  ℕ, ◌≡◌, refl, false, String, same, Option, none, some, List, [], ◌∷◌, text_discrete,
}
use fubble.Signaling.Json.{lookup}
use fubble.Matrix.{JoinState, invite, join, leave, Event, member, room_name, message, custom}
use fubble.Matrix.Reading.{Libraries, ok, read_join_state, text_if}

-- What every event has.
pub record Envelope : Type 0 where
  pub sender : String
  pub origin_server_ts : ℕ
  pub event_id : String
  pub room_id : Option String

pub data Membership : Type 0 where
  invited joined left banned knocking : Membership

-- An event as the specification of matrix describes it: `note` is any message, also one that is no
-- text, and `setting` the state of another program, whose content is any value.
pub data Wire (J : Type 0) : Type 0 where
  note : Envelope → String → String → Wire J
  named : Envelope → String → Wire J
  membership : Envelope → String → Membership → Option String → Wire J
  setting : Envelope → String → String → J → Wire J

abbrev pub word : Membership → String
word invited = "invite"
word joined = "join"
word left = "leave"
word banned = "ban"
word knocking = "knock"

-- What becomes of each: a user who is banned or knocks counts as joined.
abbrev pub state_of : Membership → JoinState
state_of invited = invite
state_of left = leave
state_of _ = join

pub read_join_state-word : (m : Membership) → read_join_state (word m) ≡ state_of m
unfolding read_join_state text_discrete
read_join_state-word invited = refl
read_join_state-word joined = refl
read_join_state-word left = refl
read_join_state-word banned = refl
read_join_state-word knocking = refl

module _ (lib : Libraries) where
  open lib use {Json, text, number, object, array, dump, starts_with}

  abbrev pub with_text : String → Option String → List (String × Json) → List (String × Json)
  with_text k none l = l
  with_text k (some v) l = (k, text v) ∷ l

  abbrev pub envelope : Envelope → String → List (String × Json) → Json
  envelope e type l = object (
      ("type", text type)
      ∷ ("sender", text e.sender)
      ∷ ("origin_server_ts", number e.origin_server_ts)
      ∷ ("event_id", text e.event_id)
      ∷ with_text "room_id" e.room_id l)

  abbrev pub write : Wire Json → Json
  write (note e msgtype body) =
      envelope e "m.room.message"
        (("content", object (("msgtype", text msgtype) ∷ ("body", text body) ∷ [])) ∷ [])
  write (named e name) =
      envelope e "m.room.name"
        (("state_key", text "") ∷ ("content", object (("name", text name) ∷ [])) ∷ [])
  write (membership e user_id m display_name) = envelope e "m.room.member" (
      ("state_key", text user_id)
      ∷ (
        "content",
        object (("membership", text (word m)) ∷ with_text "displayname" display_name []),
      )
      ∷ [])
  write (setting e type key content) =
      envelope e type (("state_key", text key) ∷ ("content", content) ∷ [])

  abbrev pub meaning : Wire Json → Event
  meaning (note e msgtype body) =
      message (record { body = body; timestamp = e.origin_server_ts; sender = e.sender })
  meaning (named e name) = room_name name
  meaning (membership e user_id m display_name) = member user_id (state_of m) e.origin_server_ts
  meaning (setting e type key content) =
      custom
        (record { type = type; key = key; content = dump content; timestamp = e.origin_server_ts })

  -- The types that start with "m." are those of matrix itself.
  abbrev pub IsWire : Wire Json → Type 0
  IsWire (setting e type key content) = starts_with type "m." ≡ false
  IsWire _ = Unit {0}

  at-envelope_type :
      (e : Envelope) (type : String) (l : List (String × Json))
      → lib.at (envelope e type l) "type" ≡ ok (text type)
  unfolding text_discrete
  at-envelope_type e type l = lib.at-object _ "type"

  at-envelope_ts :
      (e : Envelope) (type : String) (l : List (String × Json))
      → lib.at (envelope e type l) "origin_server_ts" ≡ ok (number e.origin_server_ts)
  unfolding text_discrete
  at-envelope_ts e type l = lib.at-object _ "origin_server_ts"

  at-envelope_sender :
      (e : Envelope) (type : String) (l : List (String × Json))
      → lib.at (envelope e type l) "sender" ≡ ok (text e.sender)
  unfolding text_discrete
  at-envelope_sender e type l = lib.at-object _ "sender"

  lookup-with_room :
      (k : String) (q : Option String) (l : List (String × Json))
      → same "room_id" k ≡ false
      → lookup k (with_text "room_id" q l) ≡ lookup k l
  lookup-with_room k none l h = refl
  lookup-with_room k (some v) l h = rw h refl

  pub at-envelope_content :
      (e : Envelope) (type : String) (l : List (String × Json))
      → lib.at (envelope e type l) "content" ≡ lib.at (object l) "content"
  unfolding text_discrete
  at-envelope_content e type l = simp (lib.at-object, lookup-with_room "content" e.room_id l refl)

  pub at-envelope_key :
      (e : Envelope) (type : String) (l : List (String × Json))
      → lib.at (envelope e type l) "state_key" ≡ lib.at (object l) "state_key"
  unfolding text_discrete
  at-envelope_key e type l = simp (lib.at-object, lookup-with_room "state_key" e.room_id l refl)

  pub find-envelope_key :
      (e : Envelope) (type : String) (l : List (String × Json))
      → lib.find (envelope e type l) "state_key" ≡ lookup "state_key" l
  unfolding text_discrete
  find-envelope_key e type l = simp (lib.find-object, lookup-with_room "state_key" e.room_id l refl)

  at-envelope_id :
      (e : Envelope) (type : String) (l : List (String × Json))
      → lib.at (envelope e type l) "event_id" ≡ ok (text e.event_id)
  unfolding text_discrete
  at-envelope_id e type l = lib.at-object _ "event_id"

  text_if-envelope_room :
      (e : Envelope) (type : String) (l : List (String × Json))
      → lookup "room_id" l ≡ none
      → text_if lib (lib.find (envelope e type l) "room_id") ≡ ok e.room_id
  unfolding text_discrete
  text_if-envelope_room e type l h = cases e.room_id
    where
      cases :
          (q : Option String)
          → text_if lib (lib.find (envelope (record e { room_id = q }) type l) "room_id") ≡ ok q
      cases none = simp (lib.find-object, h)
      cases (some q) = simp (lib.find-object, lib.as_text-text)

  -- What every event gives, whatever else it holds.
  pub record Reads (j : Json) (e : Envelope) (type : String) : Type 0 where
    pub type_of : lib.at j "type" ≡ ok (text type)
    pub ts_of : lib.at j "origin_server_ts" ≡ ok (number e.origin_server_ts)
    pub sender_of : lib.at j "sender" ≡ ok (text e.sender)
    pub id_of : lib.at j "event_id" ≡ ok (text e.event_id)
    pub room_of : text_if lib (lib.find j "room_id") ≡ ok e.room_id

  pub envelope-Reads :
      (e : Envelope) (type : String) (l : List (String × Json))
      → lookup "room_id" l ≡ none
      → Reads (envelope e type l) e type
  envelope-Reads e type l h = record {
    type_of = at-envelope_type e type l;
    ts_of = at-envelope_ts e type l;
    sender_of = at-envelope_sender e type l;
    id_of = at-envelope_id e type l;
    room_of = text_if-envelope_room e type l h;
  }
