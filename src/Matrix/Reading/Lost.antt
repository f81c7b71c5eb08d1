-- ===== src/Matrix/Reading/Lost.antt =====
-- Events that are never handled, because one before them throws.
use fubble.Base.{◌≡◌, refl, ◌∙◌, String, some, List, [], ◌∷◌, ◌++◌, All, text_discrete}
use fubble.Matrix.{Room, Signal, on_event, on_events, append_signals}
use fubble.Matrix.Reading.{
  Libraries, ok, threw, lost, sync_event, parse, parse_message, parse_state_event, parse_room_event,
  by_type, read_name, on_json_event, on_json_events, sync_room, sync_json,
}
use fubble.Matrix.Reading.Described.{
  Handles, written, meanings, write-Handles, room_part, response, sync_json-response,
  events_at-part_timeline,
}
use fubble.Matrix.Reading.Wire.{
  Envelope, Wire, IsWire, envelope, Reads, envelope-Reads, meaning, at-envelope_content,
  at-envelope_key, find-envelope_key,
}

module _ (lib : Libraries) where
  open lib use {Json, text, object}

  -- A message that its sender has redacted: the server leaves nothing of its content.
  abbrev pub redacted : Envelope → Json
  redacted e = envelope lib e "m.room.message" (("content", object []) ∷ [])

  -- A state event that takes the name of the room away.
  abbrev pub unnamed : Envelope → Json
  unnamed e = envelope lib e "m.room.name" (("state_key", text "") ∷ ("content", object []) ∷ [])

  empty_message-threw :
      (j : Json) (e : Envelope) (r : Room)
      → Reads lib j e "m.room.message"
      → lib.at j "content" ≡ ok (object [])
      → on_json_event lib j r ≡ threw r []
  unfolding on_json_event parse parse_message parse_room_event text_discrete
  empty_message-threw j e r v h = simp (
    v.type_of, v.ts_of, v.sender_of, v.id_of, v.room_of, h, lib.at_copy-object, lib.as_text-text,
    lib.as_text-null, lib.as_number-number,
  )

  empty_name-lost :
      (j : Json) (e : Envelope) (r : Room)
      → Reads lib j e "m.room.name"
      → lib.at j "content" ≡ ok (object [])
      → lib.at j "state_key" ≡ ok (text "")
      → lib.find j "state_key" ≡ some (text "")
      → on_json_event lib j r ≡ lost
  unfolding on_json_event parse parse_state_event parse_room_event by_type read_name sync_event
      text_discrete
  empty_name-lost j e r v h k f = simp (
    v.type_of, v.ts_of, v.sender_of, v.id_of, v.room_of, h, k, f, lib.at-object, lib.as_text-text,
    lib.as_number-number, lib.starts_with-name,
  )

  redacted-threw : (e : Envelope) (r : Room) → on_json_event lib (redacted e) r ≡ threw r []
  unfolding text_discrete
  redacted-threw e r =
      empty_message-threw _ e r (envelope-Reads lib e _ _ refl)
        (at-envelope_content lib e _ _ ∙ lib.at-object _ "content")

  unnamed-lost : (e : Envelope) (r : Room) → on_json_event lib (unnamed e) r ≡ lost
  unfolding text_discrete
  unnamed-lost e r =
      empty_name-lost _ e r (envelope-Reads lib e _ _ refl)
        (at-envelope_content lib e _ _ ∙ lib.at-object _ "content")
        (at-envelope_key lib e _ _ ∙ lib.at-object _ "state_key") (find-envelope_key lib e _ _)

  append_signals-nil : (s : List Signal) → append_signals s [] ≡ s
  append_signals-nil [] = refl
  append_signals-nil (x ∷ s) = rw (append_signals-nil s) refl

  -- The events before one that throws are handled, those after it are not.
  on_json_events-threw :
      (before : List (Wire Json)) (j : Json) (rest : List Json) (r : Room)
      → All (IsWire lib) before
      → ((q : Room) → on_json_event lib j q ≡ threw q [])
      → on_json_events lib (written lib before ++ j ∷ rest) r
        ≡ threw (on_events (meanings lib before) r).0 (on_events (meanings lib before) r).1
  unfolding on_json_events on_events Handles
  on_json_events-threw [] j rest r h t = rw (t r) refl
  on_json_events-threw (w ∷ l) j rest r h t =
      rw
        (
          write-Handles lib w h.0 r,
          on_json_events-threw l j rest (on_event (meaning lib w) r).0 h.1 t,
        )
        refl

  on_json_events-lost :
      (before : List (Wire Json)) (j : Json) (rest : List Json) (r : Room)
      → All (IsWire lib) before
      → ((q : Room) → on_json_event lib j q ≡ lost)
      → on_json_events lib (written lib before ++ j ∷ rest) r ≡ lost
  unfolding on_json_events Handles
  on_json_events-lost [] j rest r h t = rw (t r) refl
  on_json_events-lost (w ∷ l) j rest r h t =
      rw
        (
          write-Handles lib w h.0 r,
          on_json_events-lost l j rest (on_event (meaning lib w) r).0 h.1 t,
        )
        refl

  -- A redacted message in the timeline of a room ends the handling of the response by an exception:
  -- what comes after it in the timeline, and the whole state, whatever they are, have no effect.
  pub sync_json-redacted :
      (before : List (Wire Json)) (e : Envelope) (later state : List Json) (r : Room)
      (rest : List (String × Json))
      → All (IsWire lib) before
      → sync_json lib
          (response lib r.id (room_part lib (written lib before ++ redacted e ∷ later) state) rest)
          r
        ≡ threw (on_events (meanings lib before) r).0 (on_events (meanings lib before) r).1
  unfolding sync_room
  sync_json-redacted before e later state r rest h =
      sync_json-response lib r _ rest
      ∙ rw
          (
            events_at-part_timeline lib (written lib before ++ redacted e ∷ later) state,
            on_json_events-threw before (redacted e) later r h (redacted-threw e),
          )
          refl

  -- An event that takes the name of the room away makes the handling of the response undefined.
  pub sync_json-unnamed :
      (before : List (Wire Json)) (e : Envelope) (later state : List Json) (r : Room)
      (rest : List (String × Json))
      → All (IsWire lib) before
      → sync_json lib
          (response lib r.id (room_part lib (written lib before ++ unnamed e ∷ later) state) rest)
          r
        ≡ lost
  unfolding sync_room
  sync_json-unnamed before e later state r rest h =
      sync_json-response lib r _ rest
      ∙ rw
          (
            events_at-part_timeline lib (written lib before ++ unnamed e ∷ later) state,
            on_json_events-lost before (unnamed e) later r h (unnamed-lost e),
          )
          refl
