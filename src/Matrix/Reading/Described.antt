-- ===== src/Matrix/Reading/Described.antt =====
-- That what a server writes is read as what it means.
use fubble.Base.{
  ◌≡◌, inl, inr, Bool-cases, refl, ◌∙◌, sym, subst, true, false, String, same, same→eq, same_refl,
  Option, none, some, List, [], ◌∷◌, map, All, text_discrete, arith,
}
use fubble.Matrix.{Room, Event, room_name, on_event, on_events, sync}
use fubble.Matrix.Reading.{
  Libraries, ok, done, sync_event, parse_room_event, parse_message, parse_state_event, parse,
  read_message, read_member, read_name, by_type, on_json_event, on_json_events, events_at,
  sync_room, sync_json,
}
use fubble.Matrix.Reading.Wire.{
  Envelope, Membership, Wire, note, named, membership, setting, word, read_join_state-word,
  with_text, write, meaning, IsWire, at-envelope_content, at-envelope_key, find-envelope_key, Reads,
  envelope-Reads,
}

module _ (lib : Libraries) where
  open lib use {Json, text, number, object, array, dump, starts_with}

  unfoldable pub Handles : Json → Event → Type 0
  Handles j e = (r : Room) → on_json_event lib j r ≡ done (on_event e r).0 (on_event e r).1

  note-Handles :
      (j : Json) (e : Envelope) (msgtype body : String)
      → Reads lib j e "m.room.message"
      → lib.at j "content" ≡ ok (object (("msgtype", text msgtype) ∷ ("body", text body) ∷ []))
      → Handles j (meaning lib (note e msgtype body))
  unfolding Handles on_json_event parse parse_message parse_room_event by_type read_message
      sync_event text_discrete on_event
  note-Handles j e msgtype body v h r = elim (Bool-cases (same msgtype "m.text")) [
    | inl k ↦ simp (
      v.type_of, v.ts_of, v.sender_of, v.id_of, v.room_of, h, k, lib.at_copy-object,
      lib.as_text-text, lib.as_number-number,
    )
    | inr k ↦ simp (
      v.type_of, v.ts_of, v.sender_of, v.id_of, v.room_of, h, k, lib.at_copy-object,
      lib.as_text-text, lib.as_number-number,
    )
  ]

  named-Handles :
      (j : Json) (e : Envelope) (name : String)
      → Reads lib j e "m.room.name"
      → lib.at j "content" ≡ ok (object (("name", text name) ∷ []))
      → lib.at j "state_key" ≡ ok (text "")
      → lib.find j "state_key" ≡ some (text "")
      → Handles j (room_name name)
  unfolding Handles on_json_event parse parse_state_event parse_room_event by_type read_name
      sync_event text_discrete on_event
  named-Handles j e name v h k f r = simp (
    v.type_of, v.ts_of, v.sender_of, v.id_of, v.room_of, h, k, f, lib.at-object, lib.as_text-text,
    lib.as_number-number, lib.starts_with-name,
  )

  membership-Handles :
      (j : Json) (e : Envelope) (user_id : String) (m : Membership) (display_name : Option String)
      → Reads lib j e "m.room.member"
      → lib.at j "content"
        ≡ ok (object (("membership", text (word m)) ∷ with_text lib "displayname" display_name []))
      → lib.at j "state_key" ≡ ok (text user_id)
      → lib.find j "state_key" ≡ some (text user_id)
      → Handles j (meaning lib (membership e user_id m display_name))
  unfolding Handles on_json_event parse parse_state_event parse_room_event by_type read_member
      sync_event text_discrete
  membership-Handles j e user_id m none v h k f r = simp (
    v.type_of,
    v.ts_of,
    v.sender_of,
    v.id_of,
    v.room_of,
    h,
    k,
    f,
    lib.at-object,
    lib.find-object,
    lib.as_text-text,
    lib.as_number-number,
    lib.starts_with-member,
    read_join_state-word m,
  )
  membership-Handles j e user_id m (some d) v h k f r = simp (
    v.type_of,
    v.ts_of,
    v.sender_of,
    v.id_of,
    v.room_of,
    h,
    k,
    f,
    lib.at-object,
    lib.find-object,
    lib.as_text-text,
    lib.as_number-number,
    lib.starts_with-member,
    read_join_state-word m,
  )

  starts_with-differs :
      (type other : String)
      → starts_with type "m." ≡ false
      → starts_with other "m." ≡ true
      → same type other ≡ false
  starts_with-differs type other n o = elim (Bool-cases (same type other)) [
    | inl h ↦ absurd (
        ground (
          arith,
          n,
          subst (λ (t : String). starts_with t "m." ≡ true) (sym (same→eq type other h)) o,
        ))
    | inr h ↦ h
  ]

  setting-Handles :
      (j : Json) (e : Envelope) (type key : String) (content : Json)
      → starts_with type "m." ≡ false
      → Reads lib j e type
      → lib.at j "content" ≡ ok content
      → lib.at j "state_key" ≡ ok (text key)
      → lib.find j "state_key" ≡ some (text key)
      → Handles j (meaning lib (setting e type key content))
  unfolding Handles on_json_event parse parse_state_event parse_room_event by_type sync_event
      text_discrete
  setting-Handles j e type key content n v h k f r = simp (
    v.type_of,
    v.ts_of,
    v.sender_of,
    v.id_of,
    v.room_of,
    h,
    k,
    f,
    n,
    lib.as_text-text,
    lib.as_number-number,
    starts_with-differs type "m.room.message" n lib.starts_with-message,
    starts_with-differs type "m.room.name" n lib.starts_with-name,
    starts_with-differs type "m.room.member" n lib.starts_with-member,
  )

  pub write-Handles : (w : Wire Json) → IsWire lib w → Handles (write lib w) (meaning lib w)
  unfolding text_discrete
  write-Handles (note e msgtype body) h =
      note-Handles _ e msgtype body (envelope-Reads lib e _ _ refl)
        (at-envelope_content lib e _ _ ∙ lib.at-object _ "content")
  write-Handles (named e name) h =
      named-Handles _ e name (envelope-Reads lib e _ _ refl)
        (at-envelope_content lib e _ _ ∙ lib.at-object _ "content")
        (at-envelope_key lib e _ _ ∙ lib.at-object _ "state_key") (find-envelope_key lib e _ _)
  write-Handles (membership e user_id m display_name) h =
      membership-Handles _ e user_id m display_name (envelope-Reads lib e _ _ refl)
        (at-envelope_content lib e _ _ ∙ lib.at-object _ "content")
        (at-envelope_key lib e _ _ ∙ lib.at-object _ "state_key") (find-envelope_key lib e _ _)
  write-Handles (setting e type key content) h =
      setting-Handles _ e type key content h (envelope-Reads lib e _ _ refl)
        (at-envelope_content lib e _ _ ∙ lib.at-object _ "content")
        (at-envelope_key lib e _ _ ∙ lib.at-object _ "state_key") (find-envelope_key lib e _ _)

  abbrev pub written : List (Wire Json) → List Json
  written l = map (write lib) l

  abbrev pub meanings : List (Wire Json) → List Event
  meanings l = map (meaning lib) l

  -- Events that are written are handled as what they mean.
  on_json_events-written :
      (l : List (Wire Json)) (r : Room)
      → All (IsWire lib) l
      → on_json_events lib (written l) r
        ≡ done (on_events (meanings l) r).0 (on_events (meanings l) r).1
  unfolding on_json_events on_events Handles
  on_json_events-written [] r h = refl
  on_json_events-written (w ∷ l) r h =
      rw (write-Handles w h.0 r, on_json_events-written l (on_event (meaning lib w) r).0 h.1) refl

  -- The room's part of a response.
  abbrev pub events_part : List Json → Json
  events_part l = object (("events", array l) ∷ [])

  abbrev pub room_part : List Json → List Json → Json
  room_part timeline state =
      object (("timeline", events_part timeline) ∷ ("state", events_part state) ∷ [])

  -- A response where the room is among those that are joined.
  abbrev pub response : String → Json → List (String × Json) → Json
  response id room rest =
      object (("rooms", object (("join", object ((id, room) ∷ rest)) ∷ [])) ∷ [])

  find-room :
      (id : String) (room : Json) (rest : List (String × Json))
      → lib.find (object ((id, room) ∷ rest)) id ≡ some room
  find-room id room rest = lib.find-object _ id ∙ rw (same_refl id) refl

  pub sync_json-response :
      (r : Room) (room : Json) (rest : List (String × Json))
      → sync_json lib (response r.id room rest) r ≡ sync_room lib room r
  unfolding sync_json text_discrete
  sync_json-response r room rest =
      rw
        (
          lib.at-object (("rooms", object (("join", object ((r.id, room) ∷ rest)) ∷ [])) ∷ [])
              "rooms",
          lib.at-object (("join", object ((r.id, room) ∷ rest)) ∷ []) "join",
          find-room r.id room rest,
        )
        refl

  pub events_at-part_timeline :
      (timeline state : List Json)
      → events_at lib (room_part timeline state) "timeline" ≡ ok timeline
  unfolding events_at text_discrete
  events_at-part_timeline timeline state = simp (lib.at_copy-object, lib.items-array)

  pub events_at-part_state :
      (timeline state : List Json) → events_at lib (room_part timeline state) "state" ≡ ok state
  unfolding events_at text_discrete
  events_at-part_state timeline state = simp (lib.at_copy-object, lib.items-array)

  sync_room-written :
      (timeline state : List (Wire Json)) (r : Room)
      → All (IsWire lib) timeline
      → All (IsWire lib) state
      → let s = sync (record { timeline = meanings timeline; state = meanings state }) r in
        sync_room lib (room_part (written timeline) (written state)) r ≡ done s.0 s.1
  unfolding sync_room sync
  sync_room-written timeline state r h k =
      rw
        (
          events_at-part_timeline (written timeline) (written state),
          on_json_events-written timeline r h,
          events_at-part_state (written timeline) (written state),
          on_json_events-written state (on_events (meanings timeline) r).0 k,
        )
        refl

  -- A sync response that has, for this room, what is written of the events of the timeline and of the
  -- state, changes the room and calls its signals as the events that they mean do, the timeline first.
  -- A message that is no text counts as a chat message, and who is banned or knocks as joined.
  pub sync_json-written :
      (timeline state : List (Wire Json)) (r : Room) (rest : List (String × Json))
      → All (IsWire lib) timeline
      → All (IsWire lib) state
      → let s = sync (record { timeline = meanings timeline; state = meanings state }) r in
        sync_json lib (response r.id (room_part (written timeline) (written state)) rest) r
        ≡ done s.0 s.1
  sync_json-written timeline state r rest h k =
      sync_json-response r _ rest ∙ sync_room-written timeline state r h k
