-- ===== src/Participants/Mirror.antt =====
-- The client's participants are the joined members of the matrix room.
use fubble.Base.{
  ℕ, ◌≡◌, refl, ◌∙◌, sym, Bool, false, ◌&&◌, ◌||◌, String, same, Option, none, some, List, [], ◌∷◌,
  arith, if◌then◌else◌, ap,
}
use fubble.Matrix.{
  JoinState, invite, join, RoomParticipant, Signal, on_join, on_join_state_changed,
  get_member_by_id, on_event_m_room_member, set_join_state, same_state,
}
use fubble.Matrix.Members.{on_event_m_room_member_lem}
use fubble.Participants.{
  Participants, contains, push_back, erase, on_signals, close, close_all, on_async_closed,
}

abbrev pub HasNoDuplicates : List String → Type 0
HasNoDuplicates [] = Unit {0}
HasNoDuplicates (x ∷ l) = (contains x l ≡ false) × HasNoDuplicates l

contains-push_back :
    (i id : String) (l : List String) → contains i (push_back l id) ≡ (contains i l || same i id)
unfolding contains
contains-push_back i id [] = ground arith
contains-push_back i id (x ∷ l) = ground (arith, contains-push_back i id l)

push_back-HasNoDuplicates :
    (id : String) (l : List String)
    → contains id l ≡ false
    → HasNoDuplicates l
    → HasNoDuplicates (push_back l id)
unfolding contains
push_back-HasNoDuplicates id [] e u = (refl, tt)
push_back-HasNoDuplicates id (x ∷ l) e u =
    ground (arith, push_back-HasNoDuplicates id l, contains-push_back x id l)

contains-erase :
    (i id : String) (l : List String)
    → HasNoDuplicates l
    → contains i (erase id l) ≡ (if same i id then false else contains i l)
unfolding contains erase
contains-erase i id [] u = ground arith
contains-erase i id (x ∷ l) u = ground (arith, contains-erase i id l u.1)

erase-HasNoDuplicates :
    (id : String) (l : List String) → HasNoDuplicates l → HasNoDuplicates (erase id l)
unfolding contains erase
erase-HasNoDuplicates id [] u = tt
erase-HasNoDuplicates id (x ∷ l) u =
    ground (arith, erase-HasNoDuplicates id l u.1, contains-erase x id l u.1)

abbrev pub is_joined : Option RoomParticipant → Bool
is_joined none = false
is_joined (some p) = same_state p.join_state join

-- No participant is there twice, and exactly the joined members are participants.
pub record IsMirror (members : List RoomParticipant) (s : Participants) : Type 0 where
  pub once : HasNoDuplicates s.participants
  pub same_ids : (i : String) → contains i s.participants ≡ is_joined (get_member_by_id i members)

signals_lem :
    (id : String) (state : JoinState) (t : ℕ) (l : List RoomParticipant)
    → (on_event_m_room_member id state t l).1 ≡ elim (get_member_by_id id l) [
      | none ↦ on_join id state ∷ []
      | some p ↦ if (set_join_state state t p).1 then on_join_state_changed id state ∷ [] else []
    ]
unfolding on_event_m_room_member get_member_by_id
signals_lem id state t [] = refl
signals_lem id state t (p ∷ l) = ground (arith, signals_lem id state t l)

-- The states that a room's server can give: who has joined is not invited.
abbrev pub IsProper : String → JoinState → List RoomParticipant → Type 0
IsProper id state members =
    (same_state state invite && is_joined (get_member_by_id id members)) ≡ false

abbrev announced : String → JoinState → ℕ → Option RoomParticipant → List Signal
announced id state t none = on_join id state ∷ []
announced id state t (some p) =
    if (set_join_state state t p).1 then on_join_state_changed id state ∷ [] else []

abbrev changed : String → JoinState → ℕ → Option RoomParticipant → Bool
changed id state t none = same_state state join
changed id state t (some p) = same_state (set_join_state state t p).0.join_state join

deliver-contains :
    (i id : String) (state : JoinState) (t : ℕ) (o : Option RoomParticipant) (s : Participants)
    → HasNoDuplicates s.participants
    → contains id s.participants ≡ is_joined o
    → (same_state state invite && is_joined o) ≡ false
    → contains i (on_signals (announced id state t o) s).participants
      ≡ (if same id i then changed id state t o else contains i s.participants)
unfolding on_signals set_join_state same_state
deliver-contains i id state t none s u h p = ground (arith, contains-push_back i id s.participants)
deliver-contains i id state t (some m) s u h p =
    ground (arith, contains-push_back i id s.participants, contains-erase i id s.participants u)

deliver-HasNoDuplicates :
    (id : String) (state : JoinState) (t : ℕ) (o : Option RoomParticipant) (s : Participants)
    → HasNoDuplicates s.participants
    → contains id s.participants ≡ is_joined o
    → (same_state state invite && is_joined o) ≡ false
    → HasNoDuplicates (on_signals (announced id state t o) s).participants
unfolding on_signals set_join_state same_state
deliver-HasNoDuplicates id state t none s u h p =
    ground (arith, push_back-HasNoDuplicates id s.participants)
deliver-HasNoDuplicates id state t (some m) s u h p =
    ground (
      arith,
      push_back-HasNoDuplicates id s.participants,
      erase-HasNoDuplicates id s.participants u,
    )

step-IsMirror :
    (id : String) (state : JoinState) (t : ℕ) (l : List RoomParticipant) (s : Participants)
    → IsProper id state l
    → IsMirror l s
    → let (l', signals) = on_event_m_room_member id state t l in IsMirror l' (on_signals signals s)
step-IsMirror id state t l s p v =
    let o = get_member_by_id id l in
    rw (signals_lem id state t l) (record {
      once =
          same_signals HasNoDuplicates o
            (deliver-HasNoDuplicates id state t o s v.once (v.same_ids id) p);
      same_ids = λ i.
          same_signals
            (λ m.
              contains i m ≡ is_joined (get_member_by_id i (on_event_m_room_member id state t l).0))
            o
            (deliver-contains i id state t o s v.once (v.same_ids id) p
              ∙ merged i o
              ∙ sym (ap is_joined (on_event_m_room_member_lem id i state t l)));
    })
  where
    same_signals :
        (P : List String → Type 0) (o : Option RoomParticipant)
        → P (on_signals (announced id state t o) s).participants
        → P
            (on_signals
              (elim o [
                | none ↦ on_join id state ∷ []
                | some p ↦
                    if (set_join_state state t p).1 then on_join_state_changed id state ∷ [] else []
              ])
              s).participants
    same_signals P none h = h
    same_signals P (some m) h = h

    merged :
        (i : String) (o : Option RoomParticipant)
        → (if same id i then changed id state t o else contains i s.participants)
          ≡ is_joined (
              if same id i
              then elim o [
                | none ↦
                    some (record { user_id = id; join_state = state; join_state_timestamp = t })
                | some p ↦ some (set_join_state state t p).0
              ]
              else get_member_by_id i l)
    merged i o = ground (arith, v.same_ids i)

-- A member's event of a sync response: the user, the state and the time stamp.
abbrev pub MemberEvent : Type 0
MemberEvent = String × JoinState × ℕ

-- The room handles the events, and the participants hear its signals.
unfoldable pub follow :
    List MemberEvent → List RoomParticipant → Participants → List RoomParticipant × Participants
follow [] l s = (l, s)
follow ((id, state, t) ∷ es) l s =
    let (l', signals) = on_event_m_room_member id state t l in follow es l' (on_signals signals s)

abbrev pub AreProper : List MemberEvent → List RoomParticipant → Type 0
AreProper [] l = Unit {0}
AreProper ((id, state, t) ∷ es) l =
    IsProper id state l × AreProper es (on_event_m_room_member id state t l).0

follow-IsMirror :
    (es : List MemberEvent) (l : List RoomParticipant) (s : Participants)
    → AreProper es l
    → IsMirror l s
    → IsMirror (follow es l s).0 (follow es l s).1
unfolding follow
follow-IsMirror [] l s p v = v
follow-IsMirror ((id, state, t) ∷ es) l s p v =
    follow-IsMirror es _ _ p.1 (step-IsMirror id state t l s p.0 v)

abbrev pub nobody : Participants
nobody = record { participants = []; notices = [] }

-- Whatever members join, leave, come back or send events with old time stamps: the client's
-- participants are, without repetition, exactly the members whose state is `join`, as long as nobody
-- who has joined is invited.
pub follow-initial-IsMirror :
    (es : List MemberEvent)
    → AreProper es []
    → IsMirror (follow es [] nobody).0 (follow es [] nobody).1
unfolding contains get_member_by_id
follow-initial-IsMirror es p =
    follow-IsMirror es [] nobody p (record { once = tt; same_ids = λ i. refl })

close_all_lem :
    (l : List String) (s : Participants) → s.participants ≡ l → (close_all l s).participants ≡ []
unfolding close_all on_async_closed contains erase
close_all_lem [] s e = e
close_all_lem (x ∷ l) s e = close_all_lem l _ (ground arith)

-- `close` removes every participant.
close_empties : (s : Participants) → (close s).participants ≡ []
unfolding close
close_empties s = close_all_lem s.participants s refl
