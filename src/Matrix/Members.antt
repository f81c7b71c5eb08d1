-- ===== src/Matrix/Members.antt =====
-- The members of a room and their join states.
use fubble.Base.{
  ℕ, ◌≤◌, ◌<◌, ◌≡◌, refl, ◌≢◌, true, false, String, none, some, List, [], ◌∷◌, arith, if◌then◌else◌,
  same, leb,
}
use fubble.Matrix.{
  JoinState, same_state, RoomParticipant, set_join_state, get_member_by_id, on_event_m_room_member,
}

same_state→eq : (a b : JoinState) → same_state a b ≡ true → a ≡ b
unfolding same_state
same_state→eq a b h = ground arith

-- A member's event leaves the other members alone. Its own member is new, or keeps its state where
-- that is the same already or the event is older than the state, and takes the event's otherwise.
pub on_event_m_room_member_lem :
    (id i : String) (state : JoinState) (t : ℕ) (l : List RoomParticipant)
    → get_member_by_id i (on_event_m_room_member id state t l).0 ≡ (
        if same id i
        then elim (get_member_by_id id l) [
          | none ↦ some (record { user_id = id; join_state = state; join_state_timestamp = t })
          | some p ↦ some (set_join_state state t p).0
        ]
        else get_member_by_id i l)
unfolding on_event_m_room_member get_member_by_id set_join_state
on_event_m_room_member_lem id i state t [] = ground arith
on_event_m_room_member_lem id i state t (p ∷ l) =
    ground (arith, on_event_m_room_member_lem id i state t l)

abbrev pub HasUniqueIds : List RoomParticipant → Type 0
HasUniqueIds [] = Unit {0}
HasUniqueIds (p ∷ l) = (get_member_by_id p.user_id l ≡ none) × HasUniqueIds l

on_event_m_room_member-HasUniqueIds :
    (id : String) (state : JoinState) (t : ℕ) (l : List RoomParticipant)
    → HasUniqueIds l
    → HasUniqueIds (on_event_m_room_member id state t l).0
unfolding on_event_m_room_member get_member_by_id set_join_state
on_event_m_room_member-HasUniqueIds id state t [] u = (refl, tt)
on_event_m_room_member-HasUniqueIds id state t (p ∷ l) u = ground (
  arith,
  on_event_m_room_member-HasUniqueIds id state t l u.1,
  on_event_m_room_member_lem id p.user_id state t l,
)

-- The time stamp of a member's state never falls, and its state changes only with a signal.
set_join_state_monotone :
    (new : JoinState) (t : ℕ) (p : RoomParticipant)
    → (p.join_state_timestamp ≤ (set_join_state new t p).0.join_state_timestamp)
      × ((set_join_state new t p).1
          ≡ (if same_state p.join_state new then false else leb p.join_state_timestamp t))
unfolding set_join_state
set_join_state_monotone new t p = ground arith

-- A repeated state does not renew the time stamp: after an event with the state that a member has
-- already, an older event with another state still replaces it.
pub set_join_state_stale :
    (old new : JoinState) (t t' : ℕ) (p : RoomParticipant)
    → p.join_state ≡ old
    → new ≢ old
    → p.join_state_timestamp ≤ t
    → t < t'
    → ((set_join_state new t (set_join_state old t' p).0).0).join_state ≡ new
unfolding set_join_state same_state
set_join_state_stale old new t t' p e ne a b = ground arith
