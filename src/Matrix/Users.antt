-- ===== src/Matrix/Users.antt =====
-- fubble/matrix/users.cpp and fubble/matrix/user.cpp: the users that a sync response tells of, and
-- their presence. Events come parsed.
pub mod Own
use fubble.Base.{
  ℕ, suc, Bool, true, false, String, same, Option, none, some, List, [], ◌∷◌, if◌then◌else◌,
}

pub data Presence : Type 0 where
  online offline unavailable : Presence

-- `updates`: how often `on_update` was called.
pub record User : Type 0 where
  pub id : String
  pub presence_ : Presence
  pub display_name : String
  pub updates : ℕ

-- An event of `presence.events`; the display name may be missing.
pub record PresenceEvent : Type 0 where
  pub type : String
  pub sender : String
  pub presence : String
  pub displayname : Option String

abbrev pub same_presence : Presence → Presence → Bool
same_presence online online = true
same_presence offline offline = true
same_presence unavailable unavailable = true
same_presence _ _ = false

unfoldable pub set_presence : Presence → User → User
set_presence p u =
    if same_presence u.presence_ p then u else record u { presence_ = p; updates = suc u.updates }

-- An unknown text is ignored, which an assertion guards.
unfoldable pub set_presence_from_string : String → User → User
unfolding set_presence
set_presence_from_string p u =
    if same p "online"
    then set_presence online u
    else if same p "offline"
    then set_presence offline u
    else if same p "unavailable"
    then set_presence unavailable u
    else u

unfoldable pub set_display_name : String → User → User
set_display_name n u =
    if same u.display_name n then u else record u { display_name = n; updates = suc u.updates }

unfoldable pub on_m_presence : PresenceEvent → User → User
unfolding set_presence_from_string set_display_name
on_m_presence e u =
    let u' = set_presence_from_string e.presence u in
    elim e.displayname as (λ _. User) [ none ↦ u' | some n ↦ set_display_name n u' ]

abbrev pub new_user : String → User
new_user id = record { id = id; presence_ = offline; display_name = ""; updates = 0 }

unfoldable pub find : String → List User → Option User
find id [] = none
find id (u ∷ us) = let rest = find id us in if same u.id id then some u else rest

-- What is done with the user that is found or added.
unfoldable pub get_or_add_user : String → (User → User) → List User → List User
get_or_add_user id f [] = f (new_user id) ∷ []
get_or_add_user id f (u ∷ us) =
    let rest = get_or_add_user id f us in if same u.id id then f u ∷ us else u ∷ rest

unfoldable pub on_event : PresenceEvent → List User → List User
unfolding get_or_add_user on_m_presence
on_event e us =
    if same e.type "m.presence" then get_or_add_user e.sender (on_m_presence e) us else us

unfoldable pub on_sync : List PresenceEvent → List User → List User
unfolding on_event
on_sync [] us = us
on_sync (e ∷ es) us = on_sync es (on_event e us)
