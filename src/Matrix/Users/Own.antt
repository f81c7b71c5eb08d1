-- ===== src/Matrix/Users/Own.antt =====
-- A user depends on its own events only.
use fubble.Base.{
  ℕ, ◌+◌, ◌≡◌, same→eq, Bool-cases, inl, inr, refl, ap, ◌∙◌, Bool, true, false, ◌&&◌, String, same,
  Option, none, some, List, [], ◌∷◌, arith, if◌then◌else◌,
}
use fubble.Matrix.Users.{
  Presence, online, offline, unavailable, same_presence, User, PresenceEvent, set_presence,
  set_presence_from_string, set_display_name, on_m_presence, new_user, find, get_or_add_user,
  on_event, on_sync,
}

on_m_presence-id : (e : PresenceEvent) (u : User) → (on_m_presence e u).id ≡ u.id
unfolding on_m_presence set_presence_from_string set_presence set_display_name
on_m_presence-id e u = ground arith

-- The user, or a new one.
abbrev pub or_new : String → Option User → User
or_new id none = new_user id
or_new id (some u) = u

find-get_or_add_user :
    (id sender : String) (f : User → User) (us : List User)
    → ((u : User) → (f u).id ≡ u.id)
    → find id (get_or_add_user sender f us)
      ≡ (if same sender id then some (f (or_new id (find id us))) else find id us)
unfolding find get_or_add_user
find-get_or_add_user id sender f [] k = ground (arith, k (new_user sender))
find-get_or_add_user id sender f (u ∷ us) k =
    ground (arith, k u, find-get_or_add_user id sender f us k)

-- What one user makes of the events.
abbrev pub own : String → List PresenceEvent → Option User → Option User
own id [] o = o
own id (e ∷ es) o = own id es (
    if same e.type "m.presence" && same e.sender id
    then some (on_m_presence e (or_new id o))
    else o)

own_lem :
    (id : String) (es : List PresenceEvent) (us : List User)
    → find id (on_sync es us) ≡ own id es (find id us)
unfolding on_sync on_event
own_lem id [] us = refl
own_lem id (e ∷ es) us =
    own_lem id es (on_event e us) ∙ ap (λ o. own id es o) (branch (same e.type "m.presence"))
  where
    branch :
        (b : Bool)
        → find id (if b then get_or_add_user e.sender (on_m_presence e) us else us) ≡ (
            if b && same e.sender id
            then some (on_m_presence e (or_new id (find id us)))
            else find id us)
    branch true = find-get_or_add_user id e.sender (on_m_presence e) us (on_m_presence-id e)
    branch false = refl

-- The events of a user.
abbrev pub own_events : String → List PresenceEvent → List PresenceEvent
own_events id [] = []
own_events id (e ∷ es) =
    let rest = own_events id es in
    if same e.type "m.presence" && same e.sender id then e ∷ rest else rest

-- The words of the specification for what `presence` has.
abbrev pub word : Presence → String
word online = "online"
word offline = "offline"
word unavailable = "unavailable"

abbrev if_word : Presence → String → Option Presence → Option Presence
if_word p s o = if same s (word p) then some p else o

-- The presence that an event tells, if it is one of the three.
abbrev pub told_presence : PresenceEvent → Option Presence
told_presence e =
    if_word online e.presence (if_word offline e.presence (if_word unavailable e.presence none))

abbrev pub told_name : PresenceEvent → Option String
told_name e = e.displayname

-- The last value that some events tell, after the one that was there.
abbrev pub last {ℓ} : {A : Type ℓ} → (PresenceEvent → Option A) → List PresenceEvent → A → A
last told [] a = a
last {A = A} told (e ∷ es) a = elim (told e) as (λ _. A) [
  | none ↦ last told es a
  | some b ↦ last told es b
]

-- How often what they tell is another value than before.
abbrev pub changes {ℓ} :
    {A : Type ℓ} → (A → A → Bool) → (PresenceEvent → Option A) → List PresenceEvent → A → ℕ
changes equal told [] a = 0
changes equal told (e ∷ es) a = elim (told e) as (λ _. ℕ) [
  | none ↦ changes equal told es a
  | some b ↦ (if equal a b then 0 else 1) + changes equal told es b
]

abbrev pub is_empty {ℓ} : {A : Type ℓ} → List A → Bool
is_empty [] = true
is_empty (_ ∷ _) = false

-- A user after events of its own.
abbrev pub updated : List PresenceEvent → User → User
updated es u = record {
  id = u.id;
  presence_ = last told_presence es u.presence_;
  display_name = last told_name es u.display_name;
  updates =
      u.updates
      + (changes same_presence told_presence es u.presence_
          + changes same told_name es u.display_name);
}

-- A user with this presence and this name.
abbrev at : User → Presence → String → ℕ → User
at u p n more = record { id = u.id; presence_ = p; display_name = n; updates = u.updates + more }

set_presence_lem :
    (p q : Presence) (u : User)
    → u.presence_ ≡ q
    → set_presence p u ≡ at u p u.display_name (if same_presence q p then 0 else 1)
unfolding set_presence
set_presence_lem online online u e = ground (arith, e)
set_presence_lem online offline u e = ground (arith, e)
set_presence_lem online unavailable u e = ground (arith, e)
set_presence_lem offline online u e = ground (arith, e)
set_presence_lem offline offline u e = ground (arith, e)
set_presence_lem offline unavailable u e = ground (arith, e)
set_presence_lem unavailable online u e = ground (arith, e)
set_presence_lem unavailable offline u e = ground (arith, e)
set_presence_lem unavailable unavailable u e = ground (arith, e)

set_display_name_lem :
    (n : String) (u : User)
    → set_display_name n u ≡ at u u.presence_ n (if same u.display_name n then 0 else 1)
unfolding set_display_name
set_display_name_lem n u = elim (Bool-cases (same u.display_name n)) [
  | inl h ↦ ground (arith, h, same→eq u.display_name n h)
  | inr h ↦ ground (arith, h)
]

set_presence_from_string_lem :
    (e : PresenceEvent) (u : User)
    → set_presence_from_string e.presence u
      ≡ at u
          (last told_presence (e ∷ []) u.presence_)
          u.display_name
          (changes same_presence told_presence (e ∷ []) u.presence_)
unfolding set_presence_from_string
set_presence_from_string_lem e u =
    branch (same e.presence "online") (same e.presence "offline") (same e.presence "unavailable")
      refl refl refl
  where
    branch :
        (a b c : Bool)
        → same e.presence "online" ≡ a
        → same e.presence "offline" ≡ b
        → same e.presence "unavailable" ≡ c
        → set_presence_from_string e.presence u
          ≡ at u
              (last told_presence (e ∷ []) u.presence_)
              u.display_name
              (changes same_presence told_presence (e ∷ []) u.presence_)
    branch true b c i j k = ground (arith, i, set_presence_lem online u.presence_ u refl)
    branch false true c i j k = ground (arith, i, j, set_presence_lem offline u.presence_ u refl)
    branch false false true i j k =
        ground (arith, i, j, k, set_presence_lem unavailable u.presence_ u refl)
    branch false false false i j k = ground (arith, i, j, k)

on_m_presence-updated : (e : PresenceEvent) (u : User) → on_m_presence e u ≡ updated (e ∷ []) u
unfolding on_m_presence
on_m_presence-updated e u =
    named e.displayname (set_presence_from_string e.presence u) (set_presence_from_string_lem e u)
  where
    named :
        (o : Option String) (v : User)
        → v
          ≡ at u
              (last told_presence (e ∷ []) u.presence_)
              u.display_name
              (changes same_presence told_presence (e ∷ []) u.presence_)
        → elim o as (λ _. User) [ none ↦ v | some n ↦ set_display_name n v ]
          ≡ at u
              (last told_presence (e ∷ []) u.presence_)
              (elim o as (λ _. String) [ none ↦ u.display_name | some n ↦ n ])
              (changes same_presence told_presence (e ∷ []) u.presence_ + elim o as (λ _. ℕ) [
                | none ↦ 0
                | some n ↦ (if same u.display_name n then 0 else 1) + 0
              ])
    named none v h = ground (arith, h)
    named (some n) v h = ground (arith, h, set_display_name_lem n v)

-- One event and then the others.
updated-cons :
    (e : PresenceEvent) (es : List PresenceEvent) (u : User)
    → updated es (updated (e ∷ []) u) ≡ updated (e ∷ es) u
updated-cons e es u = branch (told_presence e) e.displayname
  where
    branch :
        (p : Option Presence) (n : Option String)
        → let q = elim p as (λ _. Presence) [ none ↦ u.presence_ | some b ↦ b ] in
          let m = elim n as (λ _. String) [ none ↦ u.display_name | some b ↦ b ] in
          let i = elim p as (λ _. ℕ) [
            | none ↦ 0
            | some b ↦ (if same_presence u.presence_ b then 0 else 1) + 0
          ] in
          let j = elim n as (λ _. ℕ) [
            | none ↦ 0
            | some b ↦ (if same u.display_name b then 0 else 1) + 0
          ] in
          updated es
            (record { id = u.id; presence_ = q; display_name = m; updates = u.updates + (i + j) })
          ≡ record {
            id = u.id;
            presence_ = elim p as (λ _. Presence) [
              | none ↦ last told_presence es u.presence_
              | some b ↦ last told_presence es b
            ];
            display_name = elim n as (λ _. String) [
              | none ↦ last told_name es u.display_name
              | some b ↦ last told_name es b
            ];
            updates =
                u.updates
                + (elim p as (λ _. ℕ) [
                  | none ↦ changes same_presence told_presence es u.presence_
                  | some b ↦
                      (if same_presence u.presence_ b then 0 else 1)
                      + changes same_presence told_presence es b
                ]
                    + elim n as (λ _. ℕ) [
                      | none ↦ changes same told_name es u.display_name
                      | some b ↦
                          (if same u.display_name b then 0 else 1) + changes same told_name es b
                    ]);
          }
    branch none none = ground arith
    branch none (some n) = ground arith
    branch (some p) none = ground arith
    branch (some p) (some n) = ground arith

-- The user after its events: there if it was known or one of the events is its own.
abbrev pub expected : String → List PresenceEvent → Option User → Option User
expected id mine (some u) = some (updated mine u)
expected id [] none = none
expected id (e ∷ es) none = some (updated (e ∷ es) (new_user id))

own-expected :
    (id : String) (es : List PresenceEvent) (o : Option User)
    → own id es o ≡ expected id (own_events id es) o
own-expected id [] none = refl
own-expected id [] (some u) = ground arith
own-expected id (e ∷ es) o =
    branch (same e.type "m.presence" && same e.sender id) o (own-expected id es)
  where
    mine : List PresenceEvent
    mine = own_events id es

    after_own : (w : User) → some (updated mine (on_m_presence e w)) ≡ some (updated (e ∷ mine) w)
    after_own w =
        ap (λ (v : User). some (updated mine v)) (on_m_presence-updated e w)
        ∙ ap (λ (v : User). some v) (updated-cons e mine w)

    branch :
        (b : Bool) (o : Option User)
        → ((o : Option User) → own id es o ≡ expected id (own_events id es) o)
        → own id es (if b then some (on_m_presence e (or_new id o)) else o)
          ≡ expected id (if b then e ∷ own_events id es else own_events id es) o
    branch true none k = k (some (on_m_presence e (new_user id))) ∙ after_own (new_user id)
    branch true (some u) k = k (some (on_m_presence e u)) ∙ after_own u
    branch false o k = k o

-- What a sync response makes of a user: its presence and its name are the last ones that its own
-- events tell, whatever is told of others, after those it had; it is announced once for each time
-- that an event tells another presence or another name than before; and a user who was not known,
-- who starts offline and without a name, is there exactly if one of the events is its own.
pub find-on_sync :
    (id : String) (es : List PresenceEvent) (us : List User)
    → find id (on_sync es us) ≡ expected id (own_events id es) (find id us)
find-on_sync id es us = own_lem id es us ∙ own-expected id es (find id us)
