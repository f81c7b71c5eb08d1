-- ===== src/Signaling/Device.antt =====
-- fubble/signaling/device/device.cpp: the server's device, one for each registered connection.
-- Devices stand in a store, since partners hold weak pointers to one another: a device is a number,
-- and `lock()` is a look-up that fails for a device that is gone. Connections are numbers too, and
-- what a device sends on one is an entry of the store's log.
pub mod Pairing
pub mod Relay
use fubble.Base.{
  ℕ, suc, Bool, true, false, String, Option, none, some, List, [], ◌∷◌, ◌==◌, if◌then◌else◌,
}
use fubble.Signaling.Message.{Offer, Answer, IceCandidate}

pub record Device : Type 0 where
  pub connection : ℕ
  pub partner : Option ℕ
  pub wants_to_negotiate : Bool
  pub active_negotiating : Bool
  pub token : String
  pub offer_cache : Option Offer
  pub answer_cache : Option Answer
  pub candidates_cache : List IceCandidate

-- The calls of `signaling::connection` that a device makes.
pub data Sent : Type 0 where
  offer_sent : Offer → Sent
  answer_sent : Answer → Sent
  candidate_sent : IceCandidate → Sent
  do_offer_sent : Sent
  closed : Sent

-- The devices that are alive, the next free number, and what was sent, newest first.
pub record Store : Type 0 where
  pub next : ℕ
  pub devices : ℕ → Option Device
  pub log : List (ℕ × Sent)

abbrev pub update : (ℕ → Option Device) → ℕ → Option Device → ℕ → Option Device
update f d v q = if d == q then v else f q

abbrev pub put : ℕ → Device → Store → Store
put d x s = record s { devices = update s.devices d (some x) }

-- The last `shared_ptr` to a device goes away.
abbrev pub release : ℕ → Store → Store
release d s = record s { devices = update s.devices d none }

abbrev pub emit : ℕ → Sent → Store → Store
emit c m s = record s { log = (c, m) ∷ s.log }

-- `partner.lock()`.
abbrev pub lock : Store → Option ℕ → Option (ℕ × Device)
lock s none = none
lock s (some p) = elim (s.devices p) [ none ↦ none | some y ↦ some (p, y) ]

-- A method call on a device: on one that is gone it does nothing.
abbrev pub on : ℕ → (Device → Store → Store) → Store → Store
on d method s = elim (s.devices d) [ none ↦ s | some x ↦ method x s ]

abbrev pub fresh : ℕ → String → Device
fresh c token = record {
  connection = c;
  partner = none;
  wants_to_negotiate = false;
  active_negotiating = false;
  token = token;
  offer_cache = none;
  answer_cache = none;
  candidates_cache = [];
}

-- `creator::create` and the constructor of `device`.
unfoldable pub create : ℕ → String → Store → Store
create c token s = put s.next (fresh c token) (record s { next = suc s.next })

unfoldable pub get_wants_to_negotiate : Store → ℕ → Bool
get_wants_to_negotiate s d = elim (s.devices d) [ none ↦ false | some x ↦ x.wants_to_negotiate ]

unfoldable pub get_actice_negotiating : Store → ℕ → Bool
get_actice_negotiating s d = elim (s.devices d) [ none ↦ false | some x ↦ x.active_negotiating ]

unfoldable pub negotiate : ℕ → Store → Store
negotiate d = on d λ x s.
    if x.wants_to_negotiate
    then (if x.active_negotiating then s else elim (lock s x.partner) [
      | none ↦ s
      | some (p, y) ↦
          if y.active_negotiating
          then s
          else emit x.connection do_offer_sent
              (put d (record x { active_negotiating = true; wants_to_negotiate = false }) s)
    ])
    else s

unfoldable pub reset_partner : ℕ → Store → Store
reset_partner d = on d λ x s.
    if x.active_negotiating
    then put d (record x { partner = none; active_negotiating = false; wants_to_negotiate = true })
        s
    else put d (record x { partner = none }) s

unfoldable pub close : ℕ → Store → Store
close d = on d λ x s. emit x.connection closed s

unfoldable pub send_offer : ℕ → Offer → Store → Store
send_offer d o = on d λ x s. emit x.connection (offer_sent o) s

unfoldable pub send_ice_candidate : ℕ → IceCandidate → Store → Store
send_ice_candidate d i = on d λ x s. emit x.connection (candidate_sent i) s

-- The end of `send_answer`, once the answer is out and `negotiate()` was called: the partner's turn.
yield_turn : ℕ → Store → Store
yield_turn d = on d λ x s.
    if x.active_negotiating
    then s
    else elim (lock s x.partner) [ none ↦ s | some (p, y) ↦ negotiate p s ]

unfoldable pub send_answer : ℕ → Answer → Store → Store
unfolding yield_turn
send_answer d a = on d λ x s. yield_turn d (
    negotiate d
      (put d (record x { active_negotiating = false }) (emit x.connection (answer_sent a) s)))

unfoldable pub on_want_to_negotiate : ℕ → Store → Store
on_want_to_negotiate d = on d λ x s.
    let s' = put d (record x { wants_to_negotiate = true }) s in
    elim (lock s' x.partner) [ none ↦ s' | some (p, y) ↦ negotiate d s' ]

unfoldable pub on_answer : ℕ → Answer → Store → Store
on_answer d a = on d λ x s. elim (lock s x.partner) [
  | none ↦ put d (record x { answer_cache = some a }) s
  | some (p, y) ↦ send_answer p a s
]

unfoldable pub on_offer : ℕ → Offer → Store → Store
on_offer d o = on d λ x s. elim (lock s x.partner) [
  | none ↦ put d (record x { offer_cache = some o }) s
  | some (p, y) ↦ send_offer p o s
]

abbrev pub push_back : List IceCandidate → IceCandidate → List IceCandidate
push_back [] i = i ∷ []
push_back (j ∷ l) i = j ∷ push_back l i

unfoldable pub on_ice_candidate : ℕ → IceCandidate → Store → Store
on_ice_candidate d i = on d λ x s. elim (lock s x.partner) [
  | none ↦ put d (record x { candidates_cache = push_back x.candidates_cache i }) s
  | some (p, y) ↦ send_ice_candidate p i s
]

unfoldable pub send_candidates : ℕ → List IceCandidate → Store → Store
send_candidates p [] s = s
send_candidates p (i ∷ l) s = send_candidates p l (send_ice_candidate p i s)

-- The three parts of `send_cache`, each with the reset that follows it.
flush_candidates : ℕ → ℕ → Store → Store
flush_candidates d p = on d λ x s.
    on d (λ x' s'. put d (record x' { candidates_cache = [] }) s')
      (send_candidates p x.candidates_cache s)

flush_offer : ℕ → ℕ → Store → Store
flush_offer d p = on d λ x s.
    on d (λ x' s'. put d (record x' { offer_cache = none }) s')
      (elim x.offer_cache [ none ↦ s | some o ↦ send_offer p o s ])

flush_answer : ℕ → ℕ → Store → Store
flush_answer d p = on d λ x s.
    on d (λ x' s'. put d (record x' { answer_cache = none }) s')
      (elim x.answer_cache [ none ↦ s | some a ↦ send_answer p a s ])

unfoldable pub send_cache : ℕ → Store → Store
unfolding flush_candidates flush_offer flush_answer
send_cache d = on d λ x s. elim (lock s x.partner) [
  | none ↦ s
  | some (p, y) ↦ flush_answer d p (flush_offer d p (flush_candidates d p s))
]

unfoldable pub set_partner : ℕ → ℕ → Store → Store
set_partner d p = on d λ x s. negotiate d (send_cache d (put d (record x { partner = some p }) s))
