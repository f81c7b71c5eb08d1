-- ===== src/Signaling/Device/Pairing.antt =====
-- Two devices that are partners of one another, and the messages that arrive from their peers.
use fubble.Base.{
  ℕ, ◌≡◌, ◌≢◌, Bool, true, false, not, ◌&&◌, ◌||◌, Option, none, some, List, [], ◌∷◌, arith,
  if◌then◌else◌,
}
use fubble.Signaling.Message.{Offer, Answer, IceCandidate}
use fubble.Signaling.Device.{
  Store, lock, get_wants_to_negotiate, get_actice_negotiating, negotiate, send_answer, send_offer,
  send_ice_candidate, on_want_to_negotiate, on_answer, on_offer, on_ice_candidate,
}

-- The signals of a connection that a device has subscribed to.
pub data Event : Type 0 where
  want : Event
  answers : Answer → Event
  offers : Offer → Event
  candidate : IceCandidate → Event

unfoldable pub handle : ℕ → Event → Store → Store
handle d want s = on_want_to_negotiate d s
handle d (answers m) s = on_answer d m s
handle d (offers o) s = on_offer d o s
handle d (candidate i) s = on_ice_candidate d i s

-- The partner of a device, if both are alive.
abbrev pub partner_of : Store → ℕ → Option ℕ
partner_of s d = elim (s.devices d) [
  | none ↦ none
  | some x ↦ elim (lock s x.partner) [ none ↦ none | some (p, y) ↦ some p ]
]

-- Partners of one another; at most one is negotiating; and nobody waits while both are idle.
pub record IsPaired (a b : ℕ) (s : Store) : Type 0 where
  pub distinct : a ≢ b
  pub forth : partner_of s a ≡ some b
  pub back : partner_of s b ≡ some a
  pub no_glare : (get_actice_negotiating s a && get_actice_negotiating s b) ≡ false
  pub served :
      (not (get_wants_to_negotiate s a || get_wants_to_negotiate s b)
        || (get_actice_negotiating s a || get_actice_negotiating s b))
      ≡ true

pub IsPaired-symm : {a b : ℕ} {s : Store} → IsPaired a b s → IsPaired b a s
IsPaired-symm v = ground arith

pub handle-IsPaired :
    (a b : ℕ) (e : Event) (s : Store) → IsPaired a b s → IsPaired a b (handle a e s)
unfolding handle on_want_to_negotiate on_answer on_offer on_ice_candidate send_answer send_offer
    send_ice_candidate negotiate get_wants_to_negotiate get_actice_negotiating
handle-IsPaired a b want s v = ground arith
handle-IsPaired a b (answers m) s v = ground arith
handle-IsPaired a b (offers o) s v = ground arith
handle-IsPaired a b (candidate i) s v = ground arith

-- A history of messages: from the first device's peer where the mark is `true`.
unfoldable pub run : ℕ → ℕ → List (Bool × Event) → Store → Store
run a b [] s = s
run a b ((from_first, e) ∷ es) s = run a b es (handle (if from_first then a else b) e s)

run-step-IsPaired :
    (a b : ℕ) (from_first : Bool) (e : Event) (s : Store)
    → IsPaired a b s
    → IsPaired a b (handle (if from_first then a else b) e s)
run-step-IsPaired a b true e s v = handle-IsPaired a b e s v
run-step-IsPaired a b false e s v = IsPaired-symm (handle-IsPaired b a e s (IsPaired-symm v))

-- Whatever messages the peers of two paired devices send, in any order: they stay partners of one
-- another, they never negotiate both at once, and if one wants to negotiate then one of them is negotiating.
pub run-IsPaired :
    (a b : ℕ) (es : List (Bool × Event)) (s : Store) → IsPaired a b s → IsPaired a b (run a b es s)
unfolding run
run-IsPaired a b [] s v = v
run-IsPaired a b ((f, e) ∷ es) s v = run-IsPaired a b es _ (run-step-IsPaired a b f e s v)

-- Of two paired devices, when the answer arrives from `b` while `a` is negotiating, the turn is given on: to `a` if it wants to
-- negotiate again, else to `b` if that one wants to, else to nobody. The wish that is granted is
-- cleared and the other one is kept.
pub on_answer_turn :
    (a b : ℕ) (m : Answer) (s : Store)
    → IsPaired a b s
    → get_actice_negotiating s a ≡ true
    → let s' = on_answer b m s in
      (get_actice_negotiating s' a ≡ get_wants_to_negotiate s a)
      × (get_actice_negotiating s' b
          ≡ (not (get_wants_to_negotiate s a) && get_wants_to_negotiate s b))
      × (get_wants_to_negotiate s' a ≡ false)
      × (get_wants_to_negotiate s' b ≡ (get_wants_to_negotiate s a && get_wants_to_negotiate s b))
unfolding on_answer send_answer negotiate get_wants_to_negotiate get_actice_negotiating
on_answer_turn a b m s v h = ground arith

-- Of two paired devices, a wish to negotiate is granted at once exactly when neither device is negotiating; otherwise it is
-- kept, and whoever is negotiating goes on.
on_want_to_negotiate_turn :
    (a b : ℕ) (s : Store)
    → IsPaired a b s
    → let busy = get_actice_negotiating s a || get_actice_negotiating s b in
      let s' = on_want_to_negotiate a s in
      (get_actice_negotiating s' a ≡ (if busy then get_actice_negotiating s a else true))
      × (get_actice_negotiating s' b ≡ get_actice_negotiating s b)
      × (get_wants_to_negotiate s' a ≡ busy)
unfolding on_want_to_negotiate negotiate get_wants_to_negotiate get_actice_negotiating
on_want_to_negotiate_turn a b s v = ground arith
