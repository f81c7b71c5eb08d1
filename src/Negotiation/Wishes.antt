-- ===== src/Negotiation/Wishes.antt =====
-- What becomes of a wish to negotiate.
use fubble.Base.{
  ℕ, suc, ◌+◌, ◌≤◌, ◌≡◌, refl, Bool, true, false, ◌&&◌, List, [], ◌∷◌, arith, if◌then◌else◌,
}
use fubble.Negotiation.{
  Call, send_want_to_negotiate, OfferAnswer, Config, initial, Event, on_negotiation_needed,
  on_connected, on_closed, step,
}

-- The state after a history and the number of wishes that were sent.
unfoldable pub run : List Event → OfferAnswer → OfferAnswer
run [] s = s
run (e ∷ es) s = run es (step e s).0

abbrev pub wishes : List Call → ℕ
wishes [] = 0
wishes (send_want_to_negotiate ∷ l) = suc (wishes l)
wishes (_ ∷ l) = wishes l

unfoldable pub wishes_sent : List Event → OfferAnswer → ℕ
wishes_sent [] s = 0
wishes_sent (e ∷ es) s = wishes (step e s).1 + wishes_sent es (step e s).0

abbrev pub needs : List Event → ℕ
needs [] = 0
needs (on_negotiation_needed ∷ es) = suc (needs es)
needs (_ ∷ es) = needs es

abbrev pub pending : OfferAnswer → ℕ
pending s = if s.wants_to_negotiate then 1 else 0

-- No wish is ever pending while connected.
abbrev pub IsSettled : OfferAnswer → Type 0
IsSettled s = (s.connected && s.wants_to_negotiate) ≡ false

step-IsSettled : (e : Event) (s : OfferAnswer) → IsSettled s → IsSettled (step e s).0
unfolding step
step-IsSettled on_negotiation_needed s h = ground arith
step-IsSettled _ s h = ground arith

wishes-step :
    (e : Event) (s : OfferAnswer)
    → wishes (step e s).1 + pending (step e s).0 ≤ needs (e ∷ []) + pending s
unfolding step
wishes-step on_negotiation_needed s = ground arith
wishes-step _ s = ground arith

needs-cons : (e : Event) (es : List Event) → needs (e ∷ es) ≡ needs (e ∷ []) + needs es
needs-cons on_negotiation_needed es = omega arith
needs-cons _ es = omega arith

-- Over any history at most one wish is sent for each time that negotiation was needed, and a wish
-- that is still kept back is one of those that were not sent.
pub run_wishes_bound :
    (es : List Event) (s : OfferAnswer)
    → wishes_sent es s + pending (run es s) ≤ needs es + pending s
unfolding run wishes_sent
run_wishes_bound [] s = omega arith
run_wishes_bound (e ∷ es) s =
    omega (arith, wishes-step e s, needs-cons e es, run_wishes_bound es (step e s).0)

run-IsSettled : (es : List Event) (s : OfferAnswer) → IsSettled s → IsSettled (run es s)
unfolding run
run-IsSettled [] s h = h
run-IsSettled (e ∷ es) s h = run-IsSettled es _ (step-IsSettled e s h)

-- After any history from the start, no wish is kept back while there is a connection.
pub run-initial-IsSettled : (c : Config) (es : List Event) → IsSettled (run es (initial c))
run-initial-IsSettled c es = run-IsSettled es (initial c) refl

abbrev pub connects : List Event → Bool
connects [] = false
connects (on_connected ∷ es) = true
connects (_ ∷ es) = connects es

pending_served :
    (es : List Event) (s : OfferAnswer)
    → s.wants_to_negotiate ≡ true
    → connects es ≡ true
    → 1 ≤ wishes_sent es s
unfolding wishes_sent step
pending_served [] s w h = cc
pending_served (on_connected ∷ es) s w h = ground arith
pending_served (on_negotiation_needed ∷ es) s w h = ground (
  arith,
  pending_served es s w h,
  pending_served es (record s { wants_to_negotiate = true }) refl h,
)
pending_served (on_closed ∷ es) s w h =
    ground (arith, pending_served es (record s { connected = false }) w h)
pending_served (_ ∷ es) s w h = ground (arith, pending_served es s w h)

-- A need that arises leads to a wish: at once if there is a connection, and otherwise by the next
-- `on_connected`, whatever happens before it.
pub need_served :
    (es : List Event) (s : OfferAnswer)
    → connects es ≡ true
    → 1 ≤ wishes_sent (on_negotiation_needed ∷ es) s
unfolding wishes_sent step
need_served es s h =
    ground (arith, pending_served es (record s { wants_to_negotiate = true }) refl h)
