-- ===== src/Signaling/Device/Relay.antt =====
-- What a device passes on to its partner, at once or out of its caches.
use mathlib.Core.List.{reverse}
use fubble.Base.{
  ℕ, ◌≡◌, refl, sym, ap, ◌∙◌, ◌≢◌, false, Option, none, some, List, [], ◌∷◌, ◌++◌, map, arith,
  reverse-cons_append,
}
use fubble.Signaling.Message.{Offer, IceCandidate}
use fubble.Signaling.Device.{
  Device, Sent, offer_sent, candidate_sent, Store, put, send_offer, send_ice_candidate,
  send_candidates, send_cache, set_partner, negotiate, on_offer, emit,
}

abbrev pub sent_candidates : ℕ → List IceCandidate → List (ℕ × Sent)
sent_candidates c = map λ i. (c, candidate_sent i)

send_ice_candidate_lem :
    (p : ℕ) (i : IceCandidate) (s : Store) {y : Device}
    → s.devices p ≡ some y
    → send_ice_candidate p i s ≡ emit y.connection (candidate_sent i) s
unfolding send_ice_candidate
send_ice_candidate_lem p i s h = ground arith

-- Candidates go out in the order of the list; the log has the newest first.
pub send_candidates_lem :
    (p : ℕ) (l : List IceCandidate) (s : Store) {y : Device}
    → s.devices p ≡ some y
    → send_candidates p l s ≡ record s { log = reverse (sent_candidates y.connection l) ++ s.log }
unfolding send_candidates
send_candidates_lem p [] s h = refl
send_candidates_lem p (i ∷ l) s {y} h =
    ap (send_candidates p l) (send_ice_candidate_lem p i s h)
    ∙ send_candidates_lem p l (emit y.connection (candidate_sent i) s) h
    ∙ ap (λ t. record s { log = t })
        (sym (reverse-cons_append (sent_candidates y.connection l) _ s.log))

-- An offer of a device with a living partner goes out on the partner's connection and is the only
-- thing that changes.
on_offer_relay :
    (a b : ℕ) (o : Offer) (s : Store) {x y : Device}
    → s.devices a ≡ some x
    → x.partner ≡ some b
    → s.devices b ≡ some y
    → on_offer a o s ≡ emit y.connection (offer_sent o) s
unfolding on_offer send_offer
on_offer_relay a b o s h p l = ground arith

abbrev pub offer_entries : ℕ → Option Offer → List (ℕ × Sent) → List (ℕ × Sent)
offer_entries c none l = l
offer_entries c (some o) l = (c, offer_sent o) ∷ l

abbrev pub paired_with : Device → ℕ → Device
paired_with x b = record x { partner = some b; candidates_cache = []; offer_cache = none }

-- A device that has no answer cached and no wish to negotiate hands its new partner, in this order,
-- the candidates as they came and the offer, and keeps neither; nothing else changes.
set_partner_flush :
    (a b : ℕ) (s : Store) {x y : Device}
    → a ≢ b
    → s.devices a ≡ some x
    → s.devices b ≡ some y
    → x.answer_cache ≡ none
    → x.wants_to_negotiate ≡ false
    → ((set_partner a b s).devices a ≡ some (paired_with x b))
      × ((set_partner a b s).devices b ≡ some y)
      × ((set_partner a b s).log
          ≡ offer_entries y.connection x.offer_cache
              (reverse (sent_candidates y.connection x.candidates_cache) ++ s.log))
unfolding set_partner send_cache negotiate send_offer
set_partner_flush a b s {x} {y} ne ha hb ans w = ground (
  arith,
  send_candidates_lem b x.candidates_cache (put a (record x { partner = some b }) s) {y = y},
)
