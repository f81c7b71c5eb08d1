-- ===== src/Signaling/Handler/Link.antt =====
-- A new device becomes the partner of the one that is there.
use fubble.Base.{ℕ, ◌≡◌, ◌≢◌, false, String, some, ◌==◌, arith, if◌then◌else◌}
use fubble.Signaling.Device.{
  Device, Store, fresh, put, release, get_wants_to_negotiate, get_actice_negotiating, negotiate,
  send_answer, send_offer, set_partner, send_cache, send_candidates,
}
use fubble.Signaling.Device.Pairing.{IsPaired}
use fubble.Signaling.Device.Relay.{send_candidates_lem}

-- A device that was just created finds nothing to send and does not negotiate.
pub set_partner-fresh :
    (d o c : ℕ) (t : String) (s : Store)
    → s.devices d ≡ some (fresh c t)
    → ((q : ℕ)
        → (set_partner d o s).devices q
          ≡ (if d == q then some (record (fresh c t) { partner = some o }) else s.devices q))
      × ((set_partner d o s).next ≡ s.next)
unfolding set_partner send_cache negotiate send_candidates
set_partner-fresh d o c t s h = ((λ q. ground arith), ground arith)

-- The partner of a new device ends up paired with it, whatever it had cached.
pub set_partner-IsPaired :
    (a b : ℕ) (s : Store) {x y : Device}
    → a ≢ b
    → s.devices a ≡ some x
    → s.devices b ≡ some y
    → y.partner ≡ some a
    → y.active_negotiating ≡ false
    → y.wants_to_negotiate ≡ false
    → IsPaired a b (set_partner a b s) × ((set_partner a b s).next ≡ s.next)
unfolding set_partner send_cache send_answer send_offer negotiate get_wants_to_negotiate
    get_actice_negotiating
set_partner-IsPaired a b s {x} {y} ne ha hb p na nw = ground (
  arith,
  send_candidates_lem b x.candidates_cache (put a (record x { partner = some b }) s) {y = y},
)

pub release-IsPaired :
    (q a b : ℕ) (s : Store) → q ≢ a → q ≢ b → IsPaired a b s → IsPaired a b (release q s)
unfolding get_wants_to_negotiate get_actice_negotiating
release-IsPaired q a b s na nb v = ground arith
