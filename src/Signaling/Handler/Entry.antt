-- ===== src/Signaling/Handler/Entry.antt =====
-- One entry of the table: the two devices of a key.
use fubble.Base.{
  ℕ, suc, ◌<◌, ◌≡◌, refl, ◌≢◌, false, String, Option, none, some, arith, Option-cases, ap, ◌∙◌, inl,
  inr,
}
use fubble.Signaling.Message.{Registration}
use fubble.Signaling.Device.{
  Device, Store, fresh, get_wants_to_negotiate, get_actice_negotiating, release, create, close,
  set_partner, reset_partner,
}
use fubble.Signaling.Device.Pairing.{IsPaired, IsPaired-symm}
use fubble.Signaling.Handler.{
  Index, zeroth, first, RegisteredConnection, place, take_out, link, swap_in,
}
use fubble.Signaling.Handler.Link.{set_partner-fresh, set_partner-IsPaired, release-IsPaired}

-- A living device with no partner, which is not negotiating.
abbrev pub IsAlone : ℕ → Store → Type 0
IsAlone a s = elim (s.devices a) [
  | none ↦ ⊥
  | some x ↦ (x.partner ≡ none) × (x.active_negotiating ≡ false)
]

-- The two devices of an entry, as far as there are any: two are partners of one another.
abbrev pub IsWell : Option ℕ → Option ℕ → Store → Type 0
IsWell none none s = Unit {0}
IsWell (some a) none s = IsAlone a s × (a < s.next)
IsWell none (some b) s = IsAlone b s × (b < s.next)
IsWell (some a) (some b) s = IsPaired a b s × (a < s.next) × (b < s.next)

abbrev pub IsWellEntry : RegisteredConnection → Store → Type 0
IsWellEntry e s = IsWell e.devices.at_zeroth e.devices.at_first s

pub IsWell-symm : (a b : Option ℕ) (s : Store) → IsWell a b s → IsWell b a s
IsWell-symm none none s v = v
IsWell-symm none (some b) s v = v
IsWell-symm (some a) none s v = v
IsWell-symm (some a) (some b) s v = ground arith

-- When a device closes, taking it out of its entry leaves the entry well: the other device, if there
-- is one, has no partner any more and is not negotiating.
pub take_out-IsWell :
    (i : Index) (e : RegisteredConnection) (s : Store)
    → IsWellEntry e s
    → IsWellEntry (take_out i e s).0 (take_out i e s).1
unfolding take_out reset_partner get_actice_negotiating get_wants_to_negotiate
take_out-IsWell zeroth e s v = ground arith
take_out-IsWell first e s v = ground arith

pub link-IsPaired :
    (o d c : ℕ) (t : String) (s : Store) {y : Device}
    → o ≢ d
    → s.devices d ≡ some (fresh c t)
    → s.devices o ≡ some y
    → IsPaired o d (link (some o) d s) × ((link (some o) d s).next ≡ s.next)
unfolding link
link-IsPaired o d c t s {y} ne hd ho = ground (
  arith,
  (set_partner-fresh d o c t s hd).0 d,
  (set_partner-fresh d o c t s hd).0 o,
  (set_partner-fresh d o c t s hd).1,
  set_partner-IsPaired o d (set_partner d o s) {x = y}
      {y = record (fresh c t) { partner = some o }},
)

pub create_fields :
    (c : ℕ) (t : String) (s : Store)
    → ((create c t s).devices s.next ≡ some (fresh c t))
      × ((q : ℕ) → q < s.next → (create c t s).devices q ≡ s.devices q)
      × ((create c t s).next ≡ suc s.next)
unfolding create
create_fields c t s = (ground arith, (λ q h. ground arith), refl)

pub close_fields :
    (p : ℕ) (s : Store) → ((close p s).devices ≡ s.devices) × ((close p s).next ≡ s.next)
unfolding close
close_fields p s = (ground arith, ground arith)

-- A new device joins the one at `o`, in a store that has both.
join-IsWell :
    (o d c : ℕ) (t : String) (s : Store) {y : Device}
    → o < d
    → s.next ≡ suc d
    → s.devices d ≡ some (fresh c t)
    → s.devices o ≡ some y
    → IsWell (some d) (some o) (link (some o) d s)
join-IsWell o d c t s lt n hd ho =
    let (paired, same_next) = link-IsPaired o d c t s (omega arith) hd ho in
    (IsPaired-symm paired, omega arith, omega arith)

release-IsWell :
    (p a b : ℕ) (s : Store)
    → p ≢ a
    → p ≢ b
    → IsWell (some a) (some b) s
    → IsWell (some a) (some b) (release p s)
release-IsWell p a b s na nb v = (release-IsPaired p a b s na nb v.0, v.1, v.2)

pub IsPaired-alive : (a b : ℕ) (s : Store) → IsPaired a b s → (y : Device) × (s.devices b ≡ some y)
IsPaired-alive a b s v = elim (Option-cases (s.devices b)) [
  | inl e ↦ absurd (ground arith)
  | inr found ↦ found
]

-- Whatever was there, the new device and the other one are well afterwards.
swap_in-IsWell :
    (old other : Option ℕ) (c : ℕ) (t : String) (s : Store)
    → IsWell old other s
    → IsWell (some s.next) other (swap_in old other c t s)
unfolding swap_in
swap_in-IsWell none none c t s v = unfold link create in ground arith
swap_in-IsWell (some p) none c t s v =
    unfold link in ground (arith, create_fields c t s, close_fields p (create c t s))
swap_in-IsWell none (some o) c t s v = elim (Option-cases (s.devices o)) [
  | inl e ↦ absurd (ground arith)
  | inr (y, e) ↦
      join-IsWell o s.next c t (create c t s) v.1 (create_fields c t s).2 (create_fields c t s).0
        ((create_fields c t s).1 o v.1 ∙ e)
]
swap_in-IsWell (some p) (some o) c t s v =
    let (created, kept, next_id) = create_fields c t s in
    let (same_devices, same_next) = close_fields p (create c t s) in
    let (y, e) = IsPaired-alive p o s v.0 in
    release-IsWell p s.next o _ (omega arith) v.0.distinct (
      join-IsWell o s.next c t (close p (create c t s)) v.2 (same_next ∙ next_id)
        (ap (λ (f : ℕ → Option Device). f s.next) same_devices ∙ created)
        (ap (λ (f : ℕ → Option Device). f o) same_devices ∙ kept o v.2 ∙ e))

-- A registration keeps its entry well, whether the place was free or held a device, which is then
-- closed: if the other place holds a device, it and the new one are partners of one another.
pub place-IsWell :
    (i : Index) (c : ℕ) (r : Registration) (h : ℕ) (e : RegisteredConnection) (s : Store)
    → IsWellEntry e s
    → IsWellEntry (place i c r h e s).0 (place i c r h e s).1
unfolding place
place-IsWell zeroth c r h e s v =
    swap_in-IsWell e.devices.at_zeroth e.devices.at_first c r.reconnect_token s v
place-IsWell first c r h e s v = IsWell-symm (some s.next) e.devices.at_zeroth _ (
    swap_in-IsWell e.devices.at_first e.devices.at_zeroth c r.reconnect_token s
      (IsWell-symm e.devices.at_zeroth e.devices.at_first s v))
