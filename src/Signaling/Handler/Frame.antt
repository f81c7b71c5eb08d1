-- ===== src/Signaling/Handler/Frame.antt =====
-- What an operation on one entry leaves alone: every device that is not in the entry.
use fubble.Base.{
  ℕ, suc, ◌<◌, ◌≤◌, ◌≡◌, ◌≢◌, ◌∙◌, ap, Bool, true, false, ◌||◌, String, Option, none, some, arith,
  ◌==◌, if◌then◌else◌, Option-cases, inl, inr,
}
use fubble.Signaling.Device.{
  Device, Store, fresh, put, get_wants_to_negotiate, get_actice_negotiating, negotiate, send_answer,
  send_offer, send_ice_candidate, send_cache, on_answer, on_offer, on_ice_candidate,
  on_want_to_negotiate, create, close, set_partner, reset_partner,
}
use fubble.Signaling.Device.Pairing.{IsPaired, Event, want, answers, offers, candidate, handle}
use fubble.Signaling.Device.Relay.{send_candidates_lem}
use fubble.Signaling.Handler.{Index, zeroth, first, RegisteredConnection, take_out, link, swap_in}
use fubble.Signaling.Handler.Link.{set_partner-fresh}
use fubble.Signaling.Handler.Entry.{
  IsAlone, IsWell, create_fields, close_fields, IsPaired-alive, link-IsPaired,
}

abbrev pub is_at : Option ℕ → ℕ → Bool
is_at none q = false
is_at (some d) q = d == q

abbrev pub holds : RegisteredConnection → ℕ → Bool
holds e q = if is_at e.devices.at_zeroth q then true else is_at e.devices.at_first q

set_partner_others :
    (a b q : ℕ) (s : Store) {x y : Device}
    → a ≢ b
    → s.devices a ≡ some x
    → s.devices b ≡ some y
    → y.partner ≡ some a
    → a ≢ q
    → b ≢ q
    → (set_partner a b s).devices q ≡ s.devices q
unfolding set_partner send_cache send_answer send_offer negotiate
set_partner_others a b q s {x} {y} ne ha hb p na nb = ground (
  arith,
  send_candidates_lem b x.candidates_cache (put a (record x { partner = some b }) s) {y = y},
)

link_others :
    (o d c q : ℕ) (t : String) (s : Store) {y : Device}
    → o ≢ d
    → s.devices d ≡ some (fresh c t)
    → s.devices o ≡ some y
    → o ≢ q
    → d ≢ q
    → ((link (some o) d s).devices q ≡ s.devices q)
unfolding link
link_others o d c q t s {y} ne hd ho oq dq = ground (
  arith,
  (set_partner-fresh d o c t s hd).0 d,
  (set_partner-fresh d o c t s hd).0 o,
  (set_partner-fresh d o c t s hd).0 q,
  set_partner_others o d q (set_partner d o s) {x = y}
      {y = record (fresh c t) { partner = some o }},
)

pub take_out_others :
    (i : Index) (e : RegisteredConnection) (q : ℕ) (s : Store)
    → holds e q ≡ false
    → ((take_out i e s).1.devices q ≡ s.devices q) × ((take_out i e s).1.next ≡ s.next)
unfolding take_out reset_partner
take_out_others zeroth e q s h = ground arith
take_out_others first e q s h = ground arith

pub take_out_next :
    (i : Index) (e : RegisteredConnection) (s : Store) → (take_out i e s).1.next ≡ s.next
unfolding take_out reset_partner
take_out_next zeroth e s = ground arith
take_out_next first e s = ground arith

pub handle_others :
    (a b : ℕ) (m : Event) (q : ℕ) (s : Store)
    → IsPaired a b s
    → a ≢ q
    → b ≢ q
    → ((handle a m s).devices q ≡ s.devices q) × ((handle a m s).next ≡ s.next)
unfolding handle on_answer on_offer on_ice_candidate on_want_to_negotiate send_answer send_offer
    send_ice_candidate negotiate
handle_others a b want q s v na nb = ground arith
handle_others a b (answers m) q s v na nb = ground arith
handle_others a b (offers o) q s v na nb = ground arith
handle_others a b (candidate i) q s v na nb = ground arith

pub handle-IsAlone :
    (a : ℕ) (m : Event) (q : ℕ) (s : Store)
    → IsAlone a s
    → IsAlone a (handle a m s)
      × (a ≢ q → (handle a m s).devices q ≡ s.devices q)
      × ((handle a m s).next ≡ s.next)
unfolding handle on_answer on_offer on_ice_candidate on_want_to_negotiate
handle-IsAlone a want q s v = (ground arith, (λ ne. ground arith), ground arith)
handle-IsAlone a (answers m) q s v = (ground arith, (λ ne. ground arith), ground arith)
handle-IsAlone a (offers o) q s v = (ground arith, (λ ne. ground arith), ground arith)
handle-IsAlone a (candidate i) q s v = (ground arith, (λ ne. ground arith), ground arith)

link_next :
    (o d c : ℕ) (t : String) (s : Store) {y : Device}
    → o ≢ d
    → s.devices d ≡ some (fresh c t)
    → s.devices o ≡ some y
    → (link (some o) d s).next ≡ s.next
link_next o d c t s ne hd ho = (link-IsPaired o d c t s ne hd ho).1

pub swap_in_others :
    (old other : Option ℕ) (c q : ℕ) (t : String) (s : Store)
    → IsWell old other s
    → q < s.next
    → is_at old q ≡ false
    → is_at other q ≡ false
    → ((swap_in old other c t s).devices q ≡ s.devices q)
      × ((swap_in old other c t s).next ≡ suc s.next)
unfolding swap_in
swap_in_others none none c q t s v lt ho hp = unfold link create in ground arith
swap_in_others (some p) none c q t s v lt ho hp =
    let (created, kept, next_id) = create_fields c t s in
    let (same_devices, same_next) = close_fields p (create c t s) in
    let same_q = ap (λ (f : ℕ → Option Device). f q) same_devices ∙ kept q lt in
    (unfold link in ground (arith, same_q), unfold link in (same_next ∙ next_id))
swap_in_others none (some o) c q t s v lt ho hp =
    let (created, kept, next_id) = create_fields c t s in
    let t' = create c t s in
    elim (Option-cases (s.devices o)) [
      | inl e ↦ absurd (ground arith)
      | inr (y, e) ↦
          let here = kept o v.1 ∙ e in
          (
            link_others o s.next c q t t' (omega arith) created here (ground arith) (omega arith)
                ∙ kept q lt,
            link_next o s.next c t t' (omega arith) created here ∙ next_id,
          )
    ]
swap_in_others (some p) (some o) c q t s v lt ho hp =
    let (created, kept, next_id) = create_fields c t s in
    let (same_devices, same_next) = close_fields p (create c t s) in
    let t' = close p (create c t s) in
    let (y, e) = IsPaired-alive p o s v.0 in
    let here = ap (λ (f : ℕ → Option Device). f o) same_devices ∙ kept o v.2 ∙ e in
    let made = ap (λ (f : ℕ → Option Device). f s.next) same_devices ∙ created in
    let others =
      link_others o s.next c q t t' (omega arith) made here (ground arith) (omega arith) in
    let same_q = ap (λ (f : ℕ → Option Device). f q) same_devices ∙ kept q lt in
    (
      ground (arith, others, same_q),
      link_next o s.next c t t' (omega arith) made here ∙ same_next ∙ next_id,
    )

-- An entry whose devices are as they were stays well.
pub same-IsWell :
    (a b : Option ℕ) (s s' : Store)
    → ((q : ℕ) → q < s.next → (is_at a q || is_at b q) ≡ true → s'.devices q ≡ s.devices q)
    → s.next ≤ s'.next
    → IsWell a b s
    → IsWell a b s'
unfolding get_wants_to_negotiate get_actice_negotiating
same-IsWell none none s s' f n v = tt
same-IsWell (some a) none s s' f n v = ground (arith, f a)
same-IsWell none (some b) s s' f n v = ground (arith, f b)
same-IsWell (some a) (some b) s s' f n v = ground (arith, f a, f b)

-- The devices of a well entry have been created.
pub IsWell-created :
    (a b : Option ℕ) (q : ℕ) (s : Store)
    → IsWell a b s
    → (is_at a q || is_at b q) ≡ true
    → q < s.next
IsWell-created none none q s v h = cc
IsWell-created (some a) none q s v h = ground arith
IsWell-created none (some b) q s v h = ground arith
IsWell-created (some a) (some b) q s v h = ground arith

pub swap_in_next :
    (old other : Option ℕ) (c : ℕ) (t : String) (s : Store)
    → IsWell old other s
    → (swap_in old other c t s).next ≡ suc s.next
unfolding swap_in
swap_in_next none none c t s v = unfold link create in ground arith
swap_in_next (some p) none c t s v =
    unfold link in ((close_fields p (create c t s)).1 ∙ (create_fields c t s).2)
swap_in_next none (some o) c t s v =
    let (created, kept, next_id) = create_fields c t s in
    elim (Option-cases (s.devices o)) [
      | inl e ↦ absurd (ground arith)
      | inr (y, e) ↦
          link_next o s.next c t (create c t s) (omega arith) created (kept o v.1 ∙ e) ∙ next_id
    ]
swap_in_next (some p) (some o) c t s v =
    let (created, kept, next_id) = create_fields c t s in
    let (same_devices, same_next) = close_fields p (create c t s) in
    let (y, e) = IsPaired-alive p o s v.0 in
    link_next o s.next c t (close p (create c t s)) (omega arith)
      (ap (λ (f : ℕ → Option Device). f s.next) same_devices ∙ created)
      (ap (λ (f : ℕ → Option Device). f o) same_devices ∙ kept o v.2 ∙ e)
    ∙ same_next
    ∙ next_id
