-- ===== src/Signaling/Handler/History.antt =====
-- Histories of the registration handler: registrations, devices that close, and what their peers say.
use fubble.Base.{
  ℕ, suc, ◌+◌, ◌≡◌, refl, ◌≢◌, Bool, true, false, String, same, Option, none, some, List, [], ◌∷◌,
  arith, if◌then◌else◌, Option-cases, Bool-cases, inl, inr, subst,
}
use fubble.Signaling.Message.{Registration}
use fubble.Signaling.Device.{Store}
use fubble.Signaling.Device.Pairing
use fubble.Signaling.Device.Pairing.{IsPaired, IsPaired-symm, handle, handle-IsPaired}
use fubble.Signaling.Handler.{
  Index, zeroth, first, RegisteredConnection, get, place, take_out, Handler, find, write, erase,
  find_or_create, register_, on_device_closed, is_vacant, my_device_index, remove_index,
}
use fubble.Signaling.Handler.Entry.{IsWell, IsWellEntry, IsWell-symm, place-IsWell, take_out-IsWell}
use fubble.Signaling.Handler.Frame.{is_at, handle_others, handle-IsAlone}
use fubble.Signaling.Handler.Table.{Frame, AllWell, place-Frame, take_out-Frame, write-AllWell}
use fubble.Signaling.Handler.Entries.{
  IsTable, write-IsTable, erase-IsTable, find_or_create_lem, place-Renews, take_out-Renews,
}

-- What the devices' peers say comes to the device at a place of a key's entry.
pub data Event : Type 0 where
  registers : ℕ → Registration → Event
  closes : Registration → Event
  says : String → Index → Pairing.Event → Event

abbrev on_device : Option ℕ → Pairing.Event → Store → Store
on_device none m s = s
on_device (some d) m s = handle d m s

abbrev hear : Option RegisteredConnection → Index → Pairing.Event → Handler → Handler
hear none i m w = w
hear (some e) i m w = record w { store = on_device (get e.devices i) m w.store }

pub step : Event → Handler → Handler
unfolding find
step (registers c r) w = register_ c r w
step (closes r) w = on_device_closed r w
step (says k i m) w = hear (find k w.devices) i m w

pub run : List Event → Handler → Handler
run [] w = w
run (e ∷ es) w = run es (step e w)

abbrev pub IsSound : Handler → Type 0
IsSound w = IsTable w.devices w.store

find-AllWell :
    (k : String) (e : RegisteredConnection) (l : List RegisteredConnection) (s : Store)
    → find k l ≡ some e
    → AllWell l s
    → IsWellEntry e s
unfolding find
find-AllWell k e [] s h v = cc
find-AllWell k e (x ∷ l) s h v = elim (Bool-cases (same x.key k)) [
  | inl t ↦ subst (λ f. IsWellEntry f s) {x = x} {y = e} (ground arith) v.0
  | inr t ↦ find-AllWell k e l s (ground arith) v.1
]

register_-IsSound : (c : ℕ) (r : Registration) (w : Handler) → IsSound w → IsSound (register_ c r w)
unfolding register_
register_-IsSound c r w v =
    let change = (find_or_create r.key w.devices).0 in
    let i = my_device_index w.store change.devices r.reconnect_token in
    let (found, table) = find_or_create_lem r.key w.devices w.store v in
    write-IsTable r.key change (place i c r w.next_handle change w.store).0
      (find_or_create r.key w.devices).1 w.store (place i c r w.next_handle change w.store).1 found
      (place-Frame i c r w.next_handle change w.store
        (find-AllWell r.key change (find_or_create r.key w.devices).1 w.store found table.0))
      (place-IsWell i c r w.next_handle change w.store
        (find-AllWell r.key change (find_or_create r.key w.devices).1 w.store found table.0))
      (place-Renews i c r w.next_handle change w.store) table

on_device_closed-IsSound :
    (r : Registration) (w : Handler) → IsSound w → IsSound (on_device_closed r w)
unfolding on_device_closed
on_device_closed-IsSound r w v = elim (Option-cases (find r.key w.devices)) [
  | inl n ↦ rw (n, on_device_closed) v
  | inr (e, h) ↦
      rw (h, on_device_closed)
        (let i = remove_index w.store e.devices r.reconnect_token in
          removed i e (is_vacant (take_out i e w.store).0) h)
]
  where
    removed :
        (i : Index) (e : RegisteredConnection) (b : Bool)
        → find r.key w.devices ≡ some e
        → IsTable
            (if b then erase r.key w.devices else write r.key (take_out i e w.store).0 w.devices)
            (take_out i e w.store).1
    removed i e true h = erase-IsTable r.key e w.devices w.store _ h (take_out-Frame i e w.store) v
    removed i e false h =
        write-IsTable r.key e (take_out i e w.store).0 w.devices w.store _ h
          (take_out-Frame i e w.store)
          (take_out-IsWell i e w.store (find-AllWell r.key e w.devices w.store h v.0))
          (take_out-Renews i e w.store) v

-- What a device hears leaves its entry well and the others' devices alone.
handled-IsWell :
    (a : ℕ) (o : Option ℕ) (m : Pairing.Event) (s : Store)
    → IsWell (some a) o s
    → IsWell (some a) o (handle a m s)
      × ((q : ℕ) → a ≢ q → is_at o q ≡ false → (handle a m s).devices q ≡ s.devices q)
      × ((handle a m s).next ≡ s.next)
handled-IsWell a none m s v =
    let (alone, others, next) = handle-IsAlone a m a s v.0 in
    ((alone, omega (arith, v.1)), (λ q ne h. (handle-IsAlone a m q s v.0).1 ne), next)
handled-IsWell a (some b) m s v =
    let next = (handle_others a b m (suc (a + b)) s v.0 (omega arith) (omega arith)).1 in
    (
      (handle-IsPaired a b m s v.0, omega (arith, v.1), omega (arith, v.1)),
      (λ q ne h. (handle_others a b m q s v.0 ne (ground arith)).0),
      next,
    )

heard-IsWell :
    (a b : Option ℕ) (m : Pairing.Event) (s : Store)
    → IsWell a b s
    → IsWell a b (on_device a m s)
      × ((q : ℕ)
          → is_at a q ≡ false
          → is_at b q ≡ false
          → (on_device a m s).devices q ≡ s.devices q)
      × ((on_device a m s).next ≡ s.next)
heard-IsWell none b m s v = (v, (λ q h k. refl), refl)
heard-IsWell (some a) b m s v =
    let (well, others, next) = handled-IsWell a b m s v in
    (well, (λ q h k. others q (ground arith) k), next)

heard-IsWellEntry :
    (i : Index) (e : RegisteredConnection) (m : Pairing.Event) (s : Store)
    → IsWellEntry e s
    → IsWellEntry e (on_device (get e.devices i) m s) × Frame e s (on_device (get e.devices i) m s)
heard-IsWellEntry zeroth e m s v =
    let (well, others, next) = heard-IsWell e.devices.at_zeroth e.devices.at_first m s v in
    (well, ((λ q lt h. others q (ground arith) (ground arith)), omega (arith, next)))
heard-IsWellEntry first e m s v =
    let a = e.devices.at_zeroth in
    let b = e.devices.at_first in
    let (well, others, next) = heard-IsWell b a m s (IsWell-symm a b s v) in
    (
      IsWell-symm b a _ well,
      ((λ q lt h. others q (ground arith) (ground arith)), omega (arith, next)),
    )

write_same :
    (k : String) (e : RegisteredConnection) (l : List RegisteredConnection)
    → find k l ≡ some e
    → write k e l ≡ l
unfolding find write
write_same k e [] h = refl
write_same k e (x ∷ l) h = ground (arith, write_same k e l)

step-IsSound : (e : Event) (w : Handler) → IsSound w → IsSound (step e w)
unfolding step
step-IsSound (registers c r) w v = register_-IsSound c r w v
step-IsSound (closes r) w v = on_device_closed-IsSound r w v
step-IsSound (says k i m) w v = elim (Option-cases (find k w.devices)) [
  | inl n ↦ rw (n, step) v
  | inr (e, h) ↦
      let (well, frame) =
        heard-IsWellEntry i e m w.store (find-AllWell k e w.devices w.store h v.0) in
      let s' = on_device (get e.devices i) m w.store in
      rw (h, step)
        (
          subst (λ l. AllWell l s') (write_same k e w.devices h)
              (write-AllWell k e e w.devices w.store s' h frame well v.1 v.0),
          v.1,
        )
]

run-IsSound : (es : List Event) (w : Handler) → IsSound w → IsSound (run es w)
unfolding run
run-IsSound [] w v = v
run-IsSound (e ∷ es) w v = run-IsSound es (step e w) (step-IsSound e w v)

abbrev pub initial : Handler
initial = record {
  store = record { next = 0; devices = λ q. none; log = [] };
  devices = [];
  subscriptions = [];
  next_handle = 0;
}

-- After any history of registrations, closed devices and messages from the devices' peers: no device
-- is in two entries of the table; the two devices of a full entry are partners of one another, never
-- negotiate both at once and do not both idle while one wants to; and a device that is alone in its
-- entry has no partner and is not negotiating.
pub run-initial-IsSound : (es : List Event) → IsSound (run es initial)
run-initial-IsSound es = run-IsSound es initial (tt, tt)
