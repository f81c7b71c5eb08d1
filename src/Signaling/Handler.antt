-- ===== src/Signaling/Handler.antt =====
-- fubble/signaling/registration_handler.{hpp,cpp}: the server's table of keys, with up to two
-- devices under each. A subscription to `on_closed` is a numbered entry of a list, in the order in
-- which the signal calls it; a `scoped_connection` is the number.
pub mod Link
pub mod Entry
pub mod Frame
pub mod Table
pub mod Entries
pub mod History
use fubble.Base.{
  ℕ, suc, ◌≡◌, Bool, true, false, ◌&&◌, ◌||◌, String, same, Option, none, some, List, [], ◌∷◌, ◌==◌,
  if◌then◌else◌, is_some,
}
use fubble.Signaling.Message.{Registration}
use fubble.Signaling.Device.{Store, release, create, close, set_partner, reset_partner}

pub data Index : Type 0 where
  zeroth first : Index

abbrev pub other_index : Index → Index
other_index zeroth = first
other_index first = zeroth

-- `std::array<T, 2>` of pointers.
pub record Pair : Type 0 where
  pub at_zeroth : Option ℕ
  pub at_first : Option ℕ

abbrev pub get : Pair → Index → Option ℕ
get p zeroth = p.at_zeroth
get p first = p.at_first

abbrev pub set : Pair → Index → Option ℕ → Pair
set p zeroth v = record p { at_zeroth = v }
set p first v = record p { at_first = v }

pub record RegisteredConnection : Type 0 where
  pub key : String
  pub devices : Pair
  pub on_close_handles : Pair

abbrev pub empty_pair : Pair
empty_pair = record { at_zeroth = none; at_first = none }

-- `device->get_token() == token`, of a pointer that may be null.
abbrev pub has_token : Store → Option ℕ → String → Bool
has_token s none t = false
has_token s (some d) t = elim (s.devices d) [ none ↦ false | some x ↦ same x.token t ]

-- `my_device_index`: the second device's token is looked at last, and no match takes the free place,
-- or the second where there is none.
unfoldable pub my_device_index : Store → Pair → String → Index
my_device_index s devices token =
    if has_token s devices.at_first token
    then first
    else (if has_token s devices.at_zeroth token
        then zeroth
        else (if is_some devices.at_zeroth then first else zeroth))

abbrev pub on_some : Option ℕ → (ℕ → Store → Store) → Store → Store
on_some none f s = s
on_some (some d) f s = f d s

-- The new device and the other one become partners.
unfoldable pub link : Option ℕ → ℕ → Store → Store
link none device s = s
link (some other) device s = set_partner other device (set_partner device other s)

-- `register_`, from the creation of the device on: what it does to the devices. The replaced device
-- is closed, and lives until the end, where the local copies of its pointer go away.
unfoldable pub swap_in : Option ℕ → Option ℕ → ℕ → String → Store → Store
swap_in old other connection token s =
    on_some old release (link other s.next (on_some old close (create connection token s)))

-- ... and to the entry.
unfoldable pub place :
    Index → ℕ → Registration → ℕ → RegisteredConnection → Store → RegisteredConnection × Store
place i connection registration handle change s = (
  record change {
    devices = set change.devices i (some s.next);
    on_close_handles = set change.on_close_handles i (some handle);
  },
  swap_in (get change.devices i) (get change.devices (other_index i)) connection
      registration.reconnect_token s,
)

-- `on_device_closed`, from the look-up of the device's place on: the first place that holds the
-- token, or the first place.
unfoldable pub remove_index : Store → Pair → String → Index
remove_index s devices token =
    if has_token s devices.at_zeroth token
    then zeroth
    else (if has_token s devices.at_first token then first else zeroth)

unfoldable pub take_out : Index → RegisteredConnection → Store → RegisteredConnection × Store
take_out i found s =
    let other = get found.devices (other_index i) in
    let s' = on_some other reset_partner s in
    let found' = record found {
      devices = set found.devices i none;
      on_close_handles = set found.on_close_handles i none;
    } in
    (found', on_some (get found.devices i) release s')

-- The whole handler.
pub record Subscription : Type 0 where
  pub handle : ℕ
  pub connection : ℕ
  pub registration : Registration

pub record Handler : Type 0 where
  pub store : Store
  pub devices : List RegisteredConnection
  pub subscriptions : List Subscription
  pub next_handle : ℕ

pub find : String → List RegisteredConnection → Option RegisteredConnection
find k [] = none
find k (e ∷ l) = if same e.key k then some e else find k l

-- A write through the reference or iterator that `find` gave.
pub write : String → RegisteredConnection → List RegisteredConnection → List RegisteredConnection
write k v [] = []
write k v (e ∷ l) = if same e.key k then v ∷ l else e ∷ write k v l

pub erase : String → List RegisteredConnection → List RegisteredConnection
erase k [] = []
erase k (e ∷ l) = if same e.key k then l else e ∷ erase k l

abbrev pub push_back {ℓ} : {A : Type ℓ} → List A → A → List A
push_back [] a = a ∷ []
push_back (x ∷ l) a = x ∷ push_back l a

abbrev pub new_entry : String → RegisteredConnection
new_entry k = record { key = k; devices = empty_pair; on_close_handles = empty_pair }

-- `find_or_create`: the entry, and the table that holds it.
pub find_or_create :
    String → List RegisteredConnection → RegisteredConnection × List RegisteredConnection
unfolding find
find_or_create k l = elim (find k l) [
  | none ↦ (new_entry k, push_back l (new_entry k))
  | some e ↦ (e, l)
]

pub disconnect : Option ℕ → List Subscription → List Subscription
disconnect none l = l
disconnect (some h) [] = []
disconnect (some h) (x ∷ l) = if x.handle == h then l else x ∷ disconnect (some h) l

pub register_ : ℕ → Registration → Handler → Handler
unfolding find_or_create write
register_ connection registration w =
    let (change, table) = find_or_create registration.key w.devices in
    let i = my_device_index w.store change.devices registration.reconnect_token in
    let (change', store') = place i connection registration w.next_handle change w.store in
    record {
      store = store';
      devices = write registration.key change' table;
      subscriptions = disconnect (get change.on_close_handles i) (
          push_back w.subscriptions (record {
            handle = w.next_handle;
            connection = connection;
            registration = registration;
          }));
      next_handle = suc w.next_handle;
    }

abbrev pub is_vacant : RegisteredConnection → Bool
is_vacant e =
    if is_some e.devices.at_zeroth
    then false
    else (if is_some e.devices.at_first then false else true)

pub on_device_closed : Registration → Handler → Handler
unfolding find write erase
on_device_closed registration w = elim (find registration.key w.devices) [
  | none ↦ w
  | some found ↦
      let i = remove_index w.store found.devices registration.reconnect_token in
      let (found', store') = take_out i found w.store in
      record w {
        store = store';
        devices =
            if is_vacant found'
            then erase registration.key w.devices
            else write registration.key found' w.devices;
        subscriptions = disconnect (get found.on_close_handles i) w.subscriptions;
      }
]
