-- ===== src/Tests/Devices.antt =====
-- The server's devices and its table.
use fubble.Base.{
  List, ℕ, ◌≡◌, refl, true, false, not, ◌&&◌, Option, none, some, [], ◌∷◌, arith, pos,
}
use fubble.Signaling.Message.{Offer, Answer, Registration}
use fubble.Signaling.Device.{
  Device, Store, fresh, update, get_wants_to_negotiate, get_actice_negotiating, on_answer,
}
use fubble.Signaling.Device.Pairing.{
  want, answers, offers, IsPaired, run, run-IsPaired, on_answer_turn,
}
use fubble.Signaling.Handler.{RegisteredConnection, zeroth}
use fubble.Signaling.Handler.History
use fubble.Signaling.Handler.History.{registers, closes, says, IsSound, run-initial-IsSound}

-- The first device is negotiating, and the second one wants to.
abbrev busy_devices : ℕ → Option Device
busy_devices =
    update
      (update (λ q. none) 0
        (some (record (fresh 10 "a") { partner = some 1; active_negotiating = true })))
      1 (some (record (fresh 11 "b") { partner = some 0; wants_to_negotiate = true }))

abbrev busy : Store
busy = record { next = 2; devices = busy_devices; log = [] }

busy-IsPaired : IsPaired 0 1 busy
unfolding get_wants_to_negotiate get_actice_negotiating
busy-IsPaired = record {
  distinct = omega arith;
  forth = refl;
  back = refl;
  no_glare = refl;
  served = refl;
}

abbrev an_answer : Answer
an_answer = record { sdp = "v=0" }

abbrev an_offer : Offer
an_offer = record { sdp = "v=0" }

run-IsPaired_example :
    IsPaired 0 1
      (run 0 1 ((true, offers an_offer) ∷ (false, answers an_answer) ∷ (true, want) ∷ []) busy)
run-IsPaired_example =
    run-IsPaired 0 1 ((true, offers an_offer) ∷ (false, answers an_answer) ∷ (true, want) ∷ []) busy
      busy-IsPaired

on_answer_turn_example :
    let s' = on_answer 1 an_answer busy in
    (get_actice_negotiating s' 0 ≡ get_wants_to_negotiate busy 0)
    × (get_actice_negotiating s' 1
        ≡ (not (get_wants_to_negotiate busy 0) && get_wants_to_negotiate busy 1))
    × (get_wants_to_negotiate s' 0 ≡ false)
    × (get_wants_to_negotiate s' 1
        ≡ (get_wants_to_negotiate busy 0 && get_wants_to_negotiate busy 1))
on_answer_turn_example =
    on_answer_turn 0 1 an_answer busy busy-IsPaired (unfold get_actice_negotiating in refl)

-- A device that has cached a candidate and an offer, and another one.
abbrev caching : Device
caching = record (fresh 10 "a") {
  offer_cache = some an_offer;
  candidates_cache = record { mlineindex = pos 0; mid = "0"; sdp = "c" } ∷ [];
}

abbrev apart : Store
apart = record {
  next = 2;
  devices = update (update (λ q. none) 0 (some caching)) 1 (some (fresh 11 "b"));
  log = [];
}

abbrev full_entry : RegisteredConnection
full_entry = record {
  key = "room";
  devices = record { at_zeroth = some 0; at_first = some 1 };
  on_close_handles = record { at_zeroth = some 0; at_first = some 1 };
}

abbrev a_registration : Registration
a_registration = record { key = "room"; reconnect_token = "b" }

-- Two devices register, the second one twice; the first one asks to negotiate and then closes.
abbrev a_history : List History.Event
a_history =
    registers 10 (record { key = "room"; reconnect_token = "a" })
    ∷ registers 11 a_registration
    ∷ says "room" zeroth want
    ∷ registers 12 a_registration
    ∷ closes (record { key = "room"; reconnect_token = "a" })
    ∷ []

run-initial-IsSound_example : IsSound (History.run a_history History.initial)
run-initial-IsSound_example = run-initial-IsSound a_history
