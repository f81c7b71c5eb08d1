-- ===== src/Tests/Clients.antt =====
-- The signaling client and the negotiation.
use fubble.Base.{◌+◌, ◌≤◌, ◌≡◌, refl, true, false, none, some, List, [], ◌∷◌}
use fubble.Signaling.Message.{Offer, registration}
use fubble.Signaling.Client.{
  ReconnectingClient, initial, connected_ok, connect_failed, run_error, delegate_connected,
  on_timeout, send_offer,
}
use fubble.Signaling.Client.Connect.{
  sends_offer, connects, stops, timeout, step, run, attempts_fail, step-IsConnecting_send,
  connect_failed_stuck, run_done_reconnects,
}
use fubble.Signaling.Client.Flush.{flushed, cached, reconnected_flush}
use fubble.Negotiation.{Config, on_negotiation_needed, on_connected, on_closed}
use fubble.Negotiation
use fubble.Negotiation.Wishes.{
  wishes_sent, pending, needs, IsSettled, run_wishes_bound, run-initial-IsSettled, need_served,
}
use fubble.Negotiation.Wishes

abbrev an_offer : Offer
an_offer = record { sdp = "v=0" }

-- The timer runs, and an offer is cached.
abbrev waiting : ReconnectingClient
waiting = record initial {
  token = "t";
  key = "k";
  timer_started = true;
  is_registered = true;
  announced = 1;
  offer_cache = some an_offer;
}

abbrev connecting : ReconnectingClient
connecting = record initial {
  delegate = some (record { has_connector = true; has_connection = false });
}

abbrev standing : ReconnectingClient
standing = record initial {
  delegate = some (record { has_connector = true; has_connection = true });
}

reconnected_flush_example :
    delegate_connected connected_ok (on_timeout waiting)
    ≡ some
        (record (flushed
          (cached waiting (registration (record { key = "k"; reconnect_token = "t" }) ∷ []))
          waiting) {
            delegate = some (record { has_connector = true; has_connection = true });
            timer_started = false;
            is_registered = true;
            announced = 1;
          })
reconnected_flush_example = reconnected_flush waiting refl refl

run_done_reconnects_example :
    run (stops run_error ∷ timeout ∷ []) standing
    ≡ some (record standing {
      delegate = some (record { has_connector = true; has_connection = false });
      timer_started = false;
    })
run_done_reconnects_example = run_done_reconnects run_error standing refl refl

step-IsConnecting_send_example : step (sends_offer an_offer) connecting ≡ none
step-IsConnecting_send_example = step-IsConnecting_send (sends_offer an_offer) connecting refl refl

connect_failed_stuck_example :
    run (connects connect_failed ∷ attempts_fail (false ∷ true ∷ [])) connecting ≡ some connecting
connect_failed_stuck_example = connect_failed_stuck connecting (false ∷ true ∷ []) refl refl

-- An offer before there is a connection, and a timeout that nobody waits for.
abbrev offered : ReconnectingClient
offered = record initial { offer_cache = some an_offer }

offered-run : run (sends_offer an_offer ∷ timeout ∷ []) initial ≡ some offered
unfolding run step send_offer on_timeout
offered-run = refl

abbrev a_config : Config
a_config = record { receive_audio = true; receive_video = false }

abbrev a_history : List Negotiation.Event
a_history = on_negotiation_needed ∷ on_connected ∷ on_negotiation_needed ∷ on_closed ∷ []

run_wishes_bound_example :
    wishes_sent a_history (Negotiation.initial a_config)
      + pending (Wishes.run a_history (Negotiation.initial a_config))
    ≤ needs a_history + pending (Negotiation.initial a_config)
run_wishes_bound_example = run_wishes_bound a_history (Negotiation.initial a_config)
