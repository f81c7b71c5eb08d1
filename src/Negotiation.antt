-- ===== src/Negotiation.antt =====
-- fubble/client/p2p/negotiation/offer_answer.{hpp,cpp}: the client's side of a negotiation, between
-- the signaling client and the rtc connection. Both are given by the calls that are made of them;
-- the futures of the rtc connection end in later events.
pub mod Wishes
use fubble.Base.{Bool, true, false, String, List, [], ◌∷◌, if◌then◌else◌}
use fubble.Signaling.Message.{Offer, Answer}

-- `rtc::session_description`.
pub data Kind : Type 0 where
  offer_kind answer_kind : Kind

pub record SessionDescription : Type 0 where
  pub kind : Kind
  pub sdp : String

pub record Config : Type 0 where
  pub receive_audio : Bool
  pub receive_video : Bool

-- The calls of the rtc connection and of the signaling client.
pub data Call : Type 0 where
  create_offer : Bool → Bool → Call
  create_answer : Call
  set_local_description : SessionDescription → Call
  set_remote_description : SessionDescription → Call
  send_offer : Offer → Call
  send_answer : Answer → Call
  send_want_to_negotiate : Call

pub record OfferAnswer : Type 0 where
  pub config : Config
  pub connected : Bool
  pub wants_to_negotiate : Bool

-- What the signaling client and the rtc connection call, and how the futures of the latter end; a
-- future that fails ends in `failed`.
pub data Event : Type 0 where
  on_negotiation_needed on_connected on_closed on_create_offer : Event
  on_answer : Answer → Event
  on_offer : Offer → Event
  offer_created : SessionDescription → Event
  local_offer_set : SessionDescription → Event
  remote_offer_set : Event
  answer_created : SessionDescription → Event
  local_answer_set : SessionDescription → Event
  failed : Event

-- One handler, and the calls that it makes, in order.
pub step : Event → OfferAnswer → OfferAnswer × List Call
step on_negotiation_needed s =
    if s.connected
    then (s, send_want_to_negotiate ∷ [])
    else (record s { wants_to_negotiate = true }, [])
step on_connected s =
    if s.wants_to_negotiate
    then (record s { connected = true; wants_to_negotiate = false }, send_want_to_negotiate ∷ [])
    else (record s { connected = true }, [])
step on_closed s = (record s { connected = false }, [])
step on_create_offer s = (s, create_offer s.config.receive_audio s.config.receive_video ∷ [])
step (offer_created d) s = (s, set_local_description d ∷ [])
step (local_offer_set d) s = (s, send_offer (record { sdp = d.sdp }) ∷ [])
step (on_answer a) s = (s, set_remote_description (record { kind = answer_kind; sdp = a.sdp }) ∷ [])
step (on_offer o) s = (s, set_remote_description (record { kind = offer_kind; sdp = o.sdp }) ∷ [])
step remote_offer_set s = (s, create_answer ∷ [])
step (answer_created d) s = (s, set_local_description d ∷ [])
step (local_answer_set d) s = (s, send_answer (record { sdp = d.sdp }) ∷ [])
step failed s = (s, [])

abbrev pub initial : Config → OfferAnswer
initial c = record { config = c; connected = false; wants_to_negotiate = false }
