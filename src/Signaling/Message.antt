-- ===== src/Signaling/Message.antt =====
-- fubble/signaling/{offer,answer,ice_candidate,registration}.hpp: what travels between two peers.
use fubble.Base.{ℤ, String}

pub record Offer : Type 0 where
  pub sdp : String

pub record Answer : Type 0 where
  pub sdp : String

pub record IceCandidate : Type 0 where
  pub mlineindex : ℤ
  pub mid : String
  pub sdp : String

pub record Registration : Type 0 where
  pub key : String
  pub reconnect_token : String

-- `json_message::messages_type`; `create_offer` and `want_to_negotiate` are structs with no field.
pub data Message : Type 0 where
  offer : Offer → Message
  answer : Answer → Message
  ice_candidate : IceCandidate → Message
  create_offer : Message
  registration : Registration → Message
  want_to_negotiate : Message
