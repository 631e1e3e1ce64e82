-- ===== src/Connection/Responses.antt =====
-- src/aqua/connection/{response,connack_response}.rs: what the services answer.
use aqua.Base.{Bool, List, [], ◌∷◌, Option, ℕ, ◌≡◌, refl}
use aqua.Packet.Connack.{Connack, ConnackProperties}
use aqua.Packet.Connack.Reason.{ConnackReason, success, unspecified_error}
use aqua.Coder.ControlPacket.{ControlPacket}

pub record Response : Type 0 where
  pub packets : List ControlPacket

-- `Response::new` and `Response::new_packets`
unfoldable pub new : ControlPacket → Response
new packet = record { packets = packet ∷ [] }

unfoldable pub new_packets : List ControlPacket → Response
new_packets packets = record { packets = packets }

pub record ConnackResponse : Type 0 where
  pub session_present : Bool
  pub version : ℕ
  pub connack_properties : Option ConnackProperties

unfoldable pub to_connack : ConnackResponse → Connack
to_connack r = record {
  session_present = r.session_present;
  connect_reason = success;
  connack_properties = r.connack_properties;
  version = r.version;
}

unfoldable pub from_connack : Connack → ConnackResponse
from_connack item = record {
  session_present = item.session_present;
  version = item.version;
  connack_properties = item.connack_properties;
}

pub record ConnackError : Type 0 where
  pub reason_code : ConnackReason

-- `From<std::io::Error>`, which does not look at the error
unfoldable pub from_io_error {ℓ} : {E : Type ℓ} → E → ConnackError
from_io_error e = record { reason_code = unspecified_error }

-- A response made of a CONNACK gives the same CONNACK back, but for its reason, which becomes success.
pub to_connack-from_connack :
    (item : Connack) → to_connack (from_connack item) ≡ record item { connect_reason = success }
unfolding to_connack from_connack
to_connack-from_connack item = refl
