-- ===== src/Relay/Serve.antt =====
-- cmd/relay/re2.go: `serveRE2Agent` and `serveRE2Client`, a frame at a time. A step gives the hub,
-- the loop's variables, and whether the loop goes on; when it ends, the deferred function runs.
pub mod Agent
pub mod Client
pub mod Sessions
use runeverything.Relay.Bind.{BindPayload}
use runeverything.Relay.Hub.{raw, error_payload, Hub, write_frame}
use runeverything.Re2.Frame.{Frame}
use runeverything.Base.Bytes.{Bytes, codes}
use runeverything.Base.{ℕ, Bool, Option, none, some, []}
use runeverything.Re2.Frame

-- What a JSON text is read as, or the reader's message.
pub data Decoded (A : Type 0) : Type 0 where
  good : A → Decoded A
  bad : Bytes → Decoded A

pub record RegisterPayload : Type 0 where
  pub device_id : Bytes
  pub device_secret : Bytes
  pub name : Bytes
  pub channels : Bool

-- The expiry is in seconds since 1970.
pub record PairOfferPayload : Type 0 where
  pub name : Bytes
  pub pairing_token : Bytes
  pub expires_at : ℕ

pub record PairRedeemPayload : Type 0 where
  pub device_id : Bytes
  pub pairing_token : Bytes

-- What a step asks of the world: the readers of JSON, the time, a random token, the relay's own
-- address for the request, and the message that names the capacity.
pub record RelayEnv : Type 0 where
  pub parse_register : Bytes → Decoded RegisterPayload
  pub parse_offer : Bytes → Decoded PairOfferPayload
  pub parse_redeem : Bytes → Decoded PairRedeemPayload
  pub parse_bind : Bytes → Decoded BindPayload
  pub now : ℕ
  pub random : Option Bytes
  pub public_relay : Bytes
  pub capacity_text : ℕ → Bytes

abbrev pub type_register : ℕ
type_register = 0x01

abbrev pub type_pair_offer : ℕ
type_pair_offer = 0x03

abbrev pub type_pair_redeem : ℕ
type_pair_redeem = 0x04

abbrev pub type_bind : ℕ
type_bind = 0x06

abbrev pub type_ping : ℕ
type_ping = 0x1e

-- `writeRE2Err`
unfoldable pub write_re2_err : ℕ → Bytes → Bytes → Bytes → Hub → Hub
write_re2_err c route code msg h =
    write_frame c
      (record { type = Frame.type_error; route_id = route; body = error_payload code msg [] 0 }) h

-- `notifyPeerGone`
unfoldable pub notify_peer_gone : Option ℕ → Bytes → Hub → Hub
unfolding write_re2_err
notify_peer_gone none route h = h
notify_peer_gone (some peer) route h =
    write_re2_err peer route (codes "peer_gone") (codes "peer disconnected") h

-- A frame is passed on under a route; without a receiver it is dropped.
unfoldable pub pass_frame : Option ℕ → ℕ → Bytes → Bytes → Hub → Hub
pass_frame none type route payload h = h
pass_frame (some to) type route payload h =
    write_frame to (record { type = type; route_id = route; body = raw payload }) h
