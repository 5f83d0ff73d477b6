-- ===== src/Reudp/Link/Datagrams.antt =====
-- What the datagrams between the two sides say.
use runeverything.Reudp.Receive.Delivery.Loop.{has}
use runeverything.Reudp.Packet.{type_data, type_ack, flag_reliable, decode, decode_ack}
use runeverything.Reudp.Endpoint.{Endpoint}
use runeverything.Reudp.Receive.{acked_by}
use runeverything.Base.Bytes.{Bytes}
use runeverything.Base.{ℕ, ◌^◌, ◌<◌, ◌≡◌, true}
use runeverything.Base.Maps.{nat_eq}
use runeverything.Reudp.Packet
use runeverything.Reudp.Packet.{Packet}

-- The bytes are a data packet with the `s`-th payload.
pub record DataOf (msgs : ℕ → Bytes) (s : ℕ) (b : Bytes) : Type 0 where
  pub p : Packet
  pub text : decode b ≡ Packet.ok p
  pub is_data : p.type ≡ type_data
  pub flags : p.flags ≡ flag_reliable
  pub seq : p.seq ≡ s
  pub payload : p.payload ≡ msgs s

-- … with one of the first `n` payloads.
abbrev pub IsData : (ℕ → Bytes) → ℕ → Bytes → Type 0
IsData msgs n b = (s : ℕ) × (s < n) × DataOf msgs s b

-- The bytes acknowledge nothing that the receiver does not have.
pub record IsAck {F : Type 0} (r : Endpoint F) (b : Bytes) : Type 0 where
  pub p : Packet
  pub cum : ℕ
  pub sack : ℕ
  pub text : decode b ≡ Packet.ok p
  pub is_ack : p.type ≡ type_ack
  pub body : decode_ack p.payload ≡ Packet.ok (cum, sack)
  pub sound : (s : ℕ) → s < 2 ^ 32 → acked_by cum sack s ≡ true → has r s ≡ true
