-- ===== src/Reudp/Receive/Probe.antt =====
-- A datagram that is a packet is never taken for a probe: `readLoopConn` of
-- internal/reudp/endpoint.go.
use runeverything.Reudp.Endpoint.{Endpoint}
use runeverything.Reudp.Address.{Addr}
use runeverything.Reudp.Receive.{
  Env, dispatch, read_datagram, is_probe, handle_data, latch_direct, handle_ack, peer_ack,
}
use runeverything.Base.Bytes.{Bytes, bytes_eq}
use runeverything.Base.{ℕ, ◌≡◌, refl, ◌∙◌, false, Option, none, some, [], ◌∷◌, arith}
use runeverything.Base.Float64.{Float64}
use runeverything.Reudp.Packet
use runeverything.Reudp.Packet.{decode, Packet, decode_ack, type_ack, type_data}

decoded_not_probe : (b : Bytes) {p : Packet} → decode b ≡ Packet.ok p → is_probe b ≡ false
unfolding decode is_probe bytes_eq
decoded_not_probe [] e = refl
decoded_not_probe (x ∷ []) e = refl
decoded_not_probe (x ∷ y ∷ b) e = ground arith

module _ {F : Type 0} ⦃fl : Float64 F⦄ where
  -- So a datagram that is a packet is handled as one, wherever it comes from.
  pub read_datagram-dispatch :
      (env : Env) (conn : Option ℕ) (addr : Option Addr) (b : Bytes) (p : Packet) (ep : Endpoint F)
      → decode b ≡ Packet.ok p
      → read_datagram env conn addr b ep ≡ dispatch env addr p ep
  unfolding read_datagram
  read_datagram-dispatch env conn none b p ep e = rw e refl
  read_datagram-dispatch env conn (some a) b p ep e = rw (decoded_not_probe b e, e) refl

  -- A data packet first acknowledges what is on its back.
  pub read_datagram-data :
      (env : Env) (conn : Option ℕ) (addr : Option Addr) (b : Bytes) (p : Packet) (ep : Endpoint F)
      → decode b ≡ Packet.ok p
      → p.type ≡ type_data
      → read_datagram env conn addr b ep
        ≡ handle_data env p (latch_direct addr (handle_ack env.now p.ack 0 ep))
  unfolding dispatch
  read_datagram-data env conn addr b p ep e t = read_datagram-dispatch env conn addr b p ep e ∙ rw t

  pub read_datagram-ack :
      (env : Env) (conn : Option ℕ) (addr : Option Addr) (b : Bytes) (p : Packet) (ep : Endpoint F)
      (cum sack : ℕ)
      → decode b ≡ Packet.ok p
      → p.type ≡ type_ack
      → decode_ack p.payload ≡ Packet.ok (cum, sack)
      → read_datagram env conn addr b ep ≡ handle_ack env.now cum sack ep
  unfolding dispatch peer_ack
  read_datagram-ack env conn addr b p ep cum sack e t body =
      read_datagram-dispatch env conn addr b p ep e ∙ rw (t, body)
