-- ===== src/Reudp/Endpoint/Said.antt =====
-- The datagrams that an endpoint of internal/reudp/endpoint.go has handed over, to whatever socket.
use runeverything.Reudp.Packet.{Packet, encode}
use runeverything.Reudp.Endpoint.{
  write_encoded, Dest, punched, main_to, main_connected, Endpoint, hand_over, write_bytes,
  write_raw, write_relay, write_addr, write_conn,
}
use runeverything.Reudp.Address.{Addr}
use runeverything.Base.Bytes.{Bytes}
use runeverything.Base.{
  ℕ, ◌≡◌, inl, inr, Bool, true, false, Option, none, some, [], ◌∷◌, Bool-cases, All, All-append,
}
use runeverything.Reudp.Packet
use runeverything.Base.Float64.{Float64}

module _ {F : Type 0} (P : Bytes → Type 0) where
  abbrev pub Said : Endpoint F → Type 0
  Said ep = All (λ x. P x.1) ep.sent

  pub Said-alike : (a b : Endpoint F) → b.sent ≡ a.sent → Said a → Said b
  Said-alike a b e h = rw e h

module _ {F : Type 0} ⦃fl : Float64 F⦄ (P : Bytes → Type 0) where
  hand_over-Said :
      (d : Dest) (b : Bytes) (ep : Endpoint F) → P b → Said P ep → Said P (hand_over d b ep)
  unfolding hand_over
  hand_over-Said d b ep p h = All-append (λ x. P x.1) ep.sent ((d, b) ∷ []) h (p, tt)

module _ {F : Type 0} ⦃fl : Float64 F⦄ (P : Bytes → Type 0) (net : Dest → Bytes → Bool) (b : Bytes)
    (p : P b) where
  write_relay-Said :
      (a : Option Addr) (ep : Endpoint F) → Said P ep → Said P (write_relay net b a ep).0
  unfolding write_relay
  write_relay-Said none ep h = hand_over-Said P main_connected b ep p h
  write_relay-Said (some relay) ep h = hand_over-Said P (main_to relay) b ep p h

  write_addr-Said :
      (prefer : Bool) (a : Option Addr) (ep : Endpoint F)
      → Said P ep
      → Said P (write_addr net b prefer a ep).0
  unfolding write_addr
  write_addr-Said true (some addr) ep h =
      let gone = hand_over-Said P (main_to addr) b ep p h in
      elim (Bool-cases (net (main_to addr) b)) [
        | inl took ↦ rw took gone
        | inr lost ↦ rw lost (
            write_relay-Said ep.relay_addr
              (record (hand_over (main_to addr) b ep) { prefer_direct = false }) gone)
      ]
  write_addr-Said true none ep h = write_relay-Said ep.relay_addr ep h
  write_addr-Said false a ep h = write_relay-Said ep.relay_addr ep h

  write_conn-Said :
      (prefer : Bool) (c : Option ℕ) (ep : Endpoint F)
      → Said P ep
      → Said P (write_conn net b prefer c ep).0
  unfolding write_conn
  write_conn-Said true (some c) ep h =
      let gone = hand_over-Said P (punched c) b ep p h in
      elim (Bool-cases (net (punched c) b)) [
        | inl took ↦ rw took gone
        | inr lost ↦ rw lost (
            write_addr-Said true ep.direct_addr
              (record (hand_over (punched c) b ep) { prefer_direct = false }) gone)
      ]
  write_conn-Said true none ep h = write_addr-Said true ep.direct_addr ep h
  write_conn-Said false c ep h = write_addr-Said false ep.direct_addr ep h

  -- Whichever paths a write tries, it hands over nothing else.
  pub write_bytes-Said : (ep : Endpoint F) → Said P ep → Said P (write_bytes net b ep).0
  unfolding write_bytes
  write_bytes-Said ep h = write_conn-Said ep.prefer_direct ep.direct_conn ep h

module _ {F : Type 0} ⦃fl : Float64 F⦄ (P : Bytes → Type 0) (net : Dest → Bytes → Bool) where
  pub write_raw-Said :
      (p : Packet) (b : Bytes) (ep : Endpoint F)
      → encode p [] ≡ Packet.ok b
      → P b
      → Said P ep
      → Said P (write_raw net p ep).0
  unfolding write_raw write_encoded
  write_raw-Said p b ep e h s = rw e (write_bytes-Said P net b h ep s)
