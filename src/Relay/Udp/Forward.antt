-- ===== src/Relay/Udp/Forward.antt =====
-- Who gets a datagram: `handleUDPForward` of cmd/relay/udp.go.
use runeverything.Relay.Hub.{DeviceState}
use runeverything.Relay.Udp.{
  UdpEnv, Udp, same_udp, udp_peer_of, device_by_hash, lookup_device_id, handle_udp_forward, peer_of,
  id_or_empty, pass_on,
}
use runeverything.Reudp.Packet.{Packet}
use runeverything.Reudp.Address.{Addr}
use runeverything.Base.Bytes.{Bytes}
use runeverything.Base.{
  ℕ, ◌≡◌, refl, ◌⊎◌, inl, inr, true, false, Option, none, some, List, [], ◌∷◌, ◌++◌, arith, ◌==◌,
  Bool-cases, Option-cases, length,
}
use runeverything.Base.Maps.{lookup, bytes_eq_instance}

-- The two addresses are the two ends of the device: one of each.
abbrev pub IsOtherEnd : DeviceState → Addr → Addr → Type 0
IsOtherEnd d from to =
    ((same_udp d.udp_agent from ≡ true) × (d.udp_client ≡ some to))
    ⊎ ((same_udp d.udp_client from ≡ true) × (d.udp_agent ≡ some to))

peer_of-IsOtherEnd :
    (o : Option DeviceState) (from : Addr) {to : Addr}
    → peer_of o from ≡ some to
    → (d : DeviceState) × (o ≡ some d) × IsOtherEnd d from to
unfolding peer_of
peer_of-IsOtherEnd none from h = absurd (ground arith)
peer_of-IsOtherEnd (some d) from h = (d, refl, ground arith)

id_or_empty-hash :
    (route_hash : Bytes → ℕ) (hash : ℕ) (ds : List (Bytes × DeviceState))
    → (length (id_or_empty (device_by_hash route_hash hash ds)) == 0) ≡ false
    → route_hash (id_or_empty (device_by_hash route_hash hash ds)) ≡ hash
unfolding device_by_hash id_or_empty
id_or_empty-hash route_hash hash [] ne = absurd (ground arith)
id_or_empty-hash route_hash hash ((k, d) ∷ ds) ne =
    ground (arith, id_or_empty-hash route_hash hash ds)

-- A datagram that is passed on goes, as it came, to one address only: the other end of a device
-- whose route hash the datagram carries and of which the sender is an end. Otherwise nothing is
-- written, and the devices stay as they were in either case.
pub handle_udp_forward_confined :
    (env : UdpEnv) (from : Addr) (pkt : Packet) (dgram : Bytes) (u : Udp)
    → (handle_udp_forward env from pkt dgram u ≡ u)
      ⊎ ((id : Bytes) × (d : DeviceState) × (to : Addr) × (handle_udp_forward env from pkt dgram u
            ≡ record u { written = u.written ++ ((to, dgram) ∷ []) })
          × (env.route_hash id ≡ pkt.route_hash)
          × (lookup id u.hub.devices ≡ some d)
          × IsOtherEnd d from to)
unfolding handle_udp_forward lookup_device_id udp_peer_of pass_on
handle_udp_forward_confined env from pkt dgram u =
    let id = lookup_device_id env.route_hash pkt.route_hash [] u.hub in
    elim (Bool-cases (length id == 0)) [
      | inl empty ↦ inl (rw empty refl)
      | inr named ↦ elim (Option-cases (udp_peer_of id from u.hub)) [
        | inl nobody ↦ inl (rw (named, nobody) refl)
        | inr (to, at) ↦
            let (d, found, end) = peer_of-IsOtherEnd (lookup id u.hub.devices) from at in
            inr (
              id,
              d,
              to,
              rw (named, at) refl,
              id_or_empty-hash env.route_hash pkt.route_hash u.hub.devices named,
              found,
              end,
            )
      ]
    ]
