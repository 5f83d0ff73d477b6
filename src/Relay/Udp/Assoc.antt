-- ===== src/Relay/Udp/Assoc.antt =====
-- Who becomes an end of a device: `handleUDPAssoc` of cmd/relay/udp.go.
use runeverything.Relay.Hub.{DeviceState, Hub}
use runeverything.Relay.Udp.{
  Parsed, unreadable, write_udp_assoc_ok, write_udp_err, handle_udp_assoc, secret_of, assoc_agent,
  assoc_client, assoc_request, AssocPayload, parsed, UdpEnv, Udp, set_udp_agent, set_udp_client,
  write_to,
}
use runeverything.Reudp.Packet
use runeverything.Reudp.Packet.{Result, Packet}
use runeverything.Reudp.Address.{Addr}
use runeverything.Base.Bytes.{codes, bytes_eq, bytes_eq_iff, Bytes}
use runeverything.Auth.{constant_time_equal, validate_session}
use runeverything.Base.{
  ℕ, ◌≡◌, refl, ◌⊎◌, inl, inr, true, false, not, ◌||◌, Option, none, some, arith, ◌==◌, Bool-cases,
  length,
}
use runeverything.Base.Maps.{lookup, bytes_eq_instance}

-- A request that the device's secret, or a ticket for the device, backs.
pub record IsAgentOf (env : UdpEnv) (pkt : Packet) (u : Udp) (id : Bytes) : Type 0 where
  pub req : AssocPayload
  pub d : DeviceState
  pub text : env.parse_assoc pkt.payload ≡ parsed req
  pub named : req.device_id ≡ id
  pub found : lookup id u.hub.devices ≡ some d
  pub secret : d.secret ≡ req.device_secret
  pub filled : (length d.secret == 0) ≡ false

pub record IsClientOf (env : UdpEnv) (pkt : Packet) (u : Udp) (id : Bytes) : Type 0 where
  pub req : AssocPayload
  pub text : env.parse_assoc pkt.payload ≡ parsed req
  pub named : req.device_id ≡ id
  pub ticket : validate_session id req.session_ticket u.hub.auth ≡ true

-- What a request makes of the hub: nothing, or a new address for one end of one device.
abbrev pub IsBacked : UdpEnv → Addr → Packet → Udp → Hub → Type 0
IsBacked env addr pkt u h =
    (h ≡ u.hub)
    ⊎ (((id : Bytes) × IsAgentOf env pkt u id × (h ≡ set_udp_agent id addr u.hub))
        ⊎ ((id : Bytes) × IsClientOf env pkt u id × (h ≡ set_udp_client id addr u.hub)))

write_to-hub : (addr : Addr) (r : Result Bytes) (u : Udp) → (write_to addr r u).hub ≡ u.hub
unfolding write_to
write_to-hub addr (Packet.ok b) u = refl
write_to-hub addr (Packet.err e) u = refl

write_udp_err-hub :
    (env : UdpEnv) (addr : Addr) (hash : ℕ) (code msg : Bytes) (u : Udp)
    → (write_udp_err env addr hash code msg u).hub ≡ u.hub
unfolding write_udp_err
write_udp_err-hub env addr hash code msg u = write_to-hub addr _ u

write_udp_assoc_ok-hub :
    (env : UdpEnv) (addr : Addr) (id : Bytes) (u : Udp)
    → (write_udp_assoc_ok env addr id u).hub ≡ u.hub
unfolding write_udp_assoc_ok
write_udp_assoc_ok-hub env addr id u = write_to-hub addr _ u

secret_of-found :
    (o : Option DeviceState)
    → (length (secret_of o) == 0) ≡ false
    → (d : DeviceState) × (o ≡ some d) × (secret_of o ≡ d.secret) × ((length d.secret == 0) ≡ false)
unfolding secret_of
secret_of-found none h = absurd (ground arith)
secret_of-found (some d) h = (d, refl, refl, h)

module _ (env : UdpEnv) (addr : Addr) (pkt : Packet) (u : Udp) where
  assoc_agent-IsBacked :
      (req : AssocPayload)
      → env.parse_assoc pkt.payload ≡ parsed req
      → IsBacked env addr pkt u (assoc_agent env addr req u).hub
  unfolding assoc_agent
  assoc_agent-IsBacked req text =
      let secret = secret_of (lookup req.device_id u.hub.devices) in
      elim (Bool-cases (length secret == 0 || not (constant_time_equal secret req.device_secret))) [
        | inl denied ↦ inl (rw denied (write_udp_err-hub env addr _ _ _ u))
        | inr let_in ↦
            let has_secret : (length secret == 0) ≡ false = ground arith in
            let (d, found, same, filled) =
              secret_of-found (lookup req.device_id u.hub.devices) has_secret in
            let equal : secret ≡ req.device_secret =
              (bytes_eq_iff secret req.device_secret).0 (ground arith) in
            inr (
              inl (
                req.device_id,
                record {
                  req = req;
                  d = d;
                  text = text;
                  named = refl;
                  found = found;
                  secret = cc (same, equal);
                  filled = filled;
                },
                rw let_in (write_udp_assoc_ok-hub env addr _ _),
              ))
      ]

  assoc_client-IsBacked :
      (req : AssocPayload)
      → env.parse_assoc pkt.payload ≡ parsed req
      → IsBacked env addr pkt u (assoc_client env addr req u).hub
  unfolding assoc_client
  assoc_client-IsBacked req text =
      elim (Bool-cases (validate_session req.device_id req.session_ticket u.hub.auth)) [
        | inl valid ↦ inr (
            inr (
              req.device_id,
              record { req = req; text = text; named = refl; ticket = valid },
              rw valid (write_udp_assoc_ok-hub env addr _ _),
            ))
        | inr bad ↦ inl (rw bad (write_udp_err-hub env addr _ _ _ u))
      ]

  assoc_request-IsBacked :
      (p : Parsed)
      → env.parse_assoc pkt.payload ≡ p
      → IsBacked env addr pkt u (assoc_request env addr pkt.route_hash p u).hub
  unfolding assoc_request
  assoc_request-IsBacked (unreadable msg) text = inl (write_udp_err-hub env addr _ _ _ u)
  assoc_request-IsBacked (parsed req) text = elim (Bool-cases (length req.device_id == 0)) [
    | inl empty ↦ inl (rw empty (write_udp_err-hub env addr _ _ _ u))
    | inr named ↦ elim (Bool-cases (bytes_eq req.role (codes "agent"))) [
      | inl agent ↦ rw (named, agent) (assoc_agent-IsBacked req text)
      | inr other ↦ elim (Bool-cases (bytes_eq req.role (codes "client"))) [
        | inl client ↦ rw (named, other, client) (assoc_client-IsBacked req text)
        | inr neither ↦ inl (rw (named, other, neither) (write_udp_err-hub env addr _ _ _ u))
      ]
    ]
  ]

-- Whatever a request says, the devices stay as they were, or one end of one device gets the
-- sender's address; then the request carries that device's secret, which is not empty, for the
-- agent's end, or a ticket that is valid for that device for the client's end.
pub handle_udp_assoc-IsBacked :
    (env : UdpEnv) (addr : Addr) (pkt : Packet) (u : Udp)
    → IsBacked env addr pkt u (handle_udp_assoc env addr pkt u).hub
unfolding handle_udp_assoc
handle_udp_assoc-IsBacked env addr pkt u =
    assoc_request-IsBacked env addr pkt u (env.parse_assoc pkt.payload) refl
