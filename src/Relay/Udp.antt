-- ===== src/Relay/Udp.antt =====
-- cmd/relay/udp.go: the relay's datagrams. An end associates its address with a device, and a
-- datagram of one end is passed on to the other.
pub mod Forward
pub mod Assoc
pub mod Rate
use runeverything.Relay.Hub.{DeviceState, Hub, device, put_device}
use runeverything.Reudp.Address.{Addr, ip_equal}
use runeverything.Base.Bytes.{Bytes, codes, bytes_eq}
use runeverything.Auth.{validate_session, constant_time_equal}
use runeverything.Base.{
  ℕ, ◌+◌, Bool, false, not, ◌&&◌, ◌||◌, Option, none, some, List, [], ◌∷◌, ◌++◌, leb, ◌==◌,
  if◌then◌else◌, length,
}
use runeverything.Base.Maps.{lookup, insert, bytes_eq_instance}
use runeverything.Reudp.Packet
use runeverything.Reudp.Packet.{Result, Packet}

pub record AssocPayload : Type 0 where
  pub role : Bytes
  pub device_id : Bytes
  pub session_ticket : Bytes
  pub device_secret : Bytes

-- What a JSON text is read as, or the reader's message.
pub data Parsed : Type 0 where
  parsed : AssocPayload → Parsed
  unreadable : Bytes → Parsed

-- What the library does: FNV-1a, the text of an address, and JSON both ways.
pub record UdpEnv : Type 0 where
  pub route_hash : Bytes → ℕ
  pub ip_text : Bytes → Bytes
  pub parse_assoc : Bytes → Parsed
  pub ok_json : Bytes → Bytes → Bytes
  pub error_json : Bytes → Bytes → Bytes

-- `written`: the datagrams handed to the socket, oldest first.
pub record Udp : Type 0 where
  pub hub : Hub
  pub attempts : List (Bytes × ℕ)
  pub written : List (Addr × Bytes)

unfoldable pub set_udp_agent : Bytes → Addr → Hub → Hub
unfolding device put_device
set_udp_agent id addr h = put_device id (record (device id h) { udp_agent = some addr }) h

unfoldable pub set_udp_client : Bytes → Addr → Hub → Hub
unfolding device put_device
set_udp_client id addr h = put_device id (record (device id h) { udp_client = some addr }) h

unfoldable pub same_udp : Option Addr → Addr → Bool
same_udp none b = false
same_udp (some a) b = ip_equal a.ip b.ip && a.port == b.port

peer_of : Option DeviceState → Addr → Option Addr
peer_of none from = none
peer_of (some d) from =
    if same_udp d.udp_agent from
    then d.udp_client
    else if same_udp d.udp_client from
    then d.udp_agent
    else none

unfoldable pub udp_peer_of : Bytes → Addr → Hub → Option Addr
unfolding peer_of
udp_peer_of id from h = peer_of (lookup id h.devices) from

-- The first device with that hash, in the order in which the map happens to be gone through.
unfoldable pub device_by_hash : (Bytes → ℕ) → ℕ → List (Bytes × DeviceState) → Option DeviceState
device_by_hash route_hash hash [] = none
device_by_hash route_hash hash ((k, d) ∷ ds) =
    if route_hash d.id == hash then some d else device_by_hash route_hash hash ds

id_or_empty : Option DeviceState → Bytes
id_or_empty none = []
id_or_empty (some d) = d.id

unfoldable pub lookup_device_id : (Bytes → ℕ) → ℕ → Bytes → Hub → Bytes
unfolding id_or_empty
lookup_device_id route_hash hash hint h =
    if not (length hint == 0) then hint else id_or_empty (device_by_hash route_hash hash h.devices)

attempts_of : Option ℕ → ℕ
attempts_of none = 0
attempts_of (some n) = n

-- `rateLimiter.allow`; the map is emptied every minute.
unfoldable pub allow : Bytes → List (Bytes × ℕ) → List (Bytes × ℕ) × Bool
unfolding attempts_of
allow ip m = let n = attempts_of (lookup ip m) + 1 in (insert ip n m, leb n 30)

write_to : Addr → Result Bytes → Udp → Udp
write_to addr (Packet.ok b) u = record u { written = u.written ++ ((addr, b) ∷ []) }
write_to addr (Packet.err e) u = u

control : ℕ → ℕ → Bytes → Packet
control type hash body = record {
  type = type;
  flags = 0;
  route_hash = hash;
  seq = 0;
  ack = 0;
  payload = body;
}

unfoldable pub write_udp_assoc_ok : UdpEnv → Addr → Bytes → Udp → Udp
unfolding write_to control
write_udp_assoc_ok env addr id u =
    write_to addr
      (Packet.encode
        (control Packet.type_assoc_ok (env.route_hash id) (env.ok_json id u.hub.public_udp)) [])
      u

unfoldable pub write_udp_err : UdpEnv → Addr → ℕ → Bytes → Bytes → Udp → Udp
unfolding write_to control
write_udp_err env addr hash code msg u =
    write_to addr (Packet.encode (control Packet.type_error hash (env.error_json code msg)) []) u

secret_of : Option DeviceState → Bytes
secret_of none = []
secret_of (some d) = d.secret

assoc_agent : UdpEnv → Addr → AssocPayload → Udp → Udp
unfolding write_udp_err write_udp_assoc_ok set_udp_agent secret_of
assoc_agent env addr req u =
    let secret = secret_of (lookup req.device_id u.hub.devices) in
    if length secret == 0 || not (constant_time_equal secret req.device_secret)
    then write_udp_err env addr (env.route_hash req.device_id) (codes "auth_failed")
        (codes "register on wss first") u
    else write_udp_assoc_ok env addr req.device_id
        (record u { hub = set_udp_agent req.device_id addr u.hub })

assoc_client : UdpEnv → Addr → AssocPayload → Udp → Udp
unfolding write_udp_err write_udp_assoc_ok set_udp_client
assoc_client env addr req u =
    if not (validate_session req.device_id req.session_ticket u.hub.auth)
    then write_udp_err env addr (env.route_hash req.device_id) (codes "auth_failed")
        (codes "invalid session ticket") u
    else write_udp_assoc_ok env addr req.device_id
        (record u { hub = set_udp_client req.device_id addr u.hub })

assoc_request : UdpEnv → Addr → ℕ → Parsed → Udp → Udp
unfolding write_udp_err assoc_agent assoc_client
assoc_request env addr hash (unreadable msg) u =
    write_udp_err env addr hash (codes "bad_data") msg u
assoc_request env addr hash (parsed req) u =
    if length req.device_id == 0
    then write_udp_err env addr hash (codes "bad_data") (codes "device_id required") u
    else if bytes_eq req.role (codes "agent")
    then assoc_agent env addr req u
    else if bytes_eq req.role (codes "client")
    then assoc_client env addr req u
    else write_udp_err env addr hash (codes "bad_role") (codes "role=agent|client") u

unfoldable pub handle_udp_assoc : UdpEnv → Addr → Packet → Udp → Udp
unfolding assoc_request
handle_udp_assoc env addr pkt u =
    assoc_request env addr pkt.route_hash (env.parse_assoc pkt.payload) u

pass_on : Bytes → Option Addr → Udp → Udp
pass_on dgram none u = u
pass_on dgram (some peer) u = record u { written = u.written ++ ((peer, dgram) ∷ []) }

unfoldable pub handle_udp_forward : UdpEnv → Addr → Packet → Bytes → Udp → Udp
unfolding pass_on lookup_device_id udp_peer_of
handle_udp_forward env from pkt dgram u =
    let id = lookup_device_id env.route_hash pkt.route_hash [] u.hub in
    if length id == 0 then u else pass_on dgram (udp_peer_of id from u.hub) u

-- A round of the loop of `serveUDP` with a packet that was decoded.
serve_packet : UdpEnv → Addr → Bytes → Result Packet → Udp → Udp
unfolding handle_udp_assoc handle_udp_forward allow
serve_packet env addr dgram (Packet.err e) u = u
serve_packet env addr dgram (Packet.ok pkt) u =
    if pkt.type == Packet.type_assoc
    then (let (attempts, allowed) = allow (env.ip_text addr.ip) u.attempts in
        let u' = record u { attempts = attempts } in
        if allowed then handle_udp_assoc env addr pkt u' else u')
    else if pkt.type == Packet.type_data
        || pkt.type == Packet.type_ack
        || pkt.type == Packet.type_ping
        || pkt.type == Packet.type_pong
    then handle_udp_forward env addr pkt dgram u
    else u

unfoldable pub serve_udp : UdpEnv → Addr → Bytes → Udp → Udp
unfolding serve_packet
serve_udp env addr dgram u = serve_packet env addr dgram (Packet.decode dgram) u
