-- ===== src/Examples/Datagrams.antt =====
-- Concrete datagrams at the relay of cmd/relay/udp.go.
use runeverything.Relay.Udp.Forward.{IsOtherEnd, handle_udp_forward_confined}
use runeverything.Relay.Udp.Assoc.{IsBacked, handle_udp_assoc-IsBacked}
use runeverything.Relay.Hub.{DeviceState, new_device, new_hub}
use runeverything.Relay.Udp.{parsed, UdpEnv, Udp, handle_udp_assoc, handle_udp_forward}
use runeverything.Reudp.Address.{Addr}
use runeverything.Base.Bytes.{Bytes, codes}
use runeverything.Base.{◌≡◌, ◌⊎◌, some, [], ◌∷◌, ◌++◌, length}
use runeverything.Base.Maps.{lookup, bytes_eq_instance}
use runeverything.Reudp.Packet.{Packet}

abbrev office : Bytes
office = 111 ∷ []

abbrev phone_addr : Addr
phone_addr = record { ip = 10 ∷ 0 ∷ 0 ∷ 2 ∷ []; port = 5000; zone = [] }

abbrev agent_addr : Addr
agent_addr = record { ip = 10 ∷ 0 ∷ 0 ∷ 3 ∷ []; port = 6000; zone = [] }

abbrev office_device : DeviceState
office_device = record (new_device office) {
  secret = 42 ∷ [];
  udp_agent = some agent_addr;
  udp_client = some phone_addr;
}

abbrev office_udp : Udp
office_udp = record {
  hub = record (new_hub 4) { devices = (office, office_device) ∷ [] };
  attempts = [];
  written = [];
}

abbrev udp_env : UdpEnv
udp_env = record {
  route_hash = λ id. length id;
  ip_text = λ ip. ip;
  parse_assoc = λ b.
      parsed (record {
        role = codes "agent";
        device_id = office;
        session_ticket = [];
        device_secret = b;
      });
  ok_json = λ id hint. [];
  error_json = λ code msg. code;
}

abbrev phone_packet : Packet
phone_packet = record {
  type = 0x10;
  flags = 1;
  route_hash = 1;
  seq = 0;
  ack = 0;
  payload = 42 ∷ [];
}

handle_udp_forward_confined_example :
    (handle_udp_forward udp_env phone_addr phone_packet (7 ∷ []) office_udp ≡ office_udp)
    ⊎ ((id : Bytes) × (d : DeviceState) × (to : Addr) × (handle_udp_forward udp_env phone_addr
            phone_packet
            (7 ∷ [])
            office_udp
          ≡ record office_udp { written = office_udp.written ++ ((to, 7 ∷ []) ∷ []) })
        × (udp_env.route_hash id ≡ phone_packet.route_hash)
        × (lookup id office_udp.hub.devices ≡ some d)
        × IsOtherEnd d phone_addr to)
handle_udp_forward_confined_example =
    handle_udp_forward_confined udp_env phone_addr phone_packet (7 ∷ []) office_udp

handle_udp_assoc-IsBacked_example :
    IsBacked udp_env agent_addr phone_packet office_udp
      (handle_udp_assoc udp_env agent_addr phone_packet office_udp).hub
handle_udp_assoc-IsBacked_example =
    handle_udp_assoc-IsBacked udp_env agent_addr phone_packet office_udp
