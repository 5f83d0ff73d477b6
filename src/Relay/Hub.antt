-- ===== src/Relay/Hub.antt =====
-- cmd/relay/main.go and cmd/relay/re2.go: the hub's state, and an agent's registration. A
-- connection is a number. What the hub writes and closes is recorded, oldest first.
use runeverything.Base.{
  ℕ, Bool, true, false, not, ◌&&◌, Option, none, some, List, [], ◌∷◌, ◌++◌, ◌==◌, if◌then◌else◌,
  length,
}
use runeverything.Base.Bytes.{Bytes, bytes_eq}
use runeverything.Base.Maps.{bytes_eq_instance, lookup, insert}
use runeverything.Auth.{Store, new_store, constant_time_equal}
use runeverything.Bandwidth.{Limiter, new_limiter}
use runeverything.Re2.Channel.{channel_data, channel_route, split_route}
use runeverything.Reudp.Address.{Addr}

pub record DeviceState : Type 0 where
  pub id : Bytes
  pub secret : Bytes
  pub name : Bytes
  pub re2_agent : Option ℕ
  pub re2_agent_channels : Bool
  pub re2_client : Option ℕ
  pub re2_data_client : Option ℕ
  pub re2_client_id : Bytes
  pub re2_client_name : Bytes
  pub re2_client_since : ℕ
  pub udp_agent : Option Addr
  pub udp_client : Option Addr

unfoldable pub new_device : Bytes → DeviceState
new_device id = record {
  id = id;
  secret = [];
  name = [];
  re2_agent = none;
  re2_agent_channels = false;
  re2_client = none;
  re2_data_client = none;
  re2_client_id = [];
  re2_client_name = [];
  re2_client_since = 0;
  udp_agent = none;
  udp_client = none;
}

-- The payloads that the relay writes; their JSON text is left as what it says. The time
-- of an error is not cut to seconds.
pub data Body : Type 0 where
  raw : Bytes → Body
  error_payload : Bytes → Bytes → Bytes → ℕ → Body
  register_ok : Bytes → Bytes → Body
  pair_ack : Bytes → Bytes → Bytes → Body
  bind_ok : Bytes → Bytes → Body

pub record OutFrame : Type 0 where
  pub type : ℕ
  pub route_id : Bytes
  pub body : Body

pub record Hub : Type 0 where
  pub devices : List (Bytes × DeviceState)
  pub auth : Store
  pub public_udp : Bytes
  pub limiter : Option Limiter
  pub closed : List ℕ
  pub out : List (ℕ × OutFrame)

-- `NewHub`, with the capacity that the environment and the measurement file give.
unfoldable pub new_hub : ℕ → Hub
new_hub max_sessions = record {
  devices = [];
  auth = new_store;
  public_udp = [];
  limiter = some (new_limiter max_sessions);
  closed = [];
  out = [];
}

-- `h.devices[id]`, which is made if it is missing.
unfoldable pub device_or : Bytes → Option DeviceState → DeviceState
unfolding new_device
device_or id none = new_device id
device_or id (some d) = d

unfoldable pub device : Bytes → Hub → DeviceState
unfolding device_or
device id h = device_or id (lookup id h.devices)

unfoldable pub put_device : Bytes → DeviceState → Hub → Hub
put_device id d h = record h { devices = insert id d h.devices }

unfoldable pub close_conn : Option ℕ → ℕ → Hub → Hub
close_conn none c h = h
close_conn (some old) c h = if old == c then h else record h { closed = h.closed ++ (old ∷ []) }

unfoldable pub write_frame : ℕ → OutFrame → Hub → Hub
write_frame c f h = record h { out = h.out ++ ((c, f) ∷ []) }

-- `setRE2Agent`; the result is false for a wrong secret.
unfoldable pub set_re2_agent : Bytes → Bytes → Bytes → Bool → ℕ → Hub → Hub × Bool
unfolding device put_device close_conn
set_re2_agent id secret name channels c h =
    let d = device id h in
    if not (length d.secret == 0) && not (constant_time_equal d.secret secret)
    then (put_device id d h, false)
    else (
      put_device id
          (record d {
            secret = secret;
            name = name;
            re2_agent = some c;
            re2_agent_channels = channels;
          })
          (close_conn d.re2_agent c h),
      true,
    )

-- `boundClients`: the attached connections, and the routes of their frames.
data_routed : Bytes → Option ℕ → List (ℕ × Bytes)
data_routed id none = []
data_routed id (some c) = (c, channel_route id channel_data) ∷ []

unfoldable pub bound_clients : DeviceState → List (ℕ × Bytes)
unfolding data_routed
bound_clients d = elim d.re2_client [
  | none ↦ data_routed d.id d.re2_data_client
  | some c ↦ (c, d.id) ∷ data_routed d.id d.re2_data_client
]

-- `d.RE2Agent == c`
abbrev pub is_conn : Option ℕ → ℕ → Bool
is_conn none c = false
is_conn (some x) c = x == c

unfoldable pub clear_agent_of : Bytes → ℕ → Option DeviceState → Hub → Hub × List (ℕ × Bytes)
clear_agent_of id c none h = (h, [])
clear_agent_of id c (some d) h = if not (is_conn d.re2_agent c) then (h, []) else (
  put_device id
      (record d {
        re2_agent = none;
        re2_agent_channels = false;
        re2_client = none;
        re2_data_client = none;
      })
      h,
  bound_clients d,
)

-- `clearRE2Agent`
unfoldable pub clear_re2_agent : Bytes → ℕ → Hub → Hub × List (ℕ × Bytes)
unfolding clear_agent_of put_device bound_clients
clear_re2_agent id c h = clear_agent_of id c (lookup id h.devices) h

-- `re2AgentChannels`, `re2AgentOf` and `re2ClientOf`
unfoldable pub re2_agent_channels_of : Bytes → Hub → Bool
unfolding device
re2_agent_channels_of id h = (device id h).re2_agent_channels

unfoldable pub re2_agent_of : Bytes → Hub → Option ℕ
unfolding device
re2_agent_of route h = (device (split_route route).0 h).re2_agent

unfoldable pub client_slot : Bytes → DeviceState → Option ℕ
client_slot channel d = if bytes_eq channel channel_data then d.re2_data_client else d.re2_client

unfoldable pub re2_client_of : Bytes → Hub → Option ℕ
unfolding device client_slot
re2_client_of route h = client_slot (split_route route).1 (device (split_route route).0 h)
