-- ===== src/Relay/Bind.antt =====
-- cmd/relay/re2.go: `bindRE2Client` and `clearRE2Client`. A device has one controller at a time.
pub mod Exclusive
use runeverything.Base.{
  ℕ, Bool, true, false, not, ◌&&◌, ◌||◌, Option, none, some, List, [], ◌∷◌, ◌==◌, if◌then◌else◌,
  is_some, length,
}
use runeverything.Base.Bytes.{Bytes, bytes_eq}
use runeverything.Base.Maps.{bytes_eq_instance, lookup}
use runeverything.Re2.Channel.{channel_data, channel_route}
use runeverything.Relay.Hub.{
  DeviceState, Hub, device, put_device, close_conn, bound_clients, client_slot, is_conn,
}

pub record BindPayload : Type 0 where
  pub device_id : Bytes
  pub session_ticket : Bytes
  pub channel : Bytes
  pub client_id : Bytes
  pub client_name : Bytes
  pub force : Bool

pub record BindResult : Type 0 where
  pub busy : Bool
  pub peer : Bytes
  pub since : ℕ
  pub displaced : List (ℕ × Bytes)

-- Another connection than `c` is attached.
unfoldable pub held_by_other : ℕ → List (ℕ × Bytes) → Bool
held_by_other c [] = false
held_by_other c ((x, route) ∷ xs) = not (x == c) || held_by_other c xs

unfoldable pub set_slot : Bytes → Option ℕ → DeviceState → DeviceState
set_slot channel c d =
    if bytes_eq channel channel_data
    then record d { re2_data_client = c }
    else record d { re2_client = c }

-- Who else holds the device, and is neither this controller nor unknown.
unfoldable pub other_holder : ℕ → BindPayload → DeviceState → Bool
unfolding bound_clients
other_holder c b d =
    held_by_other c (bound_clients d)
    && (not (length b.client_id == 0)
        && (not (length d.re2_client_id == 0) && not (bytes_eq d.re2_client_id b.client_id)))

-- The controller's identity after a successful bind.
unfoldable pub name_holder : ℕ → Bool → BindPayload → DeviceState → DeviceState
name_holder now held b d =
    let new_id = not (bytes_eq d.re2_client_id b.client_id) in
    let taken = not (length b.client_id == 0) || not held in
    record d {
      re2_client_since = if not held || new_id then now else d.re2_client_since;
      re2_client_name =
          if taken && (not (length b.client_name == 0) || new_id)
          then b.client_name
          else d.re2_client_name;
      re2_client_id = if taken then b.client_id else d.re2_client_id;
    }

unfoldable pub bind_device : ℕ → ℕ → BindPayload → DeviceState → DeviceState
unfolding set_slot other_holder name_holder bound_clients held_by_other
bind_device now c b d =
    let held = held_by_other c (bound_clients d) in
    let d' =
      if other_holder c b d then record d { re2_client = none; re2_data_client = none } else d in
    name_holder now held b (set_slot b.channel (some c) d')

-- `bindRE2Client`
unfoldable pub bind_re2_client : ℕ → Bytes → ℕ → BindPayload → Hub → Hub × BindResult
unfolding device put_device close_conn client_slot bound_clients bind_device
bind_re2_client now id c b h =
    let d = device id h in
    let other = other_holder c b d in
    if other && not b.force
    then (
      put_device id d h,
      record { busy = true; peer = d.re2_client_name; since = d.re2_client_since; displaced = [] },
    )
    else (
      put_device id (bind_device now c b d)
          (if other then h else close_conn (client_slot b.channel d) c h),
      record {
        busy = false;
        peer = [];
        since = 0;
        displaced = if other then bound_clients d else [];
      },
    )

-- A controller with no channel left is forgotten.
unfoldable pub forget_if_gone : DeviceState → DeviceState
forget_if_gone d =
    if not (is_some d.re2_client) && not (is_some d.re2_data_client)
    then record d { re2_client_id = []; re2_client_name = [] }
    else d

unfoldable pub clear_client_of : Bytes → ℕ → Option DeviceState → Hub → Hub × Option ℕ × Bytes
clear_client_of id c none h = (h, none, [])
clear_client_of id c (some d) h =
    if is_conn d.re2_client c
    then (put_device id (forget_if_gone (record d { re2_client = none })) h, d.re2_agent, id)
    else if is_conn d.re2_data_client c
    then (
      put_device id (forget_if_gone (record d { re2_data_client = none })) h,
      d.re2_agent,
      channel_route id channel_data,
    )
    else (h, none, [])

-- `clearRE2Client`: the agent, and the route that the client served.
unfoldable pub clear_re2_client : Bytes → ℕ → Hub → Hub × Option ℕ × Bytes
unfolding clear_client_of forget_if_gone put_device
clear_re2_client id c h = clear_client_of id c (lookup id h.devices) h
