-- ===== src/Relay/Bind/Exclusive.antt =====
-- One controller at a time: what `bindRE2Client` of cmd/relay/re2.go keeps for a device.
use runeverything.Re2.Channel.{channel_data, channel_route}
use runeverything.Relay.Bind.{
  bind_re2_client, BindPayload, held_by_other, bind_device, set_slot, other_holder, name_holder,
}
use runeverything.Relay.Hub.{
  device_or, Hub, device, put_device, client_slot, DeviceState, new_device, bound_clients,
}
use runeverything.Base.Bytes.{bytes_eq, Bytes, bytes_eq_iff}
use runeverything.Base.{
  ℕ, ◌≡◌, refl, ◌≢◌, ◌⊎◌, inl, inr, true, false, not, ◌&&◌, Option, none, some, [], ◌∷◌, arith,
  ◌==◌, if◌then◌else◌, Bool-cases, length,
}
use runeverything.Base.Maps.{lookup-insert, bytes_eq_instance}

-- `owner` gives the controller's id with which a connection was bound, or nothing for an old app.
-- A connection in a slot is of the device's controller, or of an old app.
abbrev Fits : (ℕ → Bytes) → Bytes → Option ℕ → Type 0
Fits owner id none = Unit {0}
Fits owner id (some c) = (owner c ≡ []) ⊎ (owner c ≡ id)

pub record IsExclusive (owner : ℕ → Bytes) (d : DeviceState) : Type 0 where
  pub desktop : Fits owner d.re2_client_id d.re2_client
  pub bulk : Fits owner d.re2_client_id d.re2_data_client

-- The connection is bound anew.
abbrev pub rebound : (ℕ → Bytes) → ℕ → Bytes → ℕ → Bytes
rebound owner c id x = if x == c then id else owner x

new_device-IsExclusive : (owner : ℕ → Bytes) (id : Bytes) → IsExclusive owner (new_device id)
unfolding new_device
new_device-IsExclusive owner id = record { desktop = tt; bulk = tt }

is_empty : (xs : Bytes) → (length xs == 0) ≡ true → xs ≡ []
is_empty [] h = refl
is_empty (x ∷ xs) h = absurd (ground arith)

bind_device-IsExclusive :
    (owner : ℕ → Bytes) (now c : ℕ) (b : BindPayload) (d : DeviceState)
    → IsExclusive owner d
    → IsExclusive (rebound owner c b.client_id) (bind_device now c b d)
unfolding bind_device other_holder name_holder set_slot held_by_other bound_clients
bind_device-IsExclusive owner now c b d v = ground (
  arith,
  bytes_eq_iff d.re2_client_id b.client_id,
  is_empty b.client_id,
  is_empty d.re2_client_id,
)

device-put_device : (id : Bytes) (d : DeviceState) (h : Hub) → device id (put_device id d h) ≡ d
unfolding device put_device device_or
device-put_device id d h =
    rw (lookup-insert id id d h.devices, (bytes_eq_iff id id).1 refl, device_or) refl

client_slot-bind_device :
    (now c : ℕ) (b : BindPayload) (d : DeviceState)
    → client_slot b.channel (bind_device now c b d) ≡ some c
unfolding bind_device client_slot set_slot name_holder
client_slot-bind_device now c b d = ground arith

-- A bind, by force or not, keeps this: the connections in the device's slots that were bound with an
-- id of a controller were all bound with the one that the device has. Connections that were bound
-- without an id, by old apps, may be beside them. If the bind is let through, the connection has the
-- slot of its channel; if not, the slot is as it was.
pub bind_re2_client-IsExclusive :
    (owner : ℕ → Bytes) (now c : ℕ) (id : Bytes) (b : BindPayload) (h : Hub)
    → IsExclusive owner (device id h)
    → IsExclusive
        (if (bind_re2_client now id c b h).1.busy then owner else rebound owner c b.client_id)
        (device id (bind_re2_client now id c b h).0)
      × (client_slot b.channel (device id (bind_re2_client now id c b h).0) ≡ (
          if (bind_re2_client now id c b h).1.busy
          then client_slot b.channel (device id h)
          else some c))
unfolding bind_re2_client device client_slot
bind_re2_client-IsExclusive owner now c id b h v =
    elim (Bool-cases (other_holder c b (device id h) && not b.force)) [
      | inl stop ↦ rw (stop, bind_re2_client, device-put_device) (v, refl)
      | inr go ↦
          rw (go, bind_re2_client, device-put_device)
            (
              bind_device-IsExclusive owner now c b (device id h) v,
              client_slot-bind_device now c b (device id h),
            )
    ]

-- Another connection is attached, for a controller that is not the one of the bind.
abbrev pub IsTaken : ℕ → BindPayload → DeviceState → ℕ → Type 0
IsTaken c b d x =
    ((d.re2_client ≡ some x) ⊎ (d.re2_data_client ≡ some x))
    × (x ≢ c)
    × (d.re2_client_id ≢ [])
    × (b.client_id ≢ [])
    × (d.re2_client_id ≢ b.client_id)

IsTaken-other_holder :
    (c x : ℕ) (b : BindPayload) (d : DeviceState) → IsTaken c b d x → other_holder c b d ≡ true
unfolding other_holder held_by_other bound_clients
IsTaken-other_holder c x b d (at, ne, hd, hb, differ) = ground (
  arith,
  bytes_eq_iff d.re2_client_id b.client_id,
  is_empty b.client_id,
  is_empty d.re2_client_id,
)

bound_clients-bind_device :
    (now c : ℕ) (b : BindPayload) (d : DeviceState)
    → other_holder c b d ≡ true
    → bound_clients (bind_device now c b d)
      ≡ (c, (if bytes_eq b.channel channel_data then channel_route d.id channel_data else d.id))
        ∷ []
unfolding bind_device bound_clients set_slot name_holder
bound_clients-bind_device now c b d h = ground arith

-- While another connection is attached for one controller, a bind for a second one is refused
-- unless it is forced, and a refused bind leaves the connections that were attached; a forced one
-- is let through and leaves the new connection alone, under the route of its channel.
pub bind_re2_client_takeover :
    (now c x : ℕ) (id : Bytes) (b : BindPayload) (h : Hub)
    → IsTaken c b (device id h) x
    → ((bind_re2_client now id c b h).1.busy ≡ not b.force)
      × (bound_clients (device id (bind_re2_client now id c b h).0) ≡ (
          if b.force
          then (
            c,
            (if bytes_eq b.channel channel_data
                then channel_route (device id h).id channel_data
                else (device id h).id),
          )
            ∷ []
          else bound_clients (device id h)))
unfolding bind_re2_client
bind_re2_client_takeover now c x id b h taken =
    let other = IsTaken-other_holder c x b (device id h) taken in
    elim (Bool-cases (other_holder c b (device id h) && not b.force)) [
      | inl stop ↦
          let free : b.force ≡ false = ground arith in
          rw (stop, bind_re2_client, device-put_device, free) (refl, refl)
      | inr go ↦
          let forced : b.force ≡ true = ground arith in
          rw (go, bind_re2_client, device-put_device, forced)
            (refl, bound_clients-bind_device now c b (device id h) other)
    ]
