-- ===== src/Relay/Serve/Client.antt =====
-- `serveRE2Client` of cmd/relay/re2.go.
pub mod Capacity
pub mod Counted
use runeverything.Relay.Bind.{BindPayload, BindResult, bind_re2_client, clear_re2_client}
use runeverything.Relay.Hub.{
  raw, error_payload, pair_ack, bind_ok, Hub, device, write_frame, re2_agent_channels_of,
  re2_agent_of,
}
use runeverything.Relay.Serve.{
  type_ping, RelayEnv, Decoded, good, bad, PairRedeemPayload, type_pair_redeem, type_bind,
  write_re2_err, notify_peer_gone, pass_frame,
}
use runeverything.Re2.Channel.{channel_data, channel_route}
use runeverything.Base.Bytes.{Bytes, codes, bytes_eq}
use runeverything.Bandwidth.{Limiter, try_acquire, release}
use runeverything.Auth.{
  RedeemResult, redeem_ok, redeem_unknown, redeem_expired, redeem_device_mismatch, redeem_pairing,
  validate_session,
}
use runeverything.Base.{
  ℕ, Bool, true, false, not, ◌&&◌, ◌||◌, Option, none, some, List, [], ◌∷◌, ◌++◌, ◌==◌,
  if◌then◌else◌, is_some, length,
}
use runeverything.Re2.Frame
use runeverything.Re2.Frame.{Frame}

-- The loop's variables.
pub record ClientSession : Type 0 where
  pub device_id : Bytes
  pub route : Bytes
  pub acquired : Bool

unfoldable pub new_session : ClientSession
new_session = record { device_id = []; route = []; acquired = false }

abbrev pub ClientStep : Type 0
ClientStep = Hub × ClientSession × Bool

em_dash : Bytes
em_dash = 0xe2 ∷ 0x80 ∷ 0x94 ∷ []

redeemed : ℕ → Bytes → ClientSession → Hub → RedeemResult → ClientStep
unfolding write_re2_err em_dash
redeemed c id s h (redeem_ok ack) = (
  write_frame c
      (record {
        type = Frame.type_pair_ack;
        route_id = ack.device_id;
        body = pair_ack ack.device_id ack.session_token ack.name;
      })
      h,
  s,
  true,
)
redeemed c id s h redeem_expired = (
  write_re2_err c id (codes "expired")
      (codes "pairing token expired " ++ (em_dash ++ codes " generate a new QR on the Agent")) h,
  s,
  true,
)
redeemed c id s h redeem_device_mismatch = (
  write_re2_err c id (codes "pair_failed") (codes "pairing token does not match this device_id") h,
  s,
  true,
)
redeemed c id s h redeem_unknown = (
  write_re2_err c id (codes "pair_failed")
      (codes "pairing token unknown or superseded "
        ++ (em_dash ++ codes " refresh the QR on the Agent (reconnect may have rotated it)"))
      h,
  s,
  true,
)

redeem : RelayEnv → ℕ → Frame → ClientSession → Hub → Decoded PairRedeemPayload → ClientStep
unfolding redeemed write_re2_err
redeem env c f s h (bad msg) = (write_re2_err c f.route_id (codes "bad_data") msg h, s, true)
redeem env c f s h (good p) =
    let (store, result) = redeem_pairing env.now p.device_id p.pairing_token env.random h.auth in
    redeemed c p.device_id s (record h { auth = store }) result

-- `!acquired && hub.limiter != nil && !hub.limiter.TryAcquire()`, which is false if it may go on.
unfoldable pub acquire : Bool → Option Limiter → Option Limiter × Bool
acquire true l = (l, true)
acquire false none = (none, true)
acquire false (some l) = let (l', entered) = try_acquire l in (some l', entered)

unfoldable pub release_if : Bool → Option Limiter → Option Limiter
release_if false l = l
release_if true none = none
release_if true (some l) = some (release l)

max_of : Option Limiter → ℕ
max_of none = 0
max_of (some l) = l.max_sessions

-- The connections of the former controller are told and closed.
kick : RelayEnv → BindPayload → List (ℕ × Bytes) → Hub → Hub
kick env b [] h = h
kick env b ((x, route) ∷ xs) h =
    let told =
      write_frame x
        (record {
          type = Frame.type_error;
          route_id = route;
          body =
              error_payload (codes "superseded") (codes "another device took over this computer")
                b.client_name env.now;
        })
        h in
    kick env b xs (record told { closed = told.closed ++ (x ∷ []) })

tell_agent : BindPayload → Option ℕ → Hub → Hub
tell_agent b none h = h
tell_agent b (some agent) h =
    write_frame agent
      (record {
        type = Frame.type_error;
        route_id = b.device_id;
        body =
            error_payload (codes "controller_changed") (codes "controller replaced by force bind")
              b.client_name 0;
      })
      h

pub displace : RelayEnv → BindPayload → List (ℕ × Bytes) → Hub → Hub
unfolding kick tell_agent
displace env b [] h = h
displace env b (x ∷ xs) h =
    let h' = kick env b (x ∷ xs) h in tell_agent b (re2_agent_of b.device_id h') h'

bind_outcome : RelayEnv → ℕ → BindPayload → ClientSession → Hub × BindResult → ClientStep
unfolding displace release_if
bind_outcome env c b s (h, res) =
    if res.busy
    then (
      write_frame c
          (record {
            type = Frame.type_error;
            route_id = b.device_id;
            body =
                error_payload (codes "controller_busy")
                  (codes "another device is controlling this computer") res.peer res.since;
          })
          (record h { limiter = release_if (not s.acquired) h.limiter }),
      s,
      true,
    )
    else (
      write_frame c
          (record {
            type = Frame.type_bind_ok;
            route_id = channel_route b.device_id b.channel;
            body = bind_ok h.public_udp b.channel;
          })
          (displace env b res.displaced h),
      record {
        device_id = b.device_id;
        route = channel_route b.device_id b.channel;
        acquired = true;
      },
      true,
    )

bind_admitted :
    RelayEnv → ℕ → BindPayload → ClientSession → Hub → Option Limiter × Bool → ClientStep
unfolding write_re2_err bind_outcome max_of
bind_admitted env c b s h (l, false) = (
  write_re2_err c b.device_id (codes "relay_full") (env.capacity_text (max_of l))
      (record h { limiter = l }),
  s,
  true,
)
bind_admitted env c b s h (l, true) =
    bind_outcome env c b s (bind_re2_client env.now b.device_id c b (record h { limiter = l }))

bind_admit : RelayEnv → ℕ → BindPayload → ClientSession → Hub → ClientStep
unfolding bind_admitted
bind_admit env c b s h = bind_admitted env c b s h (acquire s.acquired h.limiter)

bind_checked : RelayEnv → ℕ → BindPayload → ClientSession → Hub → ClientStep
unfolding bind_admit write_re2_err
bind_checked env c b s h =
    if not (validate_session b.device_id b.session_ticket h.auth)
    then (
      write_re2_err c b.device_id (codes "auth_failed") (codes "invalid session ticket") h,
      s,
      false,
    )
    else if not (is_some (re2_agent_of b.device_id h))
    then (write_re2_err c b.device_id (codes "offline") (codes "device agent offline") h, s, true)
    else if not (length s.route == 0)
        && not (bytes_eq s.route (channel_route b.device_id b.channel))
    then (
      write_re2_err c b.device_id (codes "bad_data")
          (codes "connection already bound to another device or channel") h,
      s,
      true,
    )
    else if length b.channel == 0
    then bind_admit env c b s h
    else if not (bytes_eq b.channel channel_data)
    then (
      write_re2_err c b.device_id (codes "channel_unsupported")
          (codes "unknown channel " ++ b.channel) h,
      s,
      true,
    )
    else if not (re2_agent_channels_of b.device_id h)
    then (
      write_re2_err c b.device_id (codes "channel_unsupported")
          (codes "agent does not serve a separate data channel") h,
      s,
      true,
    )
    else bind_admit env c b s h

bind : RelayEnv → ℕ → Frame → ClientSession → Hub → Decoded BindPayload → ClientStep
unfolding bind_checked write_re2_err
bind env c f s h (bad msg) = (write_re2_err c f.route_id (codes "bad_data") msg h, s, true)
bind env c f s h (good b) = bind_checked env c b s h

-- The bound channel decides the route.
forward_to_agent : ℕ → Frame → Bytes → Option ℕ → Hub → Hub
unfolding write_re2_err pass_frame
forward_to_agent c f route none h =
    write_re2_err c route (codes "offline") (codes "device agent offline") h
forward_to_agent c f route (some agent) h = pass_frame (some agent) f.type route f.payload h

unfoldable pub serve_client_frame : RelayEnv → ℕ → Frame → ClientSession → Hub → ClientStep
unfolding redeem bind forward_to_agent
serve_client_frame env c f s h =
    if f.type == type_pair_redeem
    then redeem env c f s h (env.parse_redeem f.payload)
    else if f.type == type_bind
    then bind env c f s h (env.parse_bind f.payload)
    else if f.type == Frame.type_noise || f.type == Frame.type_tunnel
    then (if length s.device_id == 0
        then (h, s, true)
        else (forward_to_agent c f s.route (re2_agent_of s.route h) h, s, true))
    else if f.type == type_ping
    then (
      write_frame c (record { type = Frame.type_pong; route_id = f.route_id; body = raw f.payload })
          h,
      s,
      true,
    )
    else (h, s, true)

pub detach : ℕ → Bytes → Hub → Hub
unfolding notify_peer_gone
detach c id h =
    if length id == 0
    then h
    else (let (h', agent, route) = clear_re2_client id c h in notify_peer_gone agent route h')

-- The deferred function.
unfoldable pub client_gone : ℕ → ClientSession → Hub → Hub
unfolding detach release_if
client_gone c s h =
    let h' = detach c s.device_id h in record h' { limiter = release_if s.acquired h'.limiter }
