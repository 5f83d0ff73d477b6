-- ===== src/Relay/Serve/Agent.antt =====
-- `serveRE2Agent` of cmd/relay/re2.go.
pub mod Forward
pub mod Limit
use runeverything.Relay.Hub.{
  raw, register_ok, Hub, device, write_frame, set_re2_agent, clear_re2_agent, re2_client_of,
}
use runeverything.Relay.Serve.{
  type_ping, RelayEnv, Decoded, good, bad, RegisterPayload, PairOfferPayload, type_register,
  type_pair_offer, write_re2_err, notify_peer_gone, pass_frame,
}
use runeverything.Re2.Channel.{split_route}
use runeverything.Base.Bytes.{Bytes, codes, bytes_eq}
use runeverything.Auth.{put_pairing}
use runeverything.Base.{
  ℕ, ◌-◌, ◌*◌, Bool, true, false, not, ◌||◌, some, List, [], ◌∷◌, ◌==◌, if◌then◌else◌, length,
}
use runeverything.Re2.Frame
use runeverything.Re2.Frame.{Frame}

-- The hub, the device that the connection registered, and whether the loop goes on.
abbrev pub AgentStep : Type 0
AgentStep = Hub × Bytes × Bool

registered : RelayEnv → ℕ → RegisterPayload → Bytes → Hub × Bool → AgentStep
unfolding write_re2_err
registered env c p id (h, false) =
    (write_re2_err c p.device_id (codes "auth_failed") (codes "invalid device secret") h, id, false)
registered env c p id (h, true) = (
  write_frame c
      (record {
        type = Frame.type_register_ok;
        route_id = p.device_id;
        body = register_ok p.device_id h.public_udp;
      })
      h,
  p.device_id,
  true,
)

register : RelayEnv → ℕ → Frame → Bytes → Hub → Decoded RegisterPayload → AgentStep
unfolding registered write_re2_err
register env c f id h (bad msg) = (write_re2_err c f.route_id (codes "bad_data") msg h, id, true)
register env c f id h (good p) =
    if length p.device_id == 0 || length p.device_secret == 0
    then (
      write_re2_err c p.device_id (codes "bad_data") (codes "device_id and device_secret required")
          h,
      id,
      true,
    )
    else registered env c p id (set_re2_agent p.device_id p.device_secret p.name p.channels c h)

-- Ten minutes stand in for an expiry that is past. The clock counts nanoseconds since 1970.
offer : RelayEnv → ℕ → Bytes → Hub → Decoded PairOfferPayload → AgentStep
unfolding write_re2_err
offer env c id h (bad msg) = (write_re2_err c id (codes "bad_data") msg h, id, true)
offer env c id h (good p) =
    let ttl = p.expires_at * 1000000000 - env.now in
    (
      record h {
        auth =
            put_pairing env.now id p.name env.public_relay p.pairing_token
              (if ttl == 0 then 600 * 1000000000 else ttl) h.auth;
      },
      id,
      true,
    )

-- An agent's frame goes to a client of its own device only.
forward_to_client : Frame → Bytes → Hub → Hub
unfolding pass_frame
forward_to_client f id h =
    let route = if length f.route_id == 0 then id else f.route_id in
    if not (bytes_eq (split_route route).0 id)
    then h
    else pass_frame (re2_client_of route h) f.type route f.payload h

unfoldable pub serve_agent_frame : RelayEnv → ℕ → Frame → Bytes → Hub → AgentStep
unfolding register offer forward_to_client write_re2_err
serve_agent_frame env c f id h =
    if f.type == type_register
    then register env c f id h (env.parse_register f.payload)
    else if f.type == type_pair_offer
    then (if length id == 0
        then (
          write_re2_err c f.route_id (codes "not_registered") (codes "register first") h,
          id,
          true,
        )
        else offer env c id h (env.parse_offer f.payload))
    else if f.type == Frame.type_noise || f.type == Frame.type_tunnel
    then (if length id == 0 then (h, id, true) else (forward_to_client f id h, id, true))
    else if f.type == type_ping
    then (
      write_frame c (record { type = Frame.type_pong; route_id = f.route_id; body = raw f.payload })
          h,
      id,
      true,
    )
    else (h, id, true)

notify_all : List (ℕ × Bytes) → Hub → Hub
unfolding notify_peer_gone
notify_all [] h = h
notify_all ((peer, route) ∷ ps) h = notify_all ps (notify_peer_gone (some peer) route h)

-- The deferred function.
unfoldable pub agent_gone : ℕ → Bytes → Hub → Hub
unfolding notify_all
agent_gone c id h =
    if length id == 0 then h else (let (h', peers) = clear_re2_agent id c h in notify_all peers h')
