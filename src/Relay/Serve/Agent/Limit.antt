-- ===== src/Relay/Serve/Agent/Limit.antt =====
-- `serveRE2Agent` of cmd/relay/re2.go leaves the limiter alone.
use runeverything.Relay.Serve.Client.Capacity.{close_conn-limiter, notify_peer_gone-limiter}
use runeverything.Relay.Serve.Agent.{
  serve_agent_frame, agent_gone, registered, register, offer, forward_to_client, notify_all,
}
use runeverything.Relay.Hub.{
  DeviceState, Hub, device, put_device, write_frame, set_re2_agent, clear_agent_of, clear_re2_agent,
  re2_client_of,
}
use runeverything.Relay.Serve.{
  Decoded, good, bad, RegisterPayload, PairOfferPayload, RelayEnv, write_re2_err, pass_frame,
}
use runeverything.Base.Bytes.{Bytes}
use runeverything.Base.{
  ℕ, ◌≡◌, refl, ◌∙◌, Bool, true, false, Option, none, some, List, [], ◌∷◌, arith, ◌==◌,
  if◌then◌else◌, length,
}
use runeverything.Base.Maps.{lookup, bytes_eq_instance}
use runeverything.Re2.Frame.{Frame}

set_re2_agent-limiter :
    (id secret name : Bytes) (channels : Bool) (c : ℕ) (h : Hub)
    → (set_re2_agent id secret name channels c h).0.limiter ≡ h.limiter
unfolding set_re2_agent put_device
set_re2_agent-limiter id secret name channels c h =
    ground (arith, close_conn-limiter (device id h).re2_agent c h)

registered-limiter :
    (env : RelayEnv) (c : ℕ) (p : RegisterPayload) (id : Bytes) (r : Hub × Bool)
    → (registered env c p id r).0.limiter ≡ r.0.limiter
unfolding registered write_re2_err write_frame
registered-limiter env c p id (h, false) = refl
registered-limiter env c p id (h, true) = refl

register-limiter :
    (env : RelayEnv) (c : ℕ) (f : Frame) (id : Bytes) (h : Hub) (d : Decoded RegisterPayload)
    → (register env c f id h d).0.limiter ≡ h.limiter
unfolding register write_re2_err write_frame
register-limiter env c f id h (bad msg) = refl
register-limiter env c f id h (good p) = ground (
  arith,
  registered-limiter env c p id (set_re2_agent p.device_id p.device_secret p.name p.channels c h),
  set_re2_agent-limiter p.device_id p.device_secret p.name p.channels c h,
)

offer-limiter :
    (env : RelayEnv) (c : ℕ) (id : Bytes) (h : Hub) (d : Decoded PairOfferPayload)
    → (offer env c id h d).0.limiter ≡ h.limiter
unfolding offer write_re2_err write_frame
offer-limiter env c id h (bad msg) = refl
offer-limiter env c id h (good p) = refl

pass_frame-limiter :
    (o : Option ℕ) (type : ℕ) (route payload : Bytes) (h : Hub)
    → (pass_frame o type route payload h).limiter ≡ h.limiter
unfolding pass_frame write_frame
pass_frame-limiter none type route payload h = refl
pass_frame-limiter (some to) type route payload h = refl

forward_to_client-limiter :
    (f : Frame) (id : Bytes) (h : Hub) → (forward_to_client f id h).limiter ≡ h.limiter
unfolding forward_to_client
forward_to_client-limiter f id h =
    let route = if length f.route_id == 0 then id else f.route_id in
    ground (arith, pass_frame-limiter (re2_client_of route h) f.type route f.payload h)

pub serve_agent_frame-limiter :
    (env : RelayEnv) (c : ℕ) (f : Frame) (id : Bytes) (h : Hub)
    → (serve_agent_frame env c f id h).0.limiter ≡ h.limiter
unfolding serve_agent_frame write_re2_err write_frame
serve_agent_frame-limiter env c f id h = ground (
  arith,
  register-limiter env c f id h (env.parse_register f.payload),
  offer-limiter env c id h (env.parse_offer f.payload),
  forward_to_client-limiter f id h,
)

notify_all-limiter : (ps : List (ℕ × Bytes)) (h : Hub) → (notify_all ps h).limiter ≡ h.limiter
unfolding notify_all
notify_all-limiter [] h = refl
notify_all-limiter ((peer, route) ∷ ps) h =
    notify_all-limiter ps _ ∙ notify_peer_gone-limiter (some peer) route h

clear_agent_of-limiter :
    (id : Bytes) (c : ℕ) (o : Option DeviceState) (h : Hub)
    → (clear_agent_of id c o h).0.limiter ≡ h.limiter
unfolding clear_agent_of put_device
clear_agent_of-limiter id c none h = refl
clear_agent_of-limiter id c (some d) h = ground arith

pub agent_gone-limiter : (c : ℕ) (id : Bytes) (h : Hub) → (agent_gone c id h).limiter ≡ h.limiter
unfolding agent_gone clear_re2_agent
agent_gone-limiter c id h =
    let (h', peers) = clear_agent_of id c (lookup id h.devices) h in
    ground (arith, clear_agent_of-limiter id c (lookup id h.devices) h, notify_all-limiter peers h')
