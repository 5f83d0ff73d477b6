-- ===== src/Relay/Serve/Agent/Forward.antt =====
-- Where an agent's opaque frames go: `serveRE2Agent` of cmd/relay/re2.go.
use runeverything.Relay.Serve.Agent.{serve_agent_frame, forward_to_client}
use runeverything.Relay.Hub.{raw, Hub, device, write_frame, client_slot, re2_client_of}
use runeverything.Relay.Serve.{RelayEnv, pass_frame}
use runeverything.Re2.Channel.{split_route}
use runeverything.Base.Bytes.{Bytes, bytes_eq, bytes_eq_iff}
use runeverything.Base.{
  ℕ, ◌≡◌, refl, sym, ap, ◌∙◌, ◌⊎◌, inl, inr, none, some, false, arith, ◌==◌, if◌then◌else◌,
  Bool-cases, Option-cases, length,
}
use runeverything.Base.Maps.{bytes_eq_instance}
use runeverything.Re2.Frame
use runeverything.Re2.Frame.{Frame}

-- The route that a frame is for: the one that it names, or its own device's.
abbrev pub route_for : Frame → Bytes → Bytes
route_for f id = if length f.route_id == 0 then id else f.route_id

-- What is written is the frame, under its route, to the connection in the slot of the route's channel
-- at the device `id`.
pub record IsPassed (f : Frame) (id : Bytes) (h h' : Hub) : Type 0 where
  pub to : ℕ
  pub own : (split_route (route_for f id)).0 ≡ id
  pub slot : client_slot (split_route (route_for f id)).1 (device id h) ≡ some to
  pub wrote :
      h'
      ≡ write_frame to (record { type = f.type; route_id = route_for f id; body = raw f.payload }) h

-- Nothing is done, since the agent has not registered, the route is another device's, or nobody is
-- in the slot.
abbrev pub IsDropped : Frame → Bytes → Hub → Hub → Type 0
IsDropped f id h h' =
    (h' ≡ h)
    × ((length id ≡ 0)
        ⊎ ((bytes_eq (split_route (route_for f id)).0 id ≡ false)
            ⊎ (re2_client_of (route_for f id) h ≡ none)))

forward_to_client-IsPassed :
    (f : Frame) (id : Bytes) (h : Hub)
    → IsDropped f id h (forward_to_client f id h) ⊎ IsPassed f id h (forward_to_client f id h)
unfolding forward_to_client pass_frame
forward_to_client-IsPassed f id h =
    elim (Bool-cases (bytes_eq (split_route (route_for f id)).0 id)) [
      | inr foreign ↦ inl (rw foreign refl, inr (inl foreign))
      | inl own ↦
          let same : (split_route (route_for f id)).0 ≡ id =
            (bytes_eq_iff (split_route (route_for f id)).0 id).0 own in
          elim (Option-cases (re2_client_of (route_for f id) h)) [
            | inl nobody ↦ inl (rw (own, nobody) refl, inr (inr nobody))
            | inr (to, at) ↦ inr (record {
              to = to;
              own = same;
              slot =
                  ap (λ x. client_slot (split_route (route_for f id)).1 (device x h)) (sym same)
                  ∙ unfold re2_client_of in at;
              wrote = rw (own, at) refl;
            })
          ]
    ]

-- An opaque frame of an agent is written as it came, under the route that it names or its own
-- device's, to one connection, which holds the slot of the route's channel at the device that this
-- agent registered; or nothing is done, and then the agent has not registered, the route is of
-- another device, or nobody holds the slot.
pub serve_agent_frame-IsPassed :
    (env : RelayEnv) (c : ℕ) (f : Frame) (id : Bytes) (h : Hub)
    → (f.type ≡ Frame.type_noise) ⊎ (f.type ≡ Frame.type_tunnel)
    → IsDropped f id h (serve_agent_frame env c f id h).0
      ⊎ IsPassed f id h (serve_agent_frame env c f id h).0
unfolding serve_agent_frame
serve_agent_frame-IsPassed env c f id h opaque = elim (Bool-cases (length id == 0)) [
  | inl unregistered ↦ inl (ground arith, inl (ground arith))
  | inr registered ↦
      let same : (serve_agent_frame env c f id h).0 ≡ forward_to_client f id h = ground arith in
      rw same (forward_to_client-IsPassed f id h)
]
