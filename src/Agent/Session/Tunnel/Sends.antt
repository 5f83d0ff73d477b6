-- ===== src/Agent/Session/Tunnel/Sends.antt =====
-- `sendTunnel` of cmd/agent/desktop.go: its messages go out on the plane of the session.
use runeverything.Agent.Session.Tunnel.{
  Ciphers, TunnelEnv, Room, has_room, crowded, lost, not_udp, after_sleep, after_room, wait_room,
  put_on_wire, seal_and_send, send_tunnel, live_ep, max_waits,
}
use runeverything.Agent.Session.{Agent, Wire, write_wire}
use runeverything.Base.Bytes.{Bytes}
use runeverything.Base.Float64.{Float64}
use runeverything.Base.{
  ℕ, zero, suc, ◌+◌, ◌≡◌, refl, inl, inr, Bool, true, false, none, some, [], ◌∷◌, arith, ltb,
  Bool-cases, Option-cases, length, is_some, All-append,
}
use runeverything.Re2.Message.{encode_inner}
use runeverything.Reudp.Congestion.{can_send}
use runeverything.Reudp.Endpoint.{Endpoint}
use runeverything.Reudp.Packet.{max_payload}
use runeverything.Agent.Session.Tunnel.Plane.{
  Sides, IsRight, OnPlane, IsFair, Plane-udp, Plane-relayed, Plane-of_udp, Plane-next, Plane,
}

module _ {S V F : Type 0} ⦃fl : Float64 F⦄ {ciphers : Ciphers S V} (sides : Sides ciphers)
    (device : Bytes) where
  live_ep-none : (a : Agent S V F) → OnPlane sides device a → live_ep a ≡ none → a.use_udp ≡ false
  live_ep-none a h off = elim (Bool-cases a.use_udp) [
    | inl on ↦
        let (there, s, same, made) =
          Plane-udp sides device a.re2_sess a.video_media a.use_udp _ h.1 on in
        absurd (ground (arith, there, off, on))
    | inr relayed ↦ relayed
  ]

  pub write_wire-OnPlane :
      (w : Wire) (a : Agent S V F)
      → OnPlane sides device a
      → IsRight sides device w
      → OnPlane sides device (write_wire w a)
  unfolding write_wire
  write_wire-OnPlane w a (at, plane, right) h =
      (at, plane, All-append (IsRight sides device) a.written (w ∷ []) right (h, tt))

  after_sleep-OnPlane :
      (go : Endpoint F → Agent S V F → Agent S V F × Room) (a : Agent S V F)
      → OnPlane sides device a
      → ((ep : Endpoint F) (b : Agent S V F)
          → OnPlane sides device b
          → OnPlane sides device (go ep b).0)
      → OnPlane sides device (after_sleep go a).0
  unfolding after_sleep
  after_sleep-OnPlane go a h keep = elim (Option-cases a.re2_sess) [
    | inl gone ↦ rw (gone, after_sleep) h
    | inr (s, here) ↦ elim (Option-cases (live_ep a)) [
      | inl off ↦ rw (here, off, after_sleep) h
      | inr (ep, on) ↦ rw (here, on, after_sleep) (keep ep a h)
    ]
  ]

  wait_room-OnPlane :
      (env : TunnelEnv S V F)
      → IsFair sides device env
      → (waits i : ℕ) (ep : Endpoint F) (a : Agent S V F) → OnPlane sides device a
      → OnPlane sides device (wait_room waits env i ep a).0
  unfolding wait_room
  wait_room-OnPlane env fair zero i ep a h = h
  wait_room-OnPlane env fair (suc waits) i ep a h =
      elim (Bool-cases (can_send (env.clock i) ep.cong)) [
        | inl can ↦ rw (can, wait_room) h
        | inr full ↦
            rw (full, wait_room)
              (after_sleep-OnPlane (wait_room waits env (i + 1)) (env.others i a) (fair.kept i a h)
                (λ ep' b. wait_room-OnPlane env fair waits (i + 1) ep' b))
      ]

  put_on_wire-OnPlane :
      (env : TunnelEnv S V F) (ct : Bytes) (conn : Bool) (a : Agent S V F)
      → OnPlane sides device a
      → (a.use_udp ≡ true → sides.UdpText ct)
      → (a.use_udp ≡ false → sides.RelayedText ct)
      → OnPlane sides device (put_on_wire env ct conn a).0
  unfolding put_on_wire write_wire
  put_on_wire-OnPlane env ct conn a h udp relayed = elim (Option-cases (live_ep a)) [
    | inl off ↦ elim (Bool-cases conn) [
      | inl up ↦
          rw (off, up, put_on_wire)
            (write_wire-OnPlane _ a h (λ t r. relayed (live_ep-none a h off)))
      | inr down ↦ rw (off, down, put_on_wire) h
    ]
    | inr (ep, on) ↦
        let used : a.use_udp ≡ true = ground (arith, on) in
        let there : is_some a.udp_ep ≡ true = ground (arith, on) in
        rw (on, put_on_wire)
          (h.0, rw there at h.1, All-append (IsRight sides device) a.written _ h.2 (udp used, tt))
  ]

  seal_and_send-OnPlane :
      (env : TunnelEnv S V F) (inner : Bytes) (conn : Bool) (a : Agent S V F)
      → IsFair sides device env
      → OnPlane sides device a
      → OnPlane sides device (seal_and_send env inner conn a).0
  unfolding seal_and_send
  seal_and_send-OnPlane env inner conn a fair h = elim (Option-cases a.re2_sess) [
    | inl gone ↦ rw (gone, seal_and_send) h
    | inr (s, here) ↦ elim (Option-cases (env.ciphers.encrypt s inner)) [
      | inl fails ↦ rw (here, fails, seal_and_send) h
      | inr ((s', ct), works) ↦
          let by : ciphers.encrypt s inner ≡ some (s', ct) = rw fair.same at works in
          let plane : Plane sides device (some s) a.video_media a.use_udp (is_some a.udp_ep) =
            rw here at h.1 in
          rw (here, works, seal_and_send)
            (put_on_wire-OnPlane env ct conn (record a { re2_sess = some s' })
              (
                h.0,
                Plane-next sides device s s' a.video_media a.use_udp _
                    (λ x. (sides.udp_encrypt s s' inner ct by x).0)
                    (λ x. (sides.relayed_encrypt s s' inner ct by x).0) plane,
                h.2,
              )
              (λ on.
                (sides.udp_encrypt s s' inner ct by
                  (Plane-of_udp sides device s a.video_media a.use_udp _ plane on)).1)
              (λ off.
                (sides.relayed_encrypt s s' inner ct by (
                  (Plane-relayed sides device (some s) a.video_media a.use_udp _ plane off).1 s
                    refl)).1))
    ]
  ]

  after_room-OnPlane :
      (env : TunnelEnv S V F) (inner : Bytes) (conn : Bool) (a : Agent S V F) (r : Room)
      → IsFair sides device env
      → OnPlane sides device a
      → OnPlane sides device (after_room env inner conn (a, r)).0
  unfolding after_room
  after_room-OnPlane env inner conn a has_room fair h =
      seal_and_send-OnPlane env inner conn a fair h
  after_room-OnPlane env inner conn a not_udp fair h = seal_and_send-OnPlane env inner conn a fair h
  after_room-OnPlane env inner conn a crowded fair h = h
  after_room-OnPlane env inner conn a lost fair h = h

  -- Sending keeps to the planes.
  pub send_tunnel-OnPlane :
      (env : TunnelEnv S V F) (type : ℕ) (body : Bytes) (a : Agent S V F)
      → IsFair sides device env
      → OnPlane sides device a
      → OnPlane sides device (send_tunnel env type body a).0
  unfolding send_tunnel
  send_tunnel-OnPlane env type body a fair h =
      let inner = encode_inner type body in
      elim (Option-cases a.re2_sess) [
        | inl gone ↦ rw (gone, send_tunnel) h
        | inr (s, here) ↦ elim (Option-cases (live_ep a)) [
          | inl off ↦
              rw (here, off, send_tunnel) (seal_and_send-OnPlane env inner a.re2_conn a fair h)
          | inr (ep, on) ↦ elim (Bool-cases (ltb max_payload (length inner + 16))) [
            | inl large ↦ rw (here, on, large, send_tunnel) h
            | inr fits ↦
                rw (here, on, fits, send_tunnel)
                  (after_room-OnPlane env inner a.re2_conn _ _ fair
                    (wait_room-OnPlane env fair max_waits 0 ep a h))
          ]
        ]
      ]
