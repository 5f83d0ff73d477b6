-- ===== src/Agent/Session/Planes/Messages.antt =====
-- `handleRE2Inner` and `handleDataInner` of cmd/agent keep to the planes.
use runeverything.Agent.Input.{msg_input_mouse, msg_input_key, msg_input_touch}
use runeverything.Agent.Session.Inner.{
  InnerEnv, msg_open_session, msg_session_close, msg_ping, msg_desktop_close, is_goodbye,
  desktop_goodbye, opened, handle_message, after_decode, handle_re2_inner, data_opened,
  handle_data_message, after_data_decode, handle_data_inner,
}
use runeverything.Agent.Session.Neutral.{core-close_session, core-open_session_on}
use runeverything.Agent.Session.Tunnel.Plane.{Sides, core, IsOnPlane, OnPlane, IsFair}
use runeverything.Agent.Session.Tunnel.Sends.{write_wire-OnPlane, send_tunnel-OnPlane}
use runeverything.Agent.Session.Tunnel.{Ciphers, send_data}
use runeverything.Agent.Session.{
  Agent, touch_activity, close_desktop, close_session, open_session_on, cancel_udp_session_stale,
  forget_session,
}
use runeverything.Base.Bytes.{Bytes}
use runeverything.Base.Float64.{Float64}
use mathlib.Core.Path.{subst}
use runeverything.Base.{
  ℕ, ◌≡◌, sym, ap, ◌∙◌, inl, inr, Bool, true, false, ◌||◌, Option, some, [], ◌∷◌, arith, ◌==◌,
  Bool-cases, Option-cases, length, length-append,
}
use runeverything.Re2.Channel.{channel_route, channel_data}
use runeverything.Re2.Message.{Result, ok, err, decode_inner, encode_inner}

-- The route of the data channel is not that of the device.
data_route-ne : (id : Bytes) → channel_route id channel_data ≡ id → ⊥
unfolding channel_route
data_route-ne id e = absurd (omega (arith, ap length e, length-append id (35 ∷ channel_data)))

module _ {S V F : Type 0} ⦃fl : Float64 F⦄ {ciphers : Ciphers S V} (sides : Sides ciphers)
    (device : Bytes) where
  abbrev On : Agent S V F → Type 0
  On a = OnPlane sides device a

  -- A state with the same session, plane and writings.
  pub as_before : (a b : Agent S V F) → core b ≡ core a → On a → On b
  as_before a b e h = subst (IsOnPlane sides device) (sym e) h

  close_session-OnPlane : (id : Bytes) (a : Agent S V F) → On a → On (close_session id a)
  close_session-OnPlane id a = as_before a (close_session id a) (core-close_session id a)

  pub forget_session-OnPlane : (a : Agent S V F) → On a → On (forget_session a)
  unfolding forget_session
  forget_session-OnPlane a h = (h.0, tt, h.2)

  desktop_goodbye-OnPlane :
      (reason : Bytes) (a : Agent S V F) → On a → On (desktop_goodbye reason a)
  unfolding desktop_goodbye close_desktop cancel_udp_session_stale forget_session
  desktop_goodbye-OnPlane reason a h = elim (Bool-cases (is_goodbye reason)) [
    | inl bye ↦ rw bye (h.0, tt, h.2)
    | inr stays ↦ rw stays h
  ]

  send_data-OnPlane :
      (c : Ciphers S V) (type : ℕ) (body : Bytes) (a : Agent S V F)
      → On a
      → On (send_data c type body a)
  unfolding send_data
  send_data-OnPlane c type body a h = elim (Option-cases a.data_sess) [
    | inl gone ↦ rw (gone, send_data) h
    | inr (s, here) ↦ elim (Bool-cases a.re2_conn) [
      | inr down ↦ rw (here, down, send_data) h
      | inl up ↦ elim (Option-cases (c.encrypt s (encode_inner type body))) [
        | inl fails ↦ rw (here, up, fails, send_data) h
        | inr ((s', ct), works) ↦
            rw (here, up, works, send_data)
              (write_wire-OnPlane sides device _ (record a { data_sess = some s' }) h
                (λ t e. absurd (data_route-ne a.device_id (e ∙ sym h.0))))
      ]
    ]
  ]

  module _ (env : InnerEnv S V F) (fair : IsFair sides device env.tunnel) where
    opened-OnPlane : (id : Bytes) (r : Agent S V F × Bool) → On r.0 → On (opened env id r)
    unfolding opened
    opened-OnPlane id (a, true) h = send_tunnel-OnPlane sides device env.tunnel _ _ a fair h
    opened-OnPlane id (a, false) h = send_tunnel-OnPlane sides device env.tunnel _ _ a fair h

    data_opened-OnPlane : (id : Bytes) (r : Agent S V F × Bool) → On r.0 → On (data_opened env id r)
    unfolding data_opened
    data_opened-OnPlane id (a, true) h = send_data-OnPlane env.tunnel.ciphers _ _ a h
    data_opened-OnPlane id (a, false) h = send_data-OnPlane env.tunnel.ciphers _ _ a h

    opening-OnPlane :
        (id channel : Bytes) (started : Option ℕ) (a : Agent S V F)
        → On a
        → On (open_session_on id channel started a).0
    opening-OnPlane id channel started a =
        as_before a (open_session_on id channel started a).0
          (core-open_session_on id channel started a)

    -- Any message keeps to the planes.
    pub handle_message-OnPlane :
        (type : ℕ) (body : Bytes) (a : Agent S V F) → On a → On (handle_message env type body a)
    unfolding handle_message
    handle_message-OnPlane type body a h = elim (Bool-cases (type == msg_open_session)) [
      | inl opens ↦ elim (Option-cases (env.json.open_session_id body)) [
        | inl bad ↦
            rw (opens, bad, handle_message)
              (send_tunnel-OnPlane sides device env.tunnel _ _ a fair h)
        | inr (id, good) ↦
            rw (opens, good, handle_message)
              (opened-OnPlane id _ (opening-OnPlane id [] (env.start_pty body) a h))
      ]
      | inr n1 ↦ elim (Bool-cases (type == msg_session_close)) [
        | inl closes ↦ rw (n1, closes) (close_session-OnPlane _ a h)
        | inr n2 ↦ elim (Bool-cases (type == msg_ping)) [
          | inl pings ↦
              rw (n1, n2, pings) (send_tunnel-OnPlane sides device env.tunnel _ _ a fair h)
          | inr n3 ↦ elim (Bool-cases (type == msg_desktop_close)) [
            | inl ends ↦ rw (n1, n2, n3, ends) (desktop_goodbye-OnPlane _ a h)
            | inr n4 ↦
                elim (Bool-cases
                  (type == msg_input_mouse || (type == msg_input_key || type == msg_input_touch))) [
                    | inl input ↦ rw (n1, n2, n3, n4, input) h
                    | inr other ↦ rw (n1, n2, n3, n4, other) h
                  ]
          ]
        ]
      ]
    ]

    after_decode-OnPlane :
        (r : Result (ℕ × Bytes)) (a : Agent S V F) → On a → On (after_decode env r a)
    unfolding after_decode touch_activity
    after_decode-OnPlane (err e) a h = h
    after_decode-OnPlane (ok (type, body)) a h =
        handle_message-OnPlane type body (touch_activity env.now a) h

    pub handle_re2_inner-OnPlane :
        (plain : Bytes) (a : Agent S V F) → On a → On (handle_re2_inner env plain a)
    unfolding handle_re2_inner
    handle_re2_inner-OnPlane plain a h = after_decode-OnPlane (decode_inner plain) a h

    handle_data_message-OnPlane :
        (type : ℕ) (body : Bytes) (a : Agent S V F)
        → On a
        → On (handle_data_message env type body a)
    unfolding handle_data_message
    handle_data_message-OnPlane type body a h = elim (Bool-cases (type == msg_ping)) [
      | inl pings ↦ rw pings (send_data-OnPlane env.tunnel.ciphers _ _ a h)
      | inr n1 ↦ elim (Bool-cases (type == msg_open_session)) [
        | inl opens ↦ elim (Option-cases (env.json.open_session_id body)) [
          | inl bad ↦
              rw (n1, opens, bad, handle_data_message)
                (send_data-OnPlane env.tunnel.ciphers _ _ a h)
          | inr (id, good) ↦
              rw (n1, opens, good, handle_data_message)
                (data_opened-OnPlane id _
                  (opening-OnPlane id channel_data (env.start_pty body) a h))
        ]
        | inr n2 ↦ elim (Bool-cases (type == msg_session_close)) [
          | inl closes ↦ rw (n1, n2, closes) (close_session-OnPlane _ a h)
          | inr other ↦ rw (n1, n2, other) h
        ]
      ]
    ]

    after_data_decode-OnPlane :
        (r : Result (ℕ × Bytes)) (a : Agent S V F) → On a → On (after_data_decode env r a)
    unfolding after_data_decode
    after_data_decode-OnPlane (err e) a h = h
    after_data_decode-OnPlane (ok (type, body)) a h = handle_data_message-OnPlane type body a h

    pub handle_data_inner-OnPlane :
        (plain : Bytes) (a : Agent S V F) → On a → On (handle_data_inner env plain a)
    unfolding handle_data_inner
    handle_data_inner-OnPlane plain a h = after_data_decode-OnPlane (decode_inner plain) a h
