-- ===== src/Agent/Session/Datagrams.antt =====
-- `handleUDPPayload`, `completeUDPNoise` and `startUDP` of cmd/agent/desktop.go: what comes on the
-- datagrams.
use runeverything.Agent.Session.Inner.{handle_re2_inner}
use runeverything.Agent.Session.{
  Agent, touch_activity, close_desktop, forget_session, cancel_udp_session_stale, run_agent_noise,
}
use runeverything.Base.Bytes.{Bytes}
use runeverything.Base.Float64.{Float64}
use mathlib.Core.Option
use runeverything.Base.{
  ℕ, Bool, true, ◌&&◌, ◌||◌, Option, none, some, leb, get_or, ◌==◌, if◌then◌else◌, length, is_some,
}
use runeverything.Reudp.Endpoint.{Endpoint, reset_reliable_session, reset_reliable_send}
use runeverything.Agent.Session.Relayed.{StepEnv}

-- `looksLikeNoiseMsg1`
abbrev pub looks_like_noise_msg1 : Bytes → Bool
looks_like_noise_msg1 payload = leb 32 (length payload) && leb (length payload) 80

abbrev pub video_overhead : ℕ
video_overhead = 30

-- `re2.IsVideoPlane`
abbrev pub is_video_plane : Bytes → Bool
is_video_plane payload =
    leb video_overhead (length payload) && get_or payload 0 0 == 0x56 && get_or payload 1 0 == 0x31

module _ {S V F : Type 0} ⦃fl : Float64 F⦄ where
  unfoldable pub reset_session_ep : Agent S V F → Agent S V F
  reset_session_ep a = record a { udp_ep = Option.map reset_reliable_session a.udp_ep }

  unfoldable pub reset_send_ep : Agent S V F → Agent S V F
  reset_send_ep a = record a { udp_ep = Option.map reset_reliable_send a.udp_ep }

  -- After the handshake on the datagrams, with the cipher of the video plane.
  unfoldable pub udp_installed : ℕ → Option V → Agent S V F × Option S → Agent S V F
  unfolding reset_send_ep close_desktop touch_activity cancel_udp_session_stale
  udp_installed now vm (a, none) = a
  udp_installed now vm (a, some s) = cancel_udp_session_stale (
      touch_activity now (record (reset_send_ep (close_desktop a)) {
        re2_sess = some s;
        video_media = vm;
        use_udp = true;
      }))

  unfoldable pub complete_udp_noise :
      StepEnv S V F → Option ((S × ℕ) × Option V) → Agent S V F → Agent S V F
  unfolding udp_installed reset_session_ep
  complete_udp_noise env outcome a =
      if length a.pairing_token == 0 || is_some a.re2_sess then a else elim outcome [
        | none ↦
            (run_agent_noise env.inner.now env.stored env.meanwhile none (reset_session_ep a)).0
        | some (sess, vm) ↦ udp_installed env.inner.now vm (
            run_agent_noise env.inner.now env.stored env.meanwhile (some sess) (reset_session_ep a))
      ]

  unfoldable pub on_video_plane : StepEnv S V F → Bytes → Agent S V F → Agent S V F
  on_video_plane env payload a = elim a.video_media [
    | none ↦ a
    | some vm ↦ elim (env.inner.tunnel.ciphers.open_media vm payload) [
      | none ↦ a
      | some plain ↦ handle_re2_inner env.inner plain a
    ]
  ]

  unfoldable pub on_live_datagram :
      StepEnv S V F → Option ((S × ℕ) × Option V) → Bytes → S → Agent S V F → Agent S V F
  unfolding on_video_plane
  on_live_datagram env outcome payload s a =
      if is_video_plane payload
      then on_video_plane env payload a
      else elim (env.inner.tunnel.ciphers.decrypt s payload) [
        | some (s', plain) ↦ handle_re2_inner env.inner plain (record a { re2_sess = some s' })
        | none ↦
            if looks_like_noise_msg1 payload
            then complete_udp_noise env outcome (forget_session a)
            else a
      ]

  -- By the session that there is.
  unfoldable pub on_datagram :
      StepEnv S V F → Option ((S × ℕ) × Option V) → Bytes → Option S → Agent S V F → Agent S V F
  unfolding touch_activity
  on_datagram env outcome payload none a =
      if looks_like_noise_msg1 payload then complete_udp_noise env outcome a else a
  on_datagram env outcome payload (some s) a =
      on_live_datagram env outcome payload s (touch_activity env.inner.now a)

  unfoldable pub handle_udp_payload :
      StepEnv S V F → Option ((S × ℕ) × Option V) → Bytes → Agent S V F → Agent S V F
  unfolding cancel_udp_session_stale on_datagram
  handle_udp_payload env outcome payload a =
      on_datagram env outcome payload a.re2_sess (cancel_udp_session_stale a)

  -- `startUDP`, once the relay has acknowledged the association.
  unfoldable pub start_udp : Endpoint F → Agent S V F → Agent S V F
  unfolding forget_session close_desktop
  start_udp ep a = close_desktop (record (forget_session a) { udp_ep = some ep })
