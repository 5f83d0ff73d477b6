-- ===== src/Agent/Session/Run.antt =====
-- cmd/agent: what reaches an agent, one thing at a time: frames of the relay (`runLoopRE2` of re2.go
-- and `handleDataFrame` of datachan.go), datagrams (`handleUDPPayload` of desktop.go), timers, and
-- new associations. A handshake comes with its result and with what the other goroutines do while it
-- waits.
use runeverything.Agent.Session.Tunnel.{TunnelEnv, send_tunnel}
use runeverything.Agent.Session.{
  Agent, touch_activity, clear_crypto_session, stale_fires, liveness_tick, end_remote_control,
  drop_data_channel,
}
use runeverything.Base.Bytes.{Bytes}
use runeverything.Base.Float64.{Float64}
use runeverything.Base.{ℕ, not, Option, none, some, List, [], ◌∷◌, if◌then◌else◌, is_some}
use runeverything.Re2.Frame.{Frame}
use runeverything.Reudp.Endpoint.{Endpoint}
use runeverything.Agent.Session.Relayed.{
  StepEnv, has_pairing, offer_pair, restore_pairing_token, end_data_noise, handle_frame,
}
use runeverything.Agent.Session.Datagrams.{handle_udp_payload, start_udp}

-- A handshake on the datagrams gives the cipher of the video plane too, if it can be made.
pub data Event (S V F : Type 0) : Type 0 where
  frame : StepEnv S V F → Option (S × ℕ) → Frame → Event S V F
  datagram : StepEnv S V F → Option ((S × ℕ) × Option V) → Bytes → Event S V F
  -- A handshake of the data channel ends.
  data_noise_ends : StepEnv S V F → ℕ → Option (S × ℕ) → Event S V F
  ticks : ℕ → Event S V F
  stale_timer : ℕ → Event S V F
  -- `startUDP` has a new endpoint.
  associates : Endpoint F → Event S V F
  -- `runLoopRE2` ends and starts again.
  reconnects : StepEnv S V F → Event S V F
  -- `openDesktop` has put a desktop of that id in place.
  opens_desktop : ℕ → Bytes → Event S V F
  -- Another goroutine sends.
  sends : TunnelEnv S V F → ℕ → Bytes → Event S V F

module _ {S V F : Type 0} ⦃fl : Float64 F⦄ where
  -- The deferred functions of `runLoopRE2`, and its start.
  unfoldable pub reconnect : StepEnv S V F → Agent S V F → Agent S V F
  unfolding clear_crypto_session
  reconnect env a =
      let b =
        restore_pairing_token env
          (clear_crypto_session (end_remote_control (drop_data_channel a))) in
      offer_pair env (not (has_pairing env.inner.now b)) b

  -- One turn of a loop. `udpReadLoop` does nothing without an endpoint.
  unfoldable pub step : Event S V F → Agent S V F → Agent S V F
  unfolding handle_frame handle_udp_payload end_data_noise liveness_tick start_udp reconnect
      touch_activity
  step (frame env outcome f) a = handle_frame env outcome f a
  step (datagram env outcome payload) a =
      if is_some a.udp_ep then handle_udp_payload env outcome payload a else a
  step (data_noise_ends env start outcome) a = end_data_noise env start outcome a
  step (ticks now) a = liveness_tick now a
  step (stale_timer now) a = elim a.udp_stale_timer [ none ↦ a | some t ↦ stale_fires now t a ]
  step (associates ep) a = start_udp ep a
  step (reconnects env) a = reconnect env a
  step (opens_desktop now sid) a = touch_activity now (record a {
    desk_sid = sid;
    inputs = record { input_next_id = 0; input_pending = [] };
    input_ch = some (record { items = []; taken = [] });
  })
  step (sends env type body) a = (send_tunnel env type body a).0

  unfoldable pub run : List (Event S V F) → Agent S V F → Agent S V F
  run [] a = a
  run (e ∷ es) a = run es (step e a)
