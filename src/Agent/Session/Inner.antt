-- ===== src/Agent/Session/Inner.antt =====
-- cmd/agent/re2.go: `handleRE2Inner`, the messages of the desktop channel that concern the session,
-- the terminals and the input; cmd/agent/datachan.go: `handleDataInner`.
use runeverything.Agent.Input.{
  InputJson, enqueue_desktop_input, msg_input_mouse, msg_input_key, msg_input_touch,
}
use runeverything.Agent.Session.Tunnel.{TunnelEnv, send_tunnel, send_data}
use runeverything.Agent.Session.{
  Agent, touch_activity, close_desktop, close_session, open_session_on, cancel_udp_session_stale,
  forget_session,
}
use runeverything.Base.Bytes.{Bytes, bytes_eq, codes}
use runeverything.Base.Float64.{Float64}
use mathlib.Core.Option
use runeverything.Base.{
  ℕ, Bool, true, false, ◌||◌, Option, none, some, List, [], ◌==◌, if◌then◌else◌,
}
use runeverything.Re2.Channel.{channel_data}
use runeverything.Re2.Message.{Result, ok, err, decode_inner}
use runeverything.Reudp.Endpoint.{clear_direct, reset_reliable_session}

abbrev pub msg_open_session : ℕ
msg_open_session = 0x01

abbrev pub msg_session_ready : ℕ
msg_session_ready = 0x02

abbrev pub msg_session_close : ℕ
msg_session_close = 0x03

abbrev pub msg_ping : ℕ
msg_ping = 0x06

abbrev pub msg_pong : ℕ
msg_pong = 0x07

abbrev pub msg_app_error : ℕ
msg_app_error = 0x0f

abbrev pub msg_desktop_close : ℕ
msg_desktop_close = 0x22

-- encoding/json on the payloads that are read and written here. `none` is an error; a field of a
-- text that cannot be read is empty.
pub record SessionJson : Type 0 where
  pub open_session_id : Bytes → Option Bytes
  pub session_close_id : Bytes → Bytes
  pub desktop_close_reason : Bytes → Bytes
  pub session_ready : Bytes → Bytes
  pub app_error : Bytes → Bytes
  pub error_code : Bytes → Bytes
  pub pair_offer : Bytes → Bytes

-- `start_pty` is the terminal that an OPEN starts, or `none`; `timely` are the waits for room in the
-- channel of input events.
pub record InnerEnv (S V F : Type 0) : Type 0 where
  pub now : ℕ
  pub tunnel : TunnelEnv S V F
  pub json : SessionJson
  pub input : InputJson F
  pub timely : List Bool
  pub start_pty : Bytes → Option ℕ

abbrev pub is_goodbye : Bytes → Bool
is_goodbye reason =
    bytes_eq reason (codes "app_background")
    || bytes_eq reason (codes "network_change")
    || bytes_eq reason (codes "user_disconnect")

module _ {S V F : Type 0} ⦃fl : Float64 F⦄ where
  unfoldable pub desktop_goodbye : Bytes → Agent S V F → Agent S V F
  unfolding close_desktop cancel_udp_session_stale forget_session
  desktop_goodbye reason a =
      let b = close_desktop a in
      if is_goodbye reason
      then (let c = forget_session (cancel_udp_session_stale b) in
          record c {
            udp_ep = Option.map (λ ep. reset_reliable_session (clear_direct ep)) c.udp_ep;
          })
      else b

  unfoldable pub opened : InnerEnv S V F → Bytes → Agent S V F × Bool → Agent S V F
  opened env id (a, true) =
      (send_tunnel env.tunnel msg_session_ready (env.json.session_ready id) a).0
  opened env id (a, false) =
      (send_tunnel env.tunnel msg_app_error (env.json.app_error (codes "session_open_failed")) a).0

  -- The other messages do not concern this state: resizes and the data of terminals, statistics, the
  -- clipboard, sound, files, devices, chats. The opening of a desktop, which ends elsewhere, and what
  -- the others send are events of their own; a direct path found by hole punching is left out.
  unfoldable pub handle_message : InnerEnv S V F → ℕ → Bytes → Agent S V F → Agent S V F
  unfolding opened desktop_goodbye
  handle_message env type body a =
      if type == msg_open_session
      then elim (env.json.open_session_id body) [
        | none ↦ (send_tunnel env.tunnel msg_app_error (env.json.app_error (codes "bad_data")) a).0
        | some id ↦ opened env id (open_session_on id [] (env.start_pty body) a)
      ]
      else if type == msg_session_close
      then close_session (env.json.session_close_id body) a
      else if type == msg_ping
      then (send_tunnel env.tunnel msg_pong body a).0
      else if type == msg_desktop_close
      then desktop_goodbye (env.json.desktop_close_reason body) a
      else if type == msg_input_mouse || (type == msg_input_key || type == msg_input_touch)
      then (let (i, q) = enqueue_desktop_input env.input env.timely type body a.inputs a.input_ch in
          record a { inputs = i; input_ch = q })
      else a

  unfoldable pub after_decode : InnerEnv S V F → Result (ℕ × Bytes) → Agent S V F → Agent S V F
  unfolding handle_message touch_activity
  after_decode env (err e) a = a
  after_decode env (ok (type, body)) a = handle_message env type body (touch_activity env.now a)

  unfoldable pub handle_re2_inner : InnerEnv S V F → Bytes → Agent S V F → Agent S V F
  unfolding after_decode
  handle_re2_inner env plain a = after_decode env (decode_inner plain) a

  unfoldable pub data_opened : InnerEnv S V F → Bytes → Agent S V F × Bool → Agent S V F
  data_opened env id (a, true) =
      send_data env.tunnel.ciphers msg_session_ready (env.json.session_ready id) a
  data_opened env id (a, false) =
      send_data env.tunnel.ciphers msg_app_error (env.json.app_error (codes "session_open_failed"))
        a

  -- As above, on the data channel.
  unfoldable pub handle_data_message : InnerEnv S V F → ℕ → Bytes → Agent S V F → Agent S V F
  unfolding data_opened
  handle_data_message env type body a =
      if type == msg_ping
      then send_data env.tunnel.ciphers msg_pong body a
      else if type == msg_open_session
      then elim (env.json.open_session_id body) [
        | none ↦
            send_data env.tunnel.ciphers msg_app_error (env.json.app_error (codes "bad_data")) a
        | some id ↦ data_opened env id (open_session_on id channel_data (env.start_pty body) a)
      ]
      else if type == msg_session_close
      then close_session (env.json.session_close_id body) a
      else a

  unfoldable pub after_data_decode : InnerEnv S V F → Result (ℕ × Bytes) → Agent S V F → Agent S V F
  unfolding handle_data_message
  after_data_decode env (err e) a = a
  after_data_decode env (ok (type, body)) a = handle_data_message env type body a

  unfoldable pub handle_data_inner : InnerEnv S V F → Bytes → Agent S V F → Agent S V F
  unfolding after_data_decode
  handle_data_inner env plain a = after_data_decode env (decode_inner plain) a
