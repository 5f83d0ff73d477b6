-- ===== src/Agent/Session/Relayed.antt =====
-- cmd/agent: what a frame of the relay does: of the desktop channel in `runLoopRE2` of re2.go, of
-- the data channel in `handleDataFrame` of datachan.go.
use runeverything.Agent.Session.Inner.{InnerEnv, handle_re2_inner, handle_data_inner}
use runeverything.Agent.Session.{
  Agent, on_relay, second, touch_activity, write_wire, close_desktop, forget_session,
  arm_udp_session_stale, release_peer, end_remote_control, drop_data_channel, run_agent_noise,
}
use runeverything.Agent.Tokens.{PairedToken, note_issued_token}
use runeverything.Base.Bytes.{Bytes, bytes_eq, codes}
use runeverything.Base.Float64.{Float64}
use runeverything.Base.{
  ℕ, ◌+◌, ◌-◌, ◌*◌, ◌/◌, Bool, false, not, ◌&&◌, ◌||◌, Option, none, some, List, ltb, leb, ◌==◌,
  if◌then◌else◌, length, is_some,
}
use runeverything.Re2.Channel.{split_route, channel_data}
use runeverything.Re2.Frame.{Frame, type_noise, type_tunnel, type_pong, type_error}
use runeverything.Relay.Serve.{type_ping, type_pair_offer}

-- What a step takes from outside: beside what a message takes, the file of paired tokens, what the
-- other goroutines do while a handshake waits, a pairing token with its expiry that can be minted,
-- and the one that `last_pairing.json` holds.
pub record StepEnv (S V F : Type 0) : Type 0 where
  pub inner : InnerEnv S V F
  pub stored : List PairedToken
  pub meanwhile : Agent S V F → Agent S V F
  pub minted : Option (Bytes × ℕ)
  pub last_pairing : Option (Bytes × ℕ)

-- `!a.lastActivity.IsZero() && time.Since(a.lastActivity) < 8*time.Second`
abbrev pub is_recent : ℕ → Option ℕ → Bool
is_recent now none = false
is_recent now (some last) = ltb (now - last) (8 * second)

abbrev pub is_data_frame : Frame → Bool
is_data_frame f = bytes_eq (split_route f.route_id).1 channel_data

module _ {S V F : Type 0} ⦃fl : Float64 F⦄ where
  unfoldable pub offered : StepEnv S V F → Agent S V F → Agent S V F
  unfolding write_wire
  offered env a =
      write_wire
        (on_relay (record {
          type = type_pair_offer;
          route_id = a.device_id;
          payload = env.inner.json.pair_offer a.pairing_token;
        }))
        a

  -- `a.pairingToken != "" && a.pairingExpiresAt > time.Now().Unix()`
  abbrev pub has_pairing : ℕ → Agent S V F → Bool
  has_pairing now a = not (length a.pairing_token == 0) && ltb (now / second) a.pairing_expires_at

  unfoldable pub renewed : Bytes × ℕ → Agent S V F → Agent S V F
  renewed (token, expires) a = record a {
    tokens = note_issued_token token a.tokens;
    pairing_token = token;
    pairing_expires_at = expires;
  }

  -- `offerPairRE2`: the same token again, or a new one.
  unfoldable pub offer_pair : StepEnv S V F → Bool → Agent S V F → Agent S V F
  unfolding offered renewed
  offer_pair env rotate a =
      if not a.re2_conn
      then a
      else if not rotate && has_pairing env.inner.now a
      then offered env a
      else elim env.minted [ none ↦ a | some p ↦ offered env (renewed p a) ]

  unfoldable pub restore_pairing_token : StepEnv S V F → Agent S V F → Agent S V F
  restore_pairing_token env a = if has_pairing env.inner.now a then a else elim env.last_pairing [
    | none ↦ a
    | some (token, expires) ↦
        if length token == 0 || (ltb 0 expires && leb expires (env.inner.now / second))
        then a
        else record a { pairing_token = token; pairing_expires_at = expires }
  ]

  unfoldable pub installed : ℕ → Agent S V F × Option S → Agent S V F
  unfolding touch_activity
  installed now (a, none) = a
  installed now (a, some s) = touch_activity now (record a { re2_sess = some s })

  -- A NOISE frame of the desktop channel.
  unfoldable pub on_noise : StepEnv S V F → Option (S × ℕ) → Agent S V F → Agent S V F
  unfolding installed close_desktop
  on_noise env outcome a =
      if length a.pairing_token == 0
      then a
      else if is_some a.re2_sess || not (length a.desk_sid == 0)
      then (if a.use_udp
          then a
          else installed env.inner.now (
              run_agent_noise env.inner.now env.stored env.meanwhile outcome
                (record (close_desktop a) { re2_sess = none; video_media = none })))
      else installed env.inner.now
          (run_agent_noise env.inner.now env.stored env.meanwhile outcome a)

  -- What the session makes of the payload.
  unfoldable pub on_plain : StepEnv S V F → Option (S × Bytes) → Agent S V F → Agent S V F
  on_plain env none a = a
  on_plain env (some (s, plain)) a =
      handle_re2_inner env.inner plain (record a { re2_sess = some s })

  unfoldable pub on_ciphertext : StepEnv S V F → Bytes → Option S → Agent S V F → Agent S V F
  unfolding on_plain
  on_ciphertext env payload none a = a
  on_ciphertext env payload (some s) a = on_plain env (env.inner.tunnel.ciphers.decrypt s payload) a

  unfoldable pub on_tunnel : StepEnv S V F → Bytes → Agent S V F → Agent S V F
  unfolding on_ciphertext
  on_tunnel env payload a = on_ciphertext env payload a.re2_sess a

  unfoldable pub on_peer_gone : StepEnv S V F → Agent S V F → Agent S V F
  unfolding arm_udp_session_stale forget_session
  on_peer_gone env a =
      if a.use_udp && is_some a.udp_ep
      then (if is_recent env.inner.now a.last_activity
          then a
          else arm_udp_session_stale (3 * second) a)
      else offer_pair env false
          (end_remote_control (record (forget_session a) { last_activity = none }))

  unfoldable pub on_error : StepEnv S V F → Bytes → Agent S V F → Agent S V F
  unfolding on_peer_gone
  on_error env code a =
      if bytes_eq code (codes "controller_changed")
      then drop_data_channel (release_peer a)
      else if bytes_eq code (codes "peer_gone")
      then on_peer_gone env a
      else a

  -- The data channel: a handshake in flight takes the frame.
  unfoldable pub on_data_noise : Agent S V F → Agent S V F
  on_data_noise a =
      if is_some a.data_noise || length a.pairing_token == 0
      then a
      else (let b = drop_data_channel a in
          record b { data_noise = some b.data_starts; data_starts = b.data_starts + 1 })

  -- The end of the goroutine that `onDataNoise` starts.
  unfoldable pub end_data_noise : StepEnv S V F → ℕ → Option (S × ℕ) → Agent S V F → Agent S V F
  end_data_noise env start outcome a =
      let (b, s) = run_agent_noise env.inner.now env.stored (λ c. c) outcome a in
      if elim b.data_noise [ none ↦ false | some now ↦ now == start ]
      then record b { data_noise = none; data_sess = if is_some s then s else b.data_sess }
      else b

  unfoldable pub on_data_plain : StepEnv S V F → Option (S × Bytes) → Agent S V F → Agent S V F
  on_data_plain env none a = a
  on_data_plain env (some (s, plain)) a =
      handle_data_inner env.inner plain (record a { data_sess = some s })

  unfoldable pub on_data_ciphertext : StepEnv S V F → Bytes → Option S → Agent S V F → Agent S V F
  unfolding on_data_plain
  on_data_ciphertext env payload none a = a
  on_data_ciphertext env payload (some s) a =
      on_data_plain env (env.inner.tunnel.ciphers.decrypt s payload) a

  unfoldable pub on_data_tunnel : StepEnv S V F → Bytes → Agent S V F → Agent S V F
  unfolding on_data_ciphertext
  on_data_tunnel env payload a = on_data_ciphertext env payload a.data_sess a

  unfoldable pub handle_data_frame : StepEnv S V F → Frame → Agent S V F → Agent S V F
  unfolding on_data_noise on_data_tunnel
  handle_data_frame env f a =
      if f.type == type_noise
      then on_data_noise a
      else if f.type == type_tunnel
      then on_data_tunnel env f.payload a
      else if f.type == type_error
          && bytes_eq (env.inner.json.error_code f.payload) (codes "peer_gone")
      then drop_data_channel a
      else a

  unfoldable pub handle_main_frame :
      StepEnv S V F → Option (S × ℕ) → Frame → Agent S V F → Agent S V F
  unfolding on_noise on_tunnel on_error write_wire
  handle_main_frame env outcome f a =
      if f.type == type_noise
      then on_noise env outcome a
      else if f.type == type_tunnel
      then on_tunnel env f.payload a
      else if f.type == type_ping
      then write_wire
          (on_relay (record { type = type_pong; route_id = f.route_id; payload = f.payload })) a
      else if f.type == type_error
      then on_error env (env.inner.json.error_code f.payload) a
      else a

  unfoldable pub handle_frame : StepEnv S V F → Option (S × ℕ) → Frame → Agent S V F → Agent S V F
  unfolding handle_data_frame handle_main_frame
  handle_frame env outcome f a =
      if is_data_frame f then handle_data_frame env f a else handle_main_frame env outcome f a
