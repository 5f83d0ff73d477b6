-- ===== src/Agent/Session/Apart.antt =====
-- cmd/agent/datachan.go: what happens on the data channel leaves the session and the desktop of the
-- desktop channel alone.
use runeverything.Agent.Input.{InputQueue, Inputs}
use runeverything.Agent.Session.Inner.{
  InnerEnv, msg_app_error, msg_open_session, msg_session_close, msg_ping, data_opened,
  handle_data_message, after_data_decode, handle_data_inner,
}
use runeverything.Agent.Session.Relayed.{
  StepEnv, is_data_frame, on_data_noise, end_data_noise, on_data_plain, on_data_ciphertext,
  on_data_tunnel, handle_data_frame, handle_frame,
}
use runeverything.Agent.Session.Run.{
  Event, frame, data_noise_ends, datagram, ticks, stale_timer, associates, reconnects,
  opens_desktop, sends, step, run,
}
use runeverything.Agent.Session.Tunnel.{Ciphers, send_data}
use runeverything.Agent.Session.{
  Agent, StaleTimer, write_wire, close_session, close_sessions, data_ids, drop_data_channel,
  open_session_on, run_agent_noise, tokens_loaded,
}
use runeverything.Agent.Tokens.{PairedToken}
use runeverything.Base.Bytes.{Bytes, codes}
use runeverything.Base.Float64.{Float64}
use runeverything.Base.Maps.{lookup, bytes_eq_instance}
use runeverything.Base.{
  ℕ, ◌≡◌, refl, ◌∙◌, inl, inr, Bool, true, false, ◌||◌, Option, none, some, List, [], ◌∷◌, ◌==◌,
  if◌then◌else◌, Bool-cases, Option-cases, length, is_some, All,
}
use runeverything.Re2.Channel.{channel_data}
use runeverything.Re2.Frame.{Frame, type_noise, type_tunnel}
use runeverything.Re2.Message.{Result, ok, err, decode_inner, encode_inner}
use runeverything.Reudp.Endpoint.{Endpoint}

-- The state of the desktop channel but for the terminals, which are shared.
abbrev pub Desktop : Type 0 → Type 0 → Type 0 → Type 0
Desktop S V F =
    Option S
    × Option V
    × Bool
    × Option (Endpoint F)
    × Option StaleTimer
    × Option ℕ
    × Bytes
    × Inputs
    × Option InputQueue

module _ {S V F : Type 0} where
  abbrev pub desktop_of : Agent S V F → Desktop S V F
  desktop_of a = (
    a.re2_sess, a.video_media, a.use_udp, a.udp_ep, a.udp_stale_timer, a.last_activity, a.desk_sid,
    a.inputs, a.input_ch,
  )

module _ {S V F : Type 0} ⦃fl : Float64 F⦄ where
  desktop-close_session :
      (id : Bytes) (a : Agent S V F) → desktop_of (close_session id a) ≡ desktop_of a
  unfolding close_session
  desktop-close_session id a = elim (Bool-cases (is_some (lookup id a.sessions))) [
    | inl there ↦ rw there
    | inr gone ↦ rw gone
  ]

  desktop-close_sessions :
      (ids : List Bytes) (a : Agent S V F) → desktop_of (close_sessions ids a) ≡ desktop_of a
  unfolding close_sessions
  desktop-close_sessions [] a = refl
  desktop-close_sessions (id ∷ ids) a =
      desktop-close_sessions ids (close_session id a) ∙ desktop-close_session id a

  desktop-drop_data_channel : (a : Agent S V F) → desktop_of (drop_data_channel a) ≡ desktop_of a
  unfolding drop_data_channel
  desktop-drop_data_channel a =
      desktop-close_sessions (data_ids a.session_chan)
        (record a { data_sess = none; data_noise = none })

  desktop-open_session_on :
      (id channel : Bytes) (started : Option ℕ) (a : Agent S V F)
      → desktop_of (open_session_on id channel started a).0 ≡ desktop_of a
  unfolding open_session_on
  desktop-open_session_on id channel none a = refl
  desktop-open_session_on id channel (some s) a = refl

  desktop-run_agent_noise :
      (now : ℕ) (stored : List PairedToken) (outcome : Option (S × ℕ)) (a : Agent S V F)
      → desktop_of (run_agent_noise now stored (λ c. c) outcome a).0 ≡ desktop_of a
  unfolding run_agent_noise tokens_loaded
  desktop-run_agent_noise now stored none a = refl
  desktop-run_agent_noise now stored (some r) a = refl

  desktop-send_data :
      (c : Ciphers S V) (type : ℕ) (body : Bytes) (a : Agent S V F)
      → desktop_of (send_data c type body a) ≡ desktop_of a
  unfolding send_data write_wire
  desktop-send_data c type body a = elim (Option-cases a.data_sess) [
    | inl gone ↦ rw (gone, send_data)
    | inr (s, here) ↦ elim (Bool-cases a.re2_conn) [
      | inr down ↦ rw (here, down, send_data)
      | inl up ↦ elim (Option-cases (c.encrypt s (encode_inner type body))) [
        | inl fails ↦ rw (here, up, fails, send_data)
        | inr (r, works) ↦ rw (here, up, works, send_data)
      ]
    ]
  ]

  either-desktop :
      (b : Bool) (x y a : Agent S V F)
      → desktop_of x ≡ desktop_of a
      → desktop_of y ≡ desktop_of a
      → desktop_of (if b then x else y) ≡ desktop_of a
  either-desktop true x y a f g = f
  either-desktop false x y a f g = g

  desktop-data_opened :
      (env : InnerEnv S V F) (id : Bytes) (r : Agent S V F × Bool)
      → desktop_of (data_opened env id r) ≡ desktop_of r.0
  unfolding data_opened
  desktop-data_opened env id (a, true) = desktop-send_data env.tunnel.ciphers _ _ a
  desktop-data_opened env id (a, false) = desktop-send_data env.tunnel.ciphers _ _ a

  desktop-open_data :
      (env : InnerEnv S V F) (body : Bytes) (o : Option Bytes) (a : Agent S V F)
      → desktop_of (elim o [
        | none ↦
            send_data env.tunnel.ciphers msg_app_error (env.json.app_error (codes "bad_data")) a
        | some id ↦ data_opened env id (open_session_on id channel_data (env.start_pty body) a)
      ])
        ≡ desktop_of a
  desktop-open_data env body none a = desktop-send_data env.tunnel.ciphers _ _ a
  desktop-open_data env body (some id) a =
      desktop-data_opened env id (open_session_on id channel_data (env.start_pty body) a)
      ∙ desktop-open_session_on id channel_data (env.start_pty body) a

  desktop-handle_data_message :
      (env : InnerEnv S V F) (type : ℕ) (body : Bytes) (a : Agent S V F)
      → desktop_of (handle_data_message env type body a) ≡ desktop_of a
  unfolding handle_data_message
  desktop-handle_data_message env type body a =
      either-desktop (type == msg_ping) _ _ a (desktop-send_data env.tunnel.ciphers _ _ a) (
        either-desktop (type == msg_open_session) _ _ a
          (desktop-open_data env body (env.json.open_session_id body) a)
          (either-desktop (type == msg_session_close) _ _ a (desktop-close_session _ a) refl))

  desktop-after_data_decode :
      (env : InnerEnv S V F) (r : Result (ℕ × Bytes)) (a : Agent S V F)
      → desktop_of (after_data_decode env r a) ≡ desktop_of a
  unfolding after_data_decode
  desktop-after_data_decode env (err e) a = refl
  desktop-after_data_decode env (ok (type, body)) a = desktop-handle_data_message env type body a

  desktop-on_data_plain :
      (env : StepEnv S V F) (r : Option (S × Bytes)) (a : Agent S V F)
      → desktop_of (on_data_plain env r a) ≡ desktop_of a
  unfolding on_data_plain handle_data_inner
  desktop-on_data_plain env none a = refl
  desktop-on_data_plain env (some (s, plain)) a =
      desktop-after_data_decode env.inner (decode_inner plain) (record a { data_sess = some s })

  desktop-on_data_ciphertext :
      (env : StepEnv S V F) (payload : Bytes) (o : Option S) (a : Agent S V F)
      → desktop_of (on_data_ciphertext env payload o a) ≡ desktop_of a
  unfolding on_data_ciphertext
  desktop-on_data_ciphertext env payload none a = refl
  desktop-on_data_ciphertext env payload (some s) a =
      desktop-on_data_plain env (env.inner.tunnel.ciphers.decrypt s payload) a

  desktop-handle_data_frame :
      (env : StepEnv S V F) (f : Frame) (a : Agent S V F)
      → desktop_of (handle_data_frame env f a) ≡ desktop_of a
  unfolding handle_data_frame on_data_noise on_data_tunnel
  desktop-handle_data_frame env f a =
      either-desktop (f.type == type_noise) _ _ a
        (either-desktop (is_some a.data_noise || length a.pairing_token == 0) _ _ a refl
          (desktop-drop_data_channel a))
        (either-desktop (f.type == type_tunnel) _ _ a
          (desktop-on_data_ciphertext env f.payload a.data_sess a)
          (either-desktop _ _ _ a (desktop-drop_data_channel a) refl))

  desktop-end_data_noise :
      (env : StepEnv S V F) (start : ℕ) (outcome : Option (S × ℕ)) (a : Agent S V F)
      → desktop_of (end_data_noise env start outcome a) ≡ desktop_of a
  unfolding end_data_noise
  desktop-end_data_noise env start outcome a =
      let noise = desktop-run_agent_noise env.inner.now env.stored outcome a in
      either-desktop _ _ _ a noise noise

  -- What reaches the data channel: frames of its route, and the ends of its handshakes.
  pub data IsOfData : Event S V F → Type 0 where
    data_frame :
        (env : StepEnv S V F) (outcome : Option (S × ℕ)) (f : Frame)
        → is_data_frame f ≡ true
        → IsOfData (frame env outcome f)
    data_noise :
        (env : StepEnv S V F) (start : ℕ) (outcome : Option (S × ℕ))
        → IsOfData (data_noise_ends env start outcome)

  desktop-step :
      (e : Event S V F) (a : Agent S V F) → IsOfData e → desktop_of (step e a) ≡ desktop_of a
  unfolding step handle_frame
  desktop-step (frame env outcome f) a (data_frame _ _ _ on_route) =
      rw on_route (desktop-handle_data_frame env f a)
  desktop-step (data_noise_ends env start outcome) a (data_noise _ _ _) =
      desktop-end_data_noise env start outcome a
  desktop-step (datagram _ _ _) a h = elim h [ ]
  desktop-step (ticks _) a h = elim h [ ]
  desktop-step (stale_timer _) a h = elim h [ ]
  desktop-step (associates _) a h = elim h [ ]
  desktop-step (reconnects _) a h = elim h [ ]
  desktop-step (opens_desktop _ _) a h = elim h [ ]
  desktop-step (sends _ _ _) a h = elim h [ ]

  -- Whatever reaches the data channel, frames of any type and content and the ends of its handshakes
  -- in any order, these stay as they are: the session and the video cipher of the desktop channel, its
  -- plane and endpoint, its timer and last activity, the desktop and its queue of input. The
  -- terminals, which the channels share by their ids, are not among these.
  pub data_channel_apart :
      (es : List (Event S V F)) (a : Agent S V F)
      → All IsOfData es
      → desktop_of (run es a) ≡ desktop_of a
  unfolding run
  data_channel_apart [] a h = refl
  data_channel_apart (e ∷ es) a h = data_channel_apart es (step e a) h.1 ∙ desktop-step e a h.0
