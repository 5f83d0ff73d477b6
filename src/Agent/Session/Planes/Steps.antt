-- ===== src/Agent/Session/Planes/Steps.antt =====
-- Every turn of the loops of cmd/agent keeps to the planes.
use runeverything.Agent.Session.Planes.Frames.{
  run_agent_noise-some, decrypted-OnPlane, drop-OnPlane, handle_frame-OnPlane,
}
use runeverything.Agent.Session.Planes.Fair.{
  StaysReachable, IsFairEvent, either-OnPlane, stale_fires-OnPlane, liveness_tick-OnPlane,
  offer_pair-OnPlane, restore_pairing_token-OnPlane,
}
use runeverything.Agent.Session.Neutral.{is_some-map, core-end_remote_control, core-run_agent_noise}
use runeverything.Agent.Session.Planes.Messages.{
  as_before, forget_session-OnPlane, handle_re2_inner-OnPlane,
}
use runeverything.Agent.Session.Relayed.{StepEnv, end_data_noise}
use runeverything.Agent.Session.Datagrams.{
  looks_like_noise_msg1, is_video_plane, reset_session_ep, reset_send_ep, udp_installed,
  complete_udp_noise, on_video_plane, on_live_datagram, on_datagram, handle_udp_payload, start_udp,
}
use runeverything.Agent.Session.Run.{
  Event, frame, datagram, data_noise_ends, ticks, stale_timer, associates, reconnects,
  opens_desktop, sends, reconnect, step, run,
}
use runeverything.Agent.Session.Tunnel.Plane.{Sides, Core, core, OnPlane, IsFair}
use runeverything.Agent.Session.Tunnel.Sends.{send_tunnel-OnPlane}
use runeverything.Agent.Session.Tunnel.{Ciphers}
use runeverything.Agent.Session.{
  Agent, touch_activity, close_desktop, forget_session, cancel_udp_session_stale, drop_data_channel,
  end_remote_control, clear_crypto_session, run_agent_noise, tokens_loaded,
}
use runeverything.Base.Bytes.{Bytes}
use runeverything.Base.Float64.{Float64}
use runeverything.Base.{
  ℕ, ◌≡◌, refl, ap, ◌∙◌, inl, inr, true, ◌||◌, Option, none, some, List, [], ◌∷◌, ◌==◌,
  Option-cases, some-injective, length, is_some, All,
}
use runeverything.Reudp.Endpoint.{reset_reliable_session, reset_reliable_send}

module _ {S V F : Type 0} ⦃fl : Float64 F⦄ {ciphers : Ciphers S V} (sides : Sides ciphers)
    (device : Bytes) where
  abbrev On : Agent S V F → Type 0
  On a = OnPlane sides device a

  reset_session_ep-OnPlane : (a : Agent S V F) → On a → On (reset_session_ep a)
  unfolding reset_session_ep
  reset_session_ep-OnPlane a h = rw (is_some-map reset_reliable_session a.udp_ep) h

  reset_there :
      (a : Agent S V F) → is_some a.udp_ep ≡ true → is_some (reset_session_ep a).udp_ep ≡ true
  unfolding reset_session_ep
  reset_there a there = is_some-map reset_reliable_session a.udp_ep ∙ there

  udp_installed-OnPlane :
      (now : ℕ) (v : Option V) (r : Agent S V F × Option S)
      → On r.0
      → is_some r.0.udp_ep ≡ true
      → ((s : S) → r.1 ≡ some s → sides.Udp s)
      → On (udp_installed now v r)
  unfolding udp_installed reset_send_ep close_desktop touch_activity cancel_udp_session_stale
  udp_installed-OnPlane now v (a, none) h there made = h
  udp_installed-OnPlane now v (a, some s) h there made =
      rw (is_some-map reset_reliable_send a.udp_ep, there) (h.0, made s refl, h.2)

  -- The handshake, from a state with an endpoint.
  udp_handshake-OnPlane :
      (env : StepEnv S V F) (outcome : Option ((S × ℕ) × Option V)) (a : Agent S V F)
      → ((s : S) (i : ℕ) (v : Option V) → outcome ≡ some ((s, i), v) → sides.Udp s)
      → StaysReachable sides device env.meanwhile
      → is_some a.udp_ep ≡ true
      → On a
      → On (elim outcome [
        | none ↦ (run_agent_noise env.inner.now env.stored env.meanwhile none a).0
        | some (sess, vm) ↦
            udp_installed env.inner.now vm
              (run_agent_noise env.inner.now env.stored env.meanwhile (some sess) a)
      ])
  unfolding tokens_loaded
  udp_handshake-OnPlane env none a made calm there h =
      let later = env.meanwhile (tokens_loaded env.stored a) in
      as_before sides device later (run_agent_noise env.inner.now env.stored env.meanwhile none a).0
        (core-run_agent_noise env.inner.now env.stored env.meanwhile none a)
        (calm (tokens_loaded env.stored a) (h, there)).0
  udp_handshake-OnPlane env (some (sess, vm)) a made calm there h =
      let r = run_agent_noise env.inner.now env.stored env.meanwhile (some sess) a in
      let later = env.meanwhile (tokens_loaded env.stored a) in
      let same : core r.0 ≡ core later =
        core-run_agent_noise env.inner.now env.stored env.meanwhile (some sess) a in
      let (kept, there') = calm (tokens_loaded env.stored a) (h, there) in
      udp_installed-OnPlane env.inner.now vm r (as_before sides device later r.0 same kept)
        (ap (λ (c : Core S V). c.4) same ∙ there')
        (λ s e.
          let (i, found) = run_agent_noise-some sides device env.inner.now env (some sess) a s e in
          let at : sess ≡ (s, i) = some-injective found in made s i vm (rw at))

  complete_udp_noise-OnPlane :
      (env : StepEnv S V F) (outcome : Option ((S × ℕ) × Option V)) (a : Agent S V F)
      → ((s : S) (i : ℕ) (v : Option V) → outcome ≡ some ((s, i), v) → sides.Udp s)
      → StaysReachable sides device env.meanwhile
      → is_some a.udp_ep ≡ true
      → On a
      → On (complete_udp_noise env outcome a)
  unfolding complete_udp_noise
  complete_udp_noise-OnPlane env outcome a made calm there h =
      either-OnPlane sides device (length a.pairing_token == 0 || is_some a.re2_sess) _ _ (λ e. h)
        (λ e.
          udp_handshake-OnPlane env outcome (reset_session_ep a) made calm (reset_there a there)
            (reset_session_ep-OnPlane a h))

  on_video_plane-OnPlane :
      (env : StepEnv S V F) (payload : Bytes) (a : Agent S V F)
      → IsFair sides device env.inner.tunnel
      → On a
      → On (on_video_plane env payload a)
  unfolding on_video_plane
  on_video_plane-OnPlane env payload a fair h = elim (Option-cases a.video_media) [
    | inl gone ↦ rw (gone, on_video_plane) h
    | inr (vm, here) ↦ elim (Option-cases (env.inner.tunnel.ciphers.open_media vm payload)) [
      | inl fails ↦ rw (here, fails, on_video_plane) h
      | inr (plain, works) ↦
          rw (here, works, on_video_plane)
            (handle_re2_inner-OnPlane sides device env.inner fair plain a h)
    ]
  ]

  on_live_datagram-OnPlane :
      (env : StepEnv S V F) (outcome : Option ((S × ℕ) × Option V)) (payload : Bytes) (s : S)
      (a : Agent S V F)
      → IsFairEvent sides device (datagram env outcome payload)
      → is_some a.udp_ep ≡ true
      → a.re2_sess ≡ some s
      → On a
      → On (on_live_datagram env outcome payload s a)
  unfolding on_live_datagram forget_session
  on_live_datagram-OnPlane env outcome payload s a (fair, made, calm) there here h =
      either-OnPlane sides device (is_video_plane payload) _ _
        (λ video. on_video_plane-OnPlane env payload a fair h)
        (λ plain. elim (Option-cases (env.inner.tunnel.ciphers.decrypt s payload)) [
          | inl fails ↦ rw fails (
              either-OnPlane sides device (looks_like_noise_msg1 payload) _ _
                (λ first.
                  complete_udp_noise-OnPlane env outcome (forget_session a) made calm there
                    (forget_session-OnPlane sides device a h))
                (λ e. h))
          | inr ((s', text), works) ↦ rw works (
              handle_re2_inner-OnPlane sides device env.inner fair text
                (record a { re2_sess = some s' })
                (decrypted-OnPlane sides device env.inner.tunnel payload a s s' text fair h here
                  works))
        ])

  on_datagram-OnPlane :
      (env : StepEnv S V F) (outcome : Option ((S × ℕ) × Option V)) (payload : Bytes) (o : Option S)
      (a : Agent S V F)
      → IsFairEvent sides device (datagram env outcome payload)
      → is_some a.udp_ep ≡ true
      → a.re2_sess ≡ o
      → On a
      → On (on_datagram env outcome payload o a)
  unfolding on_datagram touch_activity
  on_datagram-OnPlane env outcome payload none a fair there here h =
      either-OnPlane sides device (looks_like_noise_msg1 payload) _ a
        (λ first. complete_udp_noise-OnPlane env outcome a fair.1 fair.2 there h) (λ e. h)
  on_datagram-OnPlane env outcome payload (some s) a fair there here h =
      on_live_datagram-OnPlane env outcome payload s (touch_activity env.inner.now a) fair there
        here h

  handle_udp_payload-OnPlane :
      (env : StepEnv S V F) (outcome : Option ((S × ℕ) × Option V)) (payload : Bytes)
      (a : Agent S V F)
      → IsFairEvent sides device (datagram env outcome payload)
      → is_some a.udp_ep ≡ true
      → On a
      → On (handle_udp_payload env outcome payload a)
  unfolding handle_udp_payload cancel_udp_session_stale
  handle_udp_payload-OnPlane env outcome payload a fair there h =
      on_datagram-OnPlane env outcome payload a.re2_sess (cancel_udp_session_stale a) fair there
        refl h

  end_data_noise-OnPlane :
      (env : StepEnv S V F) (start : ℕ) (outcome : Option (S × ℕ)) (a : Agent S V F)
      → On a
      → On (end_data_noise env start outcome a)
  unfolding end_data_noise tokens_loaded
  end_data_noise-OnPlane env start outcome a h =
      let (b, s) = run_agent_noise env.inner.now env.stored (λ c. c) outcome a in
      let kept =
        as_before sides device (tokens_loaded env.stored a) b
          (core-run_agent_noise env.inner.now env.stored (λ c. c) outcome a) h in
      either-OnPlane sides device _ _ b (λ e. kept) (λ e. kept)

  reconnect-OnPlane : (env : StepEnv S V F) (a : Agent S V F) → On a → On (reconnect env a)
  unfolding reconnect clear_crypto_session
  reconnect-OnPlane env a h =
      let b = end_remote_control (drop_data_channel a) in
      let kept : On b =
        as_before sides device (drop_data_channel a) b
          (core-end_remote_control (drop_data_channel a)) (drop-OnPlane sides device a h) in
      let cleared : On (clear_crypto_session b) = (kept.0, tt, kept.2) in
      offer_pair-OnPlane sides device env _ _
        (restore_pairing_token-OnPlane sides device env (clear_crypto_session b) cleared)

  step-OnPlane :
      (e : Event S V F) (a : Agent S V F) → IsFairEvent sides device e → On a → On (step e a)
  unfolding step start_udp forget_session close_desktop touch_activity
  step-OnPlane (frame env outcome f) a fair h =
      handle_frame-OnPlane sides device env outcome f a fair h
  step-OnPlane (datagram env outcome payload) a fair h =
      either-OnPlane sides device (is_some a.udp_ep) _ _
        (λ there. handle_udp_payload-OnPlane env outcome payload a fair there h) (λ e. h)
  step-OnPlane (data_noise_ends env start outcome) a fair h =
      end_data_noise-OnPlane env start outcome a h
  step-OnPlane (ticks now) a fair h = liveness_tick-OnPlane sides device now a h
  step-OnPlane (stale_timer now) a fair h = elim (Option-cases a.udp_stale_timer) [
    | inl unarmed ↦ rw (unarmed, step) h
    | inr (t, armed) ↦ rw (armed, step) (stale_fires-OnPlane sides device now t a h)
  ]
  step-OnPlane (associates ep) a fair h = (h.0, tt, h.2)
  step-OnPlane (reconnects env) a fair h = reconnect-OnPlane env a h
  step-OnPlane (opens_desktop now sid) a fair h = h
  step-OnPlane (sends env type body) a fair h =
      send_tunnel-OnPlane sides device env type body a fair h

  -- One event after another, as long as no handshake on the datagrams is completed while one through
  -- the relay waits, and the endpoint stays while one on the datagrams waits: whatever reaches an
  -- agent, what held before holds after it. What is given to the datagrams are texts of sessions
  -- made there; the TUNNEL frames of the desktop channel carry texts of sessions made through the
  -- relay; the session is one of the plane in use; the datagrams are in use only with a session and
  -- an endpoint, and only then is there a cipher of the video plane. The sessions of handshakes are
  -- told apart by any property that their use keeps, and what other goroutines do while a sender or
  -- a handshake waits keeps to the same.
  pub run-OnPlane :
      (es : List (Event S V F)) (a : Agent S V F)
      → All (IsFairEvent sides device) es
      → OnPlane sides device a
      → OnPlane sides device (run es a)
  unfolding run
  run-OnPlane [] a fair h = h
  run-OnPlane (e ∷ es) a fair h = run-OnPlane es (step e a) fair.1 (step-OnPlane e a fair.0 h)
