-- ===== src/Agent/Session/Planes/Frames.antt =====
-- `livenessLoop`, `offerPairRE2` and the frames of the relay keep to the planes.
use runeverything.Agent.Session.Neutral.{
  core-end_remote_control, core-drop_data_channel, core-run_agent_noise,
}
use runeverything.Agent.Session.Planes.Messages.{
  as_before, handle_re2_inner-OnPlane, handle_data_inner-OnPlane,
}
use runeverything.Agent.Session.Relayed.{
  StepEnv, is_recent, is_data_frame, installed, on_noise, on_plain, on_ciphertext, on_tunnel,
  on_peer_gone, on_error, on_data_noise, on_data_plain, on_data_ciphertext, on_data_tunnel,
  handle_data_frame, handle_main_frame, handle_frame,
}
use runeverything.Agent.Session.Run.{frame}
use runeverything.Agent.Session.Tunnel.Plane.{
  Sides, Core, core, IsFair, Plane-empty, Plane-none, Plane-relayed, Plane-next,
}
use runeverything.Agent.Session.Tunnel.Sends.{write_wire-OnPlane}
use runeverything.Agent.Session.Tunnel.{Ciphers, TunnelEnv}
use runeverything.Agent.Session.{
  Agent, touch_activity, close_desktop, forget_session, arm_udp_session_stale, release_peer,
  drop_data_channel, end_remote_control, run_agent_noise, tokens_loaded,
}
use runeverything.Base.Bytes.{Bytes, bytes_eq, codes}
use runeverything.Base.Float64.{Float64}
use runeverything.Base.{
  ℕ, ◌≡◌, refl, ap, ◌∙◌, inl, inr, false, not, ◌&&◌, ◌||◌, Option, none, some, arith, ◌==◌,
  Bool-cases, Option-cases, some-injective, length, is_some,
}
use runeverything.Re2.Frame.{Frame, type_noise, type_tunnel, type_error}
use runeverything.Relay.Serve.{type_ping}
use runeverything.Agent.Session.Planes.Fair.{
  Stays, StaysRelayed, IsFairEvent, either-OnPlane, offer_pair-OnPlane, release_peer-OnPlane,
}

module _ {S V F : Type 0} ⦃fl : Float64 F⦄ {ciphers : Ciphers S V} (sides : Sides ciphers)
    (device : Bytes) where
  installed-OnPlane :
      (now : ℕ) (r : Agent S V F × Option S)
      → Stays sides device r.0
      → r.0.use_udp ≡ false
      → ((s : S) → r.1 ≡ some s → sides.Relayed s)
      → Stays sides device (installed now r)
  unfolding installed touch_activity
  installed-OnPlane now (a, none) h off made = h
  installed-OnPlane now (a, some s) h off made =
      let bare : a.video_media ≡ none =
        (Plane-relayed sides device a.re2_sess a.video_media a.use_udp _ h.1 off).0 in
      rw (bare, off) (h.0, made s refl, h.2)

  pub run_agent_noise-some :
      (now : ℕ) (env : StepEnv S V F) (outcome : Option (S × ℕ)) (a : Agent S V F) (s : S)
      → (run_agent_noise now env.stored env.meanwhile outcome a).1 ≡ some s
      → (i : ℕ) × (outcome ≡ some (s, i))
  unfolding run_agent_noise
  run_agent_noise-some now env none a s e = absurd (cc)
  run_agent_noise-some now env (some (t, i)) a s e =
      let same : t ≡ s = some-injective e in (i, rw same)

  handshake-OnPlane :
      (env : StepEnv S V F) (outcome : Option (S × ℕ)) (a : Agent S V F)
      → ((s : S) (i : ℕ) → outcome ≡ some (s, i) → sides.Relayed s)
      → StaysRelayed sides device env.meanwhile
      → Stays sides device a
      → a.use_udp ≡ false
      → Stays sides device (
          installed env.inner.now
            (run_agent_noise env.inner.now env.stored env.meanwhile outcome a))
  unfolding tokens_loaded
  handshake-OnPlane env outcome a made calm h off =
      let r = run_agent_noise env.inner.now env.stored env.meanwhile outcome a in
      let later = env.meanwhile (tokens_loaded env.stored a) in
      let same : core r.0 ≡ core later =
        core-run_agent_noise env.inner.now env.stored env.meanwhile outcome a in
      let (kept, off') = calm (tokens_loaded env.stored a) (h, off) in
      installed-OnPlane env.inner.now r (as_before sides device later r.0 same kept)
        (ap (λ (c : Core S V). c.3) same ∙ off')
        (λ s e.
          let (i, found) = run_agent_noise-some env.inner.now env outcome a s e in made s i found)

  on_noise-OnPlane :
      (env : StepEnv S V F) (outcome : Option (S × ℕ)) (a : Agent S V F)
      → ((s : S) (i : ℕ) → outcome ≡ some (s, i) → sides.Relayed s)
      → StaysRelayed sides device env.meanwhile
      → Stays sides device a
      → Stays sides device (on_noise env outcome a)
  unfolding on_noise close_desktop
  on_noise-OnPlane env outcome a made calm h = elim (Bool-cases (length a.pairing_token == 0)) [
    | inl unpaired ↦ rw (unpaired, on_noise) h
    | inr paired ↦ elim (Bool-cases (is_some a.re2_sess || not (length a.desk_sid == 0))) [
      | inl busy ↦
          rw (paired, busy, on_noise)
            (either-OnPlane sides device a.use_udp a _ (λ on. h)
              (λ off.
                handshake-OnPlane env outcome
                  (record (close_desktop a) { re2_sess = none; video_media = none }) made calm
                  (h.0, Plane-empty sides device a.use_udp _ off, h.2) off))
      | inr idle ↦
          let none_held : a.re2_sess ≡ none = ground arith in
          let off : a.use_udp ≡ false =
            Plane-none sides device a.video_media a.use_udp (is_some a.udp_ep)
              (rw none_held at h.1) in
          rw (paired, idle, on_noise) (handshake-OnPlane env outcome a made calm h off)
    ]
  ]

  pub decrypted-OnPlane :
      (env : TunnelEnv S V F) (payload : Bytes) (a : Agent S V F) (s s' : S) (plain : Bytes)
      → IsFair sides device env
      → Stays sides device a
      → a.re2_sess ≡ some s
      → env.ciphers.decrypt s payload ≡ some (s', plain)
      → Stays sides device (record a { re2_sess = some s' })
  decrypted-OnPlane env payload a s s' plain fair h here works =
      let by : ciphers.decrypt s payload ≡ some (s', plain) = rw fair.same at works in
      (
        h.0,
        Plane-next sides device s s' a.video_media a.use_udp (is_some a.udp_ep)
            (sides.udp_decrypt s s' payload plain by) (sides.relayed_decrypt s s' payload plain by)
            (rw here at h.1),
        h.2,
      )

  on_plain-OnPlane :
      (env : StepEnv S V F) (payload : Bytes) (s : S) (r : Option (S × Bytes)) (a : Agent S V F)
      → IsFair sides device env.inner.tunnel
      → a.re2_sess ≡ some s
      → env.inner.tunnel.ciphers.decrypt s payload ≡ r
      → Stays sides device a
      → Stays sides device (on_plain env r a)
  unfolding on_plain
  on_plain-OnPlane env payload s none a fair here works h = h
  on_plain-OnPlane env payload s (some (s', plain)) a fair here works h =
      handle_re2_inner-OnPlane sides device env.inner fair plain (record a { re2_sess = some s' })
        (decrypted-OnPlane env.inner.tunnel payload a s s' plain fair h here works)

  on_ciphertext-OnPlane :
      (env : StepEnv S V F) (payload : Bytes) (o : Option S) (a : Agent S V F)
      → IsFair sides device env.inner.tunnel
      → a.re2_sess ≡ o
      → Stays sides device a
      → Stays sides device (on_ciphertext env payload o a)
  unfolding on_ciphertext
  on_ciphertext-OnPlane env payload none a fair here h = h
  on_ciphertext-OnPlane env payload (some s) a fair here h =
      on_plain-OnPlane env payload s _ a fair here refl h

  on_tunnel-OnPlane :
      (env : StepEnv S V F) (payload : Bytes) (a : Agent S V F)
      → IsFair sides device env.inner.tunnel
      → Stays sides device a
      → Stays sides device (on_tunnel env payload a)
  unfolding on_tunnel
  on_tunnel-OnPlane env payload a fair h =
      on_ciphertext-OnPlane env payload a.re2_sess a fair refl h

  on_peer_gone-OnPlane :
      (env : StepEnv S V F) (a : Agent S V F)
      → Stays sides device a
      → Stays sides device (on_peer_gone env a)
  unfolding on_peer_gone arm_udp_session_stale forget_session
  on_peer_gone-OnPlane env a h = elim (Bool-cases (a.use_udp && is_some a.udp_ep)) [
    | inl live ↦ elim (Bool-cases (is_recent env.inner.now a.last_activity)) [
      | inl recent ↦ rw (live, recent, on_peer_gone) h
      | inr old ↦ rw (live, old, on_peer_gone) h
    ]
    | inr gone ↦
        let b : Agent S V F = record (forget_session a) { last_activity = none } in
        rw (gone, on_peer_gone)
          (offer_pair-OnPlane sides device env false (end_remote_control b) (
            as_before sides device b (end_remote_control b) (core-end_remote_control b)
              (h.0, tt, h.2)))
  ]

  pub drop-OnPlane :
      (a : Agent S V F) → Stays sides device a → Stays sides device (drop_data_channel a)
  drop-OnPlane a = as_before sides device a (drop_data_channel a) (core-drop_data_channel a)

  on_error-OnPlane :
      (env : StepEnv S V F) (code : Bytes) (a : Agent S V F)
      → Stays sides device a
      → Stays sides device (on_error env code a)
  unfolding on_error
  on_error-OnPlane env code a h =
      either-OnPlane sides device (bytes_eq code (codes "controller_changed")) _ _
        (λ e. drop-OnPlane (release_peer a) (release_peer-OnPlane sides device a h))
        (λ e.
          either-OnPlane sides device (bytes_eq code (codes "peer_gone")) _ _
            (λ e'. on_peer_gone-OnPlane env a h) (λ e'. h))

  on_data_noise-OnPlane :
      (a : Agent S V F) → Stays sides device a → Stays sides device (on_data_noise a)
  unfolding on_data_noise
  on_data_noise-OnPlane a h =
      either-OnPlane sides device (is_some a.data_noise || length a.pairing_token == 0) _ _ (λ e. h)
        (λ e. drop-OnPlane a h)

  on_data_ciphertext-OnPlane :
      (env : StepEnv S V F) (payload : Bytes) (o : Option S) (a : Agent S V F)
      → IsFair sides device env.inner.tunnel
      → Stays sides device a
      → Stays sides device (on_data_ciphertext env payload o a)
  unfolding on_data_ciphertext on_data_plain
  on_data_ciphertext-OnPlane env payload none a fair h = h
  on_data_ciphertext-OnPlane env payload (some s) a fair h =
      elim (Option-cases (env.inner.tunnel.ciphers.decrypt s payload)) [
        | inl fails ↦ rw fails h
        | inr ((s', plain), works) ↦ rw works (
            handle_data_inner-OnPlane sides device env.inner fair plain
              (record a { data_sess = some s' }) h)
      ]

  on_data_tunnel-OnPlane :
      (env : StepEnv S V F) (payload : Bytes) (a : Agent S V F)
      → IsFair sides device env.inner.tunnel
      → Stays sides device a
      → Stays sides device (on_data_tunnel env payload a)
  unfolding on_data_tunnel
  on_data_tunnel-OnPlane env payload a fair h =
      on_data_ciphertext-OnPlane env payload a.data_sess a fair h

  pub handle_frame-OnPlane :
      (env : StepEnv S V F) (outcome : Option (S × ℕ)) (f : Frame) (a : Agent S V F)
      → IsFairEvent sides device (frame env outcome f)
      → Stays sides device a
      → Stays sides device (handle_frame env outcome f a)
  unfolding handle_frame handle_data_frame handle_main_frame
  handle_frame-OnPlane env outcome f a (fair, made, calm) h =
      either-OnPlane sides device (is_data_frame f) _ _
        (λ theirs.
          either-OnPlane sides device (f.type == type_noise) _ _ (λ e. on_data_noise-OnPlane a h)
            (λ e.
              either-OnPlane sides device (f.type == type_tunnel) _ _
                (λ e'. on_data_tunnel-OnPlane env f.payload a fair h)
                (λ e'. either-OnPlane sides device _ _ a (λ e''. drop-OnPlane a h) (λ e''. h))))
        (λ main.
          either-OnPlane sides device (f.type == type_noise) _ _
            (λ e. on_noise-OnPlane env outcome a made calm h)
            (λ e.
              either-OnPlane sides device (f.type == type_tunnel) _ _
                (λ e'. on_tunnel-OnPlane env f.payload a fair h)
                (λ e'.
                  either-OnPlane sides device (f.type == type_ping) _ _
                    (λ e''.
                      write_wire-OnPlane sides device _ a h (λ t r. absurd (omega (arith, t))))
                    (λ e''.
                      either-OnPlane sides device (f.type == type_error) _ _
                        (λ e3. on_error-OnPlane env _ a h) (λ e3. h)))))
