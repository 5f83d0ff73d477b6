-- ===== src/Agent/Session/Garbage.antt =====
-- cmd/agent: what a text that cannot be decrypted does to a session, by the way in which it comes.
use runeverything.Agent.Session.Relayed.{
  StepEnv, is_data_frame, on_plain, on_ciphertext, on_tunnel, handle_main_frame, handle_frame,
}
use runeverything.Agent.Session.Datagrams.{
  looks_like_noise_msg1, is_video_plane, reset_session_ep, complete_udp_noise, on_live_datagram,
  on_datagram, handle_udp_payload,
}
use runeverything.Agent.Session.{
  Agent, touch_activity, forget_session, cancel_udp_session_stale, run_agent_noise, tokens_loaded,
}
use runeverything.Base.Bytes.{Bytes}
use runeverything.Base.Float64.{Float64}
use runeverything.Base.{
  ℕ, ◌≡◌, refl, inl, inr, true, false, ◌||◌, Option, none, some, ◌==◌, Bool-cases, length, is_some,
}
use runeverything.Re2.Frame.{Frame, type_tunnel}

module _ {S V F : Type 0} ⦃fl : Float64 F⦄ where
  -- No session, and the desktop as it was.
  abbrev pub IsBare : Agent S V F → Agent S V F → Type 0
  IsBare a b =
      (b.re2_sess ≡ none) × (b.video_media ≡ none) × (b.use_udp ≡ false) × (b.desk_sid ≡ a.desk_sid)

  failed_handshake :
      (env : StepEnv S V F) (a b : Agent S V F)
      → ((c : Agent S V F) → IsBare a c → IsBare a (env.meanwhile c))
      → IsBare a b
      → IsBare a (complete_udp_noise env none b)
  unfolding complete_udp_noise run_agent_noise tokens_loaded reset_session_ep
  failed_handshake env a b calm bare =
      elim (Bool-cases (length b.pairing_token == 0 || is_some b.re2_sess)) [
        | inl unpaired ↦ rw (unpaired, complete_udp_noise) bare
        | inr paired ↦
            rw (paired, complete_udp_noise)
              (calm (tokens_loaded env.stored (reset_session_ep b)) bare)
      ]

  garbage_datagram :
      (env : StepEnv S V F) (payload : Bytes) (s : S) (a : Agent S V F)
      → is_video_plane payload ≡ false
      → env.inner.tunnel.ciphers.decrypt s payload ≡ none
      → looks_like_noise_msg1 payload ≡ true
      → ((c : Agent S V F) → IsBare a c → IsBare a (env.meanwhile c))
      → IsBare a (on_datagram env none payload (some s) a)
  unfolding on_datagram on_live_datagram touch_activity forget_session
  garbage_datagram env payload s a not_video garbage short calm =
      rw (not_video, garbage, short)
        (failed_handshake env a (forget_session (touch_activity env.inner.now a)) calm
          (refl, refl, refl, refl))

  garbage_by_session :
      (env : StepEnv S V F) (payload : Bytes) (s : S) (o : Option S) (a : Agent S V F)
      → o ≡ some s
      → is_video_plane payload ≡ false
      → env.inner.tunnel.ciphers.decrypt s payload ≡ none
      → looks_like_noise_msg1 payload ≡ true
      → ((c : Agent S V F) → IsBare a c → IsBare a (env.meanwhile c))
      → IsBare a (on_datagram env none payload o a)
  garbage_by_session env payload s o a here not_video garbage short calm =
      rw here (garbage_datagram env payload s a not_video garbage short calm)

  garbage_frame :
      (env : StepEnv S V F) (payload : Bytes) (s : S) (o : Option S) (a : Agent S V F)
      → o ≡ some s
      → env.inner.tunnel.ciphers.decrypt s payload ≡ none
      → on_ciphertext env payload o a ≡ a
  unfolding on_ciphertext on_plain
  garbage_frame env payload s o a here garbage = rw (here, garbage)

  -- For a session, a text that it cannot decrypt: in a TUNNEL frame of the relay it changes nothing; in
  -- a datagram of 32 to 80 bytes that is not of the video plane it ends the session, also if no
  -- handshake comes of it and no other goroutine makes one meanwhile, and leaves the desktop open.
  pub garbage_ends_session :
      (env : StepEnv S V F) (outcome : Option (S × ℕ)) (f : Frame) (s : S) (a : Agent S V F)
      → a.re2_sess ≡ some s
      → env.inner.tunnel.ciphers.decrypt s f.payload ≡ none
      → ((c : Agent S V F) → IsBare a c → IsBare a (env.meanwhile c))
      → (f.type ≡ type_tunnel → is_data_frame f ≡ false → handle_frame env outcome f a ≡ a)
        × (is_video_plane f.payload ≡ false
            → looks_like_noise_msg1 f.payload ≡ true
            → let b = handle_udp_payload env none f.payload a in
              (b.re2_sess ≡ none)
              × (b.video_media ≡ none)
              × (b.use_udp ≡ false)
              × (b.desk_sid ≡ a.desk_sid))
  unfolding handle_frame handle_main_frame on_tunnel handle_udp_payload cancel_udp_session_stale
  garbage_ends_session env outcome f s a here garbage calm = (
    λ is_tunnel main.
        rw (main, is_tunnel) (garbage_frame env f.payload s a.re2_sess a here garbage),
    λ not_video short.
        garbage_by_session env f.payload s a.re2_sess (cancel_udp_session_stale a) here not_video
          garbage short calm,
  )
