-- ===== src/Agent/Session/Takeover.antt =====
-- cmd/agent: what becomes of a controller's session when another one takes the device over, or when
-- a datagram cannot be decrypted.
use runeverything.Agent.Session.Relayed.{
  StepEnv, is_data_frame, installed, on_noise, on_error, handle_main_frame, handle_frame,
}
use runeverything.Agent.Session.Datagrams.{
  looks_like_noise_msg1, reset_session_ep, reset_send_ep, udp_installed, complete_udp_noise,
  on_datagram, handle_udp_payload,
}
use runeverything.Agent.Input.{InputQueue, Inputs}
use mathlib.Core.Option
use runeverything.Reudp.Endpoint.{Endpoint, clear_direct}
use runeverything.Agent.Session.{
  StaleTimer, Agent, touch_activity, close_desktop, forget_session, clear_udp_direct,
  cancel_udp_session_stale, release_peer, close_session, close_sessions, data_ids,
  drop_data_channel, run_agent_noise,
}
use runeverything.Base.Bytes.{Bytes, bytes_eq, bytes_eq_iff, codes}
use runeverything.Base.Float64.{Float64}
use runeverything.Base.Maps.{lookup, lookup-delete, bytes_eq_instance}
use runeverything.Base.Members.{member}
use runeverything.Base.{
  ℕ, ◌≡◌, refl, ap, ◌∙◌, inl, inr, Bool, true, false, not, ◌||◌, Option, none, some, List, [], ◌∷◌,
  arith, ◌==◌, if◌then◌else◌, Bool-cases, length, is_some,
}
use runeverything.Re2.Frame.{Frame, type_noise, type_error}

-- What the closing of terminals leaves alone.
abbrev Rest : Type 0 → Type 0 → Type 0 → Type 0
Rest S V F =
    Option S
    × Option V
    × Bool
    × Bytes
    × Option InputQueue
    × Option StaleTimer
    × Option S
    × Option ℕ
    × Bytes
    × Inputs
    × Option ℕ
    × Option (Endpoint F)

module _ {S V F : Type 0} ⦃fl : Float64 F⦄ where
  lookup-close_session :
      (id j : Bytes) (a : Agent S V F)
      → lookup j (close_session id a).sessions
        ≡ (if bytes_eq id j then none else lookup j a.sessions)
  unfolding close_session
  lookup-close_session id j a = elim (Bool-cases (is_some (lookup id a.sessions))) [
    | inl there ↦ rw there (lookup-delete id j a.sessions)
    | inr gone ↦ rw gone (ground (arith, gone, bytes_eq_iff id j))
  ]

  lookup-close_sessions :
      (ids : List Bytes) (j : Bytes) (a : Agent S V F)
      → lookup j (close_sessions ids a).sessions
        ≡ (if member j ids then none else lookup j a.sessions)
  unfolding close_sessions member
  lookup-close_sessions [] j a = refl
  lookup-close_sessions (id ∷ ids) j a =
      ground (arith, lookup-close_sessions ids j (close_session id a), lookup-close_session id j a)

  -- Of the controller's session, plane, direct path, desktop, input and data channel nothing is left;
  -- the terminals of the desktop channel stay.
  pub record IsFreed (a b : Agent S V F) : Type 0 where
    pub no_session : b.re2_sess ≡ none
    pub no_media : b.video_media ≡ none
    pub relayed : b.use_udp ≡ false
    pub no_desktop : b.desk_sid ≡ []
    pub no_input : b.input_ch ≡ none
    pub no_pending : b.inputs ≡ record { input_next_id = 0; input_pending = [] }
    pub no_activity : b.last_activity ≡ none
    pub no_direct : b.udp_ep ≡ Option.map clear_direct a.udp_ep
    pub no_timer : b.udp_stale_timer ≡ none
    pub no_data : b.data_sess ≡ none
    pub no_handshake : b.data_noise ≡ none
    pub same_token : b.pairing_token ≡ a.pairing_token
    pub terminals :
        (id : Bytes)
        → lookup id b.sessions
          ≡ (if member id (data_ids a.session_chan) then none else lookup id a.sessions)

  abbrev rest : Agent S V F → Rest S V F
  rest a = (
    a.re2_sess, a.video_media, a.use_udp, a.desk_sid, a.input_ch, a.udp_stale_timer, a.data_sess,
    a.data_noise, a.pairing_token, a.inputs, a.last_activity, a.udp_ep,
  )

  rest-close_session : (id : Bytes) (a : Agent S V F) → rest (close_session id a) ≡ rest a
  unfolding close_session
  rest-close_session id a = elim (Bool-cases (is_some (lookup id a.sessions))) [
    | inl there ↦ rw there
    | inr gone ↦ rw gone
  ]

  rest-close_sessions : (ids : List Bytes) (a : Agent S V F) → rest (close_sessions ids a) ≡ rest a
  unfolding close_sessions
  rest-close_sessions [] a = refl
  rest-close_sessions (id ∷ ids) a =
      rest-close_sessions ids (close_session id a) ∙ rest-close_session id a

  -- The state without the data channel's session, before its terminals are closed.
  abbrev released : Agent S V F → Agent S V F
  released a = record (release_peer a) { data_sess = none; data_noise = none }

  changed-IsFreed : (a : Agent S V F) → IsFreed a (drop_data_channel (release_peer a))
  unfolding drop_data_channel release_peer forget_session clear_udp_direct cancel_udp_session_stale
      close_desktop
  changed-IsFreed a =
      let ids = data_ids a.session_chan in
      let e : rest (close_sessions ids (released a)) ≡ rest (released a) =
        rest-close_sessions ids (released a) in
      record {
        no_session = ap (λ (r : Rest S V F). r.0) e;
        no_media = ap (λ (r : Rest S V F). r.1) e;
        relayed = ap (λ (r : Rest S V F). r.2) e;
        no_desktop = ap (λ (r : Rest S V F). r.3) e;
        no_input = ap (λ (r : Rest S V F). r.4) e;
        no_timer = ap (λ (r : Rest S V F). r.5) e;
        no_data = ap (λ (r : Rest S V F). r.6) e;
        no_handshake = ap (λ (r : Rest S V F). r.7) e;
        same_token = ap (λ (r : Rest S V F). r.8) e;
        no_pending = ap (λ (r : Rest S V F). r.9) e;
        no_activity = ap (λ (r : Rest S V F). r.10) e;
        no_direct = ap (λ (r : Rest S V F). r.11) e;
        terminals = λ id. lookup-close_sessions ids id (released a);
      }

  installed-session :
      (now : ℕ) (env : StepEnv S V F) (s : S) (i : ℕ) (b : Agent S V F)
      → (installed now (run_agent_noise now env.stored env.meanwhile (some (s, i)) b)).re2_sess
        ≡ some s
  unfolding installed run_agent_noise touch_activity
  installed-session now env s i b = refl

  -- A controller's handshake through the relay is accepted after that.
  welcomed :
      (env : StepEnv S V F) (s : S) (i : ℕ) (a b : Agent S V F)
      → IsFreed a b
      → (length a.pairing_token == 0) ≡ false
      → (on_noise env (some (s, i)) b).re2_sess ≡ some s
  unfolding on_noise
  welcomed env s i a b freed paired =
      let token : (length b.pairing_token == 0) ≡ false = rw freed.same_token paired in
      let idle : (is_some b.re2_sess || not (length b.desk_sid == 0)) ≡ false =
        rw (freed.no_session, freed.no_desktop) in
      rw (token, idle, on_noise) (installed-session env.inner.now env s i b)

  -- And so is one on the datagrams.
  welcomed_on_udp :
      (env : StepEnv S V F) (s : S) (i : ℕ) (v : Option V) (payload : Bytes) (a b : Agent S V F)
      → IsFreed a b
      → (length a.pairing_token == 0) ≡ false
      → looks_like_noise_msg1 payload ≡ true
      → let c = handle_udp_payload env (some ((s, i), v)) payload b in
        (c.re2_sess ≡ some s) × (c.video_media ≡ v) × (c.use_udp ≡ true)
  unfolding handle_udp_payload on_datagram complete_udp_noise udp_installed run_agent_noise
      touch_activity cancel_udp_session_stale close_desktop reset_session_ep reset_send_ep
  welcomed_on_udp env s i v payload a b freed paired first =
      let token : (length b.pairing_token == 0) ≡ false = rw freed.same_token paired in
      rw (freed.no_session, first, token) (refl, refl, refl)

  noise_frame :
      (env : StepEnv S V F) (outcome : Option (S × ℕ)) (g : Frame) (b : Agent S V F)
      → g.type ≡ type_noise
      → is_data_frame g ≡ false
      → handle_frame env outcome g b ≡ on_noise env outcome b
  unfolding handle_frame handle_main_frame
  noise_frame env outcome g b is_noise main = rw (main, is_noise)

  noise_frame_welcomed :
      (env : StepEnv S V F) (s : S) (i : ℕ) (g : Frame) (a b : Agent S V F)
      → g.type ≡ type_noise
      → is_data_frame g ≡ false
      → IsFreed a b
      → (length a.pairing_token == 0) ≡ false
      → (handle_frame env (some (s, i)) g b).re2_sess ≡ some s
  noise_frame_welcomed env s i g a b is_noise main freed paired =
      rw (noise_frame env (some (s, i)) g b is_noise main) (welcomed env s i a b freed paired)

  changed_frame :
      (env : StepEnv S V F) (outcome : Option (S × ℕ)) (f : Frame) (a : Agent S V F)
      → f.type ≡ type_error
      → is_data_frame f ≡ false
      → env.inner.json.error_code f.payload ≡ codes "controller_changed"
      → handle_frame env outcome f a ≡ drop_data_channel (release_peer a)
  unfolding handle_frame handle_main_frame on_error bytes_eq
  changed_frame env outcome f a is_error main changed = rw (main, is_error, changed)

  -- When the relay says that another controller has taken the device over: the former controller's
  -- session, plane, direct path, desktop, input and data channel are gone, its stale timer and the
  -- time of its last activity too; the terminals of the desktop channel stay and those of the data
  -- channel are closed; and, if a pairing token is shown, the session of the next handshake is
  -- installed, be it through the relay or on the datagrams, whatever the other goroutines do while it
  -- waits.
  pub takeover :
      (env : StepEnv S V F) (outcome : Option (S × ℕ)) (f : Frame) (a : Agent S V F)
      → f.type ≡ type_error
      → is_data_frame f ≡ false
      → env.inner.json.error_code f.payload ≡ codes "controller_changed"
      → let b = handle_frame env outcome f a in
        IsFreed a b
        × ((length a.pairing_token == 0) ≡ false
            → ((env' : StepEnv S V F) (s : S) (i : ℕ) (g : Frame)
                → g.type ≡ type_noise
                → is_data_frame g ≡ false
                → (handle_frame env' (some (s, i)) g b).re2_sess ≡ some s)
              × ((env' : StepEnv S V F) (s : S) (i : ℕ) (v : Option V) (payload : Bytes)
                  → looks_like_noise_msg1 payload ≡ true
                  → let c = handle_udp_payload env' (some ((s, i), v)) payload b in
                    (c.re2_sess ≡ some s) × (c.video_media ≡ v) × (c.use_udp ≡ true)))
  takeover env outcome f a is_error main changed =
      let b = drop_data_channel (release_peer a) in
      let freed : IsFreed a b = changed-IsFreed a in
      rw (changed_frame env outcome f a is_error main changed) (
        freed,
        λ paired. (
          λ env' s i g is_noise main'.
              noise_frame_welcomed env' s i g a b is_noise main' freed paired,
          λ env' s i v payload. welcomed_on_udp env' s i v payload a b freed paired,
        ),
      )
