-- ===== src/Agent/Session/Planes/Fair.antt =====
-- What comes to an agent from outside within the bounds of its planes, and its timers and offers.
use runeverything.Agent.Session.Relayed.{
  StepEnv, offered, has_pairing, renewed, offer_pair, restore_pairing_token,
}
use runeverything.Agent.Session.Run.{Event, frame, datagram, sends}
use runeverything.Agent.Session.Tunnel.Plane.{Sides, OnPlane, IsFair}
use runeverything.Agent.Session.Tunnel.Sends.{write_wire-OnPlane}
use runeverything.Agent.Session.Tunnel.{Ciphers}
use runeverything.Agent.Session.{
  Agent, StaleTimer, is_fresh, close_desktop, forget_session, clear_udp_direct,
  cancel_udp_session_stale, stale_fires, release_peer, live_checked, live_since, liveness_tick,
  desk_liveness_timeout,
}
use runeverything.Base.Bytes.{Bytes}
use runeverything.Base.Float64.{Float64}
use runeverything.Base.{
  ℕ, ◌-◌, ◌/◌, ◌^◌, ◌≡◌, refl, inl, inr, Bool, true, false, not, ◌&&◌, ◌||◌, Option, none, some,
  arith, ltb, leb, ◌==◌, if◌then◌else◌, Bool-cases, Option-cases, length, is_some,
}

module _ {S V F : Type 0} ⦃fl : Float64 F⦄ {ciphers : Ciphers S V} (sides : Sides ciphers)
    (device : Bytes) where
  abbrev pub Stays : Agent S V F → Type 0
  Stays a = OnPlane sides device a

  -- Of a state without the datagrams, or with an endpoint for them, what the other goroutines do
  -- leaves such a state.
  abbrev pub StaysRelayed : (Agent S V F → Agent S V F) → Type 0
  StaysRelayed g =
      (a : Agent S V F) → Stays a × (a.use_udp ≡ false) → Stays (g a) × ((g a).use_udp ≡ false)

  abbrev pub StaysReachable : (Agent S V F → Agent S V F) → Type 0
  StaysReachable g =
      (a : Agent S V F)
      → Stays a × (is_some a.udp_ep ≡ true)
      → Stays (g a) × (is_some (g a).udp_ep ≡ true)

  -- What comes from outside keeps to the planes: the handshakes through the relay give sessions of
  -- the one side, those on the datagrams sessions of the other; while one through the relay waits,
  -- none on the datagrams is completed, and while one on the datagrams waits, the endpoint stays.
  abbrev pub IsFairEvent : Event S V F → Type 0
  IsFairEvent (frame env outcome f) =
      IsFair sides device env.inner.tunnel
      × ((s : S) (i : ℕ) → outcome ≡ some (s, i) → sides.Relayed s)
      × StaysRelayed env.meanwhile
  IsFairEvent (datagram env outcome payload) =
      IsFair sides device env.inner.tunnel
      × ((s : S) (i : ℕ) (v : Option V) → outcome ≡ some ((s, i), v) → sides.Udp s)
      × StaysReachable env.meanwhile
  IsFairEvent (sends env type body) = IsFair sides device env
  IsFairEvent other = Unit

  pub either-OnPlane :
      (b : Bool) (x y : Agent S V F)
      → (b ≡ true → Stays x)
      → (b ≡ false → Stays y)
      → Stays (if b then x else y)
  either-OnPlane true x y f g = f refl
  either-OnPlane false x y f g = g refl

  pub stale_fires-OnPlane :
      (now : ℕ) (t : StaleTimer) (a : Agent S V F) → Stays a → Stays (stale_fires now t a)
  unfolding stale_fires forget_session close_desktop
  stale_fires-OnPlane now t a h = elim (Bool-cases (is_fresh now t a.last_activity)) [
    | inl fresh ↦ rw (fresh, stale_fires) h
    | inr stale ↦ rw (stale, stale_fires) (h.0, tt, h.2)
  ]

  pub release_peer-OnPlane : (a : Agent S V F) → Stays a → Stays (release_peer a)
  unfolding release_peer forget_session cancel_udp_session_stale close_desktop clear_udp_direct
  release_peer-OnPlane a h = (h.0, tt, h.2)

  live_checked-OnPlane : (silent : ℕ) (a : Agent S V F) → Stays a → Stays (live_checked silent a)
  unfolding live_checked close_desktop
  live_checked-OnPlane silent a h =
      elim (Bool-cases (is_some a.re2_sess && ltb 0 a.session_idle && ltb a.session_idle silent)) [
        | inl idle ↦ rw (idle, live_checked) (release_peer-OnPlane a h)
        | inr used ↦
            elim (Bool-cases (not (length a.desk_sid == 0) && ltb desk_liveness_timeout silent)) [
              | inl quiet ↦ rw (used, quiet, live_checked) h
              | inr heard ↦ rw (used, heard, live_checked) h
            ]
      ]

  live_since-OnPlane :
      (now : ℕ) (o : Option ℕ) (a : Agent S V F) → Stays a → Stays (live_since now o a)
  unfolding live_since
  live_since-OnPlane now none a h = h
  live_since-OnPlane now (some last) a h = live_checked-OnPlane (now - last) a h

  pub liveness_tick-OnPlane : (now : ℕ) (a : Agent S V F) → Stays a → Stays (liveness_tick now a)
  unfolding liveness_tick
  liveness_tick-OnPlane now a h = live_since-OnPlane now a.last_activity a h

  offered-OnPlane : (env : StepEnv S V F) (a : Agent S V F) → Stays a → Stays (offered env a)
  unfolding offered
  offered-OnPlane env a h = write_wire-OnPlane sides device _ a h (λ t e. absurd (omega (arith, t)))

  pub offer_pair-OnPlane :
      (env : StepEnv S V F) (rotate : Bool) (a : Agent S V F)
      → Stays a
      → Stays (offer_pair env rotate a)
  unfolding offer_pair renewed
  offer_pair-OnPlane env rotate a h = elim (Bool-cases (not a.re2_conn)) [
    | inl down ↦ rw (down, offer_pair) h
    | inr up ↦ elim (Bool-cases (not rotate && has_pairing env.inner.now a)) [
      | inl same ↦ rw (up, same, offer_pair) (offered-OnPlane env a h)
      | inr new ↦ elim (Option-cases env.minted) [
        | inl fails ↦ rw (up, new, fails, offer_pair) h
        | inr (p, minted) ↦ rw (up, new, minted, offer_pair) (offered-OnPlane env (renewed p a) h)
      ]
    ]
  ]

  pub restore_pairing_token-OnPlane :
      (env : StepEnv S V F) (a : Agent S V F) → Stays a → Stays (restore_pairing_token env a)
  unfolding restore_pairing_token
  restore_pairing_token-OnPlane env a h = elim (Bool-cases (has_pairing env.inner.now a)) [
    | inl same ↦ rw (same, restore_pairing_token) h
    | inr old ↦ elim (Option-cases env.last_pairing) [
      | inl lost ↦ rw (old, lost, restore_pairing_token) h
      | inr ((token, expires), read) ↦
          elim (Bool-cases
            (length token == 0 || (ltb 0 expires && leb expires (env.inner.now / (10 ^ 9))))) [
              | inl useless ↦ rw (old, read, useless, restore_pairing_token) h
              | inr good ↦ rw (old, read, good, restore_pairing_token) h
            ]
    ]
  ]
