-- ===== src/Agent/Session/Neutral.antt =====
-- cmd/agent: the operations on terminals, desktops and pairing tokens, which leave the session of
-- the desktop channel, its plane and what was written alone.
use runeverything.Agent.Session.Tunnel.Plane.{core}
use runeverything.Agent.Session.{
  Agent, close_desktop, clear_udp_direct, close_session, close_sessions, end_terminal,
  end_terminals, end_remote_control, drop_data_channel, data_ids, open_session_on, run_agent_noise,
  tokens_loaded, on_data,
}
use runeverything.Agent.Tokens.{PairedToken}
use runeverything.Base.Bytes.{Bytes}
use runeverything.Base.Float64.{Float64}
use runeverything.Base.Maps.{lookup, bytes_eq_instance}
use mathlib.Core.Option
use runeverything.Base.{
  ℕ, ◌≡◌, refl, ◌∙◌, inl, inr, Option, none, some, List, [], ◌∷◌, Bool-cases, is_some,
}
use runeverything.Reudp.Endpoint.{clear_direct}

pub is_some-map : {A : Type 0} (f : A → A) (o : Option A) → is_some (Option.map f o) ≡ is_some o
is_some-map f none = refl
is_some-map f (some a) = refl

module _ {S V F : Type 0} ⦃fl : Float64 F⦄ where
  pub core-clear_udp_direct : (a : Agent S V F) → core (clear_udp_direct a) ≡ core a
  unfolding clear_udp_direct
  core-clear_udp_direct a = rw (is_some-map clear_direct a.udp_ep)

  pub core-close_session : (id : Bytes) (a : Agent S V F) → core (close_session id a) ≡ core a
  unfolding close_session
  core-close_session id a = elim (Bool-cases (is_some (lookup id a.sessions))) [
    | inl there ↦ rw there
    | inr gone ↦ rw gone
  ]

  core-close_sessions : (ids : List Bytes) (a : Agent S V F) → core (close_sessions ids a) ≡ core a
  unfolding close_sessions
  core-close_sessions [] a = refl
  core-close_sessions (id ∷ ids) a =
      core-close_sessions ids (close_session id a) ∙ core-close_session id a

  pub core-drop_data_channel : (a : Agent S V F) → core (drop_data_channel a) ≡ core a
  unfolding drop_data_channel
  core-drop_data_channel a =
      core-close_sessions (data_ids a.session_chan)
        (record a { data_sess = none; data_noise = none })

  core-end_terminal : (id : Bytes) (a : Agent S V F) → core (end_terminal id a) ≡ core a
  unfolding end_terminal
  core-end_terminal id a = elim (Bool-cases (on_data id a.session_chan)) [
    | inl theirs ↦ rw theirs
    | inr ours ↦ rw ours
  ]

  core-end_terminals : (m : List (Bytes × ℕ)) (a : Agent S V F) → core (end_terminals m a) ≡ core a
  unfolding end_terminals
  core-end_terminals [] a = refl
  core-end_terminals ((id, s) ∷ m) a =
      core-end_terminals m (end_terminal id a) ∙ core-end_terminal id a

  pub core-end_remote_control : (a : Agent S V F) → core (end_remote_control a) ≡ core a
  unfolding end_remote_control close_desktop
  core-end_remote_control a =
      core-clear_udp_direct (end_terminals a.sessions (close_desktop a))
      ∙ core-end_terminals a.sessions (close_desktop a)

  pub core-open_session_on :
      (id channel : Bytes) (started : Option ℕ) (a : Agent S V F)
      → core (open_session_on id channel started a).0 ≡ core a
  unfolding open_session_on
  core-open_session_on id channel none a = refl
  core-open_session_on id channel (some s) a = refl

  pub core-run_agent_noise :
      (now : ℕ) (stored : List PairedToken) (meanwhile : Agent S V F → Agent S V F)
      (outcome : Option (S × ℕ)) (a : Agent S V F)
      → core (run_agent_noise now stored meanwhile outcome a).0
        ≡ core (meanwhile (tokens_loaded stored a))
  unfolding run_agent_noise
  core-run_agent_noise now stored meanwhile none a = refl
  core-run_agent_noise now stored meanwhile (some r) a = refl
