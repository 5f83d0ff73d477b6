-- ===== src/Agent/Session.antt =====
-- cmd/agent: what an agent keeps about its controller, and what takes it away again (desktop.go,
-- re2.go, datachan.go, main.go). `S` is a Noise session and `V` the cipher of the video plane, both
-- of libraries; `F` is float64.
pub mod Tunnel
pub mod Inner
pub mod Relayed
pub mod Datagrams
pub mod Run
pub mod Neutral
pub mod Planes
pub mod Takeover
pub mod Garbage
pub mod Idle
pub mod Apart
use runeverything.Agent.Input.{InputQueue, Inputs}
use runeverything.Agent.Tokens.{
  PairedToken, PskTokens, with_loaded, handshake_tokens, note_paired_token,
}
use runeverything.Base.Bytes.{Bytes, bytes_eq, codes}
use runeverything.Base.Float64.{Float64}
use runeverything.Base.Maps.{lookup, insert, delete, bytes_eq_instance}
use mathlib.Core.Option
use runeverything.Base.{
  ℕ, ◌-◌, ◌*◌, ◌^◌, ◌≡◌, Bool, true, false, not, ◌&&◌, ◌||◌, Option, none, some, List, [], ◌∷◌,
  ◌++◌, ltb, get_or, if◌then◌else◌, ◌==◌, length, is_some,
}
use runeverything.Re2.Channel.{channel_data}
use runeverything.Re2.Frame.{Frame}
use runeverything.Reudp.Endpoint.{Endpoint, clear_direct}

-- What is written: a frame to the relay, or a payload to the datagram endpoint.
pub data Wire : Type 0 where
  on_relay : Frame → Wire
  on_udp : Bytes → Wire

-- `udpStaleTimer`, with what its function has captured.
pub record StaleTimer : Type 0 where
  pub marked : Option ℕ
  pub wait : ℕ

-- A moment is nanoseconds; `last_activity` is `none` for the zero time. A terminal is a number, and
-- so is a handshake of the data channel.
pub record Agent (S V F : Type 0) : Type 0 where
  pub device_id : Bytes
  pub pairing_token : Bytes
  pub pairing_expires_at : ℕ  -- seconds since 1970
  pub tokens : PskTokens
  pub re2_conn : Bool
  pub re2_sess : Option S
  pub video_media : Option V
  pub use_udp : Bool
  pub udp_ep : Option (Endpoint F)
  pub udp_stale_timer : Option StaleTimer
  pub last_activity : Option ℕ
  pub session_idle : ℕ
  pub desk_sid : Bytes
  pub inputs : Inputs
  pub input_ch : Option InputQueue
  pub sessions : List (Bytes × ℕ)
  pub session_chan : List (Bytes × Bytes)
  pub data_sess : Option S
  pub data_noise : Option ℕ
  pub data_starts : ℕ
  pub written : List Wire

abbrev pub second : ℕ
second = 10 ^ 9

abbrev pub or_empty : Option Bytes → Bytes
or_empty none = []
or_empty (some b) = b

-- `a.sessionChan[id] == re2.ChannelData`
abbrev pub on_data : Bytes → List (Bytes × Bytes) → Bool
on_data id m = bytes_eq (or_empty (lookup id m)) channel_data

-- `!a.lastActivity.Equal(marked) && !a.lastActivity.IsZero() && time.Since(a.lastActivity) < d`
abbrev pub is_fresh : ℕ → StaleTimer → Option ℕ → Bool
is_fresh now t none = false
is_fresh now t (some last) =
    not (elim t.marked [ none ↦ false | some m ↦ m == last ]) && ltb (now - last) t.wait

abbrev pub desk_liveness_timeout : ℕ
desk_liveness_timeout = 15 * second

-- The ids of the terminals of the data channel.
unfoldable pub data_ids : List (Bytes × Bytes) → List Bytes
data_ids [] = []
data_ids ((id, ch) ∷ m) = if bytes_eq ch channel_data then id ∷ data_ids m else data_ids m

module _ {S V F : Type 0} ⦃fl : Float64 F⦄ where
  unfoldable pub touch_activity : ℕ → Agent S V F → Agent S V F
  touch_activity now a = record a { last_activity = some now }

  unfoldable pub write_wire : Wire → Agent S V F → Agent S V F
  write_wire w a = record a { written = a.written ++ (w ∷ []) }

  -- Of the desktop: its id and its input. The capturer, the encoder and the rest are the system's.
  unfoldable pub close_desktop : Agent S V F → Agent S V F
  close_desktop a = record a {
    desk_sid = [];
    inputs = record { input_next_id = 0; input_pending = [] };
    input_ch = none;
  }

  -- `a.re2Sess = nil; a.videoMedia = nil; a.useUDP = false`
  unfoldable pub forget_session : Agent S V F → Agent S V F
  forget_session a = record a { re2_sess = none; video_media = none; use_udp = false }

  unfoldable pub clear_udp_direct : Agent S V F → Agent S V F
  clear_udp_direct a = record a { udp_ep = Option.map clear_direct a.udp_ep }

  unfoldable pub clear_crypto_session : Agent S V F → Agent S V F
  unfolding forget_session
  clear_crypto_session a = record (forget_session a) { udp_ep = none }

  unfoldable pub cancel_udp_session_stale : Agent S V F → Agent S V F
  cancel_udp_session_stale a = record a { udp_stale_timer = none }

  unfoldable pub arm_udp_session_stale : ℕ → Agent S V F → Agent S V F
  arm_udp_session_stale d a = record a {
    udp_stale_timer = some (record { marked = a.last_activity; wait = d });
  }

  -- The function of the timer, when the timer goes off.
  unfoldable pub stale_fires : ℕ → StaleTimer → Agent S V F → Agent S V F
  unfolding close_desktop forget_session
  stale_fires now t a =
      if is_fresh now t a.last_activity
      then record a { udp_stale_timer = none }
      else close_desktop (record (forget_session a) { udp_stale_timer = none })

  unfoldable pub release_peer : Agent S V F → Agent S V F
  unfolding forget_session clear_udp_direct cancel_udp_session_stale close_desktop
  release_peer a = close_desktop (
      cancel_udp_session_stale
        (clear_udp_direct (record (forget_session a) { last_activity = none })))

  -- A tick of `livenessLoop`, with the time since the last activity.
  unfoldable pub live_checked : ℕ → Agent S V F → Agent S V F
  unfolding release_peer close_desktop
  live_checked silent a =
      if is_some a.re2_sess && ltb 0 a.session_idle && ltb a.session_idle silent
      then release_peer a
      else if not (length a.desk_sid == 0) && ltb desk_liveness_timeout silent
      then close_desktop a
      else a

  unfoldable pub live_since : ℕ → Option ℕ → Agent S V F → Agent S V F
  unfolding live_checked
  live_since now none a = a
  live_since now (some last) a = live_checked (now - last) a

  unfoldable pub liveness_tick : ℕ → Agent S V F → Agent S V F
  unfolding live_since
  liveness_tick now a = live_since now a.last_activity a

  unfoldable pub close_session : Bytes → Agent S V F → Agent S V F
  close_session id a =
      if is_some (lookup id a.sessions)
      then record a { sessions = delete id a.sessions; session_chan = delete id a.session_chan }
      else a

  unfoldable pub end_terminal : Bytes → Agent S V F → Agent S V F
  end_terminal id a =
      if on_data id a.session_chan
      then a
      else record a { sessions = delete id a.sessions; session_chan = delete id a.session_chan }

  -- The loop of `endRemoteControl` over the terminals.
  unfoldable pub end_terminals : List (Bytes × ℕ) → Agent S V F → Agent S V F
  unfolding end_terminal
  end_terminals [] a = a
  end_terminals ((id, s) ∷ rest) a = end_terminals rest (end_terminal id a)

  unfoldable pub end_remote_control : Agent S V F → Agent S V F
  unfolding close_desktop end_terminals clear_udp_direct
  end_remote_control a = let b = close_desktop a in clear_udp_direct (end_terminals b.sessions b)

  unfoldable pub close_sessions : List Bytes → Agent S V F → Agent S V F
  close_sessions [] a = a
  close_sessions (id ∷ ids) a = close_sessions ids (close_session id a)

  unfoldable pub drop_data_channel : Agent S V F → Agent S V F
  unfolding data_ids close_sessions
  drop_data_channel a =
      close_sessions (data_ids a.session_chan) (record a { data_sess = none; data_noise = none })

  -- `openSessionOn`, with the terminal that was started, or `none` if none could be.
  unfoldable pub open_session_on : Bytes → Bytes → Option ℕ → Agent S V F → Agent S V F × Bool
  open_session_on id channel started a =
      let b = record a { sessions = delete id a.sessions } in
      elim started [
        | none ↦ (b, false)
        | some s ↦ (
          record b {
            sessions = insert id s b.sessions;
            session_chan = insert id channel b.session_chan;
          },
          true,
        )
      ]

  -- With the file of paired tokens read.
  unfoldable pub tokens_loaded : List PairedToken → Agent S V F → Agent S V F
  unfolding with_loaded
  tokens_loaded stored a = record a { tokens = with_loaded stored a.tokens }

  -- `runAgentNoise`, with the file of paired tokens, what the other goroutines do to the agent while
  -- it waits for the messages of the handshake, and what comes of the handshake: a session and the
  -- index of the token that matched. The candidates are those of the start.
  unfoldable pub run_agent_noise :
      ℕ
      → List PairedToken
      → (Agent S V F → Agent S V F)
      → Option (S × ℕ)
      → Agent S V F
      → Agent S V F × Option S
  unfolding tokens_loaded
  run_agent_noise now stored meanwhile outcome a =
      let candidates = handshake_tokens stored a.pairing_token a.tokens in
      let later = meanwhile (tokens_loaded stored a) in
      elim outcome [
        | none ↦ (later, none)
        | some (s, i) ↦ (
          record later {
            tokens = note_paired_token now stored (get_or candidates i []) later.tokens;
          },
          some s,
        )
      ]
