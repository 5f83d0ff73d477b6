-- ===== src/Examples/Agents.antt =====
-- Concrete events for cmd/agent. A session is a number, 7 if it was made on the datagrams and 3 if
-- it was made through the relay, and its texts start with it.
use runeverything.Agent.Session.Apart.{desktop_of, data_frame, data_noise, data_channel_apart}
use runeverything.Agent.Session.Garbage.{garbage_ends_session}
use runeverything.Agent.Session.Idle.{tick_events, IsReleased, silent-IsReleased}
use runeverything.Agent.Session.Inner.{SessionJson}
use runeverything.Agent.Session.Planes.Steps.{run-OnPlane}
use runeverything.Agent.Session.Relayed.{StepEnv, is_data_frame, handle_frame}
use runeverything.Agent.Session.Datagrams.{
  looks_like_noise_msg1, is_video_plane, handle_udp_payload,
}
use runeverything.Agent.Session.Run.{
  Event, frame, datagram, data_noise_ends, associates, sends, run,
}
use runeverything.Agent.Session.Takeover.{IsFreed, takeover}
use runeverything.Agent.Session.Tunnel.Plane.{Sides, OnPlane, IsFair}
use runeverything.Agent.Session.Tunnel.{Ciphers, TunnelEnv}
use runeverything.Agent.Session.{Agent, second, desk_liveness_timeout, close_desktop}
use runeverything.Agent.Tokens.Handshake.{is_paired, handshake_tokens_lem}
use runeverything.Agent.Tokens.Kept.{at_least, paired_token_kept}
use runeverything.Agent.Tokens.{
  PskTokens, load_paired_tokens, note_paired_token, handshake_tokens, max_paired_tokens,
}
use runeverything.Base.Bytes.{Bytes, bytes_eq, codes, make}
use runeverything.Base.Float64.{whole}
use runeverything.Base.Members.{member, Distinct}
use runeverything.Base.{
  ℕ, ◌+◌, ◌*◌, ◌≤◌, ◌<◌, ◌≡◌, ◌⊎◌, refl, ap, sym, true, false, ◌||◌, Option, none, some, List, [],
  ◌∷◌, ◌++◌, arith, ◌==◌, if◌then◌else◌, Bool-cases, inl, inr, length, get_or, drop, get_elem?,
  some-injective, All,
}
use runeverything.Examples.Flow.{fresh, send_env}
use runeverything.Examples.Inputs.{texts}
use runeverything.Re2.Channel.{split_last, split_route, channel_route, channel_data}
use runeverything.Re2.Frame.{Frame, type_noise, type_tunnel, type_error}

abbrev desk_id : Bytes
desk_id = codes "desk"

abbrev opened_with : ℕ → Bytes → Option (ℕ × Bytes)
opened_with s [] = none
opened_with s (n ∷ m) = if n == s then some (s, m) else none

abbrev ciphers : Ciphers ℕ ℕ
ciphers = record {
  encrypt = λ s m. some (s, s ∷ m);
  decrypt = opened_with;
  open_media = λ v c. some (drop 30 c);
}

opened_with-same : (s s' : ℕ) (c m : Bytes) → opened_with s c ≡ some (s', m) → s' ≡ s
opened_with-same s s' [] m e = absurd (cc)
opened_with-same s s' (n ∷ c) m e = elim (Bool-cases (n == s)) [
  | inl is_it ↦ ground (arith, e, is_it)
  | inr other ↦ absurd (ground (arith, e, other))
]

encrypted-same :
    (s s' : ℕ) (m c : Bytes) → ciphers.encrypt s m ≡ some (s', c) → (s' ≡ s) × (c ≡ s ∷ m)
encrypted-same s s' m c e =
    let same : (s, s ∷ m) ≡ (s', c) = some-injective e in
    (ap (λ (p : ℕ × Bytes). p.0) (sym same), ap (λ (p : ℕ × Bytes). p.1) (sym same))

abbrev sides : Sides ciphers
sides = record {
  Udp = λ s. s ≡ 7;
  Relayed = λ s. s ≡ 3;
  UdpText = λ c. get_or c 0 0 ≡ 7;
  RelayedText = λ c. get_or c 0 0 ≡ 3;
  udp_encrypt = λ s s' m c e is_udp.
      let (same, text) = encrypted-same s s' m c e in rw (same, text) (is_udp, is_udp);
  udp_decrypt = λ s s' c m e is_udp. rw (opened_with-same s s' c m e) is_udp;
  relayed_encrypt = λ s s' m c e is_relayed.
      let (same, text) = encrypted-same s s' m c e in rw (same, text) (is_relayed, is_relayed);
  relayed_decrypt = λ s s' c m e is_relayed. rw (opened_with-same s s' c m e) is_relayed;
}

abbrev tunnel : TunnelEnv ℕ ℕ ℕ
tunnel = record { ciphers = ciphers; clock = λ i. 1000000000; others = λ i a. a; send = send_env }

abbrev json : SessionJson
json = record {
  open_session_id = λ b. some b;
  session_close_id = λ b. b;
  desktop_close_reason = λ b. b;
  session_ready = λ b. b;
  app_error = λ b. b;
  error_code = λ b. b;
  pair_offer = λ b. b;
}

abbrev env : StepEnv ℕ ℕ ℕ
env = record {
  inner = record {
    now = 5 * second;
    tunnel = tunnel;
    json = json;
    input = texts;
    timely = [];
    start_pty = λ b. some 1;
  };
  stored = [];
  meanwhile = λ a. record a { last_activity = some (6 * second) };
  minted = none;
  last_pairing = none;
}

abbrev idle : Agent ℕ ℕ ℕ
idle = record {
  device_id = desk_id;
  pairing_token = codes "token";
  pairing_expires_at = 600;
  tokens = record { paired = none; recent = [] };
  re2_conn = true;
  re2_sess = none;
  video_media = none;
  use_udp = false;
  udp_ep = none;
  udp_stale_timer = none;
  last_activity = none;
  session_idle = 60 * second;
  desk_sid = [];
  inputs = record { input_next_id = 0; input_pending = [] };
  input_ch = none;
  sessions = [];
  session_chan = [];
  data_sess = none;
  data_noise = none;
  data_starts = 0;
  written = [];
}

desk_id-main : bytes_eq (split_route desk_id).1 channel_data ≡ false
unfolding split_last split_route bytes_eq
desk_id-main = refl

abbrev hello : Frame
hello = record { type = type_noise; route_id = desk_id; payload = [] }

abbrev changed : Frame
changed = record { type = type_error; route_id = desk_id; payload = codes "controller_changed" }

-- A controller on the relay, then another one on the datagrams.
abbrev evening : List (Event ℕ ℕ ℕ)
evening =
    associates fresh
    ∷ frame env (some (3, 0)) hello
    ∷ sends tunnel 7 (1 ∷ [])
    ∷ frame env none changed
    ∷ datagram env (some ((7, 0), some 1)) (make 40)
    ∷ sends tunnel 7 (2 ∷ [])
    ∷ []

tunnel-IsFair : IsFair sides desk_id tunnel
tunnel-IsFair = record { same = refl; kept = λ i a h. h }

run-OnPlane_example : OnPlane sides desk_id (run evening idle)
run-OnPlane_example =
    run-OnPlane sides desk_id evening idle
      (
        tt,
        (
          (tunnel-IsFair, λ s i e. ap (λ (p : ℕ × ℕ). p.0) (sym (some-injective e)), λ a h. h),
          (
            tunnel-IsFair,
            (
              (tunnel-IsFair, λ s i e. absurd (cc), λ a h. h),
              (
                (
                  tunnel-IsFair,
                  λ s i v e. ap (λ (p : (ℕ × ℕ) × Option ℕ). p.0.0) (sym (some-injective e)),
                  λ a h. h,
                ),
                (tunnel-IsFair, tt),
              ),
            ),
          ),
        ),
      )
      (refl, tt, tt)

-- A session with a desktop and with a terminal of each channel.
abbrev busy : Agent ℕ ℕ ℕ
busy = record idle {
  re2_sess = some 3;
  last_activity = some (4 * second);
  desk_sid = codes "d";
  sessions = (codes "a", 1) ∷ (codes "b", 2) ∷ [];
  session_chan = (codes "a", []) ∷ (codes "b", channel_data) ∷ [];
  data_sess = some 3;
}

takeover_example :
    let b = handle_frame env none changed busy in
    IsFreed busy b
    × ((length busy.pairing_token == 0) ≡ false
        → ((env' : StepEnv ℕ ℕ ℕ) (s : ℕ) (i : ℕ) (g : Frame)
            → g.type ≡ type_noise
            → is_data_frame g ≡ false
            → (handle_frame env' (some (s, i)) g b).re2_sess ≡ some s)
          × ((env' : StepEnv ℕ ℕ ℕ) (s : ℕ) (i : ℕ) (v : Option ℕ) (payload : Bytes)
              → looks_like_noise_msg1 payload ≡ true
              → let c = handle_udp_payload env' (some ((s, i), v)) payload b in
                (c.re2_sess ≡ some s) × (c.video_media ≡ v) × (c.use_udp ≡ true)))
takeover_example = takeover env none changed busy refl desk_id-main refl

abbrev noise_bytes : Frame
noise_bytes = record { type = type_tunnel; route_id = desk_id; payload = make 40 }

garbage_ends_session_example :
    (noise_bytes.type ≡ type_tunnel
      → is_data_frame noise_bytes ≡ false
      → handle_frame env none noise_bytes busy ≡ busy)
    × (is_video_plane noise_bytes.payload ≡ false
        → looks_like_noise_msg1 noise_bytes.payload ≡ true
        → let b = handle_udp_payload env none noise_bytes.payload busy in
          (b.re2_sess ≡ none)
          × (b.video_media ≡ none)
          × (b.use_udp ≡ false)
          × (b.desk_sid ≡ busy.desk_sid))
garbage_ends_session_example =
    garbage_ends_session env none noise_bytes 3 busy refl (ground arith) (λ c h. h)

silent-IsReleased_example :
    ((times : List ℕ)
      → All
          (λ now.
            (now ≤ 4 * second + busy.session_idle) × (now ≤ 4 * second + desk_liveness_timeout))
          times
      → run (tick_events times) busy ≡ busy)
    × ((times : List ℕ)
        → All (λ now. now ≤ 4 * second + busy.session_idle) times
        → (run (tick_events times) busy ≡ busy)
          ⊎ (run (tick_events times) busy ≡ close_desktop busy))
    × ((times : List ℕ) (now : ℕ)
        → 4 * second + busy.session_idle < now
        → IsReleased (run (tick_events (times ++ (now ∷ []))) busy))
silent-IsReleased_example = silent-IsReleased (4 * second) busy refl refl (ground arith)

abbrev data_hello : Frame
data_hello = record {
  type = type_noise;
  route_id = channel_route desk_id channel_data;
  payload = [];
}

data_hello-is_data_frame : is_data_frame data_hello ≡ true
unfolding split_last split_route channel_route bytes_eq
data_hello-is_data_frame = refl

abbrev terminal_events : List (Event ℕ ℕ ℕ)
terminal_events =
    frame env none data_hello
    ∷ data_noise_ends env 0 (some (3, 0))
    ∷ frame env none (record data_hello { type = type_tunnel; payload = 3 ∷ 1 ∷ 0 ∷ [] })
    ∷ []

data_channel_apart_example : desktop_of (run terminal_events busy) ≡ desktop_of busy
data_channel_apart_example = data_channel_apart terminal_events busy (
  data_frame env none data_hello data_hello-is_data_frame,
  (data_noise env 0 (some (3, 0)), (data_frame env none _ data_hello-is_data_frame, tt)),
)

-- One token shown, one that is paired and the one shown issued lately.
abbrev known : PskTokens
known = record {
  paired = some (record { token = codes "old"; last_ok = 100 } ∷ []);
  recent = codes "token" ∷ [];
}

handshake_tokens_lem_example :
    let out = handshake_tokens [] (codes "token") known in
    Distinct out
    × (member [] out ≡ false)
    × ((u : Bytes)
        → (length u == 0) ≡ false
        → member u out ≡ (
            (bytes_eq (codes "token") u || is_paired u (load_paired_tokens [] known))
            || member u known.recent))
    × ((length (codes "token") == 0) ≡ false → get_elem? out 0 ≡ some (codes "token"))
handshake_tokens_lem_example = handshake_tokens_lem [] (codes "token") known

known_room : at_least 200 (load_paired_tokens [] known) < max_paired_tokens
unfolding at_least load_paired_tokens
known_room = omega arith

paired_token_kept_example :
    member
      (codes "token")
      (handshake_tokens [] (codes "new") (note_paired_token 200 [] (codes "token") known))
    ≡ true
paired_token_kept_example =
    paired_token_kept 200 [] [] (codes "token") (codes "new") known refl known_room
