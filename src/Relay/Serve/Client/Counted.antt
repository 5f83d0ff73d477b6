-- ===== src/Relay/Serve/Client/Counted.antt =====
-- Each frame of a client, and its end, keep the count of the limiter right: `serveRE2Client` of
-- cmd/relay/re2.go.
use runeverything.Bandwidth.{Limiter}
use runeverything.Relay.Serve.Client.Capacity.{
  displace-limiter, bind_re2_client-limiter, detach-limiter, acquire-IsCounted,
  release_if-IsCounted, given_back, IsCounted, holds,
}
use runeverything.Relay.Serve.Client.{
  acquire, bind_admitted, forward_to_agent, ClientSession, ClientStep, serve_client_frame,
  client_gone, redeemed, redeem, bind_outcome, bind_admit, bind_checked, bind,
}
use runeverything.Relay.Bind.{bind_re2_client, BindPayload, BindResult}
use runeverything.Relay.Hub.{re2_agent_of, Hub, write_frame}
use runeverything.Relay.Serve.{
  Decoded, good, bad, PairRedeemPayload, RelayEnv, write_re2_err, pass_frame,
}
use runeverything.Base.Bytes.{Bytes}
use runeverything.Auth.{
  RedeemResult, redeem_ok, redeem_unknown, redeem_expired, redeem_device_mismatch,
}
use runeverything.Base.{
  ℕ, ◌+◌, ◌≡◌, refl, inl, inr, Bool, true, false, ◌||◌, Option, none, some, arith, if◌then◌else◌,
  Bool-cases,
}
use runeverything.Base.Maps.{nat_eq, bytes_eq_instance}
use runeverything.Re2.Frame.{Frame}

module _ (limit n : ℕ) where
  -- What a step leaves is counted, with the session that it leaves.
  abbrev pub Counted : ClientStep → Type 0
  Counted (h, s, on) = IsCounted limit (n + holds s) h.limiter

  redeemed-Counted :
      (c : ℕ) (id : Bytes) (s : ClientSession) (h : Hub) (r : RedeemResult)
      → IsCounted limit (n + holds s) h.limiter
      → Counted (redeemed c id s h r)
  unfolding redeemed write_re2_err write_frame
  redeemed-Counted c id s h (redeem_ok ack) v = v
  redeemed-Counted c id s h redeem_expired v = v
  redeemed-Counted c id s h redeem_device_mismatch v = v
  redeemed-Counted c id s h redeem_unknown v = v

  redeem-Counted :
      (env : RelayEnv) (c : ℕ) (f : Frame) (s : ClientSession) (h : Hub)
      (p : Decoded PairRedeemPayload)
      → IsCounted limit (n + holds s) h.limiter
      → Counted (redeem env c f s h p)
  unfolding redeem write_re2_err write_frame
  redeem-Counted env c f s h (bad msg) v = v
  redeem-Counted env c f s h (good p) v = redeemed-Counted c p.device_id s _ _ v

  bind_outcome-Counted :
      (env : RelayEnv) (c : ℕ) (b : BindPayload) (s : ClientSession) (h : Hub) (r : BindResult)
      → IsCounted limit (n + 1) h.limiter
      → Counted (bind_outcome env c b s (h, r))
  unfolding bind_outcome write_frame
  bind_outcome-Counted env c b s h r v = elim (Bool-cases r.busy) [
    | inl busy ↦ rw busy (given_back limit n s.acquired h.limiter v)
    | inr free ↦ rw (free, displace-limiter env b r.displaced h) v
  ]

  bind_admitted-Counted :
      (env : RelayEnv) (c : ℕ) (b : BindPayload) (s : ClientSession) (h : Hub)
      (r : Option Limiter × Bool)
      → IsCounted limit (n + (if r.1 || s.acquired then 1 else 0)) r.0
      → Counted (bind_admitted env c b s h r)
  unfolding bind_admitted write_re2_err write_frame
  bind_admitted-Counted env c b s h (l, false) v = v
  bind_admitted-Counted env c b s h (l, true) v =
      let (h', res) = bind_re2_client env.now b.device_id c b (record h { limiter = l }) in
      bind_outcome-Counted env c b s h' res
        (rw (bind_re2_client-limiter env.now c b.device_id b (record h { limiter = l })) v)

  bind_admit-Counted :
      (env : RelayEnv) (c : ℕ) (b : BindPayload) (s : ClientSession) (h : Hub)
      → IsCounted limit (n + holds s) h.limiter
      → Counted (bind_admit env c b s h)
  unfolding bind_admit
  bind_admit-Counted env c b s h v =
      bind_admitted-Counted env c b s h (acquire s.acquired h.limiter)
        (acquire-IsCounted limit n s.acquired h.limiter v)

  bind-Counted :
      (env : RelayEnv) (c : ℕ) (f : Frame) (s : ClientSession) (h : Hub) (p : Decoded BindPayload)
      → IsCounted limit (n + holds s) h.limiter
      → Counted (bind env c f s h p)
  unfolding bind write_re2_err write_frame bind_checked
  bind-Counted env c f s h (bad msg) v = v
  bind-Counted env c f s h (good b) v = ground (arith, bind_admit-Counted env c b s h v)

  forward_to_agent-limiter :
      (c : ℕ) (f : Frame) (route : Bytes) (o : Option ℕ) (h : Hub)
      → (forward_to_agent c f route o h).limiter ≡ h.limiter
  unfolding forward_to_agent write_re2_err pass_frame write_frame
  forward_to_agent-limiter c f route none h = refl
  forward_to_agent-limiter c f route (some agent) h = refl

  pub serve_client_frame-Counted :
      (env : RelayEnv) (c : ℕ) (f : Frame) (s : ClientSession) (h : Hub)
      → IsCounted limit (n + holds s) h.limiter
      → Counted (serve_client_frame env c f s h)
  unfolding serve_client_frame write_frame write_re2_err pass_frame
  serve_client_frame-Counted env c f s h v = ground (
    arith,
    redeem-Counted env c f s h (env.parse_redeem f.payload),
    bind-Counted env c f s h (env.parse_bind f.payload),
    forward_to_agent-limiter c f s.route (re2_agent_of s.route h) h,
  )

  pub client_gone-IsCounted :
      (c : ℕ) (s : ClientSession) (h : Hub)
      → IsCounted limit (n + holds s) h.limiter
      → IsCounted limit n (client_gone c s h).limiter
  unfolding client_gone
  client_gone-IsCounted c s h v =
      release_if-IsCounted limit n s.acquired _ (rw (detach-limiter c s.device_id h) v)
