-- ===== src/Reudp/Send.antt =====
-- internal/reudp/endpoint.go: sending, and the retransmission loop.
pub mod Reliable
pub mod Sent
pub mod Retransmit
use runeverything.Base.{
  ℕ, zero, suc, ◌+◌, ◌-◌, ◌*◌, Bool, true, false, ◌||◌, List, [], ◌∷◌, ◌++◌, ltb, ◌==◌,
  if◌then◌else◌, length,
}
use runeverything.Base.Bytes.{Bytes}
use runeverything.Base.Maps.{nat_eq, insert}
use runeverything.Base.Float64.{Float64}
use runeverything.Reudp.Congestion.{can_send, on_send, on_loss, millisecond}
use runeverything.Reudp.Packet.{
  Packet, Result, encode, max_payload, flag_reliable, flag_latest, type_data,
}
use runeverything.Reudp.Packet
use runeverything.Reudp.Endpoint.{Endpoint, InflightPkt, Dest, u32, no_ack, write_bytes}
use runeverything.Reudp.Receive.{is_reliable}

pub data SendResult : Type 0 where
  done too_large net_closed congested write_failed : SendResult

-- How the wait for the window ended.
pub data Wait : Type 0 where
  may_send was_closed gave_up : Wait

-- What a sender takes from outside: the time at each poll, what the other goroutines do during
-- the millisecond of sleep after it, the time of the send, and which writes succeed.
pub record SendEnv (F : Type 0) : Type 0 where
  pub clock : ℕ → ℕ
  pub others : ℕ → Endpoint F → Endpoint F
  pub sent_now : ℕ
  pub net : Dest → Bytes → Bool

abbrev pub max_polls : ℕ
max_polls = 500

module _ {F : Type 0} ⦃fl : Float64 F⦄ where
  -- `CanSend` is asked at most 500 times, with a look at `closed` after each sleep.
  unfoldable pub wait_window : ℕ → SendEnv F → ℕ → Endpoint F → Endpoint F × Wait
  wait_window zero env i ep = (ep, gave_up)
  wait_window (suc polls) env i ep =
      let slept = env.others i ep in
      let rest = wait_window polls env (i + 1) slept in
      if can_send (env.clock i) ep.cong
      then (ep, may_send)
      else if slept.closed
      then (slept, was_closed)
      else rest

  -- The packet that a data payload travels in, with the cumulative acknowledgement on its back.
  unfoldable pub data_packet : ℕ → Bytes → Endpoint F → Packet
  data_packet flags payload ep = record {
    type = type_data;
    flags = flags;
    route_hash = ep.route_hash;
    seq = if is_reliable flags then ep.next_seq else 0;
    ack = if ltb 0 ep.next_expect then ep.next_expect - 1 else no_ack;
    payload = payload;
  }

  -- The sequence number is taken before the packet is encoded.
  unfoldable pub take_seq : ℕ → Endpoint F → Endpoint F
  take_seq flags ep =
      if is_reliable flags then record ep { next_seq = u32 (ep.next_seq + 1) } else ep

  unfoldable pub record_inflight : ℕ → ℕ → ℕ → Bytes → Endpoint F → Endpoint F
  record_inflight now flags seq b ep =
      if is_reliable flags
      then record ep {
        inflight = insert seq (record { bytes = b; sent_at = now; retries = 0 }) ep.inflight;
        cong = on_send now ep.cong;
      }
      else ep

  unfoldable pub finish_send : Endpoint F × Bool → Endpoint F × SendResult
  finish_send (ep, true) = (ep, done)
  finish_send (ep, false) = (ep, write_failed)

  unfoldable pub send_encoded :
      SendEnv F → ℕ → ℕ → Result Bytes → Endpoint F → Endpoint F × SendResult
  unfolding finish_send
  send_encoded env flags seq (Packet.err e) ep = (ep, too_large)
  send_encoded env flags seq (Packet.ok b) ep =
      finish_send (write_bytes env.net b (record_inflight env.sent_now flags seq b ep))

  unfoldable pub transmit : SendEnv F → ℕ → Bytes → Endpoint F → Endpoint F × SendResult
  unfolding send_encoded
  transmit env flags payload ep =
      send_encoded env flags (data_packet flags payload ep).seq
        (encode (data_packet flags payload ep) []) (take_seq flags ep)

  unfoldable pub after_wait : SendEnv F → ℕ → Bytes → Endpoint F × Wait → Endpoint F × SendResult
  unfolding transmit
  after_wait env flags payload (ep, may_send) = transmit env flags payload ep
  after_wait env flags payload (ep, was_closed) = (ep, net_closed)
  after_wait env flags payload (ep, gave_up) = (ep, congested)

  unfoldable pub send_data : SendEnv F → ℕ → Bytes → Endpoint F → Endpoint F × SendResult
  unfolding after_wait
  send_data env flags payload ep =
      if ltb max_payload (length payload)
      then (ep, too_large)
      else if is_reliable flags
      then after_wait env flags payload (wait_window max_polls env 0 ep)
      else transmit env flags payload ep

  unfoldable pub send_unreliable : SendEnv F → Bytes → Endpoint F → Endpoint F × SendResult
  send_unreliable env payload ep = send_data env 0 payload ep

  unfoldable pub send_reliable : SendEnv F → Bytes → Endpoint F → Endpoint F × SendResult
  send_reliable env payload ep = send_data env flag_reliable payload ep

  unfoldable pub send_latest : SendEnv F → Bytes → Endpoint F → Endpoint F × SendResult
  send_latest env payload ep = send_data env flag_latest payload ep

-- The pass over the packets in flight: those kept, the datagrams to send again, and whether one
-- has now been sent again for the 3rd or the 10th time.
pub record Sweep : Type 0 where
  pub kept : List (ℕ × InflightPkt)
  pub to_send : List Bytes
  pub lost : Bool

abbrev pub resend_gap : InflightPkt → ℕ
resend_gap inf = if ltb 10 inf.retries then 500 * millisecond else 200 * millisecond

abbrev pub is_due : ℕ → InflightPkt → Bool
is_due now inf = ltb (resend_gap inf) (now - inf.sent_at)

sweep_one : ℕ → Sweep → ℕ × InflightPkt → Sweep
sweep_one now s (seq, inf) =
    if is_due now inf
    then record {
      kept = s.kept ++ ((seq, record inf { sent_at = now; retries = inf.retries + 1 }) ∷ []);
      to_send = s.to_send ++ (inf.bytes ∷ []);
      lost = s.lost || (inf.retries + 1 == 3 || inf.retries + 1 == 10);
    }
    else record s { kept = s.kept ++ ((seq, inf) ∷ []) }

pub sweep : ℕ → Sweep → List (ℕ × InflightPkt) → Sweep
sweep now s [] = s
sweep now s (x ∷ xs) = sweep now (sweep_one now s x) xs

module _ {F : Type 0} ⦃fl : Float64 F⦄ where
  unfoldable pub write_all : (Dest → Bytes → Bool) → List Bytes → Endpoint F → Endpoint F
  write_all net [] ep = ep
  write_all net (b ∷ bs) ep = write_all net bs (write_bytes net b ep).0

  pub resend : (Dest → Bytes → Bool) → Sweep → Endpoint F → Endpoint F
  resend net s ep =
      let ep' = write_all net s.to_send (record ep { inflight = s.kept }) in
      if s.lost then record ep' { cong = on_loss ep'.cong } else ep'

  -- One tick of `retransmitLoop`.
  unfoldable pub retransmit_tick : (Dest → Bytes → Bool) → ℕ → Endpoint F → Endpoint F
  unfolding sweep sweep_one resend
  retransmit_tick net now ep =
      if ep.closed
      then ep
      else resend net (sweep now (record { kept = []; to_send = []; lost = false }) ep.inflight) ep
