-- ===== src/Examples/Flow.antt =====
-- Concrete endpoints and runs for internal/reudp.
use runeverything.Reudp.Send.Reliable.{IsU32, Recorded, send_reliable-Recorded}
use runeverything.Reudp.Send.Retransmit.{resent, due, retransmit_tick_lem}
use runeverything.Reudp.Receive.Delivery.Loop.{sent_from}
use runeverything.Reudp.Receive.Delivery.History.{step, arrived, run, Fits, delivered_in_order}
use runeverything.Reudp.Receive.Ack.{ack_exact}
use runeverything.Reudp.Receive.Dropped.{full_channel_loses}
use runeverything.Reudp.Receive.Freed.{answered, answered_exact}
use runeverything.Reudp.Congestion.Bounds.{apply_all, window_bounds}
use runeverything.Reudp.Send.{
  may_send, SendEnv, max_polls, wait_window, send_reliable, retransmit_tick,
}
use runeverything.Reudp.Endpoint.{
  hand_over, write_raw, Dest, main_to, Endpoint, stream, dial, write_bytes,
}
use runeverything.Reudp.Congestion.{can_send, microsecond, millisecond, new_congestion, window}
use runeverything.Reudp.Address.{Addr}
use runeverything.Reudp.Receive.{
  recv_many, deliver, send_ack, drain_one, drain, drain_all, accept, Env, delta, acked_by, ack_cum,
  ack_sack, handle_data,
}
use runeverything.Base.Bytes.{Bytes}
use runeverything.Base.{
  ℕ, ◌+◌, ◌-◌, ◌*◌, ◌%◌, ◌≤◌, ◌≡◌, refl, Bool, true, false, ◌&&◌, ◌||◌, none, List, [], ◌∷◌, ◌++◌,
  arith, ltb, if◌then◌else◌, is_some, length, replicate, length-replicate,
}
use mathlib.Core.Option
use mathlib.Core.List.{map}
use runeverything.Base.Float64.{whole, whole-FloatLaws}
use runeverything.Base.Maps.{insert, delete, lookup, nat_eq, bytes_eq_instance}
use runeverything.Reudp.Receive.{recv}
use runeverything.Reudp.Receive.Delivery.Runs.{arrival}
use runeverything.Base.Bytes.{write}
use runeverything.Reudp.Packet
use runeverything.Reudp.Packet.{Packet}
use runeverything.Reudp.Receive.Delivery.History
use runeverything.Reudp.Congestion.Bounds

abbrev relay : Addr
relay = record { ip = 10 ∷ 0 ∷ 0 ∷ 1 ∷ []; port = 7000; zone = [] }

abbrev pub fresh : Endpoint ℕ
fresh = dial relay

window_bounds_example :
    (2 ≤ window (apply_all (new_congestion {F = ℕ}) (Bounds.lost ∷ Bounds.send 3 ∷ [])))
    × (window (apply_all (new_congestion {F = ℕ}) (Bounds.lost ∷ Bounds.send 3 ∷ [])) ≤ 512)
    × (500 * microsecond
        ≤ (apply_all (new_congestion {F = ℕ}) (Bounds.lost ∷ Bounds.send 3 ∷ [])).pace_gap)
    × ((apply_all (new_congestion {F = ℕ}) (Bounds.lost ∷ Bounds.send 3 ∷ [])).pace_gap
        ≤ 20 * millisecond)
window_bounds_example = window_bounds whole-FloatLaws (Bounds.lost ∷ Bounds.send 3 ∷ [])

-- A network that takes every datagram.
abbrev open_net : Dest → Bytes → Bool
open_net d b = true

-- Up to 2 received, and 4 waits out of order.
abbrev receiver : Endpoint ℕ
receiver = record fresh { next_expect = 3; recv_buf = (4, 9 ∷ []) ∷ [] }

abbrev sender : Endpoint ℕ
sender = record fresh {
  next_seq = 4;
  inflight = (3, record { bytes = 7 ∷ []; sent_at = 1; retries = 0 }) ∷ [];
}

ack_exact_example :
    (cum : ℕ) × (sack : ℕ) × (Packet.decode_ack
        (Packet.encode_ack (ack_cum (receiver.next_expect - 1) receiver) (ack_sack receiver))
      ≡ Packet.ok (cum, sack))
    × (acked_by cum sack 4 ≡ (
        ltb 4 receiver.next_expect
        || (ltb (delta 4 receiver.next_expect) 64 && is_some (lookup 4 receiver.recv_buf))))
ack_exact_example = ack_exact receiver 4 (omega arith) (omega arith) (ground arith)

answered_exact_example : lookup 3 (answered 50 receiver sender).inflight ≡ (
    if ltb 3 receiver.next_expect
      || (ltb (delta 3 receiver.next_expect) 64 && is_some (lookup 3 receiver.recv_buf))
    then none
    else lookup 3 sender.inflight)
answered_exact_example =
    answered_exact 50 3 sender receiver (omega arith) (omega arith) (ground arith)

abbrev env : Env
env = record {
  now = 9;
  net = open_net;
  reads = λ i. 0;
  parse_assoc_ok = λ b. none;
  parse_error = λ b. ([], []);
}

abbrev msgs : ℕ → Bytes
msgs s = (s % 256) ∷ []

-- The second datagram overtakes the first.
abbrev swapped : List History.Event
swapped =
    History.arrives env 1
    ∷ History.reader_takes 1
    ∷ History.arrives env 0
    ∷ History.arrives env 1
    ∷ []

swapped-Fits : Fits {F = ℕ} msgs (dial relay) swapped
unfolding step dial handle_data accept drain_all drain drain_one insert lookup delete deliver
    recv_many send_ack write_raw write_bytes hand_over recv arrival Packet.encode Packet.encode_ack
    write
swapped-Fits =
    (omega arith, omega arith, (omega arith, omega arith, (omega arith, omega arith, tt)))

delivered_in_order_example :
    (n : ℕ) × (stream (run {F = ℕ} msgs (dial relay) swapped).incoming ≡ sent_from msgs 0 n)
    × (arrived n swapped ≡ false)
    × (arrived 1 swapped
        ≡ (ltb 1 n || is_some (lookup 1 (run {F = ℕ} msgs (dial relay) swapped).recv_buf)))
delivered_in_order_example = delivered_in_order ℕ msgs relay swapped 1 swapped-Fits

-- The channel is full of empty payloads.
abbrev full : Endpoint ℕ
full = record fresh { incoming = record { buf = replicate 1024 []; taken = [] } }

abbrev first_packet : Packet
first_packet = record { type = 0x10; flags = 1; route_hash = 0; seq = 0; ack = 0; payload = 5 ∷ [] }

full_channel_loses_example :
    (stream (handle_data env first_packet full).incoming ≡ stream full.incoming)
    × ((handle_data env first_packet full).next_expect ≡ full.next_expect + 1)
    × (lookup 0 (answered 3 (handle_data env first_packet full) sender).inflight ≡ none)
full_channel_loses_example =
    let n : length full.incoming.buf ≡ 1024 = length-replicate {A = Bytes} 1024 [] in
    full_channel_loses env 3 first_packet full sender (ground arith) (unfold dial in refl)
      (unfold dial in refl) (unfold dial in omega arith) (omega arith) refl

abbrev pub send_env : SendEnv ℕ
send_env = record {
  clock = λ i. 1000000000;
  others = λ i ep. ep;
  sent_now = 1000000000;
  net = open_net;
}

fresh-IsU32 : IsU32 fresh
unfolding dial
fresh-IsU32 = record {
  hash_u32 = omega arith;
  next_seq_u32 = omega arith;
  next_expect_u32 = omega arith;
}

fresh_may_send : wait_window max_polls send_env 0 fresh ≡ (fresh, may_send)
unfolding wait_window can_send dial new_congestion
fresh_may_send = refl

send_reliable-Recorded_example :
    Recorded send_env (5 ∷ []) fresh (send_reliable send_env (5 ∷ []) fresh)
send_reliable-Recorded_example =
    send_reliable-Recorded send_env (5 ∷ []) fresh fresh fresh-IsU32 (omega arith) fresh_may_send

retransmit_tick_lem_example :
    (lookup 3 (retransmit_tick open_net 2000000000 sender).inflight
      ≡ Option.map (resent 2000000000) (lookup 3 sender.inflight))
    × ((retransmit_tick open_net 2000000000 sender).sent
        ≡ sender.sent ++ map (λ b. (main_to relay, b)) (due 2000000000 sender.inflight))
retransmit_tick_lem_example =
    retransmit_tick_lem open_net 2000000000 3 sender relay (unfold dial in refl)
      (unfold dial in refl) (unfold dial in refl)
