-- ===== src/Examples/Links.antt =====
-- A run of two endpoints of internal/reudp.
use runeverything.Reudp.Link.Fifo.{reliable_fifo, never_lost}
use runeverything.Reudp.Link.Again.{Redelivered, lost_comes_again}
use runeverything.Reudp.Link.Datagrams.{DataOf}
use runeverything.Reudp.Link.{World, Step, sends, data_comes, reads, Reach, start, later}
use runeverything.Reudp.Receive.Delivery.Loop.{has, sent_from}
use runeverything.Reudp.Congestion.{can_send, new_congestion, on_send}
use runeverything.Reudp.Send.{
  SendEnv, wait_window, retransmit_tick, is_due, send_reliable, send_data, transmit, after_wait,
  send_encoded, finish_send, data_packet, take_seq, record_inflight,
}
use runeverything.Reudp.Endpoint.{Dest, main_to, InflightPkt, stream, dial, write_bytes, hand_over}
use runeverything.Reudp.Receive.{Env, read_datagram, recv_many}
use runeverything.Reudp.Address.{Addr}
use runeverything.Base.Bytes.{Bytes}
use runeverything.Base.Float64.{whole}
use runeverything.Base.Maps.{lookup, insert, nat_eq}
use runeverything.Base.{
  some-injective, sym, ◌∙◌, ℕ, ◌≤◌, ◌≡◌, refl, Bool, true, none, some, [], ◌∷◌, arith, ◌%◌,
  get_elem?,
}
use runeverything.Base.Bytes.{write}
use runeverything.Reudp.Packet

abbrev relay : Addr
relay = record { ip = 10 ∷ 0 ∷ 0 ∷ 1 ∷ []; port = 7000; zone = [] }

abbrev open_net : Dest → Bytes → Bool
open_net d b = true

abbrev msgs : ℕ → Bytes
msgs s = (s % 256) ∷ []

abbrev outside : SendEnv ℕ
outside = record { clock = λ i. 100000000; others = λ i ep. ep; sent_now = 0; net = open_net }

abbrev env : Env
env = record {
  now = 9;
  net = open_net;
  reads = λ i. 0;
  parse_assoc_ok = λ b. none;
  parse_error = λ b. ([], []);
}

abbrev world0 : World ℕ
world0 = record { sender = dial relay; receiver = dial relay }

abbrev world1 : World ℕ
world1 = record world0 { sender = (send_reliable outside (msgs 0) (dial relay)).0 }

-- The bytes of the first datagram.
abbrev wire : Bytes
wire =
    82 ∷ 85 ∷ 1 ∷ 16 ∷ 1 ∷ 0 ∷ 0 ∷ 0 ∷ 0 ∷ 0 ∷ 0 ∷ 0 ∷ 0 ∷ 0 ∷ 255 ∷ 255 ∷ 255 ∷ 255 ∷ 0 ∷ 1 ∷ 0
    ∷ []

step1 : Step msgs world0 world1
unfolding wait_window can_send dial new_congestion
step1 =
    sends outside refl (omega arith)
      (record { hash_u32 = omega arith; next_seq_u32 = omega arith; next_expect_u32 = omega arith })
      (omega arith)

sent_first : get_elem? world1.sender.sent 0 ≡ some (main_to relay, wire)
unfolding send_reliable send_data wait_window can_send new_congestion on_send dial after_wait
    transmit send_encoded finish_send data_packet take_seq record_inflight insert write_bytes
    hand_over Packet.encode write
sent_first = refl

-- It arrives and is read.
abbrev world2 : World ℕ
world2 = record world1 { receiver = read_datagram env none (some relay) wire world1.receiver }

abbrev world3 : World ℕ
world3 = record world2 {
  receiver = record world2.receiver { incoming = recv_many 1 world2.receiver.incoming };
}

step2 : Step msgs world1 world2
unfolding dial
step2 =
    data_comes env none (some relay) 0 (main_to relay) wire sent_first (omega arith) (omega arith)

run3 : Reach msgs relay relay world3
run3 = later (later (later start step1) step2) (reads 1)

never_lost_example :
    (inf : InflightPkt) × (lookup 0 world1.sender.inflight ≡ some inf) × DataOf msgs 0 inf.bytes
unfolding dial send_reliable send_data wait_window can_send new_congestion after_wait transmit
    send_encoded finish_send data_packet take_seq record_inflight write_bytes Packet.encode has
    lookup
never_lost_example = never_lost msgs world1 0 (later start step1) (omega arith) refl

reliable_fifo_example :
    (n : ℕ) × (n ≤ world3.sender.next_seq) × (stream world3.receiver.incoming ≡ sent_from msgs 0 n)
reliable_fifo_example = reliable_fifo msgs world3 run3

abbrev in_flight : InflightPkt
in_flight = record { bytes = wire; sent_at = 0; retries = 0 }

flying : lookup 0 world1.sender.inflight ≡ some in_flight
unfolding send_reliable send_data wait_window can_send new_congestion on_send dial after_wait
    transmit send_encoded finish_send data_packet take_seq record_inflight insert lookup write_bytes
    hand_over Packet.encode write
flying = refl

is_late :
    (inf : InflightPkt) → lookup 0 world1.sender.inflight ≡ some inf → is_due 300000000 inf ≡ true
is_late inf e = let same : in_flight ≡ inf = some-injective (sym flying ∙ e) in rw⁻¹ same refl

-- The first datagram was lost; the tick comes after 300 ms.
lost_comes_again_example :
    Redelivered msgs 0 world1.sender
      (retransmit_tick open_net 300000000 world1.sender)
      world1.receiver
unfolding dial has lookup send_reliable send_data wait_window can_send new_congestion after_wait
    transmit send_encoded finish_send data_packet take_seq record_inflight write_bytes Packet.encode
lost_comes_again_example =
    lost_comes_again msgs world1 0 open_net 300000000 (later start step1) (omega arith) refl refl
      (λ inf e. is_late inf e) (omega arith) (omega arith)
