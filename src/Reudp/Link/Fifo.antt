-- ===== src/Reudp/Link/Fifo.antt =====
-- Both endpoints together: nothing is lost, repeated or put in another order between `SendReliable`
-- and `Recv` of internal/reudp/endpoint.go.
use runeverything.Reudp.Link.{
  World, Step, sends, ticks, data_comes, ack_comes, reads, Reach, start, later,
}
use runeverything.Reudp.Link.Datagrams.{DataOf, IsAck}
use runeverything.Reudp.Link.Hears.{next_expect_le, Hears, Alike, Alike-Hears, data_comes-Hears}
use runeverything.Reudp.Link.Sender.{
  lookup-DataOf, Sending, handle_ack-Sending, handle_ack_rest, retransmit_tick-Sending,
  send_reliable-Grown,
}
use runeverything.Reudp.Receive.Delivery.Loop.{has, sent_from, recv_many-stream}
use runeverything.Reudp.Receive.Probe.{read_datagram-ack}
use runeverything.Reudp.Receive.Freed.{lookup-handle_ack}
use runeverything.Reudp.Receive.{Env, acked_by, handle_ack, read_datagram, recv_many}
use runeverything.Reudp.Send.{retransmit_tick, send_reliable}
use runeverything.Reudp.Endpoint.{Endpoint, InflightPkt, incoming_cap, stream, dial}
use runeverything.Reudp.Address.{Addr}
use runeverything.Base.Bytes.{Bytes}
use runeverything.Base.Float64.{Float64}
use runeverything.Base.{
  ℕ, ◌+◌, ◌^◌, ◌≤◌, ◌<◌, ◌≡◌, refl, ◌⊎◌, inl, inr, true, false, Option, some, arith, Bool-cases,
  All-get_elem?, is_some,
}
use runeverything.Base.Maps.{lookup, nat_eq}

module _ {F : Type 0} ⦃fl : Float64 F⦄ (msgs : ℕ → Bytes) where
  Hears-mono : (n : ℕ) (r : Endpoint F) → Hears msgs n r → Hears msgs (n + 1) r
  Hears-mono n r v = record {
    streamed = v.streamed;
    stored = v.stored;
    missing = v.missing;
    below = λ s e. omega (arith, v.below s e);
    answers = v.answers;
  }

  -- Every payload that was sent is in flight or has been received.
  abbrev pub Cared : Endpoint F → Endpoint F → ℕ → Type 0
  Cared a b s = (is_some (lookup s a.inflight) ≡ true) ⊎ (has b s ≡ true)

  pub record Sound (w : World F) : Type 0 where
    pub sending : Sending msgs w.sender
    pub hears : Hears msgs w.sender.next_seq w.receiver
    pub room : w.sender.next_seq + incoming_cap < 2 ^ 32
    pub cared : (s : ℕ) → s < w.sender.next_seq → Cared w.sender w.receiver s

  start-Sound :
      (relay relay' : Addr) → Sound (record { sender = dial relay; receiver = dial relay' })
  unfolding dial has lookup
  start-Sound relay relay' = record {
    sending = record { said = tt; flying = tt };
    hears = record {
      streamed = refl;
      stored = λ s b e. ground arith;
      missing = refl;
      below = λ s e. ground arith;
      answers = record { keys = tt; acks = tt };
    };
    room = omega arith;
    cared = λ s lt. absurd (omega arith);
  }

  acked-Sound :
      (now cum sack : ℕ) (w : World F)
      → ((s : ℕ) → s < 2 ^ 32 → acked_by cum sack s ≡ true → has w.receiver s ≡ true)
      → Sound w
      → Sound (record w { sender = handle_ack now cum sack w.sender })
  acked-Sound now cum sack w told v =
      let a = w.sender in
      let (next, same) = handle_ack_rest msgs now cum sack a in
      let cared : (s : ℕ) → s < a.next_seq → Cared (handle_ack now cum sack a) w.receiver s =
        λ s lt.
          let flight = lookup-handle_ack now cum sack s a in
          elim (Bool-cases (acked_by cum sack s)) [
            | inl heard ↦ inr (told s (omega (arith, v.room)) heard)
            | inr unheard ↦ ground (arith, flight, v.cared s lt)
          ] in
      record {
        sending = handle_ack-Sending msgs now cum sack a v.sending;
        hears = rw next v.hears;
        room = rw next v.room;
        cared = rw next cared;
      }

  ack_comes-Sound :
      (env : Env) (conn : Option ℕ) (addr : Option Addr) (b : Bytes) (w : World F)
      → IsAck w.receiver b
      → Sound w
      → Sound (record w { sender = read_datagram env conn addr b w.sender })
  ack_comes-Sound env conn addr b w a v =
      let path =
        read_datagram-ack env conn addr b a.p w.sender a.cum a.sack a.text a.is_ack a.body in
      rw path (acked-Sound env.now a.cum a.sack w a.sound v)

  reads-Sound :
      (k : ℕ) (w : World F)
      → Sound w
      → Sound
          (record w { receiver = record w.receiver { incoming = recv_many k w.receiver.incoming } })
  unfolding has
  reads-Sound k w v =
      let r = record w.receiver { incoming = recv_many k w.receiver.incoming } in
      let same : Alike msgs w.receiver r = record {
        next_expect_eq = refl;
        recv_buf_eq = refl;
        stream_eq = (recv_many-stream k w.receiver.incoming).0;
        sent_eq = refl;
      } in
      record {
        sending = v.sending;
        hears = Alike-Hears msgs w.sender.next_seq w.receiver r same v.hears;
        room = v.room;
        cared = v.cared;
      }

  Step-Sound : {w w' : World F} → Step msgs w w' → Sound w → Sound w'
  Step-Sound {w} (sends env waited fits ranges far) v =
      let a = w.sender in
      let g = send_reliable-Grown msgs env a waited fits ranges (omega arith) v.sending in
      record {
        sending = g.sending;
        hears = rw g.next_seq_eq (Hears-mono a.next_seq w.receiver v.hears);
        room = omega (arith, g.next_seq_eq);
        cared =
            let cared : (s : ℕ)
                → s < a.next_seq + 1
                → Cared (send_reliable env (msgs a.next_seq) a).0 w.receiver s =
              λ s lt. ground (arith, g.held s, v.cared s) in
            rw g.next_seq_eq cared;
      }
  Step-Sound {w} (ticks net now) v =
      let a = w.sender in
      let (sending, next, held) = retransmit_tick-Sending msgs net now a v.sending in
      let cared : (s : ℕ) → s < a.next_seq → Cared (retransmit_tick net now a) w.receiver s =
        λ s lt. ground (arith, held s, v.cared s lt) in
      record {
        sending = sending;
        hears = rw next v.hears;
        room = rw next v.room;
        cared = rw next cared;
      }
  Step-Sound {w} (data_comes env conn addr i d b at room hash) v =
      let n = w.sender.next_seq in
      let (s, lt, d) = All-get_elem? _ w.sender.sent i v.sending.said at in
      let (hears, more, here) =
        data_comes-Hears msgs env conn addr n s b w.receiver lt d v.room room hash v.hears in
      record {
        sending = v.sending;
        hears = hears;
        room = v.room;
        cared = λ s lt. ground (arith, more s, v.cared s lt);
      }
  Step-Sound {w} (ack_comes env conn addr i d b at) v =
      ack_comes-Sound env conn addr b w (All-get_elem? _ w.receiver.sent i v.hears.answers.acks at)
        v
  Step-Sound {w} (reads k) v = reads-Sound k w v

  pub Reach-Sound : {relay relay' : Addr} {w : World F} → Reach msgs relay relay' w → Sound w
  Reach-Sound {relay} {relay'} start = start-Sound relay relay'
  Reach-Sound (later r s) = Step-Sound s (Reach-Sound r)

  -- In every run from two dialled endpoints, with datagrams lost, repeated and reordered at will,
  -- where the payloads fit, are sent with an open window, stay so few that their numbers do not
  -- wrap, and find room at the receiver: what the receiver's application has read, and what waits
  -- for it, together are the first payloads that were sent, each once and in their order, and no
  -- more than were sent.
  pub reliable_fifo :
      {relay relay' : Addr} (w : World F)
      → Reach msgs relay relay' w
      → (n : ℕ) × (n ≤ w.sender.next_seq) × (stream w.receiver.incoming ≡ sent_from msgs 0 n)
  reliable_fifo w r =
      let v = Reach-Sound r in
      (
        w.receiver.next_expect,
        next_expect_le msgs w.sender.next_seq w.receiver v.hears.below,
        v.hears.streamed,
      )

  -- In every run of that kind, with lost, repeated and reordered datagrams, payloads that fit, an
  -- open window, numbers that do not wrap and room at the receiver: a payload that was sent and
  -- that the receiver does not have is still in flight at the sender, under its number, as bytes
  -- that decode to a data packet with it.
  pub never_lost :
      {relay relay' : Addr} (w : World F) (s : ℕ)
      → Reach msgs relay relay' w
      → s < w.sender.next_seq
      → has w.receiver s ≡ false
      → (inf : InflightPkt) × (lookup s w.sender.inflight ≡ some inf) × DataOf msgs s inf.bytes
  never_lost w s r lt missing =
      let v = Reach-Sound r in
      lookup-DataOf msgs w.sender.next_seq s w.sender.inflight v.sending.flying
        (ground (arith, v.cared s lt))
