-- ===== src/Reudp/Receive.antt =====
-- internal/reudp/endpoint.go: what the read loop does with a datagram. A handler runs to its end
-- before the next begins; only the reader of the channel may run in between.
pub mod Ack
pub mod Delivery
pub mod Dropped
pub mod Freed
pub mod Frame
pub mod Probe
use runeverything.Base.{
  ℕ, zero, suc, ◌+◌, ◌-◌, ◌%◌, ◌^◌, Bool, true, not, ◌&&◌, Option, none, some, List, [], ◌∷◌, ◌++◌,
  ltb, leb, ◌==◌, if◌then◌else◌, is_some, length, take,
}
use runeverything.Base.Bytes.{Bytes, bytes_eq, codes}
use runeverything.Base.Bits.{test_bit, set_bit}
use runeverything.Base.Maps.{nat_eq, lookup, insert, delete}
use runeverything.Base.Float64.{Float64}
use runeverything.Reudp.Address.{Addr, is_private_udp_addr, udp_addr_equal}
use runeverything.Reudp.Congestion.{on_ack}
use runeverything.Reudp.Packet.{
  Packet, Result, decode, encode_ack, decode_ack, type_assoc_ok, type_ack, type_data, type_ping,
  type_pong, type_error,
}
use runeverything.Reudp.Packet
use runeverything.Reudp.Endpoint.{
  Endpoint, InflightPkt, Chan, AssocOkPayload, json_error, refused, Dest, main_to, punched_to,
  incoming_cap, u32, no_ack, prefer_direct_addr, hand_over, write_raw,
}

-- What a handler takes from outside: the time, which writes succeed, how many payloads the
-- channel's reader takes while the i-th delivery waits, and the JSON decoder.
pub record Env : Type 0 where
  pub now : ℕ
  pub net : Dest → Bytes → Bool
  pub reads : ℕ → ℕ
  pub parse_assoc_ok : Bytes → Option AssocOkPayload
  -- The code and the message; empty where the text has none.
  pub parse_error : Bytes → Bytes × Bytes

-- `seq - base` on uint32.
abbrev pub delta : ℕ → ℕ → ℕ
delta seq base = (seq + 2 ^ 32 - base) % 2 ^ 32

unfoldable pub acked_by : ℕ → ℕ → ℕ → Bool
acked_by cum sack seq =
    if not (cum == no_ack) && leb seq cum
    then true
    else (let d = delta seq (u32 (cum + 1)) in ltb d 64 && test_bit sack d)

-- The loop of `handleAck` over the packets in flight: those left, the count, the first round trip.
pub record AckLoop : Type 0 where
  pub left : List (ℕ × InflightPkt)
  pub n : ℕ
  pub rtt : ℕ

ack_one : ℕ → ℕ → ℕ → AckLoop → ℕ × InflightPkt → AckLoop
unfolding acked_by
ack_one now cum sack s (seq, inf) =
    if acked_by cum sack seq
    then record s { n = s.n + 1; rtt = if s.rtt == 0 then now - inf.sent_at else s.rtt }
    else record s { left = s.left ++ ((seq, inf) ∷ []) }

ack_loop : ℕ → ℕ → ℕ → AckLoop → List (ℕ × InflightPkt) → AckLoop
ack_loop now cum sack s [] = s
ack_loop now cum sack s (x ∷ xs) = ack_loop now cum sack (ack_one now cum sack s x) xs

take_front : List Bytes → List Bytes → Chan × Option Bytes
take_front taken [] = (record { buf = []; taken = taken }, none)
take_front taken (b ∷ rest) = (record { buf = rest; taken = taken ++ (b ∷ []) }, some b)

-- One receive of the channel's reader.
unfoldable pub recv : Chan → Chan × Option Bytes
unfolding take_front
recv c = take_front c.taken c.buf

unfoldable pub recv_many : ℕ → Chan → Chan
recv_many zero c = c
recv_many (suc k) c = recv_many k (recv c).0

-- The reader takes `k` payloads, and then the payload is put in, or dropped if there is no room.
unfoldable pub deliver : ℕ → Bytes → Chan → Chan
deliver k body c =
    let c' = recv_many k c in
    if ltb (length c'.buf) incoming_cap then record c' { buf = c'.buf ++ (body ∷ []) } else c'

-- `flags & FlagReliable != 0`
abbrev pub is_reliable : ℕ → Bool
is_reliable flags = flags % 2 == 1

unfoldable pub build_sack : ℕ → ℕ → List (ℕ × Bytes) → ℕ
build_sack base sack [] = sack
build_sack base sack ((seq, body) ∷ m) =
    build_sack base (if ltb (delta seq base) 64 then set_bit sack (delta seq base) else sack) m

-- The waiter's channel holds one address; a second is dropped.
probe_reply : Addr → Option (Option Addr) → Option (Option Addr)
probe_reply addr none = none
probe_reply addr (some none) = some (some addr)
probe_reply addr (some (some a)) = some (some a)

reply_dest : Option ℕ → Addr → Dest
reply_dest none addr = main_to addr
reply_dest (some conn) addr = punched_to conn addr

is_probe : Bytes → Bool
is_probe b = leb 6 (length b) && bytes_eq (take 6 b) (codes "REHP1|")

module _ {F : Type 0} ⦃fl : Float64 F⦄ where
  unfoldable pub handle_ack : ℕ → ℕ → ℕ → Endpoint F → Endpoint F
  unfolding ack_loop ack_one
  handle_ack now cum sack ep =
      let s = ack_loop now cum sack (record { left = []; n = 0; rtt = 0 }) ep.inflight in
      record ep {
        inflight = s.left;
        cong = if ltb 0 s.n then on_ack s.n s.rtt ep.cong else ep.cong;
      }

  -- The cumulative part that is sent: none at all before the first payload.
  unfoldable pub ack_cum : ℕ → Endpoint F → ℕ
  ack_cum cum ep = if ep.next_expect == 0 then no_ack else cum

  unfoldable pub ack_sack : Endpoint F → ℕ
  ack_sack ep = build_sack ep.next_expect 0 ep.recv_buf

  unfoldable pub send_ack : Env → ℕ → Endpoint F → Endpoint F
  send_ack env cum ep =
      (write_raw env.net
        (record {
          type = type_ack;
          flags = 0;
          route_hash = ep.route_hash;
          seq = 0;
          ack = ack_cum cum ep;
          payload = encode_ack (ack_cum cum ep) (ack_sack ep);
        })
        ep).0

  unfoldable pub drain_one : ℕ → Bytes → Endpoint F → Endpoint F
  drain_one reads body ep = record ep {
    recv_buf = delete ep.next_expect ep.recv_buf;
    next_expect = u32 (ep.next_expect + 1);
    incoming = deliver reads body ep.incoming;
  }

  -- The loop of `handleData`. Each round takes a payload out of the buffer, so as many rounds as
  -- the buffer has payloads are enough.
  unfoldable pub drain : ℕ → (ℕ → ℕ) → ℕ → Endpoint F → Endpoint F
  drain zero reads i ep = ep
  drain (suc fuel) reads i ep = elim (lookup ep.next_expect ep.recv_buf) [
    | none ↦ ep
    | some body ↦ drain fuel reads (i + 1) (drain_one (reads i) body ep)
  ]

  unfoldable pub drain_all : (ℕ → ℕ) → Endpoint F → Endpoint F
  drain_all reads ep = drain (length ep.recv_buf) reads 0 ep

  unfoldable pub accept : Env → ℕ → Bytes → Endpoint F → Endpoint F
  accept env seq body ep =
      drain_all env.reads (record ep { recv_buf = insert seq body ep.recv_buf })

  unfoldable pub handle_data : Env → Packet → Endpoint F → Endpoint F
  handle_data env pkt ep =
      if not (is_reliable pkt.flags)
      then record ep {
        incoming =
            if ltb (length ep.incoming.buf) incoming_cap
            then record ep.incoming { buf = ep.incoming.buf ++ (pkt.payload ∷ []) }
            else ep.incoming;
      }
      else if ltb pkt.seq ep.next_expect
      then send_ack env (ep.next_expect - 1) ep
      else (let ep' = accept env pkt.seq pkt.payload ep in
          send_ack env (if ltb 0 ep'.next_expect then ep'.next_expect - 1 else 0) ep')

  -- A datagram from a private peer makes that peer the direct path.
  unfoldable pub latch_direct : Option Addr → Endpoint F → Endpoint F
  latch_direct none ep = ep
  latch_direct (some addr) ep =
      if is_private_udp_addr addr && not (udp_addr_equal (some addr) ep.relay_addr)
      then (if ep.prefer_direct && udp_addr_equal (some addr) ep.direct_addr
          then ep
          else prefer_direct_addr addr ep)
      else ep

  assoc_answer : Option AssocOkPayload → Endpoint F → Endpoint F
  assoc_answer none ep = record ep {
    assoc_err = if is_some ep.assoc_err then ep.assoc_err else some json_error;
  }
  assoc_answer (some ok) ep = record ep {
    assoc_ok = if is_some ep.assoc_ok then ep.assoc_ok else some ok;
  }

  peer_ack : ℕ → Result (ℕ × ℕ) → Endpoint F → Endpoint F
  unfolding handle_ack
  peer_ack now (Packet.ok (cum, sack)) ep = handle_ack now cum sack ep
  peer_ack now (Packet.err e) ep = ep

  unfoldable pub dispatch : Env → Option Addr → Packet → Endpoint F → Endpoint F
  unfolding assoc_answer peer_ack
  dispatch env addr pkt ep =
      if pkt.type == type_assoc_ok
      then assoc_answer (env.parse_assoc_ok pkt.payload) ep
      else if pkt.type == type_ack
      then peer_ack env.now (decode_ack pkt.payload) ep
      else if pkt.type == type_data
      then handle_data env pkt (latch_direct addr (handle_ack env.now pkt.ack 0 ep))
      else if pkt.type == type_ping
      then (write_raw env.net
          (record {
            type = type_pong;
            flags = 0;
            route_hash = ep.route_hash;
            seq = 0;
            ack = 0;
            payload = pkt.payload;
          })
          ep).0
      else if pkt.type == type_error
      then (let (code, msg) = env.parse_error pkt.payload in
          record ep {
            assoc_err = if is_some ep.assoc_err then ep.assoc_err else some (refused code msg);
          })
      else ep

  punch : Option ℕ → Addr → Bytes → Endpoint F → Endpoint F
  unfolding probe_reply reply_dest
  punch conn addr msg ep =
      if bytes_eq (take 10 msg) (codes "REHP1|pong")
      then record ep { probe_wait = probe_reply addr ep.probe_wait }
      else hand_over (reply_dest conn addr) (codes "REHP1|pong") ep

  on_packet : Env → Option Addr → Result Packet → Endpoint F → Endpoint F
  unfolding dispatch
  on_packet env addr (Packet.ok pkt) ep = dispatch env addr pkt ep
  on_packet env addr (Packet.err e) ep = ep

  -- One round of `readLoopConn`: a datagram from `addr` on the main socket, or on a punched one.
  unfoldable pub read_datagram : Env → Option ℕ → Option Addr → Bytes → Endpoint F → Endpoint F
  unfolding punch on_packet is_probe
  read_datagram env conn none b ep = on_packet env none (decode b) ep
  read_datagram env conn (some addr) b ep =
      if is_probe b then punch conn addr b ep else on_packet env (some addr) (decode b) ep
