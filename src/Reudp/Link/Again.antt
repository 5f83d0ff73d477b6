-- ===== src/Reudp/Link/Again.antt =====
-- A payload that is lost comes again: the retransmission of internal/reudp/endpoint.go, from the
-- sender's tick to the receiver.
use runeverything.Reudp.Link.{World, Reach}
use runeverything.Reudp.Link.Fifo.{Reach-Sound, never_lost}
use runeverything.Reudp.Link.Hears.{data_comes-Hears}
use runeverything.Reudp.Receive.Delivery.Loop.{has}
use runeverything.Reudp.Send.Retransmit.Again.{retransmit_tick-Adds}
use runeverything.Reudp.Endpoint.Handed.{handed-get_elem?}
use runeverything.Reudp.Send.{is_due, retransmit_tick}
use runeverything.Reudp.Receive.{Env, read_datagram}
use runeverything.Reudp.Endpoint.{InflightPkt, Dest, Endpoint, incoming_cap}
use runeverything.Reudp.Address.{Addr}
use runeverything.Base.Bytes.{Bytes}
use runeverything.Base.Float64.{Float64}
use runeverything.Base.{
  ℕ, ◌+◌, ◌^◌, ◌≤◌, ◌<◌, ◌≡◌, Bool, true, false, Option, some, List, ◌++◌, length, get_elem?,
}
use runeverything.Base.Maps.{lookup, nat_eq}

module _ {F : Type 0} ⦃fl : Float64 F⦄ (msgs : ℕ → Bytes) where
  -- What the sender has handed over since, from `old` on, has a datagram with which the receiver has
  -- the payload.
  pub record Redelivered (s : ℕ) (old a r : Endpoint F) : Type 0 where
    pub extra : List (Dest × Bytes)
    pub sent_eq : a.sent ≡ old.sent ++ extra
    pub index : ℕ
    pub dest : Dest
    pub bytes : Bytes
    pub handed_over : get_elem? extra index ≡ some (dest, bytes)
    pub received :
        (env : Env) (conn : Option ℕ) (addr : Option Addr)
        → has (read_datagram env conn addr bytes r) s ≡ true

  -- In every run with lost, repeated and reordered datagrams, payloads that fit, an open window,
  -- numbers that do not wrap and room at the receiver: where a payload that was sent has not been
  -- received, the sender is open, its last sending is long enough ago for the tick, and the
  -- receiver has room, a tick hands over, behind all that went before, a datagram with which the receiver has the payload, on
  -- whatever path it comes.
  pub lost_comes_again :
      {relay relay' : Addr} (w : World F) (s : ℕ) (net : Dest → Bytes → Bool) (now : ℕ)
      → Reach msgs relay relay' w
      → s < w.sender.next_seq
      → has w.receiver s ≡ false
      → w.sender.closed ≡ false
      → ((inf : InflightPkt) → lookup s w.sender.inflight ≡ some inf → is_due now inf ≡ true)
      → length w.receiver.incoming.buf + length w.receiver.recv_buf + 1 ≤ incoming_cap
      → w.receiver.route_hash < 2 ^ 32
      → Redelivered s w.sender (retransmit_tick net now w.sender) w.receiver
  lost_comes_again w s net now r lt missing open_ late room hash =
      let v = Reach-Sound msgs r in
      let (inf, at, d) = never_lost msgs w s r lt missing in
      let out = retransmit_tick-Adds net now s inf w.sender open_ at (late inf at) in
      let (i, dest, there) = handed-get_elem? inf.bytes out.extra out.has_eq in
      record {
        extra = out.extra;
        sent_eq = out.new_eq;
        index = i;
        dest = dest;
        bytes = inf.bytes;
        handed_over = there;
        received = λ env conn addr.
            (data_comes-Hears msgs env conn addr w.sender.next_seq s inf.bytes w.receiver lt d
              v.room room hash v.hears).2;
      }
