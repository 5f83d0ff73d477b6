-- ===== src/Reudp/Endpoint.antt =====
-- internal/reudp/endpoint.go: the state of an association and the paths it writes to. A method
-- takes the state and returns the new one; a lock that is held for a whole method is not shown.
pub mod Frame
pub mod Said
pub mod Handed
use runeverything.Base.{
  ℕ, ◌-◌, ◌%◌, ◌^◌, Bool, true, false, ◌&&◌, ◌||◌, Option, none, some, List, [], ◌∷◌, ◌++◌, ◌==◌,
  if◌then◌else◌, is_some,
}
use runeverything.Base.Bytes.{Bytes}
use runeverything.Base.Float64.{Float64}
use runeverything.Reudp.Address.{Addr}
use runeverything.Reudp.Congestion.{Congestion, new_congestion, boost_for_lan}
use runeverything.Reudp.Packet.{Packet, Result, encode}
use runeverything.Reudp.Packet

pub record InflightPkt : Type 0 where
  pub bytes : Bytes
  pub sent_at : ℕ
  pub retries : ℕ

-- Go's buffered channel of received payloads. `taken` is what its reader has had, oldest first.
pub record Chan : Type 0 where
  pub buf : List Bytes
  pub taken : List Bytes

pub record AssocOkPayload : Type 0 where
  pub ok : Bool
  pub device_id : Bytes
  pub udp_hint : Bytes

pub data AssocError : Type 0 where
  json_error : AssocError
  refused : Bytes → Bytes → AssocError

-- Where a datagram is handed over: a punched socket, or the main socket with an address.
pub data Dest : Type 0 where
  punched : ℕ → Dest
  main_to : Addr → Dest
  main_connected : Dest
  -- A reply on the punched socket that a read loop reads from.
  punched_to : ℕ → Addr → Dest

pub record Endpoint (F : Type 0) : Type 0 where
  pub relay_addr : Option Addr
  pub route_hash : ℕ
  pub device_id : Bytes
  pub next_seq : ℕ
  pub next_expect : ℕ
  pub inflight : List (ℕ × InflightPkt)
  pub recv_buf : List (ℕ × Bytes)
  pub incoming : Chan
  -- Channels of capacity 1.
  pub assoc_ok : Option AssocOkPayload
  pub assoc_err : Option AssocError
  pub cong : Congestion F
  pub closed : Bool
  pub direct_conn : Option ℕ
  pub direct_addr : Option Addr
  pub prefer_direct : Bool
  -- `none`: nobody waits. `some none`: the waiter's channel is empty.
  pub probe_wait : Option (Option Addr)
  -- The punched sockets that were closed, and the datagrams that were handed over, oldest first.
  pub shut : List ℕ
  pub sent : List (Dest × Bytes)

abbrev pub incoming_cap : ℕ
incoming_cap = 1024

abbrev pub u32 : ℕ → ℕ
u32 n = n % 2 ^ 32

-- `^uint32(0)`, which stands for "no cumulative acknowledgement".
abbrev pub no_ack : ℕ
no_ack = 2 ^ 32 - 1

-- All that was put into the channel so far.
abbrev pub stream : Chan → List Bytes
stream c = c.taken ++ c.buf

empty_chan : Chan
empty_chan = record { buf = []; taken = [] }

abbrev close_conn : Option ℕ → List ℕ → List ℕ
close_conn none shut = shut
close_conn (some c) shut = shut ++ (c ∷ [])

-- `old != nil && old != conn`
close_other : Option ℕ → ℕ → List ℕ → List ℕ
close_other none conn shut = shut
close_other (some c) conn shut = if c == conn then shut else shut ++ (c ∷ [])

module _ {F : Type 0} ⦃fl : Float64 F⦄ where
  -- `DialListen`, after the socket is bound and the relay's address resolved.
  unfoldable pub dial : Addr → Endpoint F
  unfolding empty_chan
  dial relay = record {
    relay_addr = some relay;
    route_hash = 0;
    device_id = [];
    next_seq = 0;
    next_expect = 0;
    inflight = [];
    recv_buf = [];
    incoming = empty_chan;
    assoc_ok = none;
    assoc_err = none;
    cong = new_congestion;
    closed = false;
    direct_conn = none;
    direct_addr = none;
    prefer_direct = false;
    probe_wait = none;
    shut = [];
    sent = [];
  }

  unfoldable pub close : Endpoint F → Endpoint F
  close ep = if ep.closed then ep else record ep {
    closed = true;
    direct_conn = none;
    direct_addr = none;
    prefer_direct = false;
    probe_wait = none;
    shut = close_conn ep.direct_conn ep.shut;
  }

  -- A second read loop starts on `conn`; it calls the same handlers.
  unfoldable pub prefer_direct_conn : ℕ → Endpoint F → Endpoint F
  unfolding close_other
  prefer_direct_conn conn ep = record ep {
    direct_conn = some conn;
    direct_addr = none;
    prefer_direct = true;
    shut = close_other ep.direct_conn conn ep.shut;
    cong = boost_for_lan ep.cong;
  }

  unfoldable pub prefer_direct_addr : Addr → Endpoint F → Endpoint F
  prefer_direct_addr addr ep = record ep {
    direct_conn = none;
    direct_addr = some addr;
    prefer_direct = true;
    shut = close_conn ep.direct_conn ep.shut;
    cong = boost_for_lan ep.cong;
  }

  unfoldable pub clear_direct : Endpoint F → Endpoint F
  clear_direct ep = record ep {
    direct_conn = none;
    direct_addr = none;
    prefer_direct = false;
    shut = close_conn ep.direct_conn ep.shut;
  }

  unfoldable pub using_direct : Endpoint F → Bool
  using_direct ep = ep.prefer_direct && (is_some ep.direct_conn || is_some ep.direct_addr)

  unfoldable pub reset_reliable_session : Endpoint F → Endpoint F
  reset_reliable_session ep = record ep {
    next_seq = 0;
    next_expect = 0;
    inflight = [];
    recv_buf = [];
    cong = new_congestion;
  }

  unfoldable pub reset_reliable_send : Endpoint F → Endpoint F
  reset_reliable_send ep = record ep { next_seq = 0; inflight = []; cong = new_congestion }

  unfoldable pub hand_over : Dest → Bytes → Endpoint F → Endpoint F
  hand_over d b ep = record ep { sent = ep.sent ++ ((d, b) ∷ []) }

  -- The last attempt of `writeBytes`: the relay, or the socket's own peer.
  write_relay : (Dest → Bytes → Bool) → Bytes → Option Addr → Endpoint F → Endpoint F × Bool
  unfolding hand_over
  write_relay net b (some relay) ep = (hand_over (main_to relay) b ep, net (main_to relay) b)
  write_relay net b none ep = (hand_over main_connected b ep, net main_connected b)

  -- `prefer` is the value that was read at the start, also after a first attempt has failed.
  write_addr : (Dest → Bytes → Bool) → Bytes → Bool → Option Addr → Endpoint F → Endpoint F × Bool
  unfolding hand_over write_relay
  write_addr net b true (some addr) ep =
      if net (main_to addr) b
      then (hand_over (main_to addr) b ep, true)
      else write_relay net b ep.relay_addr
          (record (hand_over (main_to addr) b ep) { prefer_direct = false })
  write_addr net b true none ep = write_relay net b ep.relay_addr ep
  write_addr net b false a ep = write_relay net b ep.relay_addr ep

  write_conn : (Dest → Bytes → Bool) → Bytes → Bool → Option ℕ → Endpoint F → Endpoint F × Bool
  unfolding hand_over write_addr
  write_conn net b true (some c) ep =
      if net (punched c) b
      then (hand_over (punched c) b ep, true)
      else write_addr net b true ep.direct_addr
          (record (hand_over (punched c) b ep) { prefer_direct = false })
  write_conn net b true none ep = write_addr net b true ep.direct_addr ep
  write_conn net b false c ep = write_addr net b false ep.direct_addr ep

  -- `net` says which writes succeed. The result says whether one did.
  unfoldable pub write_bytes : (Dest → Bytes → Bool) → Bytes → Endpoint F → Endpoint F × Bool
  unfolding write_conn
  write_bytes net b ep = write_conn net b ep.prefer_direct ep.direct_conn ep

  write_encoded : (Dest → Bytes → Bool) → Result Bytes → Endpoint F → Endpoint F × Bool
  unfolding write_bytes
  write_encoded net (Packet.ok b) ep = write_bytes net b ep
  write_encoded net (Packet.err e) ep = (ep, false)

  unfoldable pub write_raw : (Dest → Bytes → Bool) → Packet → Endpoint F → Endpoint F × Bool
  unfolding write_encoded
  write_raw net p ep = write_encoded net (encode p []) ep
