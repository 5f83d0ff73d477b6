-- ===== src/Reudp/Link.antt =====
-- Two endpoints of internal/reudp/endpoint.go and a network between them that loses, repeats and
-- reorders datagrams. One of them sends reliable payloads, the other receives them.
pub mod Datagrams
pub mod Receiver
pub mod Arrival
pub mod Sender
pub mod Hears
pub mod Fifo
pub mod Again
use runeverything.Reudp.Send.Reliable.{IsU32}
use runeverything.Reudp.Send.{
  may_send, SendEnv, max_polls, wait_window, send_reliable, retransmit_tick,
}
use runeverything.Reudp.Endpoint.{Dest, Endpoint, incoming_cap, dial}
use runeverything.Reudp.Address.{Addr}
use runeverything.Reudp.Receive.{Env, recv_many, read_datagram}
use runeverything.Base.Bytes.{Bytes}
use runeverything.Base.{ℕ, ◌+◌, ◌*◌, ◌^◌, ◌≤◌, ◌<◌, ◌≡◌, Bool, Option, some, length, get_elem?}
use runeverything.Reudp.Packet.{max_payload}
use runeverything.Base.Float64.{Float64}

pub record World (F : Type 0) : Type 0 where
  pub sender : Endpoint F
  pub receiver : Endpoint F

-- `msgs s` is the payload that the sender's application gives as its `s`-th.
module _ {F : Type 0} ⦃fl : Float64 F⦄ (msgs : ℕ → Bytes) where
  pub data Step (w : World F) : World F → Type 0 where
    -- A payload that fits, for which the window is open. (While a send waits, others step.) The
    -- numbers are far from 2 ^ 32.
    sends :
        (env : SendEnv F)
        → wait_window max_polls env 0 w.sender ≡ (w.sender, may_send)
        → length (msgs w.sender.next_seq) ≤ max_payload
        → IsU32 w.sender
        → w.sender.next_seq + 2 * incoming_cap < 2 ^ 32
        → Step w (record w { sender = (send_reliable env (msgs w.sender.next_seq) w.sender).0 })
    ticks :
        (net : Dest → Bytes → Bool) (now : ℕ)
        → Step w (record w { sender = retransmit_tick net now w.sender })
    -- A datagram that was ever handed over comes to the other side, on any socket, from any
    -- address; at the receiver the channel has room for what waits.
    data_comes :
        (env : Env) (conn : Option ℕ) (addr : Option Addr) (i : ℕ) (d : Dest) (b : Bytes)
        → get_elem? w.sender.sent i ≡ some (d, b)
        → length w.receiver.incoming.buf + length w.receiver.recv_buf + 1 ≤ incoming_cap
        → w.receiver.route_hash < 2 ^ 32
        → Step w (record w { receiver = read_datagram env conn addr b w.receiver })
    ack_comes :
        (env : Env) (conn : Option ℕ) (addr : Option Addr) (i : ℕ) (d : Dest) (b : Bytes)
        → get_elem? w.receiver.sent i ≡ some (d, b)
        → Step w (record w { sender = read_datagram env conn addr b w.sender })
    reads :
        (k : ℕ)
        → Step w (record w {
          receiver = record w.receiver { incoming = recv_many k w.receiver.incoming };
        })

  -- From two endpoints that were just dialled.
  pub data Reach (relay relay' : Addr) : World F → Type 0 where
    start : Reach relay relay' (record { sender = dial relay; receiver = dial relay' })
    later : {w w' : World F} → Reach relay relay' w → Step w w' → Reach relay relay' w'
