-- ===== src/Agent/Session/Tunnel.antt =====
-- cmd/agent/desktop.go: `sendTunnel`, which encrypts an inner message and writes it on the plane of
-- the session, and cmd/agent/datachan.go: `sendData`.
pub mod Plane
pub mod Sends
use runeverything.Agent.Session.{Agent, Wire, on_relay, on_udp, write_wire}
use runeverything.Base.Bytes.{Bytes}
use runeverything.Base.Float64.{Float64}
use runeverything.Base.{
  ℕ, zero, suc, ◌+◌, Bool, true, false, Option, none, some, ltb, if◌then◌else◌, length,
}
use runeverything.Re2.Channel.{channel_route, channel_data}
use runeverything.Re2.Frame.{type_tunnel}
use runeverything.Re2.Message.{encode_inner}
use runeverything.Reudp.Congestion.{can_send}
use runeverything.Reudp.Endpoint.{Endpoint}
use runeverything.Reudp.Packet.{max_payload}
use runeverything.Reudp.Send.{SendEnv, SendResult, send_reliable}

-- The ciphers of the library. A session counts its messages, so it changes; a failure leaves it.
pub record Ciphers (S V : Type 0) : Type 0 where
  pub encrypt : S → Bytes → Option (S × Bytes)
  pub decrypt : S → Bytes → Option (S × Bytes)
  pub open_media : V → Bytes → Option Bytes

-- What a sender takes from outside: the time at each poll, what the other goroutines do during the
-- two milliseconds of sleep after it, and what `SendReliable` takes.
pub record TunnelEnv (S V F : Type 0) : Type 0 where
  pub ciphers : Ciphers S V
  pub clock : ℕ → ℕ
  pub others : ℕ → Agent S V F → Agent S V F
  pub send : SendEnv F

pub data TunnelResult : Type 0 where
  done no_session too_large congested encrypt_failed : TunnelResult
  udp_failed : SendResult → TunnelResult

-- How the wait for the congestion window ended.
pub data Room : Type 0 where
  has_room crowded lost not_udp : Room

abbrev pub noise_tag : ℕ
noise_tag = 16

abbrev pub max_waits : ℕ
max_waits = 2000

udp_result : SendResult → TunnelResult
udp_result SendResult.done = done
udp_result r = udp_failed r

module _ {S V F : Type 0} ⦃fl : Float64 F⦄ where
  -- `a.useUDP && ep != nil`
  abbrev pub live_ep : Agent S V F → Option (Endpoint F)
  live_ep a = if a.use_udp then a.udp_ep else none

  after_sleep : (Endpoint F → Agent S V F → Agent S V F × Room) → Agent S V F → Agent S V F × Room
  after_sleep go a = elim a.re2_sess [
    | none ↦ (a, lost)
    | some s ↦ elim (live_ep a) [ none ↦ (a, not_udp) | some ep ↦ go ep a ]
  ]

  unfoldable pub wait_room : ℕ → TunnelEnv S V F → ℕ → Endpoint F → Agent S V F → Agent S V F × Room
  unfolding after_sleep
  wait_room zero env i ep a = (a, crowded)
  wait_room (suc waits) env i ep a = elim (can_send (env.clock i) ep.cong) [
    | true ↦ (a, has_room)
    | false ↦ after_sleep (wait_room waits env (i + 1)) (env.others i a)
  ]

  -- `conn` was read before the wait.
  put_on_wire : TunnelEnv S V F → Bytes → Bool → Agent S V F → Agent S V F × TunnelResult
  unfolding write_wire udp_result
  put_on_wire env ct conn a = elim (live_ep a) [
    | some ep ↦
        (let (ep', r) = send_reliable env.send ct ep in
          (record (write_wire (on_udp ct) a) { udp_ep = some ep' }, udp_result r))
    | none ↦
        if conn
        then (
          write_wire
              (on_relay (record { type = type_tunnel; route_id = a.device_id; payload = ct })) a,
          done,
        )
        else (a, no_session)
  ]

  unfoldable pub seal_and_send :
      TunnelEnv S V F → Bytes → Bool → Agent S V F → Agent S V F × TunnelResult
  unfolding put_on_wire
  seal_and_send env inner conn a = elim a.re2_sess [
    | none ↦ (a, no_session)
    | some s ↦ elim (env.ciphers.encrypt s inner) [
      | none ↦ (a, encrypt_failed)
      | some (s', ct) ↦ put_on_wire env ct conn (record a { re2_sess = some s' })
    ]
  ]

  after_room : TunnelEnv S V F → Bytes → Bool → Agent S V F × Room → Agent S V F × TunnelResult
  unfolding seal_and_send
  after_room env inner conn (a, has_room) = seal_and_send env inner conn a
  after_room env inner conn (a, not_udp) = seal_and_send env inner conn a
  after_room env inner conn (a, crowded) = (a, congested)
  after_room env inner conn (a, lost) = (a, no_session)

  unfoldable pub send_tunnel :
      TunnelEnv S V F → ℕ → Bytes → Agent S V F → Agent S V F × TunnelResult
  unfolding after_room
  send_tunnel env type body a = elim a.re2_sess [
    | none ↦ (a, no_session)
    | some s ↦ elim (live_ep a) [
      | none ↦ seal_and_send env (encode_inner type body) a.re2_conn a
      | some ep ↦
          if ltb max_payload (length (encode_inner type body) + noise_tag)
          then (a, too_large)
          else after_room env (encode_inner type body) a.re2_conn (wait_room max_waits env 0 ep a)
    ]
  ]

  abbrev pub data_route : Agent S V F → Bytes
  data_route a = channel_route a.device_id channel_data

  unfoldable pub send_data : Ciphers S V → ℕ → Bytes → Agent S V F → Agent S V F
  unfolding write_wire
  send_data ciphers type body a = elim a.data_sess [
    | none ↦ a
    | some s ↦
        if a.re2_conn
        then elim (ciphers.encrypt s (encode_inner type body)) [
          | none ↦ a
          | some (s', ct) ↦
              write_wire
                (on_relay (record { type = type_tunnel; route_id = data_route a; payload = ct }))
                (record a { data_sess = some s' })
        ]
        else a
  ]
