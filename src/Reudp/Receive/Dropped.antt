-- ===== src/Reudp/Receive/Dropped.antt =====
-- The wait of two seconds in `handleData` of internal/reudp/endpoint.go, when it runs out.
use runeverything.Reudp.Receive.Frame.{send_ack-Same}
use runeverything.Reudp.Endpoint.Frame.{Same}
use runeverything.Reudp.Receive.Freed.{answered_exact, answered}
use runeverything.Reudp.Packet.{Packet}
use runeverything.Reudp.Endpoint.{stream, Chan, Endpoint, incoming_cap}
use runeverything.Reudp.Receive.{
  is_reliable, handle_data, Env, recv_many, deliver, drain_one, drain, drain_all, accept,
}
use runeverything.Base.Bytes.{Bytes}
use runeverything.Base.Float64.{Float64}
use runeverything.Base.{
  ℕ, ◌+◌, ◌^◌, ◌≤◌, ◌<◌, ◌≡◌, ap, ◌∙◌, true, false, none, [], arith, ltb, lt→ltb, length,
}
use runeverything.Base.Maps.{lookup, insert, delete, nat_eq}

full_deliver : (body : Bytes) (c : Chan) → incoming_cap ≤ length c.buf → deliver 0 body c ≡ c
unfolding deliver recv_many
full_deliver body c h = ground arith

module _ {F : Type 0} ⦃fl : Float64 F⦄ where
  accept_expected :
      (env : Env) (seq : ℕ) (body : Bytes) (ep : Endpoint F)
      → seq ≡ ep.next_expect
      → ep.recv_buf ≡ []
      → ep.next_expect + 1 < 2 ^ 32
      → incoming_cap ≤ length ep.incoming.buf
      → env.reads 0 ≡ 0
      → accept env seq body ep ≡ record ep { recv_buf = []; next_expect = ep.next_expect + 1 }
  unfolding accept drain_all drain drain_one insert lookup delete
  accept_expected env seq body ep at e small full idle =
      ground (arith, full_deliver body ep.incoming full)

  handle_data_full :
      (env : Env) (pkt : Packet) (ep : Endpoint F)
      → is_reliable pkt.flags ≡ true
      → pkt.seq ≡ ep.next_expect
      → ep.recv_buf ≡ []
      → ep.next_expect + 1 < 2 ^ 32
      → incoming_cap ≤ length ep.incoming.buf
      → env.reads 0 ≡ 0
      → Same
          (record ep { recv_buf = []; next_expect = ep.next_expect + 1 })
          (handle_data env pkt ep)
  unfolding handle_data
  handle_data_full env pkt ep rel at e small full idle =
      let a = accept_expected env pkt.seq pkt.payload ep at e small full idle in
      let new : ltb pkt.seq ep.next_expect ≡ false = ground arith in
      rw (rel, new, a, handle_data) (send_ack-Same env _ _)

  -- The next expected payload comes in while the channel is full and its reader takes nothing for
  -- two seconds, and nothing else waits. The payload is lost, and yet it is counted as received:
  -- the sender that reads the acknowledgement takes it out of flight.
  pub full_channel_loses :
      (env : Env) (now : ℕ) (pkt : Packet) (ep sender : Endpoint F)
      → is_reliable pkt.flags ≡ true
      → pkt.seq ≡ ep.next_expect
      → ep.recv_buf ≡ []
      → ep.next_expect + 1 < 2 ^ 32
      → incoming_cap ≤ length ep.incoming.buf
      → env.reads 0 ≡ 0
      → (stream (handle_data env pkt ep).incoming ≡ stream ep.incoming)
        × ((handle_data env pkt ep).next_expect ≡ ep.next_expect + 1)
        × (lookup pkt.seq (answered now (handle_data env pkt ep) sender).inflight ≡ none)
  unfolding lookup
  full_channel_loses env now pkt ep sender rel at e small full idle =
      let same = handle_data_full env pkt ep rel at e small full idle in
      let got = answered_exact now pkt.seq sender (handle_data env pkt ep) in
      let below =
        lt→ltb pkt.seq (handle_data env pkt ep).next_expect (omega (arith, same.next_expect_eq)) in
      (
        ap stream same.incoming_eq,
        same.next_expect_eq,
        got (omega (arith, same.next_expect_eq)) (omega arith) (rw same.recv_buf_eq tt) ∙ rw below,
      )
