-- ===== src/Reudp/Link/Receiver.antt =====
-- What a data packet does at the receiver: `readLoopConn` and `handleData` of
-- internal/reudp/endpoint.go.
use runeverything.Reudp.Packet.RoundTrip.{IsPacket, decode-encode, decode_ack-encode_ack}
use runeverything.Reudp.Receive.Delivery.Loop.{has}
use runeverything.Reudp.Receive.Ack.{KeysU32, build_sack-lt, acked_by-ack_sack}
use runeverything.Reudp.Link.Datagrams.{IsAck}
use runeverything.Reudp.Endpoint.Said.{Said, write_raw-Said}
use runeverything.Reudp.Endpoint.{write_raw, Endpoint, prefer_direct_addr}
use runeverything.Reudp.Address.{Addr}
use runeverything.Reudp.Receive.{
  acked_by, Env, handle_ack, ack_cum, ack_sack, send_ack, drain_one, drain, latch_direct,
}
use runeverything.Base.Bytes.{write, Bytes}
use runeverything.Base.{
  ℕ, zero, suc, ◌+◌, ◌-◌, ◌^◌, ◌≤◌, ◌<◌, ◌≡◌, refl, ap, inl, inr, true, Option, none, some, [],
  append-nil, arith, Option-cases, length,
}
use runeverything.Base.Float64.{Float64}
use runeverything.Base.Maps.{All-delete, lookup, nat_eq}
use runeverything.Reudp.Packet
use runeverything.Reudp.Packet.{type_ack, encode, encode_ack, Packet}

length-encode_ack : (cum sack : ℕ) → length (encode_ack cum sack) ≡ 12
unfolding encode_ack write
length-encode_ack cum sack = refl

module _ {F : Type 0} ⦃fl : Float64 F⦄ where
  -- The receiving half, the own datagrams and the hash agree.
  pub record Heard (a b : Endpoint F) : Type 0 where
    pub next_expect_eq : b.next_expect ≡ a.next_expect
    pub recv_buf_eq : b.recv_buf ≡ a.recv_buf
    pub incoming_eq : b.incoming ≡ a.incoming
    pub sent_eq : b.sent ≡ a.sent
    pub hash_eq : b.route_hash ≡ a.route_hash

  pub handle_ack-Heard :
      (now cum sack : ℕ) (ep : Endpoint F) → Heard ep (handle_ack now cum sack ep)
  unfolding handle_ack
  handle_ack-Heard now cum sack ep = record {
    next_expect_eq = refl;
    recv_buf_eq = refl;
    incoming_eq = refl;
    sent_eq = refl;
    hash_eq = refl;
  }

  pub latch_direct-Heard : (addr : Option Addr) (ep : Endpoint F) → Heard ep (latch_direct addr ep)
  unfolding latch_direct prefer_direct_addr
  latch_direct-Heard none ep = ground arith
  latch_direct-Heard (some a) ep = ground arith

  -- What the delivery loop does not touch, and the range of the keys.
  pub record Kept (a b : Endpoint F) : Type 0 where
    pub keys : KeysU32 b.recv_buf
    pub sent_eq : b.sent ≡ a.sent
    pub hash_eq : b.route_hash ≡ a.route_hash

  one_round :
      (k : ℕ) (b : Bytes) (ep : Endpoint F) {c : Endpoint F} → Kept (drain_one k b ep) c → Kept ep c
  unfolding drain_one
  one_round k b ep r = record { keys = r.keys; sent_eq = r.sent_eq; hash_eq = r.hash_eq }

  one_round-keys :
      (k : ℕ) (b : Bytes) (ep : Endpoint F)
      → KeysU32 ep.recv_buf
      → KeysU32 (drain_one k b ep).recv_buf
  unfolding drain_one
  one_round-keys k b ep h = All-delete (λ x. x.0 < 2 ^ 32) ep.next_expect ep.recv_buf h

  pub drain-Kept :
      (fuel : ℕ) (reads : ℕ → ℕ) (i : ℕ) (ep : Endpoint F)
      → KeysU32 ep.recv_buf
      → Kept ep (drain fuel reads i ep)
  unfolding drain
  drain-Kept zero reads i ep h = record { keys = h; sent_eq = refl; hash_eq = refl }
  drain-Kept (suc fuel) reads i ep h = elim (Option-cases (lookup ep.next_expect ep.recv_buf)) [
    | inl miss ↦ rw (miss, drain) (record { keys = h; sent_eq = refl; hash_eq = refl })
    | inr (b, at) ↦
        let r =
          drain-Kept fuel reads (i + 1) (drain_one (reads i) b ep)
            (one_round-keys (reads i) b ep h) in
        rw (at, drain) (one_round (reads i) b ep r)
  ]

  -- The acknowledgement of a receiver tells what it has, and no more.
  ack_of : Endpoint F → Packet
  ack_of ep = record {
    type = type_ack;
    flags = 0;
    route_hash = ep.route_hash;
    seq = 0;
    ack = ack_cum (ep.next_expect - 1) ep;
    payload = encode_ack (ack_cum (ep.next_expect - 1) ep) (ack_sack ep);
  }

  ack_cum-lt :
      (ep : Endpoint F) → ep.next_expect < 2 ^ 32 → ack_cum (ep.next_expect - 1) ep < 2 ^ 32
  unfolding ack_cum
  ack_cum-lt ep h = ground arith

  ack_sack-lt : (ep : Endpoint F) → ack_sack ep < 2 ^ 64
  unfolding ack_sack
  ack_sack-lt ep = build_sack-lt ep.next_expect 0 ep.recv_buf (omega arith)

  ack_sound :
      (ep : Endpoint F) (s : ℕ)
      → ep.next_expect < 2 ^ 32
      → s < 2 ^ 32
      → KeysU32 ep.recv_buf
      → acked_by (ack_cum (ep.next_expect - 1) ep) (ack_sack ep) s ≡ true
      → has ep s ≡ true
  unfolding has
  ack_sound ep s hn hs hk told = ground (arith, acked_by-ack_sack ep s hn hs hk)

  ack_of-IsAck :
      (ep : Endpoint F)
      → ep.next_expect < 2 ^ 32
      → ep.route_hash < 2 ^ 32
      → KeysU32 ep.recv_buf
      → (b : Bytes) × (encode (ack_of ep) [] ≡ Packet.ok b) × IsAck ep b
  unfolding ack_of
  ack_of-IsAck ep hn hh hk =
      let cum = ack_cum (ep.next_expect - 1) ep in
      let small : length (encode_ack cum (ack_sack ep)) ≤ Packet.max_payload =
        omega (arith, length-encode_ack cum (ack_sack ep)) in
      let ranges : IsPacket (ack_of ep) = record {
        type_byte = omega arith;
        flags_byte = omega arith;
        hash_u32 = hh;
        seq_u32 = omega arith;
        ack_u32 = ack_cum-lt ep hn;
      } in
      let (b, e, fits, back) = decode-encode (ack_of ep) [] [] ranges small in
      (
        b,
        e,
        record {
          p = ack_of ep;
          cum = cum;
          sack = ack_sack ep;
          text = rw append-nil at back;
          is_ack = refl;
          body = (decode_ack-encode_ack cum (ack_sack ep) (ack_cum-lt ep hn) (ack_sack-lt ep)).0;
          sound = λ s hs told. ack_sound ep s hn hs hk told;
        },
      )

  send_ack-ack_of :
      (env : Env) (cum : ℕ) (ep : Endpoint F)
      → ack_cum cum ep ≡ ack_cum (ep.next_expect - 1) ep
      → send_ack env cum ep ≡ (write_raw env.net (ack_of ep) ep).0
  unfolding send_ack ack_of
  send_ack-ack_of env cum ep same =
      ap
        (λ c.
          (write_raw env.net
            (record {
              type = type_ack;
              flags = 0;
              route_hash = ep.route_hash;
              seq = 0;
              ack = c;
              payload = encode_ack c (ack_sack ep);
            })
            ep).0)
        same

  pub send_ack-Said :
      (Q : Bytes → Type 0) (env : Env) (cum : ℕ) (ep : Endpoint F)
      → ack_cum cum ep ≡ ack_cum (ep.next_expect - 1) ep
      → ep.next_expect < 2 ^ 32
      → ep.route_hash < 2 ^ 32
      → KeysU32 ep.recv_buf
      → ((b : Bytes) → IsAck ep b → Q b)
      → Said Q ep
      → Said Q (send_ack env cum ep)
  send_ack-Said Q env cum ep same hn hh hk q said =
      let (b, e, v) = ack_of-IsAck ep hn hh hk in
      rw (send_ack-ack_of env cum ep same)
        (write_raw-Said Q env.net (ack_of ep) b ep e (q b v) said)
