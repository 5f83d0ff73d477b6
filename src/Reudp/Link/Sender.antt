-- ===== src/Reudp/Link/Sender.antt =====
-- What the sending side keeps true: `sendData`, `handleAck` and `retransmitLoop` of
-- internal/reudp/endpoint.go.
use runeverything.Reudp.Link.Datagrams.{DataOf, IsData}
use runeverything.Reudp.Send.Retransmit.Repeated.{retransmit_tick-Repeats}
use runeverything.Reudp.Send.Sent.{send_reliable-Put}
use runeverything.Reudp.Send.Reliable.{IsU32}
use runeverything.Reudp.Receive.Freed.{handle_ack-All}
use runeverything.Reudp.Endpoint.Frame.{write_bytes-Same}
use runeverything.Reudp.Endpoint.Said.{Said, write_bytes-Said}
use runeverything.Reudp.Packet.{flag_reliable, max_payload, decode}
use runeverything.Reudp.Packet
use runeverything.Reudp.Send.{
  may_send, SendEnv, max_polls, wait_window, send_reliable, retransmit_tick, data_packet,
  record_inflight, take_seq,
}
use runeverything.Reudp.Receive.{handle_ack}
use runeverything.Reudp.Endpoint.{Dest, Endpoint, InflightPkt, write_bytes}
use runeverything.Base.Bytes.{Bytes}
use runeverything.Base.Float64.{Float64}
use runeverything.Base.{
  ℕ, ◌+◌, ◌^◌, ◌≤◌, ◌<◌, ◌≡◌, refl, ap, ◌∙◌, inl, inr, Bool, true, ◌||◌, ◌==◌, Bool-cases, ◌%◌,
  some, List, [], ◌∷◌, arith, length, All, All-mono, is_some,
}
use runeverything.Base.Maps.{All-insert, lookup, insert, lookup-insert, nat_eq}

is_some-insert :
    (n s : ℕ) (inf : InflightPkt) (xs : List (ℕ × InflightPkt))
    → is_some (lookup s (insert n inf xs)) ≡ (n == s || is_some (lookup s xs))
is_some-insert n s inf xs = ground (arith, lookup-insert n s inf xs)

module _ (msgs : ℕ → Bytes) where
  -- Under every number in flight stand the bytes of that number.
  abbrev pub IsFlying : ℕ → ℕ → Bytes → Type 0
  IsFlying n s b = (s < n) × DataOf msgs s b

  All-mono-IsFlying :
      (n : ℕ) (xs : List (ℕ × InflightPkt))
      → All (λ x. IsFlying n x.0 x.1.bytes) xs
      → All (λ x. IsFlying (n + 1) x.0 x.1.bytes) xs
  All-mono-IsFlying n xs h = All-mono xs (λ x v. (omega (arith, v.0), v.1)) h

  pub lookup-DataOf :
      (n s : ℕ) (xs : List (ℕ × InflightPkt))
      → All (λ x. IsFlying n x.0 x.1.bytes) xs
      → is_some (lookup s xs) ≡ true
      → (inf : InflightPkt) × (lookup s xs ≡ some inf) × DataOf msgs s inf.bytes
  unfolding lookup
  lookup-DataOf n s [] h e = absurd (cc)
  lookup-DataOf n s ((j, i) ∷ xs) (p, h) e = elim (Bool-cases (j == s)) [
    | inl at ↦ let here : j ≡ s = ground arith in (i, rw at refl, rw here at p.1)
    | inr off ↦
        let (inf, found, d) = lookup-DataOf n s xs h (ground arith) in (inf, rw off found, d)
  ]

module _ {F : Type 0} ⦃fl : Float64 F⦄ (msgs : ℕ → Bytes) where
  -- All that was ever handed over is a payload under its own number.
  pub record Sending (ep : Endpoint F) : Type 0 where
    pub said : Said (IsData msgs ep.next_seq) ep
    pub flying : All (λ x. IsFlying msgs ep.next_seq x.0 x.1.bytes) ep.inflight

  pub handle_ack_rest :
      (now cum sack : ℕ) (ep : Endpoint F)
      → ((handle_ack now cum sack ep).next_seq ≡ ep.next_seq)
        × ((handle_ack now cum sack ep).sent ≡ ep.sent)
  unfolding handle_ack
  handle_ack_rest now cum sack ep = (refl, refl)

  pub handle_ack-Sending :
      (now cum sack : ℕ) (ep : Endpoint F) → Sending ep → Sending (handle_ack now cum sack ep)
  handle_ack-Sending now cum sack ep v =
      let same = handle_ack_rest now cum sack ep in
      record {
        said = rw (same.0, same.1) v.said;
        flying = rw same.0 (handle_ack-All _ now cum sack ep v.flying);
      }

  pub retransmit_tick-Sending :
      (net : Dest → Bytes → Bool) (now : ℕ) (ep : Endpoint F)
      → Sending ep
      → Sending (retransmit_tick net now ep)
        × ((retransmit_tick net now ep).next_seq ≡ ep.next_seq)
        × ((s : ℕ)
            → is_some (lookup s (retransmit_tick net now ep).inflight)
              ≡ is_some (lookup s ep.inflight))
  retransmit_tick-Sending net now ep v =
      let r =
        retransmit_tick-Repeats net (IsFlying msgs ep.next_seq) (IsData msgs ep.next_seq) now ep
          v.flying (All-mono ep.inflight (λ x d. (x.0, d.0, d.1)) v.flying) v.said in
      (
        record { said = rw r.next_seq_eq r.said; flying = rw r.next_seq_eq r.flight },
        r.next_seq_eq,
        r.held,
      )

  -- A sender that has put the next payload in flight.
  pub record Grown (a b : Endpoint F) : Type 0 where
    pub sending : Sending b
    pub next_seq_eq : b.next_seq ≡ a.next_seq + 1
    pub held :
        (s : ℕ) → is_some (lookup s b.inflight) ≡ (a.next_seq == s || is_some (lookup s a.inflight))

  put-Grown :
      (env : SendEnv F) (ep : Endpoint F) (b : Bytes)
      → ep.next_seq + 1 < 2 ^ 32
      → DataOf msgs ep.next_seq b
      → Sending ep
      → Grown ep
          (write_bytes env.net b (
            record_inflight env.sent_now flag_reliable ep.next_seq b (take_seq flag_reliable ep))).0
  unfolding record_inflight take_seq
  put-Grown env ep b small d v =
      let n = ep.next_seq in
      let inf : InflightPkt = record { bytes = b; sent_at = env.sent_now; retries = 0 } in
      let w = record_inflight env.sent_now flag_reliable n b (take_seq flag_reliable ep) in
      let same = write_bytes-Same env.net b w in
      let next : (n + 1) % 2 ^ 32 ≡ n + 1 = omega arith in
      let next' = same.next_seq_eq ∙ next in
      let said : Said (IsData msgs (n + 1)) w =
        All-mono ep.sent (λ x d. (d.0, omega (arith, d.1), d.2)) v.said in
      let one : IsFlying msgs (n + 1) n b = (omega arith, d) in
      record {
        sending = record {
          said =
              rw next'
                (write_bytes-Said (IsData msgs (n + 1)) env.net b (n, omega arith, d) w said);
          flying =
              rw (next', same.inflight_eq)
                (All-insert (λ x. IsFlying msgs (n + 1) x.0 x.1.bytes) n inf ep.inflight one
                  (All-mono-IsFlying msgs n ep.inflight v.flying));
        };
        next_seq_eq = next';
        held = λ s.
            ap (λ m. is_some (lookup s m)) same.inflight_eq ∙ is_some-insert n s inf ep.inflight;
      }

  packet-DataOf :
      (ep : Endpoint F) (b : Bytes)
      → decode b ≡ Packet.ok (data_packet flag_reliable (msgs ep.next_seq) ep)
      → DataOf msgs ep.next_seq b
  unfolding data_packet
  packet-DataOf ep b e = record {
    p = data_packet flag_reliable (msgs ep.next_seq) ep;
    text = e;
    is_data = refl;
    flags = refl;
    seq = refl;
    payload = refl;
  }

  pub send_reliable-Grown :
      (env : SendEnv F) (ep : Endpoint F)
      → wait_window max_polls env 0 ep ≡ (ep, may_send)
      → length (msgs ep.next_seq) ≤ max_payload
      → IsU32 ep
      → ep.next_seq + 1 < 2 ^ 32
      → Sending ep
      → Grown ep (send_reliable env (msgs ep.next_seq) ep).0
  send_reliable-Grown env ep waited fits ranges small v =
      let put = send_reliable-Put env (msgs ep.next_seq) ep ranges fits waited in
      rw put.written (put-Grown env ep put.bytes small (packet-DataOf ep put.bytes put.readable) v)
