-- ===== src/Reudp/Link/Hears.antt =====
-- What the receiving side keeps true, whatever comes: `readLoopConn` and `handleData` of
-- internal/reudp/endpoint.go.
use runeverything.Reudp.Link.Datagrams.{DataOf, IsAck}
use runeverything.Reudp.Link.Receiver.{Heard, handle_ack-Heard, latch_direct-Heard}
use runeverything.Reudp.Link.Arrival.{Answers, IsAck-mono, handle_data-Answers}
use runeverything.Reudp.Receive.Delivery.Loop.{has, sent_from, Stored, sent_from-add}
use runeverything.Reudp.Receive.Delivery.Runs.{arrival, handle_data-Arrived}
use runeverything.Reudp.Receive.Probe.{read_datagram-data}
use runeverything.Reudp.Packet.{Packet, flag_reliable}
use runeverything.Reudp.Receive.{Env, handle_ack, latch_direct, handle_data, read_datagram}
use runeverything.Reudp.Endpoint.Said.{Said, Said-alike}
use runeverything.Reudp.Endpoint.{Endpoint, incoming_cap, stream}
use runeverything.Reudp.Address.{Addr}
use runeverything.Base.Bytes.{Bytes}
use runeverything.Base.Float64.{Float64}
use native.Mathlib.Nat.{zero-add}
use runeverything.Base.{
  ℕ, ◌+◌, ◌-◌, ◌^◌, ◌≤◌, ◌<◌, ◌≡◌, refl, sym, ap, ◌∙◌, true, Option, none, arith, length, All-mono,
}
use runeverything.Base.Maps.{lookup, nat_eq}

module _ {F : Type 0} ⦃fl : Float64 F⦄ (msgs : ℕ → Bytes) where
  -- What the receiver keeps true, when `n` payloads have been sent.
  pub record Hears (n : ℕ) (r : Endpoint F) : Type 0 where
    pub streamed : stream r.incoming ≡ sent_from msgs 0 r.next_expect
    pub stored : Stored msgs r.recv_buf
    pub missing : lookup r.next_expect r.recv_buf ≡ none
    pub below : (s : ℕ) → has r s ≡ true → s < n
    pub answers : Answers r

  pub next_expect_le :
      (n : ℕ) (r : Endpoint F) → ((s : ℕ) → has r s ≡ true → s < n) → r.next_expect ≤ n
  unfolding has
  next_expect_le n r below = ground (arith, below (r.next_expect - 1))

  -- The receiving half of the two states agrees, but for what the reader has taken.
  pub record Alike (a b : Endpoint F) : Type 0 where
    pub next_expect_eq : b.next_expect ≡ a.next_expect
    pub recv_buf_eq : b.recv_buf ≡ a.recv_buf
    pub stream_eq : stream b.incoming ≡ stream a.incoming
    pub sent_eq : b.sent ≡ a.sent

  Alike-has : (a b : Endpoint F) → Alike a b → (s : ℕ) → has b s ≡ has a s
  unfolding has
  Alike-has a b same s = rw (same.next_expect_eq, same.recv_buf_eq) refl

  pub Alike-Hears : (n : ℕ) (a b : Endpoint F) → Alike a b → Hears n a → Hears n b
  Alike-Hears n a b same v =
      let acks : Said (IsAck b) a =
        All-mono a.sent (λ x i. IsAck-mono a b x.1 (λ s e. Alike-has a b same s ∙ e) i)
          v.answers.acks in
      record {
        streamed = rw (same.stream_eq, same.next_expect_eq) v.streamed;
        stored = rw same.recv_buf_eq v.stored;
        missing = rw (same.recv_buf_eq, same.next_expect_eq) v.missing;
        below = λ s e. v.below s (sym (Alike-has a b same s) ∙ e);
        answers = record {
          keys = rw same.recv_buf_eq v.answers.keys;
          acks = Said-alike (IsAck b) a b same.sent_eq acks;
        };
      }

  handle_data-Hears :
      (env : Env) (n s : ℕ) (r : Endpoint F)
      → s < n
      → n + incoming_cap < 2 ^ 32
      → length r.incoming.buf + length r.recv_buf + 1 ≤ incoming_cap
      → r.route_hash < 2 ^ 32
      → Hears n r
      → Hears n (handle_data env (arrival msgs s) r)
        × ((i : ℕ) → has r i ≡ true → has (handle_data env (arrival msgs s) r) i ≡ true)
        × (has (handle_data env (arrival msgs s) r) s ≡ true)
  handle_data-Hears env n s r lt small room hash v =
      let le = next_expect_le n r v.below in
      let (k, a) = handle_data-Arrived msgs env s r v.stored v.missing room (omega arith) in
      let r' = handle_data env (arrival msgs s) r in
      let more : (i : ℕ) → has r i ≡ true → has r' i ≡ true = λ i e. ground (arith, a.added i) in
      let below : (i : ℕ) → has r' i ≡ true → i < n = λ i e. ground (arith, a.added i, v.below i) in
      let le' = next_expect_le n r' below in
      let whole = rw (zero-add r.next_expect) at (sent_from-add msgs 0 r.next_expect k) in
      (
        record {
          streamed = rw a.counted (a.streamed ∙ rw v.streamed whole);
          stored = a.stored;
          missing = a.missing;
          below = below;
          answers =
              handle_data-Answers msgs env s r (omega arith) (omega arith) hash more v.answers;
        },
        more,
        ground (arith, a.added s),
      )

  arrival_eq :
      (env : Env) (s : ℕ) (p : Packet) (r : Endpoint F)
      → p.flags ≡ flag_reliable
      → p.seq ≡ s
      → p.payload ≡ msgs s
      → handle_data env p r ≡ handle_data env (arrival msgs s) r
  unfolding handle_data arrival
  arrival_eq env s p r f q b = rw (f, q, b) refl

  heard : (a b : Endpoint F) → Heard a b → Alike a b
  heard a b h = record {
    next_expect_eq = h.next_expect_eq;
    recv_buf_eq = h.recv_buf_eq;
    stream_eq = ap stream h.incoming_eq;
    sent_eq = h.sent_eq;
  }

  -- A datagram with a payload that was sent, on whatever path it comes.
  pub data_comes-Hears :
      (env : Env) (conn : Option ℕ) (addr : Option Addr) (n s : ℕ) (b : Bytes) (r : Endpoint F)
      → s < n
      → DataOf msgs s b
      → n + incoming_cap < 2 ^ 32
      → length r.incoming.buf + length r.recv_buf + 1 ≤ incoming_cap
      → r.route_hash < 2 ^ 32
      → Hears n r
      → Hears n (read_datagram env conn addr b r)
        × ((i : ℕ) → has r i ≡ true → has (read_datagram env conn addr b r) i ≡ true)
        × (has (read_datagram env conn addr b r) s ≡ true)
  data_comes-Hears env conn addr n s b r lt d small room hash v =
      let p = d.p in
      let r1 = handle_ack env.now p.ack 0 r in
      let h1 = handle_ack-Heard env.now p.ack 0 r in
      let r2 = latch_direct addr r1 in
      let h2 = latch_direct-Heard addr r1 in
      let same2 = heard r1 r2 h2 in
      let same1 = heard r r1 h1 in
      let v2 = Alike-Hears n r1 r2 same2 (Alike-Hears n r r1 same1 v) in
      let buf_eq = h2.incoming_eq ∙ h1.incoming_eq in
      let recv_eq = h2.recv_buf_eq ∙ h1.recv_buf_eq in
      let room2 : length r2.incoming.buf + length r2.recv_buf + 1 ≤ incoming_cap =
        rw (buf_eq, recv_eq) room in
      let hash2 : r2.route_hash < 2 ^ 32 = rw (h2.hash_eq, h1.hash_eq) hash in
      let (after, more, here) = handle_data-Hears env n s r2 lt small room2 hash2 v2 in
      let path =
        read_datagram-data env conn addr b p r d.text d.is_data
        ∙ arrival_eq env s p r2 d.flags d.seq d.payload in
      rw path (after, λ i e. more i (Alike-has r1 r2 same2 i ∙ Alike-has r r1 same1 i ∙ e), here)
