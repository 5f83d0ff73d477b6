-- ===== src/Reudp/Receive/Delivery/Runs.antt =====
-- Whole histories of an endpoint that receives: internal/reudp/endpoint.go, `handleData` and `Recv`.
use runeverything.Reudp.Receive.Frame.{send_ack-Same}
use runeverything.Reudp.Receive.Delivery.Loop.{Drained, sent_from, Stored, has, drain-Drained}
use runeverything.Reudp.Endpoint.Frame.{Same}
use runeverything.Reudp.Packet.{type_data, flag_reliable, Packet}
use runeverything.Reudp.Endpoint.{Endpoint, incoming_cap, no_ack, stream}
use runeverything.Reudp.Receive.{Env, drain_all, accept, handle_data}
use runeverything.Base.Bytes.{Bytes}
use runeverything.Base.Float64.{Float64}
use runeverything.Base.{
  ℕ, ◌+◌, ◌^◌, ◌≤◌, ◌<◌, ◌≡◌, sym, ap, ◌∙◌, inl, inr, true, ◌||◌, none, List, [], ◌∷◌, ◌++◌,
  append-nil, arith, ltb, ◌==◌, Bool-cases, length,
}
use runeverything.Base.Maps.{lookup, insert, lookup-insert, nat_eq}

length-insert : (k : ℕ) (b : Bytes) (m : List (ℕ × Bytes)) → length (insert k b m) ≤ length m + 1
unfolding insert
length-insert k b [] = omega arith
length-insert k b ((j, c) ∷ m) = ground (arith, length-insert k b m)

-- A reliable datagram with the payload that was sent under its number.
unfoldable pub arrival : (ℕ → Bytes) → ℕ → Packet
arrival msgs seq = record {
  type = type_data;
  flags = flag_reliable;
  route_hash = 0;
  seq = seq;
  ack = no_ack;
  payload = msgs seq;
}

module _ {F : Type 0} where
  -- One arrival: what it delivers, and what the endpoint has afterwards.
  pub record Arrived (msgs : ℕ → Bytes) (seq : ℕ) (ep ep' : Endpoint F) (k : ℕ) : Type 0 where
    pub counted : ep'.next_expect ≡ ep.next_expect + k
    pub streamed : stream ep'.incoming ≡ stream ep.incoming ++ sent_from msgs ep.next_expect k
    pub stored : Stored msgs ep'.recv_buf
    pub missing : lookup ep'.next_expect ep'.recv_buf ≡ none
    pub added : (s : ℕ) → has ep' s ≡ (seq == s || has ep s)

  Arrived-Same :
      (msgs : ℕ → Bytes) (seq k : ℕ) (ep a b : Endpoint F)
      → Same a b
      → Arrived msgs seq ep a k
      → Arrived msgs seq ep b k
  unfolding has
  Arrived-Same msgs seq k ep a b same v = record {
    counted = same.next_expect_eq ∙ v.counted;
    streamed = ap stream same.incoming_eq ∙ v.streamed;
    stored = rw same.recv_buf_eq v.stored;
    missing = rw (same.recv_buf_eq, same.next_expect_eq) v.missing;
    added = λ s. rw (same.recv_buf_eq, same.next_expect_eq) (v.added s);
  }

module _ {F : Type 0} ⦃fl : Float64 F⦄ (msgs : ℕ → Bytes) (env : Env) where
  -- The state in which the loop starts.
  stored_at : ℕ → Endpoint F → Endpoint F
  stored_at seq ep = record ep { recv_buf = insert seq (msgs seq) ep.recv_buf }

  stored_at-Stored :
      (seq : ℕ) (ep : Endpoint F)
      → Stored msgs ep.recv_buf
      → Stored msgs (stored_at seq ep).recv_buf
  unfolding stored_at
  stored_at-Stored seq ep st s b e =
      ground (arith, lookup-insert seq s (msgs seq) ep.recv_buf, st s b)

  stored_at-has :
      (seq : ℕ) (ep : Endpoint F) (s : ℕ) → has (stored_at seq ep) s ≡ (seq == s || has ep s)
  unfolding stored_at has
  stored_at-has seq ep s = ground (arith, lookup-insert seq s (msgs seq) ep.recv_buf)

  Drained-Arrived :
      (seq k : ℕ) (ep ep' : Endpoint F)
      → Drained msgs (stored_at seq ep) ep' k
      → Arrived msgs seq ep ep' k
  unfolding stored_at
  Drained-Arrived seq k ep ep' d = record {
    counted = d.counted;
    streamed = d.streamed;
    stored = d.stored;
    missing = d.missing;
    added = λ s. d.kept s ∙ stored_at-has seq ep s;
  }

  -- A number that was delivered before changes nothing.
  again_Arrived :
      (seq : ℕ) (ep : Endpoint F)
      → Stored msgs ep.recv_buf
      → lookup ep.next_expect ep.recv_buf ≡ none
      → ltb seq ep.next_expect ≡ true
      → Arrived msgs seq ep ep 0
  unfolding has
  again_Arrived seq ep st miss old = record {
    counted = omega arith;
    streamed = sym (append-nil (stream ep.incoming));
    stored = st;
    missing = miss;
    added = λ s. ground arith;
  }

  pub handle_data-Arrived :
      (seq : ℕ) (ep : Endpoint F)
      → Stored msgs ep.recv_buf
      → lookup ep.next_expect ep.recv_buf ≡ none
      → length ep.incoming.buf + length ep.recv_buf + 1 ≤ incoming_cap
      → ep.next_expect + length ep.recv_buf + 1 < 2 ^ 32
      → (k : ℕ) × Arrived msgs seq ep (handle_data env (arrival msgs seq) ep) k
  unfolding handle_data arrival accept drain_all stored_at
  handle_data-Arrived seq ep st miss room small = elim (Bool-cases (ltb seq ep.next_expect)) [
    | inl old ↦ (
      0,
      rw (old, handle_data)
          (Arrived-Same msgs seq 0 ep ep _ (send_ack-Same env _ ep)
            (again_Arrived seq ep st miss old)),
    )
    | inr new ↦
        let m = length-insert seq (msgs seq) ep.recv_buf in
        let (k, d) =
          drain-Drained msgs env.reads (length (stored_at seq ep).recv_buf) 0 (stored_at seq ep)
            (stored_at-Stored seq ep st) (omega arith) (omega arith) (omega arith) in
        (
          k,
          rw (new, handle_data)
              (Arrived-Same msgs seq k ep _ _ (send_ack-Same env _ _)
                (Drained-Arrived seq k ep _ d)),
        )
  ]
