-- ===== src/Reudp/Receive/Delivery/Loop.antt =====
-- The loop of `handleData` in internal/reudp/endpoint.go.
use runeverything.Base.Maps.{length-delete_lt, nat_eq}
use native.Mathlib.Nat.{add-zero, zero-add}
use runeverything.Base.Float64.{Float64}
use runeverything.Base.Maps.{lookup, lookup-delete}
use runeverything.Reudp.Endpoint.{Endpoint, Chan, incoming_cap, stream}
use runeverything.Reudp.Receive.{take_front, drain_one, drain, recv, recv_many, deliver}
use runeverything.Base.Bytes.{Bytes}
use runeverything.Base.{
  ℕ, zero, suc, ◌+◌, ◌%◌, ◌^◌, ◌≤◌, ◌<◌, ◌≡◌, refl, sym, ap, ◌∙◌, inl, inr, Bool, ◌||◌, none, some,
  List, [], ◌∷◌, ◌++◌, append-nil, append_assoc, arith, ltb, Option-cases, is_some, length,
  length-append,
}

take_front-stream :
    (taken buf : List Bytes)
    → (stream (take_front taken buf).0 ≡ taken ++ buf)
      × (length (take_front taken buf).0.buf ≤ length buf)
unfolding take_front
take_front-stream taken [] = (refl, omega arith)
take_front-stream taken (b ∷ rest) = (append_assoc taken (b ∷ []) rest, omega arith)

recv-stream : (c : Chan) → (stream (recv c).0 ≡ stream c) × (length (recv c).0.buf ≤ length c.buf)
unfolding recv
recv-stream c = take_front-stream c.taken c.buf

pub recv_many-stream :
    (k : ℕ) (c : Chan)
    → (stream (recv_many k c) ≡ stream c) × (length (recv_many k c).buf ≤ length c.buf)
unfolding recv_many
recv_many-stream zero c = ground arith
recv_many-stream (suc k) c = ground (arith, recv_many-stream k (recv c).0, recv-stream c)

-- With room in the channel a payload goes to the end of the stream, however much is read.
deliver-stream :
    (k : ℕ) (body : Bytes) (c : Chan)
    → length c.buf < incoming_cap
    → (stream (deliver k body c) ≡ stream c ++ (body ∷ []))
      × (length (deliver k body c).buf ≤ length c.buf + 1)
unfolding deliver
deliver-stream k body c room =
    let (same, shorter) = recv_many-stream k c in
    ground (
      arith,
      same,
      shorter,
      append_assoc (recv_many k c).taken (recv_many k c).buf (body ∷ []),
      length-append {A = Bytes} (recv_many k c).buf (body ∷ []),
    )

-- The payloads of `k` numbers from `n` on.
abbrev pub sent_from : (ℕ → Bytes) → ℕ → ℕ → List Bytes
sent_from msgs n zero = []
sent_from msgs n (suc k) = msgs n ∷ sent_from msgs (n + 1) k

pub sent_from-add :
    (msgs : ℕ → Bytes) (n j k : ℕ)
    → sent_from msgs n j ++ sent_from msgs (n + j) k ≡ sent_from msgs n (j + k)
sent_from-add msgs n zero k = rw (add-zero n, zero-add k)
sent_from-add msgs n (suc j) k =
    let at : n + suc j ≡ n + 1 + j = omega arith in
    let total : suc j + k ≡ suc (j + k) = omega arith in
    rw (at, total) (ap (◌∷◌ (msgs n)) (sent_from-add msgs (n + 1) j k))

-- Every payload in the buffer is the one that was sent under its number.
abbrev pub Stored : (ℕ → Bytes) → List (ℕ × Bytes) → Type 0
Stored msgs m = (s : ℕ) (b : Bytes) → lookup s m ≡ some b → b ≡ msgs s

lookup-empty : (k : ℕ) (m : List (ℕ × Bytes)) → length m ≤ 0 → lookup k m ≡ none
unfolding lookup
lookup-empty k [] h = refl
lookup-empty k (x ∷ m) h = absurd (omega arith)

module _ {F : Type 0} where
  -- The payload of that number has been received.
  unfoldable pub has : Endpoint F → ℕ → Bool
  has ep s = ltb s ep.next_expect || is_some (lookup s ep.recv_buf)

  -- What the loop makes of the state: it delivers `k` more payloads and stops at a missing one.
  pub record Drained (msgs : ℕ → Bytes) (ep ep' : Endpoint F) (k : ℕ) : Type 0 where
    pub counted : ep'.next_expect ≡ ep.next_expect + k
    pub streamed : stream ep'.incoming ≡ stream ep.incoming ++ sent_from msgs ep.next_expect k
    pub stored : Stored msgs ep'.recv_buf
    pub missing : lookup ep'.next_expect ep'.recv_buf ≡ none
    pub kept : (s : ℕ) → has ep' s ≡ has ep s

module _ {F : Type 0} ⦃fl : Float64 F⦄ (msgs : ℕ → Bytes) (reads : ℕ → ℕ) where
  has-drain_one :
      (k : ℕ) (ep : Endpoint F) {b : Bytes}
      → lookup ep.next_expect ep.recv_buf ≡ some b
      → ep.next_expect + 1 < 2 ^ 32
      → (s : ℕ) → has (drain_one k b ep) s ≡ has ep s
  unfolding has drain_one
  has-drain_one k ep e small s = ground (arith, lookup-delete ep.next_expect s ep.recv_buf)

  drain_one-Stored :
      (k : ℕ) (ep : Endpoint F) (b : Bytes)
      → Stored msgs ep.recv_buf
      → Stored msgs (drain_one k b ep).recv_buf
  unfolding drain_one
  drain_one-Stored k ep b st s b' e =
      ground (arith, lookup-delete ep.next_expect s ep.recv_buf, st s b')

  -- One round, followed by what the rest of the loop does.
  drain_one-Drained :
      (r k : ℕ) (ep : Endpoint F) {b : Bytes} (ep' : Endpoint F)
      → lookup ep.next_expect ep.recv_buf ≡ some b
      → b ≡ msgs ep.next_expect
      → ep.next_expect + 1 < 2 ^ 32
      → length ep.incoming.buf < incoming_cap
      → Drained msgs (drain_one r b ep) ep' k
      → Drained msgs ep ep' (suc k)
  unfolding drain_one
  drain_one-Drained r k ep {b} ep' e sent small room d = record {
    counted = omega (arith, d.counted);
    streamed =
        let next : (ep.next_expect + 1) % 2 ^ 32 ≡ ep.next_expect + 1 = omega arith in
        ground (
          arith,
          next,
          d.streamed,
          deliver-stream r b ep.incoming room,
          append_assoc (stream ep.incoming) (b ∷ []) (sent_from msgs (ep.next_expect + 1) k),
        );
    stored = d.stored;
    missing = d.missing;
    kept = λ s. d.kept s ∙ has-drain_one r ep e small s;
  }

  Drained-here :
      (ep : Endpoint F)
      → Stored msgs ep.recv_buf
      → lookup ep.next_expect ep.recv_buf ≡ none
      → Drained msgs ep ep 0
  Drained-here ep st e = record {
    counted = omega arith;
    streamed = sym (append-nil (stream ep.incoming));
    stored = st;
    missing = e;
    kept = λ s. refl;
  }

  pub drain-Drained :
      (fuel i : ℕ) (ep : Endpoint F)
      → Stored msgs ep.recv_buf
      → length ep.recv_buf ≤ fuel
      → length ep.incoming.buf + length ep.recv_buf ≤ incoming_cap
      → ep.next_expect + length ep.recv_buf < 2 ^ 32
      → (k : ℕ) × Drained msgs ep (drain fuel reads i ep) k
  unfolding drain
  drain-Drained zero i ep st enough room small =
      (0, Drained-here ep st (lookup-empty ep.next_expect ep.recv_buf enough))
  drain-Drained (suc fuel) i ep st enough room small =
      elim (Option-cases (lookup ep.next_expect ep.recv_buf)) [
        | inl e ↦ (0, rw (e, drain) (Drained-here ep st e))
        | inr (b, e) ↦
            let fewer = length-delete_lt ep.next_expect ep.recv_buf e in
            let one = deliver-stream (reads i) b ep.incoming (omega arith) in
            let ep1 = drain_one (reads i) b ep in
            let (k, d) =
              drain-Drained fuel (i + 1) ep1 (drain_one-Stored (reads i) ep b st)
                (unfold drain_one in omega arith) (unfold drain_one in omega (arith, one.1))
                (unfold drain_one in omega arith) in
            (
              suc k,
              rw (e, drain)
                  (drain_one-Drained (reads i) k ep _ e (st _ b e) (omega arith) (omega arith) d),
            )
      ]
